-- ===== src/System/Bounded/Closing.antt =====
-- The end of the manager's loop (`ManagerMessage::ShutDown` in `run` of src/lgtv_manager.rs), which
-- awaits the end of the state machine's task.
use lgtv_manager.Prelude.{
  ℕ, ◌+◌, ◌<◌, ◌≤◌, ◌≡◌, ◌↔◌, refl, sym, ap, ◌∙◌, Bool, true, false, Option, List, [], ◌∷◌, ◌++◌,
  append-nil, append_assoc, length, length-append, arith,
}
use native.Mathlib.Decide.{dec_lt}
use lgtv_manager.Environment.{Env}
use lgtv_manager.StateMachine.Task.{RustFsm, IsRustFsm, StateMachineUpdateMessage}
use lgtv_manager.Manager.Messages.{ManagerMessage}
use lgtv_manager.Manager.MainLoop.{from_caller}
use lgtv_manager.Manager.Ending.{step-ends}
use lgtv_manager.System.Bounded.{
  Bounded, updates_sent, BoundedStep, takes, asks_end, ends, input_enters, update_enters,
  machine_reads, manager_reads, opened, BoundedReach, here, next,
}
use lgtv_manager.System.Bounded.Refines.{erased}

module _ {E : Env} (lib : RustFsm) (capacity : ℕ) where
  -- The task of the state machine has more to send than will ever fit.
  record Late (s : Bounded E) : Type 0 where
    still_runs : s.system.loop.running ≡ true
    awaits : s.closing ≡ true
    too_many : length s.system.updates_read + capacity < length (updates_sent s)
    fits : length s.updates_in ≤ length s.system.updates_read + capacity

  step-Late : {s t : Bounded E} → BoundedStep lib capacity s t → Late s → Late t
  step-Late (takes e o n r c w) h = cc
  step-Late (asks_end r c w) h = cc
  step-Late (ends r c w) h = absurd (omega (arith, ap length w, h.too_many, h.fits))
  step-Late (input_enters x rest e room) h = record {
    still_runs = h.still_runs;
    awaits = h.awaits;
    too_many = h.too_many;
    fits = h.fits;
  }
  step-Late {s} (update_enters u rest e room) h = record {
    still_runs = h.still_runs;
    awaits = h.awaits;
    too_many = h.too_many;
    fits = omega (arith, length-append s.updates_in (u ∷ []), room);
  }
  step-Late (machine_reads x rest r w e) h = absurd (omega (arith, ap length w, h.too_many, h.fits))
  step-Late (manager_reads u ticks rest r c w e) h = cc

  reach-Late : {s t : Bounded E} → BoundedReach lib capacity s t → Late s → Late t
  reach-Late here h = h
  reach-Late (next r st) h = step-Late st (reach-Late r h)

  -- What is left to send enters, if it fits, and then the loop ends.
  enters_and_ends :
      {s : Bounded E} (left : List StateMachineUpdateMessage) (t : Bounded E)
      → BoundedReach lib capacity s t
      → updates_sent t ≡ t.updates_in ++ left
      → length (updates_sent t) ≤ length t.system.updates_read + capacity
      → t.system.loop.running ≡ true
      → t.closing ≡ true
      → (u : Bounded E) × BoundedReach lib capacity s u × (u.system.loop.running ≡ false)
  enters_and_ends [] t reach e fits r c = (
    _,
    next reach (ends r c (e ∙ append-nil t.updates_in)),
    step-ends (from_caller ManagerMessage.shut_down) t.system.loop refl r,
  )
  enters_and_ends (u ∷ left) t reach e fits r c =
      enters_and_ends left (record t { updates_in = t.updates_in ++ u ∷ [] })
        (next reach (
          update_enters u left e
            (omega (arith, ap length e, length-append t.updates_in (u ∷ left), fits))))
        (e ∙ sym (append_assoc t.updates_in (u ∷ []) left)) fits r c

module _ {E : Env} (lib : RustFsm) (law : IsRustFsm lib) (capacity : ℕ) where
  -- At any moment of any run at which a request to shut down awaits the end of the state machine, with
  -- channels of any capacity: the manager's loop can still end exactly if all that the state machine
  -- has sent and the manager has not read fits into the channel. If it does not, the loop never ends.
  pub shut_down_ends_iff :
      (out_room : Option ℕ) (disk : E.Disk) (checker : Bool) {s : Bounded E}
      → BoundedReach lib capacity (opened E out_room disk checker) s
      → s.system.loop.running ≡ true
      → s.closing ≡ true
      → ((t : Bounded E) × BoundedReach lib capacity s t × (t.system.loop.running ≡ false))
        ↔ (length (updates_sent s) ≤ length s.system.updates_read + capacity)
  shut_down_ends_iff out_room disk checker {s} reach r c =
      let (q, (k, (left, sent), hi, (waiting, f, room))) =
        erased lib law capacity out_room disk checker reach in
      (
        λ (t, on, off).
            elim (dec_lt (length s.system.updates_read + capacity) (length (updates_sent s))) [
              | yes more ↦
                  let late : Late lib capacity s = record {
                    still_runs = r;
                    awaits = c;
                    too_many = more;
                    fits =
                        omega
                          (arith, ap length f, length-append s.system.updates_read waiting, room);
                  } in
                  absurd (cc (off, (reach-Late lib capacity on late).still_runs))
              | no few ↦ omega (arith, few)
            ],
        λ fits. enters_and_ends lib capacity left s here sent fits r c,
      )
