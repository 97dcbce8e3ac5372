-- ===== src/System/Bounded/Refines.antt =====
-- Runs with channels of a capacity are runs with channels that take everything (src/lgtv_manager.rs and
-- src/state_machine.rs).
use lgtv_manager.Prelude.{
  ℕ, ◌+◌, ◌≤◌, ◌<◌, ◌≡◌, refl, sym, ap, ◌∙◌, subst, Bool, false, Option, List, [], ◌∷◌, ◌++◌,
  append_assoc, length, length-append, arith,
}
use lgtv_manager.Environment.{Env}
use lgtv_manager.StateMachine.{disconnected, Input, initial_state, transition}
use lgtv_manager.StateMachine.Paths as Paths
use lgtv_manager.StateMachine.Task.{
  RustFsm, IsRustFsm, StateMachineUpdateMessage, received, task_step, start_state_machine,
}
use lgtv_manager.StateMachine.Task.Replies.{replies_of}
use lgtv_manager.Manager.Messages.{ManagerMessage}
use lgtv_manager.Manager.MainLoop.{from_caller, from_fsm, step}
use lgtv_manager.Manager.Inputs.{Now, command_of-LeavesOut}
use lgtv_manager.System.{
  System, inputs, SystemStep, outside, machine_turn, manager_turn, started, Reach,
}
use lgtv_manager.System as System
use lgtv_manager.System.Reported.{reported}
use lgtv_manager.System.Turns.{
  InStep, heard, read_input, step-Now, outside-Now, started-InStep, turned, Reach-InStep,
}
use lgtv_manager.System.Bounded.{
  Bounded, inputs_sent, updates_sent, BoundedStep, takes, asks_end, ends, input_enters,
  update_enters, machine_reads, manager_reads, opened, BoundedReach, here, next,
}

-- A channel: what was read is a first part of what has entered, and no more than the capacity waits.
abbrev pub Holds : {A : Type 0} → ℕ → List A → List A → Type 0
Holds {A} capacity read entered =
    (waiting : List A) × (entered ≡ read ++ waiting) × (length waiting ≤ capacity)

module _ {A : Type 0} {capacity : ℕ} where
  Holds-enter :
      (x : A) (read entered : List A)
      → length entered < length read + capacity
      → Holds capacity read entered
      → Holds capacity read (entered ++ x ∷ [])
  Holds-enter x read entered room (waiting, e, fits) = (
    waiting ++ x ∷ [],
    ap (λ ys. ys ++ x ∷ []) e ∙ append_assoc read waiting (x ∷ []),
    omega (
      arith,
      ap length e,
      length-append read waiting,
      length-append waiting (x ∷ []),
      room,
      fits,
    ),
  )

  Holds-read :
      (x : A) (rest read entered : List A)
      → entered ≡ read ++ x ∷ rest
      → Holds capacity read entered
      → Holds capacity (read ++ x ∷ []) entered
  Holds-read x rest read entered e (waiting, f, fits) = (
    rest,
    e ∙ sym (append_assoc read (x ∷ []) rest),
    omega (
      arith,
      ap length e,
      ap length f,
      length-append read (x ∷ rest),
      length-append read waiting,
      fits,
    ),
  )

-- What may be read of a channel without a capacity.
pub queued :
    {A : Type 0} (x : A) (sent entered read rest left : List A)
    → sent ≡ entered ++ left
    → entered ≡ read ++ x ∷ rest
    → sent ≡ read ++ x ∷ (rest ++ left)
queued x sent entered read rest left e f =
    e ∙ ap (λ ys. ys ++ left) f ∙ append_assoc read (x ∷ rest) left

-- Both channels, between any two turns: the manager has sent what has entered and perhaps more, and
-- so has the state machine's task.
abbrev pub Entered : {E : Env} → ℕ → Bounded E → Type 0
Entered capacity s =
    Now (reported disconnected s.system.updates_read) s.inputs_in false s.system.loop.manager
    × ((left : List StateMachineUpdateMessage) × (updates_sent s ≡ s.updates_in ++ left))
    × Holds capacity s.system.inputs_read s.inputs_in
    × Holds capacity s.system.updates_read s.updates_in

opened-Entered :
    (E : Env) (capacity : ℕ) (out_room : Option ℕ) (disk : E.Disk) (checker : Bool)
    → Entered capacity (opened E out_room disk checker)
unfolding start_state_machine
opened-Entered E capacity out_room disk checker =
    let i = started-InStep out_room disk checker in
    (i.manager_keeps, ([], refl), ([], refl, omega arith), ([], refl, omega arith))

module _ {E : Env} (lib : RustFsm) (law : IsRustFsm lib) (capacity : ℕ) where
  -- What the state machine's task sends stands after what it had sent.
  updates_grow :
      (i : Input) (s : Bounded E)
      → InStep s.system
      → updates_sent s ≡ s.updates_in
      → (left : List StateMachineUpdateMessage) × ((task_step lib
            (received i)
            s.system.fsm).msg_tx.sent
          ≡ s.updates_in ++ left)
  updates_grow i s h idle =
      let now = Paths.run initial_state s.system.inputs_read in
      let replied = replies_of lib now i (transition now i) in
      (
        replied,
        ap (λ t. t.msg_tx.sent) (turned lib law i s.system h) ∙ ap (λ us. us ++ replied) idle,
      )

  step-Entered :
      {s t : Bounded E}
      → BoundedStep lib capacity s t
      → InStep s.system
      → Entered capacity s
      → Entered capacity t
  step-Entered {s} (takes e o n r c w) i (k, l, hi, hu) =
      (outside-Now e s.system.loop _ _ o k, l, hi, hu)
  step-Entered {s} (asks_end r c w) i h = h
  step-Entered {s} (ends r c w) i (k, l, hi, hu) =
      (outside-Now (from_caller ManagerMessage.shut_down) s.system.loop _ _ refl k, l, hi, hu)
  step-Entered {s} (input_enters x rest e room) i (k, l, hi, hu) = (
    record {
      same_status = k.same_status;
      has_sent = read_input s.inputs_in rest x s.system.loop.manager.to_fsm_tx k.has_sent e;
      same_view = refl;
      still_heard = λ q. cc;
    },
    l,
    Holds-enter x s.system.inputs_read s.inputs_in room hi,
    hu,
  )
  step-Entered {s} (update_enters u rest e room) i (k, l, hi, hu) = (
    k,
    (rest, e ∙ sym (append_assoc s.updates_in (u ∷ []) rest)),
    hi,
    Holds-enter u s.system.updates_read s.updates_in room hu,
  )
  step-Entered {s} (machine_reads x rest r w e) i (k, l, hi, hu) =
      (k, updates_grow x s i w, Holds-read x rest s.system.inputs_read s.inputs_in e hi, hu)
  step-Entered {s} (manager_reads u ticks rest r c w e) i (k, l, hi, hu) = (
    subst (λ t. Now t s.inputs_in false (step (from_fsm u ticks) s.system.loop).manager)
        (heard u ticks s.system.updates_read) (step-Now (from_fsm u ticks) s.system.loop _ _ r k),
    l,
    hi,
    Holds-read u rest s.system.updates_read s.updates_in e hu,
  )

  -- A turn is a turn of the two tasks, or none.
  erase-step :
      {a : System E} {s t : Bounded E}
      → BoundedStep lib capacity s t
      → Entered capacity s
      → Reach lib a s.system
      → Reach lib a t.system
  erase-step (takes e o n r c w) h q = System.next q (outside e o)
  erase-step (asks_end r c w) h q = q
  erase-step (ends r c w) h q = System.next q (outside (from_caller ManagerMessage.shut_down) refl)
  erase-step (input_enters x rest e room) h q = q
  erase-step (update_enters u rest e room) h q = q
  erase-step {s = s} (machine_reads x rest r w e) (k, l, hi, hu) q =
      let (left, sent) = k.has_sent in
      System.next q (
        machine_turn x (rest ++ left) r
          (queued x (inputs_sent s) s.inputs_in s.system.inputs_read rest left (ap inputs sent) e))
  erase-step {s = s} (manager_reads u ticks rest r c w e) (k, (left, sent), hi, hu) q =
      System.next q (
        manager_turn u ticks (rest ++ left) r
          (queued u (updates_sent s) s.updates_in s.system.updates_read rest left sent e))

  pub erased :
      (out_room : Option ℕ) (disk : E.Disk) (checker : Bool) {s : Bounded E}
      → BoundedReach lib capacity (opened E out_room disk checker) s
      → Reach lib (started E out_room disk checker) s.system × Entered capacity s
  erased out_room disk checker here = (System.here, opened-Entered E capacity out_room disk checker)
  erased out_room disk checker (next r st) =
      let (q, h) = erased out_room disk checker r in
      let i = Reach-InStep lib law q (started-InStep out_room disk checker) in
      (erase-step st h q, step-Entered st i h)

  -- With channels of any capacity: whatever the tasks come to, they also come to with channels that
  -- take everything. Each reader has read a first part of what has entered its channel, and no more
  -- than the capacity waits in it.
  pub bounded_run :
      (out_room : Option ℕ) (disk : E.Disk) (checker : Bool) {s : Bounded E}
      → BoundedReach lib capacity (opened E out_room disk checker) s
      → Reach lib (started E out_room disk checker) s.system
        × Holds capacity s.system.inputs_read s.inputs_in
        × Holds capacity s.system.updates_read s.updates_in
  bounded_run out_room disk checker r =
      let (q, (k, l, hi, hu)) = erased out_room disk checker r in (q, hi, hu)
