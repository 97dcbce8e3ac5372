-- ===== src/System/Bounded/Settling.antt =====
-- A turn of the manager (src/lgtv_manager.rs) or of its state machine (src/state_machine.rs) that takes
-- nothing from outside lowers what waits in the two channels and before them.
use mathlib.Core.List.{append_cancel_left}
use lgtv_manager.Prelude.{
  ℕ, ◌+◌, ◌<◌, ◌≤◌, ◌≡◌, ◌⊎◌, refl, sym, ap, ◌∙◌, Bool, true, inl, inr, Option, List, [], ◌∷◌, ◌++◌,
  length, append_assoc, arith,
}
use lgtv_manager.Environment.{Env}
use lgtv_manager.StateMachine.{Input}
use lgtv_manager.StateMachine.Task.{RustFsm, IsRustFsm, StateMachineUpdateMessage}
use lgtv_manager.Manager.Ending.{step-shut_down}
use lgtv_manager.System.{inputs, machine_turn, manager_turn}
use lgtv_manager.System.Turns.{started-InStep, Reach-InStep}
use lgtv_manager.System.Settling.{Inner}
use lgtv_manager.System.Settling.Lower.{Waits, heavy, light, Inner-Less}
use lgtv_manager.System.Bounded.{
  Bounded, inputs_sent, updates_sent, BoundedStep, takes, asks_end, ends, input_enters,
  update_enters, machine_reads, manager_reads, opened, BoundedReach, next,
}
use lgtv_manager.System.Bounded.Refines.{erased, queued}
use lgtv_manager.System.Bounded.Progress.{is_inner}

-- What waits to be read, and what of it has not entered its channel yet.
pub record Stock {E : Env} (s : Bounded E) (xs left_xs : List Input)
    (us left_us : List StateMachineUpdateMessage) : Type 0 where
  waits : Waits s.system xs us
  inputs_left : inputs_sent s ≡ s.inputs_in ++ left_xs
  updates_left : updates_sent s ≡ s.updates_in ++ left_us

abbrev pub SomeStock : {E : Env} → Bounded E → Type 0
SomeStock s =
    (xs : List Input) × (left_xs : List Input) × (us : List StateMachineUpdateMessage)
    × (left_us : List StateMachineUpdateMessage) × Stock s xs left_xs us left_us

module _ {E : Env} (lib : RustFsm) (capacity : ℕ) where
  -- A turn that takes nothing from outside and after which the loop runs.
  abbrev pub Goes : Bounded E → Bounded E → Type 0
  Goes t s =
      (st : BoundedStep lib capacity s t) × (is_inner st ≡ true) × (t.system.loop.running ≡ true)

module _ {E : Env} (lib : RustFsm) (law : IsRustFsm lib) (capacity : ℕ) (out_room : Option ℕ)
    (disk : E.Disk) (checker : Bool) where
  abbrev Reached : Bounded E → Type 0
  Reached s = BoundedReach lib capacity (opened E out_room disk checker) s

  pub stock_of : {s : Bounded E} → Reached s → SomeStock s
  stock_of r =
      let (q, (k, (left_us, told), hi, hu)) = erased lib law capacity out_room disk checker r in
      let h = Reach-InStep lib law q (started-InStep out_room disk checker) in
      let (xs, sent) = h.manager_keeps.has_sent in
      let (us, all_told) = h.manager_read in
      let (left_xs, entered) = k.has_sent in
      (
        xs,
        left_xs,
        us,
        left_us,
        record {
          waits = record { to_machine = sent; to_manager = all_told };
          inputs_left = ap inputs entered;
          updates_left = told;
        },
      )

  -- What there is after a turn, and that it is less.
  abbrev pub Lower : Bounded E → ℕ → ℕ → ℕ → Type 0
  Lower t a b c =
      (xs : List Input) × (left_xs : List Input) × (us : List StateMachineUpdateMessage)
      × (left_us : List StateMachineUpdateMessage) × Stock t xs left_xs us left_us
      × ((heavy xs us < a)
          ⊎ ((heavy xs us ≤ a)
              × ((light xs us < b) ⊎ ((light xs us ≤ b) × (length left_xs + length left_us < c)))))

  read-Lower :
      {s t : Bounded E} (xs : List Input) (us : List StateMachineUpdateMessage) (c : ℕ)
      → Reached s
      → Reached t
      → Inner lib t.system s.system
      → Waits s.system xs us
      → Lower t (heavy xs us) (light xs us) c
  read-Lower xs us c r q turn w =
      let (z, e) = erased lib law capacity out_room disk checker r in
      let h = Reach-InStep lib law z (started-InStep out_room disk checker) in
      let (ys, vs, k, less) = Inner-Less lib law xs us turn h w in
      let (ys', left_ys, vs', left_vs, stock) = stock_of q in
      (
        ys,
        left_ys,
        vs,
        left_vs,
        record { waits = k; inputs_left = stock.inputs_left; updates_left = stock.updates_left },
        elim less [ inl l ↦ inl l | inr (m, l) ↦ inr (m, inl l) ],
      )

  pub Goes-Lower :
      {s t : Bounded E} (xs left_xs : List Input) (us left_us : List StateMachineUpdateMessage)
      → Reached s
      → Goes lib capacity t s
      → Stock s xs left_xs us left_us
      → Lower t (heavy xs us) (light xs us) (length left_xs + length left_us)
  Goes-Lower xs lx us lu r (takes e o n ru c w, inner, on) k = cc
  Goes-Lower xs lx us lu r (asks_end ru c w, inner, on) k = cc
  Goes-Lower {s} xs lx us lu r (ends ru c w, inner, on) k =
      cc (ap (λ l. l.running) (step-shut_down s.system.loop ru), on)
  Goes-Lower {s} xs lx us lu r (input_enters x rest e room, inner, on) k = (
    xs,
    rest,
    us,
    lu,
    record {
      waits = k.waits;
      inputs_left = e ∙ sym (append_assoc s.inputs_in (x ∷ []) rest);
      updates_left = k.updates_left;
    },
    inr (
      omega arith,
      inr (
        omega arith,
        omega (
          arith,
          ap length (append_cancel_left s.inputs_in lx (x ∷ rest) (sym k.inputs_left ∙ e)),
        ),
      ),
    ),
  )
  Goes-Lower {s} xs lx us lu r (update_enters u rest e room, inner, on) k = (
    xs,
    lx,
    us,
    rest,
    record {
      waits = k.waits;
      inputs_left = k.inputs_left;
      updates_left = e ∙ sym (append_assoc s.updates_in (u ∷ []) rest);
    },
    inr (
      omega arith,
      inr (
        omega arith,
        omega (
          arith,
          ap length (append_cancel_left s.updates_in lu (u ∷ rest) (sym k.updates_left ∙ e)),
        ),
      ),
    ),
  )
  Goes-Lower {s} xs lx us lu r (machine_reads x rest ru w e, inner, on) k =
      read-Lower xs us (length lx + length lu) r (next r (machine_reads x rest ru w e))
        (
          machine_turn x (rest ++ lx) ru
              (queued x (inputs_sent s) s.inputs_in s.system.inputs_read rest lx k.inputs_left e),
          refl,
        )
        k.waits
  Goes-Lower {s} xs lx us lu r (manager_reads u ticks rest ru c w e, inner, on) k =
      read-Lower xs us (length lx + length lu) r (next r (manager_reads u ticks rest ru c w e))
        (
          manager_turn u ticks (rest ++ lu) ru (
              queued u (updates_sent s) s.updates_in s.system.updates_read rest lu k.updates_left
                e),
          refl,
        )
        k.waits
