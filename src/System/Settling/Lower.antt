-- ===== src/System/Settling/Lower.antt =====
-- An inner turn of the manager (src/lgtv_manager.rs) or of its state machine (src/state_machine.rs)
-- lowers what waits in the two channels.
use mathlib.Core.List.{append_cancel_left}
use lgtv_manager.Prelude.{
  ℕ, ◌+◌, ◌≤◌, ◌<◌, ◌≡◌, ◌⊎◌, sym, ap, ◌∙◌, true, Bool-cases, inl, inr, none, some, List, [], ◌∷◌,
  ◌++◌, length, length-append, append_assoc, arith,
}
use lgtv_manager.Environment.{Env}
use lgtv_manager.StateMachine.{Input, initial_state, transition}
use lgtv_manager.StateMachine.Paths as Paths
use lgtv_manager.StateMachine.Task.{RustFsm, IsRustFsm, StateMachineUpdateMessage}
use lgtv_manager.StateMachine.Task.Replies.{replies_of}
use lgtv_manager.Manager.MainLoop.{MainLoop, from_fsm, step, handle}
use lgtv_manager.Manager.Orchestration.Reconnect.{Ticks}
use lgtv_manager.Manager.Handlers.Machine.{handle_update}
use lgtv_manager.System.{System, inputs, outside, machine_turn, manager_turn}
use lgtv_manager.System.Turns.{InStep, turned}
use lgtv_manager.System.Settling.Weights.{
  weighty, is_acting, acting, acting-append, acting-replies, length-replies, calm_update,
  acting_update, one_if,
}
use lgtv_manager.Manager.Inputs.{all_from}
use lgtv_manager.System.Settling.{Inner}

-- What waits in the two channels.
pub record Waits {E : Env} (s : System E) (to_read : List Input)
    (to_handle : List StateMachineUpdateMessage) : Type 0 where
  pub to_machine :
      s.loop.manager.to_fsm_tx ≡ some (record { sent = s.inputs_read ++ to_read; room = none })
  pub to_manager : s.fsm.msg_tx.sent ≡ s.updates_read ++ to_handle

-- No turn adds to the first; a turn that does not take from the first takes from the second.
abbrev pub heavy : List Input → List StateMachineUpdateMessage → ℕ
heavy to_read to_handle =
    length (all_from weighty to_read) + length (all_from weighty to_read) + acting to_handle

abbrev pub light : List Input → List StateMachineUpdateMessage → ℕ
light to_read to_handle = length to_read + length to_read + length to_read + length to_handle

-- What waits after a turn, and that it is less.
abbrev pub Less : {E : Env} → System E → ℕ → ℕ → Type 0
Less t a b =
    (xs : List Input) × (us : List StateMachineUpdateMessage) × Waits t xs us
    × ((heavy xs us < a) ⊎ ((heavy xs us ≤ a) × (light xs us < b)))

module _ {E : Env} where
  step_update :
      (u : StateMachineUpdateMessage) (ticks : Ticks) (l : MainLoop E)
      → l.running ≡ true
      → (step (from_fsm u ticks) l).manager ≡ handle_update u ticks l.manager
  unfolding step handle
  step_update u ticks l r = ground (arith, r)

  -- A turn of the manager.
  manager-Less :
      (s : System E) (u : StateMachineUpdateMessage) (ticks : Ticks) (xs : List Input)
      (us rest : List StateMachineUpdateMessage)
      → s.loop.running ≡ true
      → us ≡ u ∷ rest
      → Waits s xs us
      → Less
          (record s {
            loop = step (from_fsm u ticks) s.loop;
            updates_read = s.updates_read ++ u ∷ [];
          })
          (heavy xs us)
          (light xs us)
  manager-Less s u ticks xs us rest r same w =
      let told : s.fsm.msg_tx.sent ≡ (s.updates_read ++ u ∷ []) ++ rest =
        w.to_manager
        ∙ ap (λ vs. s.updates_read ++ vs) same
        ∙ sym (append_assoc s.updates_read (u ∷ []) rest) in
      let done = ap (λ m. m.to_fsm_tx) (step_update u ticks s.loop r) in
      elim (Bool-cases (is_acting u)) [
        | inl acts ↦
            let (more, sent, fewer) =
              acting_update u ticks s.loop.manager s.inputs_read xs acts w.to_machine in
            (
              more,
              rest,
              record { to_machine = done ∙ sent; to_manager = told },
              inl (omega (arith, fewer, ap acting same, ap one_if acts)),
            )
        | inr calm ↦ (
          xs,
          rest,
          record {
            to_machine = done ∙ calm_update u ticks s.loop.manager calm ∙ w.to_machine;
            to_manager = told;
          },
          inr (omega (arith, ap acting same, ap one_if calm), omega (arith, ap length same)),
        )
      ]

module _ {E : Env} (lib : RustFsm) (law : IsRustFsm lib) where
  pub Inner-Less :
      {s t : System E} (xs : List Input) (us : List StateMachineUpdateMessage)
      → Inner lib t s
      → InStep s
      → Waits s xs us
      → Less t (heavy xs us) (light xs us)
  Inner-Less xs us (outside e o, inner) h w = cc
  Inner-Less {s} xs us (machine_turn i rest runs queued, inner) h w =
      let now = Paths.run initial_state s.inputs_read in
      let replied = replies_of lib now i (transition now i) in
      let same : xs ≡ i ∷ rest =
        append_cancel_left s.inputs_read xs (i ∷ rest) (sym (ap inputs w.to_machine) ∙ queued) in
      (
        rest,
        us ++ replied,
        record {
          to_machine =
              w.to_machine
              ∙ ap (λ ys. some (record { sent = ys; room = none }))
                  (ap (λ ys. s.inputs_read ++ ys) same
                    ∙ sym (append_assoc s.inputs_read (i ∷ []) rest));
          to_manager =
              ap (λ f. f.msg_tx.sent) (turned lib law i s h)
              ∙ ap (λ vs. vs ++ replied) w.to_manager
              ∙ append_assoc s.updates_read us replied;
        },
        inr (
          omega (
            arith,
            ap (λ ys. length (all_from weighty ys)) same,
            acting-append us replied,
            acting-replies lib now i,
            length-append (weighty i) (all_from weighty rest),
          ),
          omega (arith, ap length same, length-append us replied, length-replies lib now i),
        ),
      )
  Inner-Less {s} xs us (manager_turn u ticks rest runs queued, inner) h w =
      manager-Less s u ticks xs us rest runs
        (append_cancel_left s.updates_read us (u ∷ rest) (sym w.to_manager ∙ queued)) w
