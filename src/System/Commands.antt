-- ===== src/System/Commands.antt =====
-- The way of a caller's command through the manager (src/lgtv_manager.rs) and its state machine
-- (src/state_machine.rs).
use lgtv_manager.Prelude.{
  ℕ, ◌≡◌, ◌⊎◌, refl, sym, ap, ◌∙◌, subst, Bool, Bool-cases, inl, inr, if◌then◌else◌, Option, List,
  [], ◌∷◌, ◌++◌, append_assoc, arith,
}
use lgtv_manager.Prelude.Subseq.{
  Subseq, done, nil-Subseq, Subseq-refl, Subseq-both, Subseq-append, Subseq-trans,
}
use lgtv_manager.Environment.{Env}
use lgtv_manager.TvCommand.{TvCommand}
use lgtv_manager.StateMachine.{
  State, communicating, Input, send_command, initial_state, transition, output, forward_command,
}
use lgtv_manager.StateMachine.Paths.{follow}
use lgtv_manager.StateMachine.Paths as Paths
use lgtv_manager.StateMachine.Task.{
  RustFsm, IsRustFsm, StateMachineUpdateMessage, output_update, start_state_machine,
}
use lgtv_manager.StateMachine.Task.Replies.{replies_of}
use lgtv_manager.Manager.MainLoop.{from_fsm, step}
use lgtv_manager.Manager.Inputs.{
  commands_in, all_from-append, command_of, commands_sent, command_of-LeavesOut,
}
use lgtv_manager.Manager.Inputs.Handled.{given}
use lgtv_manager.System.{System, outside, machine_turn, manager_turn, started, Reach, here, next}
use lgtv_manager.System.Turns.{first-tx, InStep, step-Keeps, turned, started-InStep, Reach-InStep}

-- The commands that the messages of the state machine tell the manager to forward to the TV.
abbrev pub forwarded : List StateMachineUpdateMessage → List TvCommand
forwarded [] = []
forwarded (output_update (forward_command c) ∷ us) = c ∷ forwarded us
forwarded (_ ∷ us) = forwarded us

forwarded-append :
    (us vs : List StateMachineUpdateMessage) → forwarded (us ++ vs) ≡ forwarded us ++ forwarded vs
forwarded-append [] vs = refl
forwarded-append (u ∷ us) vs = ground (arith, forwarded-append us vs)

-- The commands among the inputs that come in the communicating state.
abbrev served : State → Input → List TvCommand
served (communicating url) (send_command c) = c ∷ []
served _ _ = []

abbrev pub all_served : State → List Input → List TvCommand
all_served s [] = []
all_served s (i ∷ is) = served s i ++ all_served (follow s (transition s i)) is

all_served-append :
    (s : State) (is js : List Input)
    → all_served s (is ++ js) ≡ all_served s is ++ all_served (Paths.run s is) js
unfolding Paths.run
all_served-append s [] js = refl
all_served-append s (i ∷ is) js = ground (
  arith,
  all_served-append (follow s (transition s i)) is js,
  append_assoc (served s i) (all_served (follow s (transition s i)) is)
      (all_served (Paths.run (follow s (transition s i)) is) js),
)

forwarded-replies :
    (lib : RustFsm) (s : State) (i : Input)
    → forwarded (replies_of lib s i (transition s i)) ≡ served s i
unfolding transition output
forwarded-replies lib s i = ground arith

served-cases : (s : State) (i : Input) → (served s i ≡ []) ⊎ (served s i ≡ commands_in (i ∷ []))
served-cases s i = ground arith

one-Subseq : (s : State) (i : Input) → Subseq (served s i) (commands_in (i ∷ []))
one-Subseq s i = elim (served-cases s i) [
  | inl none_served ↦
      subst (λ cs. Subseq cs (commands_in (i ∷ []))) (sym none_served)
        (nil-Subseq (commands_in (i ∷ [])))
  | inr same ↦
      subst (λ cs. Subseq cs (commands_in (i ∷ []))) (sym same) (Subseq-refl (commands_in (i ∷ [])))
]

served-Subseq : (s : State) (is : List Input) → Subseq (all_served s is) (commands_in is)
served-Subseq s [] = done
served-Subseq s (i ∷ is) =
    subst (Subseq (all_served s (i ∷ is))) (sym (all_from-append command_of (i ∷ []) is))
      (Subseq-both (one-Subseq s i) (served-Subseq (follow s (transition s i)) is))

module _ {E : Env} (lib : RustFsm) where
  -- The caller's commands that the manager's loop took in a run, in their order.
  abbrev pub commands_taken : {s t : System E} → Reach lib s t → List TvCommand
  commands_taken here = []
  commands_taken (next {t = t} r (outside e o)) =
      let before = commands_taken r in if t.loop.running then given e before else before
  commands_taken (next r (machine_turn i rest runs queued)) = commands_taken r
  commands_taken (next r (manager_turn u ticks rest runs queued)) = commands_taken r

module _ {E : Env} (lib : RustFsm) (law : IsRustFsm lib) (out_room : Option ℕ) (disk : E.Disk)
    (checker : Bool) where
  in_step : {s : System E} → Reach lib (started E out_room disk checker) s → InStep s
  in_step r = Reach-InStep lib law r (started-InStep out_room disk checker)

  sent-commands_taken :
      {s : System E} (r : Reach lib (started E out_room disk checker) s)
      → commands_sent s.loop.manager.to_fsm_tx ≡ commands_taken lib r
  unfolding step
  sent-commands_taken here = ap commands_sent (first-tx E out_room disk checker).1
  sent-commands_taken (next {t = t} r (outside e o)) = elim (Bool-cases t.loop.running) [
    | inl on ↦ ground (
      arith,
      on,
      sent-commands_taken r,
      (step-Keeps e t.loop _ _ on (in_step r).manager_keeps).same_view,
    )
    | inr off ↦ ground (arith, off, sent-commands_taken r)
  ]
  sent-commands_taken (next r (machine_turn i rest runs queued)) = sent-commands_taken r
  sent-commands_taken (next {t = t} r (manager_turn u ticks rest runs queued)) =
      (step-Keeps (from_fsm u ticks) t.loop _ _ runs (in_step r).manager_keeps).same_view
      ∙ sent-commands_taken r

  forwarded-all_served :
      {s : System E}
      → Reach lib (started E out_room disk checker) s
      → forwarded s.fsm.msg_tx.sent ≡ all_served initial_state s.inputs_read
  unfolding start_state_machine
  forwarded-all_served here = refl
  forwarded-all_served (next r (outside e o)) = forwarded-all_served r
  forwarded-all_served (next {t = t} r (machine_turn i rest runs queued)) =
      let now = Paths.run initial_state t.inputs_read in
      let replied = replies_of lib now i (transition now i) in
      ap (λ f. forwarded f.msg_tx.sent) (turned lib law i t (in_step r))
      ∙ forwarded-append t.fsm.msg_tx.sent replied
      ∙ ground (
        arith,
        forwarded-all_served r,
        forwarded-replies lib now i,
        all_served-append initial_state t.inputs_read (i ∷ []),
      )
  forwarded-all_served (next r (manager_turn u ticks rest runs queued)) = forwarded-all_served r

  -- Whatever the caller, the socket, the network and the clock do, and in whatever order the two
  -- tasks take their turns: the commands among the inputs of the state machine are the caller's that
  -- the loop took, in their order; those that the state machine gives back to be forwarded to the TV
  -- are the ones that it read while it was communicating; and those that the manager has read to be
  -- forwarded can be had from the caller's by leaving some out, so that none is made up, doubled or
  -- overtaken.
  pub commands_pass :
      {s : System E} (r : Reach lib (started E out_room disk checker) s)
      → (commands_sent s.loop.manager.to_fsm_tx ≡ commands_taken lib r)
        × (forwarded s.fsm.msg_tx.sent ≡ all_served initial_state s.inputs_read)
        × Subseq (forwarded s.updates_read) (commands_taken lib r)
  commands_pass {s} r =
      let (unread, updates) = (in_step r).manager_read in
      let (queued, sent) = (in_step r).manager_keeps.has_sent in
      (
        sent-commands_taken r,
        forwarded-all_served r,
        subst (Subseq (forwarded s.updates_read))
            (sym (all_from-append command_of s.inputs_read queued)
              ∙ sym (ap commands_sent sent)
              ∙ sent-commands_taken r)
            (Subseq-trans (Subseq-append (commands_in s.inputs_read) (commands_in queued)) (
              Subseq-trans (served-Subseq initial_state s.inputs_read) (
                subst (Subseq (forwarded s.updates_read))
                  (sym (forwarded-append s.updates_read unread)
                    ∙ sym (ap forwarded updates)
                    ∙ forwarded-all_served r)
                  (Subseq-append (forwarded s.updates_read) (forwarded unread))))),
      )
