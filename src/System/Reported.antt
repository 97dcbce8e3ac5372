-- ===== src/System/Reported.antt =====
-- The states that the messages of the state machine report (src/state_machine.rs).
use lgtv_manager.Prelude.{◌≡◌, refl, Option, none, some, List, [], ◌∷◌, ◌++◌}
use lgtv_manager.StateMachine.{State, Input, Output, transition, output}
use lgtv_manager.StateMachine.Paths.{follow}
use lgtv_manager.StateMachine.Paths as Paths
use lgtv_manager.StateMachine.Task.{
  RustFsm, StateMachineUpdateMessage, state_update, output_update, transition_error,
}
use lgtv_manager.StateMachine.Task.Replies.{replies_of, output_reply}

-- The last state that the messages report, or the given one.
abbrev pub reported : State → List StateMachineUpdateMessage → State
reported s [] = s
reported s (state_update t ∷ us) = reported t us
reported s (_ ∷ us) = reported s us

pub reported-append :
    (s : State) (us vs : List StateMachineUpdateMessage)
    → reported s (us ++ vs) ≡ reported (reported s us) vs
reported-append s [] vs = refl
reported-append s (state_update t ∷ us) vs = reported-append t us vs
reported-append s (output_update o ∷ us) vs = reported-append s us vs
reported-append s (transition_error e ∷ us) vs = reported-append s us vs

pub run-append :
    (s : State) (xs ys : List Input) → Paths.run s (xs ++ ys) ≡ Paths.run (Paths.run s xs) ys
unfolding Paths.run
run-append s [] ys = refl
run-append s (x ∷ xs) ys = run-append (follow s (transition s x)) xs ys

reported-output : (s : State) (o : Option Output) → reported s (output_reply o) ≡ s
reported-output s none = refl
reported-output s (some o) = refl

pub reported-replies :
    (lib : RustFsm) (s : State) (i : Input) (to : Option State)
    → reported s (replies_of lib s i to) ≡ follow s to
reported-replies lib s i none = refl
reported-replies lib s i (some t) = reported-output t (output s i)
