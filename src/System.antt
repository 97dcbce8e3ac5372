-- ===== src/System.antt =====
-- The manager and the task of its state machine together, with the two channels between them
-- (`run` of src/lgtv_manager.rs and `start_state_machine` of src/state_machine.rs).
pub mod Bounded
pub mod Commands
pub mod Outputs
pub mod Registering
pub mod Reported
pub mod Settling
pub mod Status
pub mod Turns
use lgtv_manager.Prelude.{ℕ, ◌≡◌, Bool, true, false, Option, none, some, List, [], ◌∷◌, ◌++◌}
use lgtv_manager.Prelude.Channel.{Channel, channel}
use lgtv_manager.Environment.{Env}
use lgtv_manager.StateMachine.{Input}
use lgtv_manager.StateMachine.Task.{
  RustFsm, StateMachineUpdateMessage, FsmTask, received, task_step, start_state_machine,
}
use lgtv_manager.Manager.Orchestration.Reconnect.{Ticks}
use lgtv_manager.Manager.MainLoop.{Event, from_fsm, MainLoop, new, start, step}

-- Each channel holds what was sent over it; what its receiver has read is a first part of that.
pub record System (E : Env) : Type 0 where
  pub loop : MainLoop E
  pub fsm : FsmTask
  pub inputs_read : List Input
  pub updates_read : List StateMachineUpdateMessage

-- What was sent to the state machine.
abbrev pub inputs : Option (Channel Input) → List Input
inputs none = []
inputs (some tx) = tx.sent

-- An event that is not a message of the state machine.
abbrev pub is_outside : Event → Bool
is_outside (from_fsm _ _) = false
is_outside _ = true

-- One turn of one of the two tasks: an event from outside for the manager, or, until the manager's
-- loop has ended (it awaits the end of the state machine's task first), the next input for the state
-- machine or its next message for the manager.
pub data SystemStep {E : Env} (lib : RustFsm) (s : System E) : System E → Type 0 where
  outside : (e : Event) → is_outside e ≡ true → SystemStep lib s (record s { loop = step e s.loop })
  machine_turn :
      (i : Input) (rest : List Input)
      → s.loop.running ≡ true
      → inputs s.loop.manager.to_fsm_tx ≡ s.inputs_read ++ i ∷ rest
      → SystemStep lib s (record s {
        fsm = task_step lib (received i) s.fsm;
        inputs_read = s.inputs_read ++ i ∷ [];
      })
  manager_turn :
      (u : StateMachineUpdateMessage) (ticks : Ticks) (rest : List StateMachineUpdateMessage)
      → s.loop.running ≡ true
      → s.fsm.msg_tx.sent ≡ s.updates_read ++ u ∷ rest
      → SystemStep lib s (record s {
        loop = step (from_fsm u ticks) s.loop;
        updates_read = s.updates_read ++ u ∷ [];
      })

-- The system after `run` has come to its loop.
abbrev pub started : (E : Env) → Option ℕ → E.Disk → Bool → System E
started E out_room disk checker = record {
  loop = start none checker (new E out_room disk);
  fsm = start_state_machine (channel none);
  inputs_read = [];
  updates_read = [];
}

pub data Reach {E : Env} (lib : RustFsm) (s : System E) : System E → Type 0 where
  here : Reach lib s s
  next : {t u : System E} → Reach lib s t → SystemStep lib t u → Reach lib s u
