-- ===== src/System/Bounded.antt =====
-- The manager and the task of its state machine with channels of a capacity (`channel(32)` in `run` of
-- src/lgtv_manager.rs): a task that sends waits until there is room, and does nothing else meanwhile.
-- What a handler does besides sending counts as done when it begins.
pub mod Closing
pub mod Ends
pub mod Commands
pub mod Jams
pub mod Progress
pub mod Refines
pub mod Rooms
pub mod Settling
use lgtv_manager.Prelude.{ℕ, ◌+◌, ◌<◌, ◌≡◌, Bool, true, false, List, [], ◌∷◌, ◌++◌, length, Option}
use lgtv_manager.Environment.{Env}
use lgtv_manager.StateMachine.{Input}
use lgtv_manager.StateMachine.Task.{RustFsm, StateMachineUpdateMessage, received, task_step}
use lgtv_manager.Manager.Messages.{ManagerMessage}
use lgtv_manager.Manager.Orchestration.Reconnect.{Ticks}
use lgtv_manager.Manager.MainLoop.{Event, from_caller, from_fsm, step}
use lgtv_manager.Manager.Ending.{is_shut_down}
use lgtv_manager.System.{System, inputs, is_outside, started}

-- The capacity of both channels.
abbrev pub channel_capacity : ℕ
channel_capacity = 32

-- What has entered each channel is a first part of what was sent, and what was read a first part of
-- that. `closing`: a `ShutDown` has cancelled the state machine's task and awaits its end.
pub record Bounded (E : Env) : Type 0 where
  pub system : System E
  pub inputs_in : List Input
  pub updates_in : List StateMachineUpdateMessage
  pub closing : Bool

module _ {E : Env} where
  abbrev pub inputs_sent : Bounded E → List Input
  inputs_sent s = inputs s.system.loop.manager.to_fsm_tx

  abbrev pub updates_sent : Bounded E → List StateMachineUpdateMessage
  updates_sent s = s.system.fsm.msg_tx.sent

  -- The manager, or the state machine's task, is at its `select!`: all that it sent has entered.
  abbrev pub ManagerWaits : Bounded E → Type 0
  ManagerWaits s = inputs_sent s ≡ s.inputs_in

  abbrev pub MachineWaits : Bounded E → Type 0
  MachineWaits s = updates_sent s ≡ s.updates_in

-- One turn. A task sees that it is cancelled only at its `select!`.
pub data BoundedStep {E : Env} (lib : RustFsm) (capacity : ℕ) (s : Bounded E)
    : Bounded E → Type 0 where
  takes :
      (e : Event)
      → is_outside e ≡ true
      → is_shut_down e ≡ false
      → s.system.loop.running ≡ true
      → s.closing ≡ false
      → ManagerWaits s
      → BoundedStep lib capacity s
          (record s { system = record s.system { loop = step e s.system.loop } })
  asks_end :
      s.system.loop.running ≡ true
      → s.closing ≡ false
      → ManagerWaits s
      → BoundedStep lib capacity s (record s { closing = true })
  ends :
      s.system.loop.running ≡ true
      → s.closing ≡ true
      → MachineWaits s
      → BoundedStep lib capacity s (record s {
        system = record s.system {
          loop = step (from_caller ManagerMessage.shut_down) s.system.loop;
        };
      })
  input_enters :
      (i : Input) (rest : List Input)
      → inputs_sent s ≡ s.inputs_in ++ i ∷ rest
      → length s.inputs_in < length s.system.inputs_read + capacity
      → BoundedStep lib capacity s (record s { inputs_in = s.inputs_in ++ i ∷ [] })
  update_enters :
      (u : StateMachineUpdateMessage) (rest : List StateMachineUpdateMessage)
      → updates_sent s ≡ s.updates_in ++ u ∷ rest
      → length s.updates_in < length s.system.updates_read + capacity
      → BoundedStep lib capacity s (record s { updates_in = s.updates_in ++ u ∷ [] })
  machine_reads :
      (i : Input) (rest : List Input)
      → s.system.loop.running ≡ true
      → MachineWaits s
      → s.inputs_in ≡ s.system.inputs_read ++ i ∷ rest
      → BoundedStep lib capacity s (record s {
        system = record s.system {
          fsm = task_step lib (received i) s.system.fsm;
          inputs_read = s.system.inputs_read ++ i ∷ [];
        };
      })
  manager_reads :
      (u : StateMachineUpdateMessage) (ticks : Ticks) (rest : List StateMachineUpdateMessage)
      → s.system.loop.running ≡ true
      → s.closing ≡ false
      → ManagerWaits s
      → s.updates_in ≡ s.system.updates_read ++ u ∷ rest
      → BoundedStep lib capacity s (record s {
        system = record s.system {
          loop = step (from_fsm u ticks) s.system.loop;
          updates_read = s.system.updates_read ++ u ∷ [];
        };
      })

-- The system after `run` has come to its loop.
abbrev pub opened : (E : Env) → Option ℕ → E.Disk → Bool → Bounded E
opened E out_room disk checker = record {
  system = started E out_room disk checker;
  inputs_in = [];
  updates_in = [];
  closing = false;
}

pub data BoundedReach {E : Env} (lib : RustFsm) (capacity : ℕ) (s : Bounded E)
    : Bounded E → Type 0 where
  here : BoundedReach lib capacity s s
  next :
      {t u : Bounded E}
      → BoundedReach lib capacity s t
      → BoundedStep lib capacity t u
      → BoundedReach lib capacity s u
