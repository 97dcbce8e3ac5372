-- ===== src/StateMachine/Task.antt =====
-- The task of `start_state_machine` (src/state_machine.rs): a loop that feeds each input to the
-- machine and reports the new state, the output or the refusal to the manager.
pub mod Replies
use lgtv_manager.Prelude.{
  ℕ, ◌≡◌, Bool, true, false, if◌then◌else◌, Option, none, some, List, [], ◌∷◌, String, ◌<>◌, Result,
  ok, err,
}
use lgtv_manager.Prelude.Channel.{Channel, send, is_open}
use lgtv_manager.StateMachine.{State, Input, Output, initial_state, transition, output}

-- What the task uses of the crate `rust_fsm`, and the texts that `{:?}` derives. `consume` is given
-- the two functions of the machine; an error is its `{:?}` text.
pub record RustFsm : Type 0 where
  pub consume :
      (State → Input → Option State)
      → (State → Input → Option Output)
      → State
      → Input
      → Result (Option Output) String × State
  pub impossible : String
  pub debug_state : State → String
  pub debug_input : Input → String

-- What the crate documents of `consume`: it gives the output and moves, or, where there is no
-- transition, returns `TransitionImpossibleError` and stays.
pub record IsRustFsm (lib : RustFsm) : Type 0 where
  pub accepted :
      (move : State → Input → Option State) (reply : State → Input → Option Output) (s t : State)
      (i : Input)
      → move s i ≡ some t
      → lib.consume move reply s i ≡ (ok (reply s i), t)
  pub refused :
      (move : State → Input → Option State) (reply : State → Input → Option Output) (s : State)
      (i : Input)
      → move s i ≡ none
      → lib.consume move reply s i ≡ (err lib.impossible, s)

-- `enum StateMachineUpdateMessage`.
pub data StateMachineUpdateMessage : Type 0 where
  state_update : State → StateMachineUpdateMessage
  output_update : Output → StateMachineUpdateMessage
  transition_error : String → StateMachineUpdateMessage

-- The variables of the loop. `running` is false once it has been left by a `break`.
pub record FsmTask : Type 0 where
  pub state : State
  pub msg_tx : Channel StateMachineUpdateMessage
  pub running : Bool

-- What `select!` hands to the loop.
pub data TaskEvent : Type 0 where
  received : Input → TaskEvent
  cancelled : TaskEvent

-- `send_update`, with the `break` that follows its failure.
send_update : StateMachineUpdateMessage → FsmTask → FsmTask
unfolding send
send_update message t = record t { msg_tx = send message t.msg_tx; running = is_open t.msg_tx.room }

-- `if let Some(output) = fsm_output`.
send_output : Option Output → FsmTask → FsmTask
unfolding send_update
send_output none t = t
send_output (some o) t = send_update (output_update o) t

-- The two arms of `match fsm.consume(&input)`.
report : RustFsm → Input → Result (Option Output) String → FsmTask → FsmTask
unfolding send_update send_output
report lib i (ok fsm_output) t =
    let told = send_update (state_update t.state) t in
    if told.running then send_output fsm_output told else told
report lib i (err e) t =
    send_update
      (transition_error (
        "FSM transition error with Input ["
        <> lib.debug_input i
        <> "] while in State '"
        <> lib.debug_state t.state
        <> "': "
        <> e))
      t

-- One round of the loop, with `running` as its first argument: none is made after a `break`.
round : Bool → RustFsm → TaskEvent → FsmTask → FsmTask
unfolding report
round false lib _ t = t
round true lib cancelled t = record t { running = false }
round true lib (received i) t =
    let (result, s) = lib.consume transition output t.state i in
    report lib i result (record t { state = s })

unfoldable pub task_step : RustFsm → TaskEvent → FsmTask → FsmTask
unfolding round
task_step lib e t = round t.running lib e t

-- `start_state_machine`: a new machine with the channel to the manager.
unfoldable pub start_state_machine : Channel StateMachineUpdateMessage → FsmTask
start_state_machine msg_tx = record { state = initial_state; msg_tx = msg_tx; running = true }

unfoldable pub run_task : RustFsm → List TaskEvent → FsmTask → FsmTask
run_task lib [] t = t
run_task lib (e ∷ es) t = run_task lib es (task_step lib e t)
