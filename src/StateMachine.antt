-- ===== src/StateMachine.antt =====
-- The state machine of a connection (src/state_machine.rs): states, inputs, outputs and the two
-- functions of `impl StateMachineImpl for LgTvStateMachine`.
pub mod Task
pub mod Diagram
pub mod Paths
use lgtv_manager.Prelude.{ℕ, String, Option, none, some}
use lgtv_manager.TvCommand.{TvCommand}

-- `struct ReconnectDetails`.
pub record ReconnectDetails : Type 0 where
  pub url : String
  pub attempts : ℕ
  pub next_attempt_ms : ℕ

-- `enum State`, which the manager's callers know as `ManagerStatus`.
pub data State : Type 0 where
  disconnected : State
  connecting : String → State
  connected : String → State
  pairing : String → State
  initializing : String → State
  communicating : String → State
  disconnecting : String → State
  waiting_to_reconnect : ReconnectDetails → State
  zombie : State

-- `enum Input`.
pub data Input : Type 0 where
  connect : String → Input
  attempt_register : Input
  pair : Input
  initialize : Input
  start_communication : Input
  send_command : TvCommand → Input
  reset : Input
  error : Input
  disconnect : Input
  disconnection_complete : Input

-- `enum Output`.
pub data Output : Type 0 where
  connect_to_tv : String → Output
  send_register_payload : Output
  pair_with_tv : Output
  initialize_connection : Output
  forward_command : TvCommand → Output
  disconnect_from_tv : Output
  handle_connect_error : Output
  handle_disconnect_error : Output
  handle_successful_disconnect : Output

-- `INITIAL_STATE`.
abbrev pub initial_state : State
initial_state = disconnected

-- `fn transition`.
unfoldable pub transition : State → Input → Option State
transition disconnected (connect url) = some (connecting url)
transition disconnected reset = some disconnected
transition (connecting url) attempt_register = some (connected url)
transition (connecting _) reset = some disconnected
transition (connecting _) error = some disconnected
transition (connected url) pair = some (pairing url)
transition (connected url) initialize = some (initializing url)
transition (connected _) reset = some disconnected
transition (connected url) error = some (disconnecting url)
transition (pairing url) initialize = some (initializing url)
transition (pairing _) reset = some disconnected
transition (pairing url) error = some (disconnecting url)
transition (initializing url) start_communication = some (communicating url)
transition (initializing _) reset = some disconnected
transition (initializing url) error = some (disconnecting url)
transition (communicating url) (send_command _) = some (communicating url)
transition (communicating url) disconnect = some (disconnecting url)
transition (communicating _) reset = some disconnected
transition (communicating url) error = some (disconnecting url)
transition (disconnecting _) disconnection_complete = some disconnected
transition (disconnecting _) reset = some disconnected
transition (disconnecting _) error = some disconnected
transition _ _ = none

-- `fn output`.
unfoldable pub output : State → Input → Option Output
output disconnected (connect host) = some (connect_to_tv host)
output (connecting _) attempt_register = some send_register_payload
output (connecting _) error = some handle_connect_error
output (connected _) pair = some pair_with_tv
output (connected _) initialize = some initialize_connection
output (connected _) error = some disconnect_from_tv
output (pairing _) initialize = some initialize_connection
output (pairing _) error = some disconnect_from_tv
output (initializing _) error = some disconnect_from_tv
output (communicating _) (send_command command) = some (forward_command command)
output (communicating _) disconnect = some disconnect_from_tv
output (communicating _) error = some disconnect_from_tv
output (disconnecting _) disconnection_complete = some handle_successful_disconnect
output (disconnecting _) error = some handle_disconnect_error
output _ _ = none
