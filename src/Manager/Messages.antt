-- ===== src/Manager/Messages.antt =====
-- The messages between the manager, its caller and the WebSocket handler: the enums of
-- src/lgtv_manager.rs, src/state.rs and src/websocket_client.rs. `MacAddr` stands for the type of
-- the crate macaddr.
use lgtv_manager.Prelude.{Bool, true, false, Option, List, String, str_eq, ◌==◌, ◌&&◌}
use lgtv_manager.Connection.{Connection, LgTvDevice}
use lgtv_manager.TvCommand.{TvCommand}
use lgtv_manager.StateMachine.{State}
use lgtv_manager.Ssap.{CurrentSwInfoPayload, ExternalInput, TvInfo, TvState}

-- `enum ManagerMessage`.
pub data ManagerMessage : Type 0 where
  cancel_reconnect : ManagerMessage
  connect : Connection → ManagerMessage
  connect_last_good_connection : ManagerMessage
  disconnect : ManagerMessage
  discover : ManagerMessage
  emit_all_state : ManagerMessage
  send_tv_command : TvCommand → ManagerMessage
  shut_down : ManagerMessage
  test_connection : ManagerMessage
  test_tv_on_network : ManagerMessage
  wake_last_seen_tv : ManagerMessage

-- `enum ManagerError`.
pub data ManagerError : Type 0 where
  action : String → ManagerError
  connection : String → ManagerError
  discovery : String → ManagerError
  fatal : String → ManagerError
  pair : String → ManagerError

-- `enum TestStatus`.
pub data TestStatus : Type 0 where
  unknown in_progress passed failed : TestStatus

-- `enum ReconnectFlowStatus`.
pub data ReconnectFlowStatus : Type 0 where
  active cancelled inactive waiting_for_tv_on_network : ReconnectFlowStatus

-- The derived `==` of `ReconnectFlowStatus`.
abbrev pub flow_eq : ReconnectFlowStatus → ReconnectFlowStatus → Bool
flow_eq active active = true
flow_eq cancelled cancelled = true
flow_eq inactive inactive = true
flow_eq waiting_for_tv_on_network waiting_for_tv_on_network = true
flow_eq _ _ = false

-- The derived `==` of `State`.
unfoldable pub state_eq : State → State → Bool
state_eq State.disconnected State.disconnected = true
state_eq (State.connecting u) (State.connecting v) = str_eq u v
state_eq (State.connected u) (State.connected v) = str_eq u v
state_eq (State.pairing u) (State.pairing v) = str_eq u v
state_eq (State.initializing u) (State.initializing v) = str_eq u v
state_eq (State.communicating u) (State.communicating v) = str_eq u v
state_eq (State.disconnecting u) (State.disconnecting v) = str_eq u v
state_eq (State.waiting_to_reconnect d) (State.waiting_to_reconnect e) =
    str_eq d.url e.url && (d.attempts == e.attempts && d.next_attempt_ms == e.next_attempt_ms)
state_eq State.zombie State.zombie = true
state_eq _ _ = false

-- `struct LastSeenTv`.
pub record LastSeenTv (MacAddr : Type 0) : Type 0 where
  pub websocket_url : Option String
  pub client_key : Option String
  pub mac_addr : Option MacAddr

-- `enum ManagerOutputMessage`.
pub data ManagerOutputMessage (MacAddr : Type 0) : Type 0 where
  connection_test_status : TestStatus → ManagerOutputMessage MacAddr
  discovered_devices : List LgTvDevice → ManagerOutputMessage MacAddr
  error : ManagerError → ManagerOutputMessage MacAddr
  is_discovering : Bool → ManagerOutputMessage MacAddr
  reconnect_flow_status : ReconnectFlowStatus → ManagerOutputMessage MacAddr
  is_wake_last_seen_tv_available : Bool → ManagerOutputMessage MacAddr
  last_seen_tv : LastSeenTv MacAddr → ManagerOutputMessage MacAddr
  resetting : String → ManagerOutputMessage MacAddr
  status : State → ManagerOutputMessage MacAddr
  tv_on_network_test_status : TestStatus → ManagerOutputMessage MacAddr
  tv_info : Option TvInfo → ManagerOutputMessage MacAddr
  tv_inputs : Option (List ExternalInput) → ManagerOutputMessage MacAddr
  tv_software_info : Option CurrentSwInfoPayload → ManagerOutputMessage MacAddr
  tv_state : TvState → ManagerOutputMessage MacAddr
  tv_error : String → ManagerOutputMessage MacAddr
  tv_unrecognized_payload : String → ManagerOutputMessage MacAddr

-- `enum WsMessage`; `WsCommand` has the one command `ShutDown`.
pub data WsMessage : Type 0 where
  shut_down : WsMessage
  payload : String → WsMessage
  test_connection : WsMessage

-- `enum WsStatus`.
pub data WsStatus : Type 0 where
  idle : WsStatus
  connected : WsStatus
  disconnected : WsStatus
  connect_error : String → WsStatus
  message_read_error : String → WsStatus
  server_closed_connection : WsStatus

-- `enum WsUpdateMessage`.
pub data WsUpdateMessage : Type 0 where
  status : WsStatus → WsUpdateMessage
  payload : String → WsUpdateMessage
  is_connection_ok : Bool → WsUpdateMessage
