-- ===== src/Manager/State.antt =====
-- The fields of `LgTvManager` (src/lgtv_manager.rs), with what its methods change outside of it, and
-- the part of `TvNetworkChecker` (src/tv_network_check.rs) that the manager works with.
use lgtv_manager.Prelude.{ℕ, Bool, false, Option, none, List, [], String}
use lgtv_manager.Prelude.Channel.{Channel, channel}
use lgtv_manager.Connection.{Connection}
use lgtv_manager.Environment.{Env, IpAddr}
use lgtv_manager.StateMachine.{Input, State, disconnected}
use lgtv_manager.Ssap.{CurrentSwInfoPayload, ExternalInput, TvInfo, TvState, default_tv_state}
use lgtv_manager.Manager.Messages.{ManagerOutputMessage, ReconnectFlowStatus, inactive, WsMessage}

-- `struct TvNetworkChecker`, without the handles that only its task reads. A `Notify` is the permit
-- that `notify_one` leaves in it.
pub record TvNetworkChecker : Type 0 where
  pub is_operational : Bool
  pub check : Bool
  pub tv_ip : Option IpAddr
  pub tv_ip_notify : Bool

-- `struct LgTvManager`. Its receivers of messages are left out: what they receive are the events of
-- the main loop. `from_ws_rx` and `ws_join_handle` hold the number of the WebSocket handler that they
-- belong to. The shared flags are as they stand when a handler runs.
pub record Manager (E : Env) : Type 0 where
  pub manager_status : State
  pub tv_info : Option TvInfo
  pub tv_inputs : Option (List ExternalInput)
  pub tv_software_info : Option CurrentSwInfoPayload
  pub tv_state : TvState
  pub client_key : Option String
  pub mac_addr : Option E.MacAddr
  pub connection_details : Option Connection
  pub last_good_connection : Option Connection
  pub tv_host_ip : Option IpAddr
  pub tv_host_ip_notifier : Bool
  pub is_connection_initialized : Bool
  pub is_manual_disconnect_requested : Bool
  pub is_pairing : Bool
  pub tv_on_network_checker : TvNetworkChecker
  pub is_testing_tv_on_network : Bool
  pub is_tv_on_network : Bool
  pub reconnect_flow_status : ReconnectFlowStatus
  pub reconnect_attempts : ℕ
  pub session_connection_count : ℕ
  pub output_tx : Channel (ManagerOutputMessage E.MacAddr)
  pub to_fsm_tx : Option (Channel Input)
  pub ws_url : Option String
  pub to_ws_tx : Option (Channel WsMessage)
  pub from_ws_rx : Option ℕ
  pub ws_join_handle : Option ℕ
  pub data_dir : Option String
  -- The token that `run` makes and the task of the state machine watches.
  pub cancel_token : Bool
  -- Outside of the manager: the disk, the WebSocket handlers started so far (each with its host and
  -- whether it uses TLS), the wake-up calls sent, the discovery tasks started and the identifiers
  -- generated.
  pub disk : E.Disk
  pub ws_handlers : List (String × Bool)
  pub wol_sent : List (E.WolMacAddr × IpAddr)
  pub discoveries : ℕ
  pub ids_used : ℕ

-- `TvNetworkChecker::new`.
abbrev pub new_checker : TvNetworkChecker
new_checker = record { is_operational = false; check = false; tv_ip = none; tv_ip_notify = false }

-- The literal in `LgTvManager::new`, for a caller who takes as many messages as `room` says.
abbrev pub blank : (E : Env) → Option ℕ → E.Disk → Manager E
blank E room disk = record {
  manager_status = disconnected;
  tv_info = none;
  tv_inputs = none;
  tv_software_info = none;
  tv_state = default_tv_state;
  client_key = none;
  mac_addr = none;
  connection_details = none;
  last_good_connection = none;
  tv_host_ip = none;
  tv_host_ip_notifier = false;
  is_connection_initialized = false;
  is_manual_disconnect_requested = false;
  is_pairing = false;
  tv_on_network_checker = new_checker;
  is_testing_tv_on_network = false;
  is_tv_on_network = false;
  reconnect_flow_status = inactive;
  reconnect_attempts = 0;
  session_connection_count = 0;
  output_tx = channel room;
  to_fsm_tx = none;
  ws_url = none;
  to_ws_tx = none;
  from_ws_rx = none;
  ws_join_handle = none;
  data_dir = none;
  cancel_token = false;
  disk = disk;
  ws_handlers = [];
  wol_sent = [];
  discoveries = 0;
  ids_used = 0;
}
