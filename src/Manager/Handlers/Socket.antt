-- ===== src/Manager/Handlers/Socket.antt =====
-- The messages of the WebSocket handler (`self.from_ws_rx` in `run` of src/lgtv_manager.rs).
use lgtv_manager.Prelude.{◌▹◌, if◌then◌else◌, Option, none, some, String, ◌<>◌, Result, ok, err}
use lgtv_manager.Environment.{Env, Failure}
use lgtv_manager.StateMachine.{Input}
use lgtv_manager.Ssap.{LgTvResponse}
use lgtv_manager.Manager.Messages.{
  connection, connection_test_status, passed, failed, tv_unrecognized_payload, WsStatus, idle,
  connected, disconnected, connect_error, message_read_error, server_closed_connection,
  WsUpdateMessage, payload, is_connection_ok,
}
use lgtv_manager.Manager.State.{Manager}
use lgtv_manager.Manager.Senders.{send_out, send_to_fsm}
use lgtv_manager.Manager.Network.{optionally_prepare_for_reconnect}
use lgtv_manager.Manager.Orchestration.Reconnect.{attempt_fsm_error}
use lgtv_manager.Manager.Orchestration.Responses.{handle_lgtv_response}

module _ {E : Env} where
  -- A lost or refused connection.
  unfoldable pub handle_lost_connection : String → Manager E → Manager E
  handle_lost_connection msg m =
      m ▹ optionally_prepare_for_reconnect ▹ attempt_fsm_error (connection msg)

  -- The `match` on the status.
  unfoldable pub handle_ws_status : WsStatus → Manager E → Manager E
  handle_ws_status idle m = m
  handle_ws_status connected m = send_to_fsm Input.attempt_register m
  handle_ws_status disconnected m = send_to_fsm Input.disconnection_complete m
  handle_ws_status (connect_error e) m =
      handle_lost_connection ("WebSocket connect error: " <> E.debug_str e) m
  handle_ws_status (message_read_error e) m =
      handle_lost_connection ("WebSocket message read error: " <> E.debug_str e) m
  handle_ws_status server_closed_connection m = handle_lost_connection "Server closed connection" m

  -- The payload, as a response of the TV if it reads as one.
  unfoldable pub handle_ws_payload : String → Result LgTvResponse Failure → Manager E → Manager E
  handle_ws_payload ws_payload (ok r) m = handle_lgtv_response r m
  handle_ws_payload ws_payload (err _) m = send_out (tv_unrecognized_payload ws_payload) m

  -- The `match` on the update.
  unfoldable pub handle_ws_update : WsUpdateMessage → Manager E → Manager E
  handle_ws_update (WsUpdateMessage.status s) m = handle_ws_status s m
  handle_ws_update (payload p) m = handle_ws_payload p (E.response_from_str p) m
  handle_ws_update (is_connection_ok is_ok) m =
      let m = send_out (connection_test_status (if is_ok then passed else failed)) m in
      if is_ok then m else attempt_fsm_error (connection "WebSocket connection test failed") m

  -- `ws_message`: nothing is done where the channel is closed and `recv` gives `None`.
  unfoldable pub handle_ws_message : Option WsUpdateMessage → Manager E → Manager E
  handle_ws_message none m = m
  handle_ws_message (some u) m = handle_ws_update u m
