-- ===== src/Manager/Registering/Socket.antt =====
-- The handling of a message of the WebSocket handler, and the messages to it.
use lgtv_manager.Prelude.{Bool, if◌then◌else◌, is_some, Option, none, some, String, Result, ok, err}
use lgtv_manager.Environment.{Env, Failure}
use lgtv_manager.StateMachine.{Input}
use lgtv_manager.Ssap.{LgTvResponse}
use lgtv_manager.Manager.Messages.{
  WsStatus, idle, connected, disconnected, connect_error, message_read_error,
  server_closed_connection, WsUpdateMessage, is_connection_ok, connection, connection_test_status,
  passed, failed,
}
use lgtv_manager.Manager.State.{Manager}
use lgtv_manager.Manager.Senders.{send_out}
use lgtv_manager.Manager.Orchestration.Reconnect.{attempt_fsm_error}
use lgtv_manager.Manager.Orchestration.Responses.{handle_response, handle_lgtv_response}
use lgtv_manager.Manager.Handlers.Socket.{
  handle_lost_connection, handle_ws_status, handle_ws_payload, handle_ws_update, handle_ws_message,
}
use lgtv_manager.Manager.Invariant.Socket.{response-core}
use lgtv_manager.Manager.Registering.Kept.{Asks, Asks-same, Asks-if, prepare-Asks, fsm_error-Asks}
use lgtv_manager.Manager.Registering.Calls.{sent-Asks}

module _ {E : Env} (asked : Bool) where
  response-Asks :
      (r : LgTvResponse) (m : Manager E) → Asks asked m → Asks asked (handle_lgtv_response r m)
  unfolding handle_lgtv_response
  response-Asks r m h =
      Asks-if asked (is_some m.to_fsm_tx) (handle_response r m) m
        (Asks-same asked m (handle_response r m) (response-core r m) h) h

  lost-Asks :
      (msg : String) (m : Manager E) → Asks asked m → Asks asked (handle_lost_connection msg m)
  unfolding handle_lost_connection
  lost-Asks msg m h = fsm_error-Asks asked _ _ (prepare-Asks asked m h)

  status-Asks : (s : WsStatus) (m : Manager E) → Asks asked m → Asks asked (handle_ws_status s m)
  unfolding handle_ws_status
  status-Asks idle m h = h
  status-Asks connected m h = sent-Asks asked Input.attempt_register m h
  status-Asks disconnected m h = sent-Asks asked Input.disconnection_complete m h
  status-Asks (connect_error e) m h = lost-Asks _ m h
  status-Asks (message_read_error e) m h = lost-Asks _ m h
  status-Asks server_closed_connection m h = lost-Asks _ m h

  payload-Asks :
      (p : String) (r : Result LgTvResponse Failure) (m : Manager E)
      → Asks asked m
      → Asks asked (handle_ws_payload p r m)
  unfolding handle_ws_payload send_out
  payload-Asks p (ok r) m h = response-Asks r m h
  payload-Asks p (err e) m h = h

  pub socket-Asks :
      (u : Option WsUpdateMessage) (m : Manager E)
      → Asks asked m
      → Asks asked (handle_ws_message u m)
  unfolding handle_ws_message handle_ws_update send_out
  socket-Asks none m h = h
  socket-Asks (some (WsUpdateMessage.status s)) m h = status-Asks s m h
  socket-Asks (some (WsUpdateMessage.payload p)) m h = payload-Asks p (E.response_from_str p) m h
  socket-Asks (some (is_connection_ok is_ok)) m h =
      let n = send_out (connection_test_status (if is_ok then passed else failed)) m in
      let failure = connection "WebSocket connection test failed" in
      Asks-if asked is_ok n (attempt_fsm_error failure n) h (fsm_error-Asks asked failure n h)
