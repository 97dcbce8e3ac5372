-- ===== src/Manager/Registering/Calls.antt =====
-- The handling of a call of the caller, and the messages to the WebSocket handler.
use lgtv_manager.Prelude.{Bool, true, if◌then◌else◌, Option, none, some}
use lgtv_manager.Connection.{Connection}
use lgtv_manager.Environment.{Env}
use lgtv_manager.StateMachine.{Input}
use lgtv_manager.Manager.Messages.{
  ManagerMessage, cancel_reconnect, connect, connect_last_good_connection, disconnect, discover,
  emit_all_state, send_tv_command, test_connection, test_tv_on_network, wake_last_seen_tv,
  cancelled, waiting_for_tv_on_network, WsMessage, connection_test_status, in_progress, flow_eq,
}
use lgtv_manager.Manager.State.{Manager}
use lgtv_manager.Manager.Senders.{
  send_out, send_to_fsm, emit_manager_status, emit_all_tv_details, set_reconnect_flow_status,
}
use lgtv_manager.Manager.Reset.{in_reconnect_flow, check_network, force_manager_reset, send_to_ws}
use lgtv_manager.Manager.Network as Utils
use lgtv_manager.Manager.Network.{should_retry_connect_failure, is_auto_reconnect_enabled}
use lgtv_manager.Manager.Handlers.Caller.{
  handle_cancel_reconnect, connect_last_good, handle_manager_message,
}
use lgtv_manager.Manager.Invariant.Frame.{core-send_to_fsm, core-wake}
use lgtv_manager.Manager.Registering.Connects.{connect-Asks, report_connect-Asks}
use lgtv_manager.Manager.Registering.Kept.{
  Asks, Asks-same, Asks-if, reset-Asks, send_to_ws-Asks, initiate_disconnect-Asks, set_flow-Asks,
}

module _ {E : Env} (asked : Bool) where
  cancel-Asks : (m : Manager E) → Asks asked m → Asks asked (handle_cancel_reconnect m)
  unfolding handle_cancel_reconnect
  cancel-Asks m h =
      let n = set_reconnect_flow_status cancelled m in
      let told = set_flow-Asks asked cancelled m h in
      let reset_n = force_manager_reset "Cancel called while waiting for TV on network" n in
      let waits = flow_eq m.reconnect_flow_status waiting_for_tv_on_network in
      Asks-if asked (in_reconnect_flow m.reconnect_flow_status) (if waits then reset_n else n) m
        (Asks-if asked waits reset_n n (reset-Asks asked _ n told) told) h

  last_good-Asks :
      (c : Option Connection) (m : Manager E) → Asks asked m → Asks asked (connect_last_good c m)
  unfolding connect_last_good
  last_good-Asks none m h = h
  last_good-Asks (some c) m h = report_connect-Asks asked _ (connect-Asks asked c m h)

  pub sent-Asks : (i : Input) (m : Manager E) → Asks asked m → Asks asked (send_to_fsm i m)
  sent-Asks i m h = Asks-same asked m (send_to_fsm i m) (core-send_to_fsm i m) h

  pub caller-Asks :
      (message : ManagerMessage) (m : Manager E)
      → Asks asked m
      → Asks asked (handle_manager_message message m)
  unfolding handle_manager_message check_network emit_manager_status emit_all_tv_details send_out
      Utils.discover
  caller-Asks cancel_reconnect m h = cancel-Asks m h
  caller-Asks (connect c) m h = report_connect-Asks asked _ (connect-Asks asked c m h)
  caller-Asks connect_last_good_connection m h = last_good-Asks m.last_good_connection m h
  caller-Asks disconnect m h =
      sent-Asks Input.disconnect (record m { is_manual_disconnect_requested = true }) h
  caller-Asks discover m h = h
  caller-Asks emit_all_state m h = h
  caller-Asks (send_tv_command c) m h = sent-Asks (Input.send_command c) m h
  caller-Asks ManagerMessage.shut_down m h =
      initiate_disconnect-Asks asked (record m { cancel_token = true }) h
  caller-Asks test_connection m h =
      let n = send_out (connection_test_status in_progress) m in
      Asks-if asked m.is_connection_initialized (send_to_ws WsMessage.test_connection n) m
        (send_to_ws-Asks asked WsMessage.test_connection n h tt (λ _. tt)) h
  caller-Asks test_tv_on_network m h = h
  caller-Asks wake_last_seen_tv m h = Asks-same asked m (Utils.wake_last_seen_tv m) (core-wake m) h
