-- ===== src/Manager/Invariant/Calls.antt =====
-- The handling of a call of the caller keeps the invariant.
use lgtv_manager.Prelude.{true, if◌then◌else◌, Option, none, some}
use lgtv_manager.Connection.{Connection}
use lgtv_manager.Environment.{Env}
use lgtv_manager.StateMachine.{Input}
use lgtv_manager.Manager.Messages.{
  ManagerMessage, cancel_reconnect, connect, connect_last_good_connection, disconnect, discover,
  emit_all_state, send_tv_command, test_connection, test_tv_on_network, wake_last_seen_tv,
  cancelled, waiting_for_tv_on_network, WsMessage, connection_test_status, in_progress, flow_eq,
}
use lgtv_manager.Manager.State.{Manager}
use lgtv_manager.Manager.Senders.{
  send_out, emit_manager_status, emit_all_tv_details, set_reconnect_flow_status,
}
use lgtv_manager.Manager.Reset.{in_reconnect_flow, check_network, force_manager_reset, send_to_ws}
use lgtv_manager.Manager.Network as Utils
use lgtv_manager.Manager.Network.{should_retry_connect_failure, is_auto_reconnect_enabled}
use lgtv_manager.Manager.Handlers.Caller.{
  handle_cancel_reconnect, connect_last_good, handle_manager_message,
}
use lgtv_manager.Manager.Invariant.{core, Inv}
use lgtv_manager.Manager.Invariant.Frame.{core-send_to_fsm, core-wake}
use lgtv_manager.Manager.Invariant.Kept.{
  Inv-if, reset-Inv, send_to_ws-Inv, initiate_disconnect-Inv, set_flow-Inv, connect-Inv,
  report_connect-Inv,
}

module _ {E : Env} where
  cancel-Inv : (m : Manager E) → Inv (core m) → Inv (core (handle_cancel_reconnect m))
  unfolding handle_cancel_reconnect
  cancel-Inv m h =
      let told = set_flow-Inv cancelled m (λ e. cc) h in
      let n = set_reconnect_flow_status cancelled m in
      let reset_n = force_manager_reset "Cancel called while waiting for TV on network" n in
      let waits = flow_eq m.reconnect_flow_status waiting_for_tv_on_network in
      Inv-if (in_reconnect_flow m.reconnect_flow_status) (if waits then reset_n else n) m
        (λ _. Inv-if waits reset_n n (λ _. reset-Inv _ n told) (λ _. told)) (λ _. h)

  last_good-Inv :
      (c : Option Connection) (m : Manager E) → Inv (core m) → Inv (core (connect_last_good c m))
  unfolding connect_last_good
  last_good-Inv none m h = h
  last_good-Inv (some c) m h = report_connect-Inv _ (connect-Inv c m h)

  pub caller-Inv :
      (message : ManagerMessage) (m : Manager E)
      → Inv (core m)
      → Inv (core (handle_manager_message message m))
  unfolding handle_manager_message check_network emit_manager_status emit_all_tv_details send_out
      Utils.discover
  caller-Inv cancel_reconnect m h = cancel-Inv m h
  caller-Inv (connect c) m h = report_connect-Inv _ (connect-Inv c m h)
  caller-Inv connect_last_good_connection m h = last_good-Inv m.last_good_connection m h
  caller-Inv disconnect m h = rw (core-send_to_fsm Input.disconnect) h
  caller-Inv discover m h = h
  caller-Inv emit_all_state m h = h
  caller-Inv (send_tv_command c) m h = rw (core-send_to_fsm (Input.send_command c)) h
  caller-Inv ManagerMessage.shut_down m h =
      initiate_disconnect-Inv (record m { cancel_token = true }) h
  caller-Inv test_connection m h =
      let n = send_out (connection_test_status in_progress) m in
      Inv-if m.is_connection_initialized (send_to_ws WsMessage.test_connection n) m
        (λ _. send_to_ws-Inv WsMessage.test_connection n h) (λ _. h)
  caller-Inv test_tv_on_network m h = h
  caller-Inv wake_last_seen_tv m h = rw (core-wake m) h
