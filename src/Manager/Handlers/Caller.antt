-- ===== src/Manager/Handlers/Caller.antt =====
-- The messages of the caller (`self.command_rx.recv()` in `run` of src/lgtv_manager.rs).
use lgtv_manager.Prelude.{◌▹◌, true, if◌then◌else◌, Option, none, some}
use lgtv_manager.Connection.{Connection}
use lgtv_manager.Environment.{Env}
use lgtv_manager.StateMachine.{Input}
use lgtv_manager.Manager.Messages.{
  ManagerMessage, cancel_reconnect, connect, connect_last_good_connection, disconnect, discover,
  emit_all_state, send_tv_command, test_connection, test_tv_on_network, wake_last_seen_tv,
  connection_test_status, in_progress, cancelled, waiting_for_tv_on_network, flow_eq, WsMessage,
}
use lgtv_manager.Manager.State.{Manager}
use lgtv_manager.Manager.Senders.{
  send_out, emit_manager_status, emit_all_tv_details, send_to_fsm, set_reconnect_flow_status,
}
use lgtv_manager.Manager.Reset.{in_reconnect_flow, check_network, force_manager_reset, send_to_ws}
use lgtv_manager.Manager.Network as Utils
use lgtv_manager.Manager.Orchestration.Connect.{initiate_connect_to_tv, initiate_disconnect_from_tv}
use lgtv_manager.Manager.Orchestration.Reconnect.{report_connect}

module _ {E : Env} where
  -- `CancelReconnect`.
  unfoldable pub handle_cancel_reconnect : Manager E → Manager E
  handle_cancel_reconnect m =
      if in_reconnect_flow m.reconnect_flow_status
      then (let was_waiting = flow_eq m.reconnect_flow_status waiting_for_tv_on_network in
          let m = set_reconnect_flow_status cancelled m in
          if was_waiting
          then force_manager_reset "Cancel called while waiting for TV on network" m
          else m)
      else m

  -- `ConnectLastGoodConnection`.
  unfoldable pub connect_last_good : Option Connection → Manager E → Manager E
  connect_last_good none m = m
  connect_last_good (some last_good_connection) m =
      report_connect (initiate_connect_to_tv last_good_connection m)

  -- The `match` on the caller's message. After `ShutDown` the loop ends. Between the cancellation and
  -- the disconnect it awaits the state machine's task: this is what it does where that ends, and
  -- System/Bounded has the wait, as turns of its own.
  unfoldable pub handle_manager_message : ManagerMessage → Manager E → Manager E
  handle_manager_message cancel_reconnect m = handle_cancel_reconnect m
  handle_manager_message (connect connection) m =
      report_connect (initiate_connect_to_tv connection m)
  handle_manager_message connect_last_good_connection m = connect_last_good m.last_good_connection m
  handle_manager_message disconnect m =
      record m { is_manual_disconnect_requested = true } ▹ send_to_fsm Input.disconnect
  handle_manager_message discover m = Utils.discover m
  handle_manager_message emit_all_state m = m ▹ emit_manager_status ▹ emit_all_tv_details
  handle_manager_message (send_tv_command command) m = send_to_fsm (Input.send_command command) m
  handle_manager_message ManagerMessage.shut_down m =
      record m { cancel_token = true } ▹ initiate_disconnect_from_tv
  handle_manager_message test_connection m =
      if m.is_connection_initialized
      then (m
          ▹ send_out (connection_test_status in_progress)
          ▹ send_to_ws WsMessage.test_connection)
      else m
  handle_manager_message test_tv_on_network m = check_network m
  handle_manager_message wake_last_seen_tv m = Utils.wake_last_seen_tv m
