-- ===== src/Manager/Handlers/Machine.antt =====
-- The messages of the state machine (`from_fsm_rx.recv()` in `run` of src/lgtv_manager.rs).
use lgtv_manager.Prelude.{◌+◌, ◌%◌, ◌▹◌, true, false, if◌then◌else◌, u64_mod}
use lgtv_manager.Environment.{Env}
use lgtv_manager.StateMachine.{
  Output, connect_to_tv, send_register_payload, pair_with_tv, initialize_connection,
  forward_command, disconnect_from_tv, handle_connect_error, handle_disconnect_error,
  handle_successful_disconnect,
}
use lgtv_manager.StateMachine.Task.{
  StateMachineUpdateMessage, state_update, output_update, transition_error,
}
use lgtv_manager.Manager.Messages.{
  error, action, ReconnectFlowStatus, active, cancelled, inactive, waiting_for_tv_on_network,
}
use lgtv_manager.Manager.State.{Manager}
use lgtv_manager.Manager.Senders.{send_out, set_manager_status, set_reconnect_flow_status}
use lgtv_manager.Manager.Reset.{force_manager_reset}
use lgtv_manager.Manager.Network.{optionally_prepare_for_reconnect, should_retry_connect_failure}
use lgtv_manager.Manager.Orchestration.Connect
use lgtv_manager.Manager.Orchestration.Connect.{
  start_websocket_handler_and_connect, send_command_to_ws, initiate_disconnect_from_tv,
}
use lgtv_manager.Manager.Orchestration.Reconnect.{Ticks, initiate_reconnect, handle_disconnected}

module _ {E : Env} where
  -- The `match` on the flow status after a failed connect.
  unfoldable pub retry_connect : ReconnectFlowStatus → Ticks → Manager E → Manager E
  retry_connect active ticks m = initiate_reconnect false ticks m
  retry_connect cancelled ticks m = set_reconnect_flow_status inactive m
  retry_connect inactive ticks m = m
  retry_connect waiting_for_tv_on_network ticks m = m

  -- `Output::HandleConnectError`.
  unfoldable pub recover_from_connect_error : Ticks → Manager E → Manager E
  unfolding retry_connect
  recover_from_connect_error ticks m =
      let m = force_manager_reset "A WebSocket connection error occurred" m in
      if should_retry_connect_failure m then retry_connect m.reconnect_flow_status ticks m else m

  -- `Output::HandleSuccessfulDisconnect` and `Output::HandleDisconnectError`.
  unfoldable pub end_disconnect : Ticks → Manager E → Manager E
  end_disconnect ticks m =
      record m { is_manual_disconnect_requested = false } ▹ handle_disconnected ticks

  -- The `match` on an output. A possible wait for a reconnect has the given ticks.
  unfoldable pub handle_output : Output → Ticks → Manager E → Manager E
  handle_output (connect_to_tv host) ticks m = start_websocket_handler_and_connect host m
  handle_output send_register_payload ticks m =
      m
      ▹ set_reconnect_flow_status inactive
      ▹ (λ m. record m { session_connection_count = (m.session_connection_count + 1) % u64_mod })
      ▹ Connect.send_register_payload
  handle_output pair_with_tv ticks m = record m { is_pairing = true }
  handle_output initialize_connection ticks m =
      record m { is_pairing = false } ▹ Connect.initialize_connection
  handle_output (forward_command command) ticks m = send_command_to_ws command m
  handle_output disconnect_from_tv ticks m =
      m ▹ optionally_prepare_for_reconnect ▹ initiate_disconnect_from_tv
  handle_output handle_successful_disconnect ticks m = end_disconnect ticks m
  handle_output handle_connect_error ticks m = recover_from_connect_error ticks m
  handle_output handle_disconnect_error ticks m = end_disconnect ticks m

  -- The `match` on the state machine's message.
  unfoldable pub handle_update : StateMachineUpdateMessage → Ticks → Manager E → Manager E
  handle_update (state_update s) ticks m = set_manager_status s m
  handle_update (output_update o) ticks m = handle_output o ticks m
  handle_update (transition_error e) ticks m = send_out (error (action e)) m
