-- ===== src/Manager/Inputs/Calls.antt =====
-- The handling of the caller's and the state machine's messages keeps what Inputs says.
use lgtv_manager.Prelude.{
  true, refl, Bool, false, if◌then◌else◌, Option, none, some, List, [], ◌∷◌, ◌++◌, arith,
}
use lgtv_manager.Connection.{Connection}
use lgtv_manager.TvCommand.{TvCommand}
use lgtv_manager.Environment.{Env}
use lgtv_manager.StateMachine.{
  State, Input, Output, connect_to_tv, send_register_payload, pair_with_tv, initialize_connection,
  forward_command, disconnect_from_tv, handle_connect_error, handle_disconnect_error,
  handle_successful_disconnect,
}
use lgtv_manager.Manager.Messages.{
  ManagerMessage, cancel_reconnect, connect, connect_last_good_connection, disconnect, discover,
  emit_all_state, send_tv_command, test_connection, test_tv_on_network, wake_last_seen_tv,
  ReconnectFlowStatus, active, cancelled, inactive, waiting_for_tv_on_network, WsMessage,
  connection_test_status, in_progress, flow_eq,
}
use lgtv_manager.Manager.State.{Manager}
use lgtv_manager.Manager.Senders.{
  send_out, emit_manager_status, emit_last_seen_tv, emit_all_tv_details, set_reconnect_flow_status,
  set_manager_status,
}
use lgtv_manager.Manager.Reset.{in_reconnect_flow, check_network, force_manager_reset, send_to_ws}
use lgtv_manager.Manager.Network as Utils
use lgtv_manager.Manager.Network.{should_retry_connect_failure, is_auto_reconnect_enabled}
use lgtv_manager.Manager.Orchestration.Reconnect.{Ticks}
use lgtv_manager.Manager.Handlers.Caller.{
  handle_cancel_reconnect, connect_last_good, handle_manager_message,
}
use lgtv_manager.Manager.Handlers.Machine.{
  retry_connect, recover_from_connect_error, end_disconnect, handle_output,
}
use lgtv_manager.Manager.Inputs.{trace, LeavesOut, Keeps, command_of, command_of-LeavesOut}
use lgtv_manager.Manager.Inputs.Traces.{trace-wake}
use lgtv_manager.Manager.Inputs.Kept.{
  Keeps-if, sent-Keeps, send_to_fsm-Keeps, reset-Keeps, send_to_ws-Keeps, send_command-Keeps,
  initialize_connection-Keeps, register-Keeps, initiate_disconnect-Keeps, start_handler-Keeps,
  set_flow-Keeps, prepare-Keeps,
}
use lgtv_manager.Manager.Inputs.Reconnecting.{
  connect-Keeps, report_connect-Keeps, reconnect-Keeps, disconnected-Keeps,
}
use lgtv_manager.Manager.Equality.{same_state}

-- The commands after a message of the caller.
abbrev pub asked : ManagerMessage → List TvCommand → List TvCommand
asked (send_tv_command c) cs = cs ++ c ∷ []
asked _ cs = cs

module _ {E : Env} {s : State} {xs : List Input} {b : Bool} {A : Type 0} {f : Input → List A}
    ⦃quiet : LeavesOut f⦄ {cs : List A} where
  cancel-Keeps :
      (m : Manager E)
      → Keeps f s xs b cs (trace m)
      → Keeps f s xs b cs (trace (handle_cancel_reconnect m))
  unfolding handle_cancel_reconnect
  cancel-Keeps m h =
      let told = set_flow-Keeps cancelled m h in
      let n = set_reconnect_flow_status cancelled m in
      let reset_n = force_manager_reset "Cancel called while waiting for TV on network" n in
      let waits = flow_eq m.reconnect_flow_status waiting_for_tv_on_network in
      Keeps-if (in_reconnect_flow m.reconnect_flow_status) (if waits then reset_n else n) m
        (Keeps-if waits reset_n n (reset-Keeps _ n told) told) h

  last_good-Keeps :
      (c : Option Connection) (m : Manager E)
      → Keeps f s xs b cs (trace m)
      → Keeps f s xs b cs (trace (connect_last_good c m))
  unfolding connect_last_good
  last_good-Keeps none m h = h
  last_good-Keeps (some c) m h = report_connect-Keeps _ (connect-Keeps c m h)

  retry-Keeps :
      (flow : ReconnectFlowStatus) (ticks : Ticks) (m : Manager E)
      → Keeps f s xs b cs (trace m)
      → Keeps f s xs b cs (trace (retry_connect flow ticks m))
  unfolding retry_connect
  retry-Keeps active ticks m h = reconnect-Keeps false ticks m h
  retry-Keeps cancelled ticks m h = set_flow-Keeps inactive m h
  retry-Keeps inactive ticks m h = h
  retry-Keeps waiting_for_tv_on_network ticks m h = h

  recover-Keeps :
      (ticks : Ticks) (m : Manager E)
      → Keeps f s xs b cs (trace m)
      → Keeps f s xs b cs (trace (recover_from_connect_error ticks m))
  unfolding recover_from_connect_error
  recover-Keeps ticks m h =
      let n = force_manager_reset "A WebSocket connection error occurred" m in
      let k = reset-Keeps "A WebSocket connection error occurred" m h in
      Keeps-if (should_retry_connect_failure n) (retry_connect n.reconnect_flow_status ticks n) n
        (retry-Keeps n.reconnect_flow_status ticks n k) k

  pub output-Keeps :
      (o : Output) (ticks : Ticks) (m : Manager E)
      → Keeps f s xs b cs (trace m)
      → Keeps f s xs b cs (trace (handle_output o ticks m))
  unfolding handle_output end_disconnect
  output-Keeps (connect_to_tv url) ticks m h = start_handler-Keeps url m h
  output-Keeps send_register_payload ticks m h = register-Keeps _ (set_flow-Keeps inactive m h)
  output-Keeps pair_with_tv ticks m h = h
  output-Keeps initialize_connection ticks m h = initialize_connection-Keeps _ h
  output-Keeps (forward_command c) ticks m h = send_command-Keeps c m h
  output-Keeps disconnect_from_tv ticks m h = initiate_disconnect-Keeps _ (prepare-Keeps m h)
  output-Keeps handle_successful_disconnect ticks m h = disconnected-Keeps ticks _ h
  output-Keeps handle_connect_error ticks m h = recover-Keeps ticks m h
  output-Keeps handle_disconnect_error ticks m h = disconnected-Keeps ticks _ h

  pub status_set :
      (new : State) (m : Manager E)
      → Keeps f s xs b cs (trace m)
      → Keeps f new xs b cs (trace (set_manager_status new m))
  unfolding set_manager_status emit_manager_status emit_last_seen_tv send_out
  status_set new m h = record {
    same_status = ground (arith, same_state new m.manager_status);
    has_sent = ground (arith, h.has_sent);
    same_view = ground (arith, h.same_view);
    still_heard = λ q. ground (arith, h.still_heard q);
  }

module _ {E : Env} {s : State} {xs : List Input} {b : Bool} {cs : List TvCommand} where
  pub caller-Keeps :
      (message : ManagerMessage) (m : Manager E)
      → Keeps command_of s xs b cs (trace m)
      → Keeps command_of s xs b (asked message cs) (trace (handle_manager_message message m))
  unfolding handle_manager_message check_network emit_manager_status emit_all_tv_details send_out
      Utils.discover
  caller-Keeps cancel_reconnect m h = cancel-Keeps m h
  caller-Keeps (connect c) m h = report_connect-Keeps _ (connect-Keeps c m h)
  caller-Keeps connect_last_good_connection m h = last_good-Keeps m.last_good_connection m h
  caller-Keeps disconnect m h = send_to_fsm-Keeps Input.disconnect refl _ h
  caller-Keeps discover m h = h
  caller-Keeps emit_all_state m h = h
  caller-Keeps (send_tv_command c) m h = sent-Keeps (Input.send_command c) m h
  caller-Keeps ManagerMessage.shut_down m h =
      initiate_disconnect-Keeps (record m { cancel_token = true }) h
  caller-Keeps test_connection m h =
      let n = send_out (connection_test_status in_progress) m in
      Keeps-if m.is_connection_initialized (send_to_ws WsMessage.test_connection n) m
        (send_to_ws-Keeps WsMessage.test_connection n h) h
  caller-Keeps test_tv_on_network m h = h
  caller-Keeps wake_last_seen_tv m h = rw (trace-wake m) h
