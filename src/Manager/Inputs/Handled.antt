-- ===== src/Manager/Inputs/Handled.antt =====
-- Every event of the main loop (`run` of src/lgtv_manager.rs) keeps what was sent to the state machine,
-- and the status but for a report of the state machine.
use lgtv_manager.Prelude.{
  refl, ℕ, Bool, true, ◌▹◌, ◌&&◌, not, if◌then◌else◌, is_some, Option, none, some, List, [], String,
  ◌<>◌, str_eq, Result, ok, err,
}
use lgtv_manager.TvCommand.{TvCommand}
use lgtv_manager.Environment.{Env, Failure}
use lgtv_manager.StateMachine.{State, Input}
use lgtv_manager.StateMachine.Task.{state_update, output_update, transition_error}
use lgtv_manager.Ssap.{
  LgTvResponsePayload, current_sw_info, get_external_input_list, get_power_state, get_system_info,
  get_volume_variant_a, get_volume_variant_b, plain_return_value, set_mute, set_screen_on,
  set_volume, LgTvResponse, error_response, registered, command, PairPayload,
}
use lgtv_manager.Manager.Messages.{
  ManagerError, inactive, waiting_for_tv_on_network, WsStatus, idle, connect_error,
  message_read_error, server_closed_connection, WsUpdateMessage, is_connection_ok, connection,
  connection_test_status, tv_on_network_test_status, passed, failed, in_progress, tv_error, pair,
  flow_eq, state_eq,
}
use lgtv_manager.Manager.State.{Manager}
use lgtv_manager.Manager.Senders.{
  send_out, emit_tv_info, emit_tv_inputs, emit_tv_software_info, emit_tv_state,
  emit_is_wake_tv_available, set_reconnect_flow_status, send_to_fsm, set_host_ip_from_ws_url,
}
use lgtv_manager.Manager.Network.{is_auto_reconnect_enabled}
use lgtv_manager.Manager.Orchestration.Reconnect.{attempt_fsm_error, initiate_reconnect}
use lgtv_manager.Manager.Orchestration.Responses.{
  is_pairing_error, error_text, complete_initialization, handle_pair, handle_payload,
  handle_registered, handle_error_response, handle_response, handle_lgtv_response,
}
use lgtv_manager.Manager.Handlers.Machine.{handle_update}
use lgtv_manager.Manager.Handlers.Socket.{
  handle_lost_connection, handle_ws_status, handle_ws_payload, handle_ws_update, handle_ws_message,
}
use lgtv_manager.Manager.Handlers.Network.{
  handle_tv_lost, handle_tv_back, handle_network_checked, handle_network_testing,
}
use lgtv_manager.Manager.MainLoop.{
  Event, from_caller, from_fsm, from_ws, network_checked, network_testing, flags, from_discovery,
  receive_ws, handle,
}
use lgtv_manager.Manager.Inputs.{trace, Keeps, command_of, command_of-LeavesOut}
use lgtv_manager.Manager.Inputs.Traces.{trace-save, trace-set_host_ip}
use lgtv_manager.Manager.Inputs.Kept.{Keeps-if, send_to_fsm-Keeps, set_flow-Keeps, prepare-Keeps}
use lgtv_manager.Manager.Inputs.Reconnecting.{reconnect-Keeps}
use lgtv_manager.Manager.Inputs.Calls.{asked, caller-Keeps, output-Keeps, status_set}

-- The status after an event.
abbrev pub shown : Event → State → State
shown (from_fsm (state_update new) _) s = new
shown _ s = s

-- The commands that the state machine was sent after an event.
abbrev pub given : Event → List TvCommand → List TvCommand
given (from_caller message) cs = asked message cs
given _ cs = cs

module _ {E : Env} {s : State} {xs : List Input} {b : Bool} {cs : List TvCommand} where
  fsm_error-Keeps :
      (e : ManagerError) (m : Manager E)
      → Keeps command_of s xs b cs (trace m)
      → Keeps command_of s xs b cs (trace (attempt_fsm_error e m))
  unfolding attempt_fsm_error send_out
  fsm_error-Keeps e m h = send_to_fsm-Keeps Input.error refl m h

  completed-Keeps :
      (m : Manager E)
      → Keeps command_of s xs b cs (trace m)
      → Keeps command_of s xs b cs (trace (complete_initialization m))
  unfolding complete_initialization
  completed-Keeps m h =
      let n : Manager E = record (send_to_fsm Input.start_communication m) {
        is_connection_initialized = true;
      } in
      Keeps-if m.is_connection_initialized m (set_host_ip_from_ws_url n) h
        (rw (trace-set_host_ip n) (send_to_fsm-Keeps Input.start_communication refl m h))

  pair-Keeps :
      (p : PairPayload) (m : Manager E)
      → Keeps command_of s xs b cs (trace m)
      → Keeps command_of s xs b cs (trace (handle_pair p m))
  unfolding handle_pair
  pair-Keeps p m h =
      let failure = pair ("Unexpected pair type: " <> p.pairing_type) in
      Keeps-if (str_eq p.pairing_type "PROMPT") (send_to_fsm Input.pair m)
        (attempt_fsm_error failure m) (send_to_fsm-Keeps Input.pair refl m h)
        (fsm_error-Keeps failure m h)

  payload-Keeps :
      (p : LgTvResponsePayload) (m : Manager E)
      → Keeps command_of s xs b cs (trace m)
      → Keeps command_of s xs b cs (trace (handle_payload p m))
  unfolding handle_payload emit_tv_info emit_tv_inputs emit_tv_software_info emit_tv_state send_out
  payload-Keeps (current_sw_info p) m h = h
  payload-Keeps (get_external_input_list p) m h = h
  payload-Keeps (get_power_state p) m h = h
  payload-Keeps (get_system_info p) m h = h
  payload-Keeps (get_volume_variant_a p) m h = completed-Keeps m h
  payload-Keeps (get_volume_variant_b p) m h = completed-Keeps m h
  payload-Keeps (LgTvResponsePayload.pair p) m h = pair-Keeps p m h
  payload-Keeps (plain_return_value p) m h = h
  payload-Keeps (set_mute p) m h = h
  payload-Keeps (set_screen_on p) m h = h
  payload-Keeps (set_volume p) m h = h

  response-Keeps :
      (r : LgTvResponse) (m : Manager E)
      → Keeps command_of s xs b cs (trace m)
      → Keeps command_of s xs b cs (trace (handle_response r m))
  unfolding handle_response handle_registered handle_error_response send_out
  response-Keeps (command r) m h = payload-Keeps r.payload m h
  response-Keeps (registered r) m h =
      send_to_fsm-Keeps Input.initialize refl _ (rw (trace-save _) h)
  response-Keeps (error_response r) m h =
      let n = send_out (tv_error (error_text r.error)) m in
      Keeps-if (is_pairing_error r.error) (send_to_fsm Input.error n) n
        (send_to_fsm-Keeps Input.error refl n h) h

  lost-Keeps :
      (msg : String) (m : Manager E)
      → Keeps command_of s xs b cs (trace m)
      → Keeps command_of s xs b cs (trace (handle_lost_connection msg m))
  unfolding handle_lost_connection
  lost-Keeps msg m h = fsm_error-Keeps _ _ (prepare-Keeps m h)

  status-Keeps :
      (w : WsStatus) (m : Manager E)
      → Keeps command_of s xs b cs (trace m)
      → Keeps command_of s xs b cs (trace (handle_ws_status w m))
  unfolding handle_ws_status
  status-Keeps idle m h = h
  status-Keeps WsStatus.connected m h = send_to_fsm-Keeps Input.attempt_register refl m h
  status-Keeps WsStatus.disconnected m h = send_to_fsm-Keeps Input.disconnection_complete refl m h
  status-Keeps (connect_error e) m h = lost-Keeps _ m h
  status-Keeps (message_read_error e) m h = lost-Keeps _ m h
  status-Keeps server_closed_connection m h = lost-Keeps _ m h

  text-Keeps :
      (p : String) (r : Result LgTvResponse Failure) (m : Manager E)
      → Keeps command_of s xs b cs (trace m)
      → Keeps command_of s xs b cs (trace (handle_ws_payload p r m))
  unfolding handle_ws_payload handle_lgtv_response send_out
  text-Keeps p (ok r) m h =
      Keeps-if (is_some m.to_fsm_tx) (handle_response r m) m (response-Keeps r m h) h
  text-Keeps p (err e) m h = h

  socket-Keeps :
      (u : Option WsUpdateMessage) (m : Manager E)
      → Keeps command_of s xs b cs (trace m)
      → Keeps command_of s xs b cs (trace (handle_ws_message u m))
  unfolding handle_ws_message handle_ws_update send_out
  socket-Keeps none m h = h
  socket-Keeps (some (WsUpdateMessage.status w)) m h = status-Keeps w m h
  socket-Keeps (some (WsUpdateMessage.payload p)) m h = text-Keeps p (E.response_from_str p) m h
  socket-Keeps (some (is_connection_ok is_ok)) m h =
      let n = send_out (connection_test_status (if is_ok then passed else failed)) m in
      let failure = connection "WebSocket connection test failed" in
      Keeps-if is_ok n (attempt_fsm_error failure n) h (fsm_error-Keeps failure n h)

  network-Keeps :
      (was : Bool) (m : Manager E)
      → Keeps command_of s xs b cs (trace m)
      → Keeps command_of s xs b cs (trace (handle_network_checked was m))
  unfolding handle_network_checked handle_tv_lost handle_tv_back send_out emit_is_wake_tv_available
  network-Keeps was m h =
      let n =
        m
        ▹ send_out (tv_on_network_test_status (if m.is_tv_on_network then passed else failed))
        ▹ emit_is_wake_tv_available in
      let gone = was && not m.is_tv_on_network in
      let flow = if is_auto_reconnect_enabled n then waiting_for_tv_on_network else inactive in
      let failure = connection "TV host is not available on the network" in
      let k = if gone then handle_tv_lost n else n in
      let lost : Keeps command_of s xs b cs (trace k) =
        Keeps-if gone (handle_tv_lost n) n
          (Keeps-if (state_eq n.manager_status State.disconnected)
            (set_reconnect_flow_status flow n) (attempt_fsm_error failure n)
            (set_flow-Keeps flow n h) (fsm_error-Keeps failure n h))
          h in
      Keeps-if (not was && m.is_tv_on_network) (handle_tv_back k) k
        (Keeps-if (flow_eq k.reconnect_flow_status waiting_for_tv_on_network)
          (initiate_reconnect true [] k) k (reconnect-Keeps true [] k lost) lost)
        lost

  receive-Keeps :
      (rx : Option ℕ) (u : Option WsUpdateMessage) (m : Manager E)
      → Keeps command_of s xs b cs (trace m)
      → Keeps command_of s xs b cs (trace (receive_ws rx u m))
  unfolding receive_ws
  receive-Keeps none u m h = h
  receive-Keeps (some n) u m h = socket-Keeps u m h

  -- Whatever the event, what was sent to the state machine stays sent, a receiver stays, the status
  -- is that of the report if the event is one, and stays if not, and a command is sent exactly where
  -- the event is the caller's message with it.
  pub handle-Keeps :
      (e : Event) (was : Bool) (m : Manager E)
      → Keeps command_of s xs b cs (trace m)
      → Keeps command_of (shown e s) xs b (given e cs) (trace (handle e was m))
  unfolding handle handle_update handle_network_testing send_out
  handle-Keeps (from_caller message) was m h = caller-Keeps message m h
  handle-Keeps (from_fsm (state_update new) ticks) was m h = status_set new m h
  handle-Keeps (from_fsm (output_update o) ticks) was m h = output-Keeps o ticks m h
  handle-Keeps (from_fsm (transition_error e) ticks) was m h = h
  handle-Keeps (from_ws u) was m h = receive-Keeps m.from_ws_rx u m h
  handle-Keeps network_checked was m h = network-Keeps was m h
  handle-Keeps network_testing was m h =
      Keeps-if m.is_testing_tv_on_network (send_out (tv_on_network_test_status in_progress) m) m h h
  handle-Keeps (flags on testing) was m h = h
  handle-Keeps (from_discovery news) was m h = h
