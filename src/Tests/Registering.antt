-- ===== src/Tests/Registering.antt =====
-- The theorem on the first message to a WebSocket handler (src/lgtv_manager.rs and
-- src/state_machine.rs) at a concrete run, up to where the manager registers.
use lgtv_manager.Prelude.{◌≡◌, refl, true, false, none, some, is_some, List, [], ◌∷◌}
use lgtv_manager.Prelude.Channel.{Channel, channel, is_open, send}
use lgtv_manager.StateMachine.{
  connecting, connected, connect, attempt_register, transition, output, connect_to_tv,
  send_register_payload,
}
use lgtv_manager.StateMachine.Task.{
  state_update, output_update, received, task_step, start_state_machine,
}
use lgtv_manager.Helpers.{websocket_url_for_connection, generate_register_request}
use lgtv_manager.Manager.Messages.{WsMessage, payload, WsUpdateMessage, state_eq}
use lgtv_manager.Manager.Messages as Messages
use lgtv_manager.Manager.MainLoop.{from_ws, from_fsm, step, new, start, handle, receive_ws}
use lgtv_manager.Manager.Senders.{
  send_to_fsm, send_out, emit_manager_status, set_host_ip_from_ws_url, set_reconnect_flow_status,
  set_manager_status, emit_all_tv_details,
}
use lgtv_manager.Manager.Persisted.{import_persisted_state, read_persisted_state}
use lgtv_manager.Manager.Reset.{initialize_manager_state, check_network, send_to_ws}
use lgtv_manager.Manager.Orchestration.Connect as Connect
use lgtv_manager.Manager.Orchestration.Connect.{
  initiate_connect_to_tv, connect_at, begin_connect, set_mac_addr, watch,
  start_websocket_handler_and_connect, send_register_request, send_register_text,
}
use lgtv_manager.Manager.Orchestration.Reconnect.{report_connect}
use lgtv_manager.Manager.Handlers.Caller.{handle_manager_message}
use lgtv_manager.Manager.Handlers.Machine.{handle_update, handle_output}
use lgtv_manager.Manager.Handlers.Socket.{handle_ws_message, handle_ws_update, handle_ws_status}
use lgtv_manager.Manager.Registering.{first_order, IsRegister, Proper, EachOrder}
use lgtv_manager.Manager.Registering.Handled.{asked_since}
use lgtv_manager.System.{System, inputs, outside, machine_turn, manager_turn, Reach, next}
use lgtv_manager.System.Registering.{registers_first}
use lgtv_manager.System.Registering.Wire.{EachRequest, registers_on_wire}
use lgtv_manager.WebSocket.{
  SocketEvent, from_caller, SocketTask, socket_step, run_loop, open_socket,
}
use lgtv_manager.WebSocket.Relaying.{texts}
use lgtv_manager.Tests.Demo.{demo, demo_fsm, demo_fsm-IsRustFsm}
use lgtv_manager.Tests.Systems.{first, served, served-Reach}

-- The handler has connected.
abbrev joined : System demo
joined = record served {
  loop = step (from_ws (some (WsUpdateMessage.status Messages.connected))) served.loop;
}

abbrev moved : System demo
moved = record joined {
  fsm = task_step demo_fsm (received attempt_register) joined.fsm;
  inputs_read = connect "wss://tv" ∷ attempt_register ∷ [];
}

abbrev shown : System demo
shown = record moved {
  loop = step (from_fsm (state_update (connected "wss://tv")) []) moved.loop;
  updates_read =
      state_update (connecting "wss://tv")
      ∷ output_update (connect_to_tv "wss://tv")
      ∷ state_update (connected "wss://tv")
      ∷ [];
}

abbrev registering : System demo
registering = record shown {
  loop = step (from_fsm (output_update send_register_payload) []) shown.loop;
  updates_read =
      state_update (connecting "wss://tv")
      ∷ output_update (connect_to_tv "wss://tv")
      ∷ state_update (connected "wss://tv")
      ∷ output_update send_register_payload
      ∷ [];
}

joined-inputs : inputs joined.loop.manager.to_fsm_tx ≡ connect "wss://tv" ∷ attempt_register ∷ []
unfolding step start new handle handle_manager_message report_connect initiate_connect_to_tv
    connect_at begin_connect set_mac_addr watch check_network state_eq send_to_fsm send_out send
    emit_manager_status initialize_manager_state set_host_ip_from_ws_url set_reconnect_flow_status
    import_persisted_state read_persisted_state websocket_url_for_connection handle_update
    handle_output start_websocket_handler_and_connect set_manager_status emit_all_tv_details
    receive_ws handle_ws_message handle_ws_update handle_ws_status
joined-inputs = refl

moved-updates :
    moved.fsm.msg_tx.sent
    ≡ state_update (connecting "wss://tv")
      ∷ output_update (connect_to_tv "wss://tv")
      ∷ state_update (connected "wss://tv")
      ∷ output_update send_register_payload
      ∷ []
unfolding task_step start_state_machine transition output
moved-updates = refl

registering-Reach : Reach demo_fsm first registering
unfolding step start
registering-Reach =
    next
      (next
        (next
          (next served-Reach
            (outside (from_ws (some (WsUpdateMessage.status Messages.connected))) refl))
          (machine_turn attempt_register [] refl joined-inputs))
        (manager_turn (state_update (connected "wss://tv")) []
          (output_update send_register_payload ∷ []) refl moved-updates))
      (manager_turn (output_update send_register_payload) [] [] refl moved-updates)

abbrev register_tx : Channel WsMessage
register_tx = record { sent = payload "id" ∷ []; room = none }

registering-tx : registering.loop.manager.to_ws_tx ≡ some register_tx
unfolding step start new handle handle_manager_message report_connect initiate_connect_to_tv
    connect_at begin_connect set_mac_addr watch check_network state_eq send_to_fsm send_out send
    emit_manager_status initialize_manager_state set_host_ip_from_ws_url set_reconnect_flow_status
    import_persisted_state read_persisted_state websocket_url_for_connection handle_update
    handle_output start_websocket_handler_and_connect set_manager_status emit_all_tv_details
    receive_ws handle_ws_message handle_ws_update handle_ws_status Connect.send_register_payload
    send_register_request send_register_text generate_register_request send_to_ws
registering-tx = refl

registers_first_example :
    Proper demo (first_order register_tx.sent)
    × (asked_since false registering.updates_read ≡ true
        → is_open register_tx.room ≡ true
        → is_some (first_order register_tx.sent) ≡ true)
    × EachOrder demo register_tx.sent
registers_first_example =
    registers_first demo_fsm demo_fsm-IsRustFsm none none true register_tx registering-Reach
      registering-tx

-- The handler reads the request.
abbrev reads : List SocketEvent
reads = from_caller (some (payload "id")) true 0 ∷ []

abbrev opened : SocketTask
opened = open_socket none (channel none)

opened-texts : texts opened.written ≡ []
unfolding open_socket
opened-texts = refl

reads-texts : texts (run_loop reads opened).written ≡ "id" ∷ []
unfolding run_loop socket_step open_socket send
reads-texts = refl

registers_on_wire_example : IsRegister demo "id" × EachRequest demo []
registers_on_wire_example =
    registers_on_wire demo_fsm demo_fsm-IsRustFsm none none true register_tx reads opened [] "id" []
      registering-Reach registering-tx refl opened-texts reads-texts
