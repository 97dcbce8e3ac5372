-- ===== src/Tests/Retrying.antt =====
-- The theorems on reconnects that go wrong (src/lgtv_manager.rs and src/lgtv_manager/orchestration.rs)
-- at concrete managers.
use lgtv_manager.Prelude.{◌≡◌, refl, true, false, none, some, Option, []}
use lgtv_manager.Prelude.Channel.{channel, send}
use lgtv_manager.Helpers.{generate_register_request}
use lgtv_manager.StateMachine.{
  Input, connecting, transition, disconnect_from_tv, handle_successful_disconnect,
}
use lgtv_manager.StateMachine as Machine
use lgtv_manager.StateMachine.Task.{transition_error}
use lgtv_manager.Manager.Messages.{ManagerMessage, WsUpdateMessage, WsStatus, active, inactive}
use lgtv_manager.Manager.State.{Manager}
use lgtv_manager.Manager.Senders.{send_out, send_to_fsm, set_reconnect_flow_status}
use lgtv_manager.Manager.Reset.{send_to_ws}
use lgtv_manager.Manager.Network.{is_auto_reconnect_enabled}
use lgtv_manager.Manager.Orchestration.Connect as Connect
use lgtv_manager.Manager.Orchestration.Connect.{send_register_request, send_register_text}
use lgtv_manager.Manager.Handlers.Caller.{handle_manager_message}
use lgtv_manager.Manager.Handlers.Machine.{handle_update, handle_output}
use lgtv_manager.Manager.Handlers.Socket.{handle_ws_message}
use lgtv_manager.Manager.Refusing.{refused_disconnect-lost}
use lgtv_manager.Tests.Demo.{demo}
use lgtv_manager.Tests.Managers.{retrying}

-- One that was connected before and sees the TV.
abbrev seasoned : Manager demo
seasoned = record retrying { session_connection_count = 1; is_tv_on_network = true }

-- One that connects, with a handler that listens.
abbrev joining : Manager demo
joining = record seasoned {
  manager_status = connecting "wss://tv";
  to_ws_tx = some (channel none);
  from_ws_rx = some 0;
  ws_join_handle = some 0;
}

abbrev refused : Manager demo
refused =
    handle_update (transition_error "refused") []
      (handle_manager_message ManagerMessage.disconnect joining)

abbrev made : Manager demo
made = handle_output Machine.send_register_payload [] refused

made-asks : is_auto_reconnect_enabled made ≡ true
unfolding handle_update handle_manager_message handle_output send_out send_to_fsm send
    set_reconnect_flow_status Connect.send_register_payload send_register_request send_register_text
    generate_register_request send_to_ws
made-asks = refl

made-sees : made.is_tv_on_network ≡ true
unfolding handle_update handle_manager_message handle_output send_out send_to_fsm send
    set_reconnect_flow_status Connect.send_register_payload send_register_request send_register_text
    generate_register_request send_to_ws
made-sees = refl

refused_disconnect-lost_example :
    let loss : Option WsUpdateMessage =
      some (WsUpdateMessage.status (WsStatus.message_read_error "reset by peer")) in
    let unmarked = record made { is_manual_disconnect_requested = false } in
    let closing = handle_output disconnect_from_tv [] (handle_ws_message loss made) in
    let after = handle_output handle_successful_disconnect [] closing in
    (transition (connecting "wss://tv") Input.disconnect ≡ none)
    × ((handle_ws_message loss unmarked).reconnect_flow_status ≡ active)
    × (after.reconnect_flow_status ≡ inactive)
    × (after.connection_details ≡ none)
refused_disconnect-lost_example =
    refused_disconnect-lost {E = demo} "wss://tv" "refused" "reset by peer" [] [] [] [] joining
      made-asks made-sees
