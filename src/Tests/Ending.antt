-- ===== src/Tests/Ending.antt =====
-- The theorems on the end of the manager's loop and of a WebSocket handler (src/lgtv_manager.rs and
-- src/websocket_client.rs) at concrete inputs.
use lgtv_manager.Prelude.{◌≡◌, refl, true, false, is_some, none, some, List, [], ◌∷◌}
use lgtv_manager.Prelude.Channel.{Channel, channel, send}
use lgtv_manager.Manager.Messages.{WsMessage, test_connection, shut_down}
use lgtv_manager.Manager.State.{Manager}
use lgtv_manager.Manager.Reset.{send_to_ws}
use lgtv_manager.Manager.Orchestration.Connect.{initiate_disconnect_from_tv}
use lgtv_manager.Manager.Handlers.Caller.{handle_manager_message}
use lgtv_manager.Manager.MainLoop.{from_ws, MainLoop, step, run}
use lgtv_manager.Manager.Ending.{shut_down-ends_handler}
use lgtv_manager.Manager.Listening.{receiver_stays}
use lgtv_manager.WebSocket.{SocketEvent, SocketTask, from_tv, tick, run_loop}
use lgtv_manager.WebSocket as Socket
use lgtv_manager.Tests.Demo.{demo}
use lgtv_manager.Tests.Managers.{idle, events}

-- A manager with a WebSocket handler that was sent a message.
abbrev handler_tx : Channel WsMessage
handler_tx = record (channel none) { sent = test_connection ∷ [] }

abbrev served : Manager demo
served = record idle { to_ws_tx = some handler_tx; from_ws_rx = some 0; ws_join_handle = some 0 }

abbrev looping : MainLoop demo
looping = record { manager = served; was_on_network = false; running = true }

-- What the handler finds ready: both messages of the manager, and ticks before and after.
abbrev socket_events : List SocketEvent
socket_events =
    tick 100
    ∷ Socket.from_caller (some test_connection) true 200
    ∷ Socket.from_caller (some shut_down) true 300
    ∷ tick 400
    ∷ []

abbrev task : SocketTask
task = record { tx = channel none; connection_test_start = none; written = []; running = true }

receiver_stays_example :
    (is_some (run events looping).manager.from_ws_rx ≡ true)
    × (step (from_ws none) (run events looping) ≡ run events looping)
receiver_stays_example = receiver_stays events looping [] refl refl

shut_down-ends_handler_example : (run_loop socket_events task).running ≡ false
unfolding handle_manager_message initiate_disconnect_from_tv send_to_ws send
shut_down-ends_handler_example =
    shut_down-ends_handler served handler_tx socket_events task refl refl refl refl
