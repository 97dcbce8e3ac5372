-- ===== src/WebSocket.antt =====
-- The handler of a WebSocket (src/websocket_client.rs): the task that `LgTvWebSocket::start` spawns.
pub mod Connect
pub mod Joining
pub mod Lifetime
pub mod Relaying
pub mod Testing
use lgtv_manager.Prelude.{
  ℕ, ◌-◌, Bool, true, false, ◌&&◌, not, if◌then◌else◌, ltb, Option, none, some, is_some, List, [],
  ◌∷◌, ◌++◌, String, Result, ok, err,
}
use lgtv_manager.Prelude.Channel.{Channel, send, is_open}
use lgtv_manager.Manager.Messages.{
  WsMessage, shut_down, test_connection, WsStatus, idle, connected, disconnected, connect_error,
  message_read_error, server_closed_connection, WsUpdateMessage, status, is_connection_ok,
}

-- `tungstenite::Message`, as far as the handler looks at it.
pub data Message : Type 0 where
  text : String → Message
  ping pong close other : Message

-- What `select!` finds ready. `from_caller` has the message (none if the channel is closed), whether a
-- write to the socket succeeds and the time; `from_tv` the message or the text of the error; `tick`
-- the time. Times are in milliseconds.
pub data SocketEvent : Type 0 where
  from_caller : Option WsMessage → Bool → ℕ → SocketEvent
  from_tv : Result Message String → SocketEvent
  tick : ℕ → SocketEvent

-- The variables of the task, and what was written to the socket. `running` is false after a `break`.
pub record SocketTask : Type 0 where
  pub tx : Channel WsUpdateMessage
  pub connection_test_start : Option ℕ
  pub written : List Message
  pub running : Bool

-- `TEST_CONNECTION_DURATION`.
abbrev pub test_connection_duration : ℕ
test_connection_duration = 1500

-- `let _ = send_update(…)`.
tell : WsUpdateMessage → SocketTask → SocketTask
tell u t = record t { tx = send u t.tx }

-- The `break`.
leave : SocketTask → SocketTask
leave t = record t { running = false }

-- `ws_write.send(message)`, if it succeeds.
write : Message → SocketTask → SocketTask
write message t = record t { written = t.written ++ message ∷ [] }

begin_test : Bool → ℕ → SocketTask → SocketTask
unfolding write leave
begin_test writes now t =
    if is_some t.connection_test_start
    then t
    else if writes
    then record (write ping t) { connection_test_start = some now }
    else leave t

close_socket : Bool → SocketTask → SocketTask
unfolding write leave
close_socket writes t = leave (if writes then write close t else t)

handle_caller : Option WsMessage → Bool → ℕ → SocketTask → SocketTask
unfolding begin_test close_socket write leave
handle_caller none writes now t = close_socket writes t
handle_caller (some shut_down) writes now t = close_socket writes t
handle_caller (some (WsMessage.payload p)) writes now t =
    if writes then write (text p) t else leave t
handle_caller (some test_connection) writes now t = begin_test writes now t

end_test : SocketTask → SocketTask
unfolding tell
end_test t =
    if is_some t.connection_test_start
    then tell (is_connection_ok true) (record t { connection_test_start = none })
    else t

forward : String → SocketTask → SocketTask
unfolding tell
forward p t = record (tell (WsUpdateMessage.payload p) t) { running = is_open t.tx.room }

handle_message : Message → SocketTask → SocketTask
unfolding forward end_test tell leave
handle_message (text p) t = forward p t
handle_message ping t = t
handle_message pong t = end_test t
handle_message close t = leave (tell (status server_closed_connection) t)
handle_message other t = t

handle_read : Result Message String → SocketTask → SocketTask
unfolding handle_message tell leave
handle_read (ok message) t = handle_message message t
handle_read (err e) t = leave (tell (status (message_read_error e)) t)

-- A test that is too old has failed. `duration_since` fails if the clock went back.
check_test : Option ℕ → ℕ → SocketTask → SocketTask
unfolding tell
check_test none now t = t
check_test (some start) now t =
    if not (ltb now start) && ltb test_connection_duration (now - start)
    then tell (is_connection_ok false) t
    else t

handle_event : SocketEvent → SocketTask → SocketTask
unfolding handle_caller handle_read check_test
handle_event (from_caller message writes now) t = handle_caller message writes now t
handle_event (from_tv read) t = handle_read read t
handle_event (tick now) t = check_test t.connection_test_start now t

-- One round of the loop; none is made after a `break`.
unfoldable pub socket_step : SocketEvent → SocketTask → SocketTask
unfolding handle_event
socket_step e t = if t.running then handle_event e t else t

unfoldable pub run_loop : List SocketEvent → SocketTask → SocketTask
run_loop [] t = t
run_loop (e ∷ es) t = run_loop es (socket_step e t)

-- What follows the loop, once it is left.
unfoldable pub finish : SocketTask → SocketTask
unfolding tell
finish t = if t.running then t else tell (status disconnected) t

-- The task before its loop, with the result of `connect`.
unfoldable pub open_socket : Option String → Channel WsUpdateMessage → SocketTask
open_socket (some e) tx = record {
  tx = send (status (connect_error e)) tx;
  connection_test_start = none;
  written = [];
  running = false;
}
open_socket none tx = record {
  tx = send (status connected) tx;
  connection_test_start = none;
  written = [];
  running = is_open tx.room;
}

-- The loop and its end, if the task gets there.
unfoldable pub serve : List SocketEvent → SocketTask → SocketTask
serve es t = if t.running then finish (run_loop es t) else t

-- The task of `start`.
unfoldable pub handler : Option String → List SocketEvent → Channel WsUpdateMessage → SocketTask
unfolding open_socket
handler failure es tx =
    if is_open tx.room
    then serve es (open_socket failure (send (status idle) tx))
    else record { tx = tx; connection_test_start = none; written = []; running = false }
