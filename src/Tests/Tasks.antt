-- ===== src/Tests/Tasks.antt =====
-- The theorems on src/websocket_client.rs and src/tv_network_check.rs at concrete inputs.
use lgtv_manager.Manager.Orchestration.Connect.{set_tv_ip}
use lgtv_manager.Prelude.{
  length, ◌⊎◌, ◌≡◌, ◌↔◌, ◌≤◌, length, refl, true, false, none, some, List, [], ◌∷◌, ◌++◌, ok, err,
  arith,
}
use lgtv_manager.Prelude.Channel.{channel, send}
use lgtv_manager.Environment.{v4}
use lgtv_manager.Manager.Messages.{
  WsMessage, shut_down, test_connection, status, idle, connected, connect_error,
}
use lgtv_manager.NetworkCheck.{
  CheckerEvent, ping_interval, tv_ip_notified, check_notified, ping_ended, tv_ip_set, checker_step,
  run_checker, start_checker,
}
use lgtv_manager.NetworkCheck.Pinging.{
  PingInv, Pinged, own, all_own, run_checker-PingInv, set_ip-Pinged,
}
use lgtv_manager.WebSocket.{
  SocketTask, SocketEvent, from_caller, from_tv, tick, text, close, socket_step, run_loop,
  open_socket, handler,
}
use lgtv_manager.WebSocket.{serve}
use lgtv_manager.WebSocket.Connect.{Network, opened, io_error, elapsed, connect, start}
use lgtv_manager.WebSocket.Relaying.{texts, payloads, ordered, read, all_of, Passes, relays}
use lgtv_manager.WebSocket.Joining.{Awaited, AwaitReach, Ended, join_ends_iff}
use lgtv_manager.WebSocket.Joining.Flooding.{caught_up, flood_hangs}
use lgtv_manager.Tests.Demo.{demo, failure}
use lgtv_manager.WebSocket.Lifetime.{
  statuses, last_words, left_at, connected_task, Opens, statuses-start,
}
use lgtv_manager.WebSocket.Testing.{verdicts, pings, all_late, unanswered_test}

abbrev traffic : List SocketEvent
traffic =
    from_tv (ok (text "{}"))
    ∷ from_caller (some (WsMessage.payload "register")) true 10
    ∷ tick 1000
    ∷ from_caller (some shut_down) true 1200
    ∷ from_tv (err "closed")
    ∷ []

abbrev open_task : SocketTask
open_task = record { tx = channel none; connection_test_start = none; written = []; running = true }

abbrev testing_task : SocketTask
testing_task = record open_task { connection_test_start = some 100 }

-- A network on which the TV answers.
abbrev online : Network demo
online = record { tls_connector = none; connect_async = λ url connector. opened }

-- The TV closes the connection after a text and a request.
abbrev closed : List SocketEvent
closed =
    from_tv (ok (text "{}"))
    ∷ from_caller (some (WsMessage.payload "register")) true 10
    ∷ from_tv (ok close)
    ∷ []

statuses-start_example :
    (statuses (start demo online "wss://tv" true closed (channel none)).tx.sent
      ≡ (elim (connect demo online "wss://tv" true) [
        | some e ↦ idle ∷ connect_error e ∷ []
        | none ↦ idle ∷ connected ∷ last_words (left_at closed connected_task)
      ]))
    × ((connect demo online "wss://tv" true ≡ none) ↔ Opens demo online "wss://tv" true)
statuses-start_example = statuses-start demo online "wss://tv" true closed

-- A network on which nothing answers, and one on which the TV is off.
abbrev silence : Network demo
silence = record { tls_connector = none; connect_async = λ url connector. elapsed }

abbrev host_down : Network demo
host_down = record {
  tls_connector = none;
  connect_async = λ url connector. io_error (failure "Host is down (os error 64)");
}

timed_out :
    (start demo silence "wss://tv" true [] (channel none)).tx.sent
    ≡ status idle ∷ status (connect_error "Connection timeout") ∷ []
unfolding start connect handler open_socket serve send
timed_out = refl

down : connect demo host_down "wss://tv" true ≡ some "Host is down"
unfolding connect
down = refl

-- The second write fails, and the TV's last text is not read any more.
abbrev busy : List SocketEvent
busy =
    from_caller (some (WsMessage.payload "a")) true 1
    ∷ from_tv (ok (text "b"))
    ∷ from_caller (some test_connection) true 2
    ∷ from_caller (some (WsMessage.payload "c")) false 3
    ∷ from_tv (ok (text "d"))
    ∷ []

busy-written : texts (run_loop busy open_task).written ≡ "a" ∷ []
unfolding run_loop socket_step send
busy-written = refl

relays_example :
    let after = run_loop busy open_task in
    Passes after.running [] (all_of ordered busy) (texts after.written)
    × Passes after.running [] (all_of read busy) (payloads after.tx.sent)
relays_example = relays busy open_task refl

-- Two late ticks, and a request for a test between them.
abbrev unanswered : List SocketEvent
unanswered = tick 2000 ∷ from_caller (some test_connection) true 2000 ∷ tick 3000 ∷ []

unanswered-runs : (run_loop unanswered testing_task).running ≡ true
unfolding run_loop socket_step send
unanswered-runs = refl

unanswered_test_example :
    let after = run_loop unanswered testing_task in
    (verdicts after.tx.sent ≡ verdicts testing_task.tx.sent ++ all_late 100 unanswered)
    × (after.connection_test_start ≡ some 100)
    × (pings after.written ≡ pings testing_task.written)
unanswered_test_example = unanswered_test 100 unanswered testing_task refl refl refl unanswered-runs

-- A check that was asked for is under way when the address changes.
abbrev checks : List CheckerEvent
checks =
    tv_ip_set (v4 1)
    ∷ tv_ip_notified
    ∷ ping_interval
    ∷ tv_ip_set (v4 2)
    ∷ ping_ended false
    ∷ check_notified
    ∷ ping_ended true
    ∷ []

run_checker-PingInv_example : PingInv (run_checker checks start_checker)
run_checker-PingInv_example = run_checker-PingInv checks

-- The old address is checked first, and then the new one.
abbrev turns : List CheckerEvent
turns = check_notified ∷ ping_ended true ∷ tv_ip_notified ∷ check_notified ∷ []

turns-own :
    all_own turns
      (run_checker [] (checker_step (tv_ip_set (v4 3)) (run_checker checks start_checker)))
    ≡ true
unfolding run_checker checker_step set_tv_ip
turns-own = refl

set_ip-Pinged_example :
    let asked = checker_step (tv_ip_set (v4 3)) (run_checker checks start_checker) in
    (Pinged (v4 3) turns asked ⊎ ((e : CheckerEvent) × (own e (run_checker turns asked) ≡ true)))
    × (length turns ≤ 7)
set_ip-Pinged_example = set_ip-Pinged checks (v4 3) [] turns refl turns-own

join_ends_iff_example :
    ((u : Awaited) × AwaitReach 32 0 (caught_up open_task) u × Ended u) ↔ (1 ≤ 32)
join_ends_iff_example =
    join_ends_iff 32 0 (caught_up open_task) [] refl refl refl refl (omega arith)

flood_hangs_example :
    (s : Awaited) × AwaitReach 32 0 (caught_up open_task) s
    × (s.task.running ≡ true)
    × (length s.task.tx.sent ≡ 32)
    × ¬ ((u : Awaited) × AwaitReach 32 0 s u × Ended u)
flood_hangs_example = flood_hangs 32 "{}" open_task refl refl
