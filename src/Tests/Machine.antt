-- ===== src/Tests/Machine.antt =====
-- The theorems on src/state_machine.rs, src/helpers.rs, src/tv_commands.rs and
-- src/connection_settings.rs at concrete inputs.
use lgtv_manager.TvCommand.{set_volume}
use lgtv_manager.TvCommand.Request.{request_of}
use lgtv_manager.TvCommand.Decoding.{command_of, command_of-request_of}
use lgtv_manager.Prelude.{
  ◌+◌, ◌^◌, ◌≤◌, ◌<◌, ◌≡◌, refl, ◌↔◌, ◌⊎◌, true, false, if◌then◌else◌, some, List, [], ◌∷◌, String,
  ◌<>◌, ok, str_eq, contains, arith,
}
use lgtv_manager.Prelude.Channel.{channel, take_room}
use lgtv_manager.Helpers.{generate_possible_websocket_url, reconnect_falloff}
use lgtv_manager.Helpers.Falloff.{reconnect_falloff_bounds}
use lgtv_manager.Helpers.Urls.{Ported, scheme_of, port_of, generate_possible_websocket_url_iff}
use lgtv_manager.StateMachine.{
  disconnected, connecting, communicating, Input, connect, attempt_register, pair, initialize,
  start_communication, reset, error, initial_state, transition,
}
use lgtv_manager.StateMachine.Diagram.{Edge, transition-iff-Edge}
use lgtv_manager.Prelude.Subseq.{Subseq}
use lgtv_manager.StateMachine.Paths.{run, needed, run-needed}
use lgtv_manager.StateMachine.Task.{TaskEvent, received, cancelled, start_state_machine, run_task}
use lgtv_manager.StateMachine.Task.Replies.{replies, sent-run_task}
use lgtv_manager.Tests.Demo.{
  demo, demo_fsm, demo_fsm-IsRustFsm, json, json_reader, json_reader-IsJsonReader,
}

-- A first connection with a refused input in it.
abbrev session : List Input
session =
    connect "ws://tv"
    ∷ start_communication
    ∷ attempt_register
    ∷ pair
    ∷ initialize
    ∷ start_communication
    ∷ []

abbrev session_events : List TaskEvent
session_events =
    received (connect "ws://tv") ∷ received pair ∷ received error ∷ cancelled ∷ received reset ∷ []

run-session : run initial_state session ≡ communicating "ws://tv"
unfolding run transition
run-session = refl

transition-iff-Edge_example :
    (transition disconnected (connect "ws://tv") ≡ some (connecting "ws://tv"))
    ↔ Edge disconnected (connect "ws://tv") (connecting "ws://tv")
transition-iff-Edge_example =
    transition-iff-Edge disconnected (connect "ws://tv") (connecting "ws://tv")

run-needed_example : Subseq (needed (run initial_state session)) session
run-needed_example = run-needed session

sent-run_task_example :
    (run_task demo_fsm session_events
      (record (start_state_machine (channel (some 3))) { state = disconnected })).msg_tx.sent
    ≡ take_room (some 3) (replies demo_fsm disconnected session_events)
sent-run_task_example =
    sent-run_task demo_fsm demo_fsm-IsRustFsm session_events disconnected (some 3)

generate_possible_websocket_url_iff_example :
    (generate_possible_websocket_url demo "tv" true ≡ ok "wss://tv") ↔ (
      (str_eq "tv" "" ≡ false)
      × ((url : String) × (demo.url_parse
              (if contains "tv" "://" then "tv" else scheme_of true <> "://" <> "tv")
            ≡ ok url)
          × (demo.url_scheme url ≡ scheme_of true)
          × Ported demo (port_of true) url "wss://tv"))
generate_possible_websocket_url_iff_example =
    generate_possible_websocket_url_iff demo "tv" "wss://tv" true

generate_possible_websocket_url-tls : generate_possible_websocket_url demo "tv" true ≡ ok "wss://tv"
unfolding generate_possible_websocket_url
generate_possible_websocket_url-tls = refl

reconnect_falloff_bounds_example :
    (250 ≤ reconnect_falloff 2 250 10000)
    × (reconnect_falloff 2 250 10000 ≤ reconnect_falloff 9 250 10000)
    × (reconnect_falloff 9 250 10000 ≤ 10000)
    × ((2 ^ (2 + 6) < 10000) ⊎ (reconnect_falloff 9 250 10000 ≡ 10000))
reconnect_falloff_bounds_example =
    reconnect_falloff_bounds 2 9 250 10000 (omega arith) (omega arith) (omega arith) (omega arith)

command_of-request_of_example :
    command_of json_reader (request_of json "id" (set_volume 12)) ≡ some (set_volume 12)
command_of-request_of_example =
    command_of-request_of json_reader json_reader-IsJsonReader "id" (set_volume 12)
