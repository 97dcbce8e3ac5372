-- ===== src/Tests/Programs.antt =====
-- The theorems on the example programs (examples/control.rs and examples/discover.rs) at concrete
-- inputs.
use lgtv_manager.Prelude.{
  ◌≡◌, refl, sym, ap, length, true, false, not, none, some, List, [], ◌∷◌, Result, ok, err, String,
}
use lgtv_manager.Prelude.Channel.{channel, send}
use lgtv_manager.Prelude.Strings.{trim}
use lgtv_manager.Environment.{Failure}
use lgtv_manager.Discovery.{DeviceSpec, Neighbours, discover_lgtv_devices, discover_task}
use lgtv_manager.Discovery.Told.{sent-discover_lgtv_devices}
use lgtv_manager.Discovery.Found.{all_devices}
use lgtv_manager.TvCommand.{volume_up}
use lgtv_manager.StateMachine.{State}
use lgtv_manager.Manager.Messages.{
  discover, send_tv_command, shut_down, test_connection, ManagerOutputMessage, status,
  is_discovering,
}
use lgtv_manager.Manager.MainLoop.{from_caller, network_checked, new, start, run}
use lgtv_manager.Examples.{console, announce, listing, await_devices, discover_example}
use lgtv_manager.Examples.Ends.{
  caller_messages, has_stop, control_ends, discover_ends, is_ok, devices_in,
}
use lgtv_manager.Tests.Demo.{demo, failure}

abbrev keys : List String
keys = " u\n" ∷ "x\n" ∷ "t\n" ∷ "s\n" ∷ "d\n" ∷ []

console-keys : console keys (channel none) ≡ (
  true,
  record { sent = send_tv_command volume_up ∷ test_connection ∷ shut_down ∷ []; room = none },
)
unfolding console send trim
console-keys = refl

-- The program's receiver goes away after one message.
console-closed : (console keys (channel (some 1))).0 ≡ false
unfolding console send trim
console-closed = refl

-- Only the disconnected status brings the list of the keys.
announces :
    (length (announce {M = String} (λ m. "m") (λ ds. "") (status State.disconnected)) ≡ 4)
    × (announce {M = String} (λ m. "m") (λ ds. "") (is_discovering true)
        ≡ "<<< Received message from LgTvManager: m" ∷ [])
unfolding announce
announces = (refl, refl)

lists_none : listing {M = String} (λ m. "m") (λ ds. "") [] ≡ "\nNo LG TV devices found.\n"
unfolding listing
lists_none = refl

-- The messages of the console among events of the network checker.
control_ends_example :
    ((console keys (channel none)).0 ≡ true)
    × ((run
          (from_caller (send_tv_command volume_up)
            ∷ network_checked
            ∷ from_caller test_connection
            ∷ from_caller shut_down
            ∷ network_checked
            ∷ [])
          (start none true (new demo none none))).running
        ≡ not (has_stop keys))
control_ends_example =
    control_ends demo none none true keys
      (from_caller (send_tv_command volume_up)
        ∷ network_checked
        ∷ from_caller test_connection
        ∷ from_caller shut_down
        ∷ network_checked
        ∷ [])
      (sym (ap (λ r. r.1.sent) console-keys))

abbrev no_neighbours : Neighbours
no_neighbours = record {
  ip_to_string = λ ip. "10.0.0.9";
  arp_output = λ text. err (failure "no arp");
}

-- The network is gone while the devices answer.
abbrev broken : List (Result DeviceSpec Failure)
broken = err (failure "network") ∷ []

abbrev told : List (ManagerOutputMessage String)
told = is_discovering true ∷ status State.disconnected ∷ is_discovering false ∷ []

told-devices :
    devices_in {M = String} told
    ≡ devices_in {M = String}
        (discover_task (discover_lgtv_devices demo no_neighbours (ok broken)) (channel none)).sent
told-devices = sym (
    ap (devices_in {M = String})
      (sent-discover_lgtv_devices demo no_neighbours broken (channel none)))

told-sent :
    caller_messages (from_caller discover ∷ network_checked ∷ [])
    ≡ (discover_example told (channel none)).sent
unfolding discover_example await_devices send
told-sent = refl

discover_ends_example :
    (run
      (from_caller discover ∷ network_checked ∷ [])
      (start none true (new demo none none))).running
    ≡ not (is_ok (all_devices broken))
discover_ends_example =
    discover_ends demo no_neighbours none none true broken told
      (from_caller discover ∷ network_checked ∷ []) told-devices told-sent
