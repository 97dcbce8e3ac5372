-- ===== src/Tests/Discovering.antt =====
-- The theorems on src/discovery.rs and on `discover` of src/lgtv_manager/network_utils.rs at concrete
-- inputs.
use lgtv_manager.Prelude.{
  ◌≡◌, refl, ◌↔◌, true, false, if◌then◌else◌, none, some, List, [], ◌∷◌, ◌++◌, String, contains,
  Result, ok,
}
use lgtv_manager.Prelude.Strings.{lines, trim, split_whitespace}
use lgtv_manager.Prelude.Channel.{Channel, channel, take_room}
use lgtv_manager.Environment.{Env, Failure, v4, ipv4}
use lgtv_manager.Helpers.{url_ip_addr}
use lgtv_manager.Manager.Messages.{ManagerOutputMessage, is_discovering}
use lgtv_manager.Discovery.{
  DeviceSpec, Neighbours, mac_address_for_ip, lgtv_device, visit, scan, discover_lgtv_devices,
  outcome, discover_task,
}
use lgtv_manager.Discovery.Found.{all_devices, given}
use lgtv_manager.Discovery.Macs.{First, has_ip, MacIn, mac_address_for_ip_iff}
use lgtv_manager.Discovery.Told.{sent-discover_lgtv_devices}
use lgtv_manager.Tests.Demo.{demo}

-- Every URL is at one address, and a MAC address is a text with a colon in it.
abbrev home : Env
home = record demo {
  mac_from_str = λ t. if contains t ":" then some t else none;
  url_host = λ u. some (ipv4 9);
}

abbrev neighbours : Neighbours
neighbours = record {
  ip_to_string = λ ip. "10.0.0.9";
  arp_output = λ text. ok "? (10.0.0.1) at 0:1\n? (10.0.0.9) at a:b [ether]\r\n";
}

abbrev spec : String → String → DeviceSpec
spec manufacturer udn = record {
  manufacturer = manufacturer;
  friendly_name = "living room";
  model_name = "LG TV";
  model_number = none;
  serial_number = none;
  url = "http://10.0.0.9:1400";
  udn = udn;
}

-- A TV that answers twice, and a device of another manufacturer.
abbrev stream : List (Result DeviceSpec Failure)
stream =
    ok (spec "LG Electronics" "a") ∷ ok (spec "Other" "b") ∷ ok (spec "LG Electronics" "a") ∷ []

arp-reads : mac_address_for_ip home neighbours (v4 9) ≡ some "a:b"
unfolding mac_address_for_ip lines trim split_whitespace
arp-reads = refl

one-found :
    discover_lgtv_devices home neighbours (ok stream)
    ≡ ok (
        record {
          friendly_name = "living room";
          model = "LG TV";
          model_number = none;
          serial_number = none;
          url = "http://10.0.0.9:1400";
          udn = "a";
          mac_addr = some "a:b";
        }
        ∷ [])
unfolding discover_lgtv_devices scan visit lgtv_device mac_address_for_ip url_ip_addr lines trim
    split_whitespace
one-found = refl

mac_address_for_ip_iff_example : (mac_address_for_ip home neighbours (v4 9) ≡ some "a:b") ↔ (
    (output_str : String) × (line : String) × (neighbours.arp_output
        (neighbours.ip_to_string (v4 9))
      ≡ ok output_str)
    × First (has_ip home neighbours (v4 9)) (lines output_str) line
    × MacIn home neighbours (split_whitespace (trim line)) "a:b")
mac_address_for_ip_iff_example = mac_address_for_ip_iff home neighbours (v4 9) "a:b"

-- A caller that goes away after two messages.
abbrev silent : Channel (ManagerOutputMessage String)
silent = channel (some 2)

sent-discover_lgtv_devices_example :
    (discover_task (discover_lgtv_devices home neighbours (ok stream)) silent).sent
    ≡ []
      ++ take_room (some 2) (
          is_discovering true
          ∷ outcome (given home neighbours (all_devices stream))
          ∷ is_discovering false
          ∷ [])
sent-discover_lgtv_devices_example = sent-discover_lgtv_devices home neighbours stream silent
