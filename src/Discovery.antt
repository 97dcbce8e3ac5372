-- ===== src/Discovery.antt =====
-- The discovery of LG TVs (src/discovery.rs), and the task of `LgTvManager::discover`
-- (src/lgtv_manager/network_utils.rs). The crate rupnp and the tool arp are parameters.
pub mod Found
pub mod Macs
pub mod Told
use text.Mathlib.Text.{starts_with}
use lgtv_manager.Prelude.{
  ◌▹◌, Bool, true, false, ◌&&◌, ◌||◌, if◌then◌else◌, is_some, Option, none, some, List, [], ◌∷◌,
  ◌++◌, String, ◌<>◌, str_eq, contains, Result, ok, err,
}
use lgtv_manager.Prelude.Strings.{lines, trim, split_whitespace}
use lgtv_manager.Prelude.Channel.{Channel, send}
use lgtv_manager.Connection.{LgTvDevice}
use lgtv_manager.Environment.{Env, Failure, IpAddr}
use lgtv_manager.Helpers.{url_ip_addr}
use lgtv_manager.Manager.Messages.{
  ManagerOutputMessage, error, discovery, discovered_devices, is_discovering,
}

-- What `rupnp::Device` tells of a device that was found.
pub record DeviceSpec : Type 0 where
  pub manufacturer : String
  pub friendly_name : String
  pub model_name : String
  pub model_number : Option String
  pub serial_number : Option String
  pub url : String
  pub udn : String

-- The text of an address, and what the tool arp writes when it is asked for an address.
pub record Neighbours : Type 0 where
  pub ip_to_string : IpAddr → String
  pub arp_output : String → Result String Failure

-- `seen_udns` and `discovered_lgtv_devices`.
pub record Search : Type 0 where
  pub seen_udns : List String
  pub discovered_lgtv_devices : List LgTvDevice

-- `HashSet::contains`.
abbrev pub is_in : String → List String → Bool
is_in u [] = false
is_in u (v ∷ vs) = str_eq u v || is_in u vs

-- The test on the manufacturer and the model.
abbrev pub is_lg_tv : DeviceSpec → Bool
is_lg_tv d = starts_with d.manufacturer "LG Elec" && contains d.model_name "TV"

module _ (E : Env) (net : Neighbours) where
  -- The loop over the words of a line.
  mac_in_words : List String → Option E.MacAddr
  mac_in_words [] = none
  mac_in_words (output_chunk ∷ output_chunks) = elim (E.mac_from_str output_chunk) [
    | some mac ↦ some mac
    | none ↦ mac_in_words output_chunks
  ]

  -- The loop over the lines: the first one that has the address decides.
  mac_in_lines : String → List String → Option E.MacAddr
  unfolding mac_in_words
  mac_in_lines ip [] = none
  mac_in_lines ip (line ∷ rest) =
      let later = mac_in_lines ip rest in
      if contains line ip then mac_in_words (split_whitespace (trim line)) else later

  -- `fn mac_address_for_ip`.
  unfoldable pub mac_address_for_ip : IpAddr → Option E.MacAddr
  unfolding mac_in_lines
  mac_address_for_ip ip = elim (net.arp_output (net.ip_to_string ip)) [
    | ok output_str ↦ mac_in_lines (net.ip_to_string ip) (lines output_str)
    | err _ ↦ none
  ]

  mac_of_ip : Option IpAddr → Option String
  mac_of_ip none = none
  mac_of_ip (some ip_addr) = elim (mac_address_for_ip ip_addr) [
    | some mac ↦ some (E.mac_to_string mac)
    | none ↦ none
  ]

  -- The device as it is handed to the caller.
  unfoldable pub lgtv_device : DeviceSpec → LgTvDevice
  unfolding mac_of_ip
  lgtv_device d = record {
    friendly_name = d.friendly_name;
    model = d.model_name;
    model_number = d.model_number;
    serial_number = d.serial_number;
    url = d.url;
    udn = d.udn;
    mac_addr = mac_of_ip (url_ip_addr E d.url);
  }

  -- The body of the loop, for a device.
  unfoldable pub visit : DeviceSpec → Search → Search
  visit d s = if is_in d.udn s.seen_udns then s else record {
    seen_udns = d.udn ∷ s.seen_udns;
    discovered_lgtv_devices =
        if is_lg_tv d
        then s.discovered_lgtv_devices ++ lgtv_device d ∷ []
        else s.discovered_lgtv_devices;
  }

  -- The loop over the stream of devices, which an error ends.
  unfoldable pub scan : List (Result DeviceSpec Failure) → Search → Result (List LgTvDevice) String
  scan [] s = ok s.discovered_lgtv_devices
  scan (ok d ∷ rest) s = scan rest (visit d s)
  scan (err e ∷ rest) s = err ("UPnP discovery error: " <> E.debug_str e.display)

  -- `fn discover_lgtv_devices`, given what `rupnp::discover` gives.
  unfoldable pub discover_lgtv_devices :
      Result (List (Result DeviceSpec Failure)) Failure → Result (List LgTvDevice) String
  discover_lgtv_devices (ok devices) =
      scan devices (record { seen_udns = []; discovered_lgtv_devices = [] })
  discover_lgtv_devices (err e) = ok []

-- The three messages of the task, in its order.
pub data News : Type 0 where
  began : News
  gave : Result (List LgTvDevice) String → News
  over : News

module _ {M : Type 0} where
  -- `send_out_with_sender`.
  send_out_with_sender :
      ManagerOutputMessage M → Channel (ManagerOutputMessage M) → Channel (ManagerOutputMessage M)
  unfolding send
  send_out_with_sender message sender = send message sender

  -- The message of the result.
  abbrev pub outcome : Result (List LgTvDevice) String → ManagerOutputMessage M
  outcome (ok discovered_lgtv_devices) = discovered_devices discovered_lgtv_devices
  outcome (err e) = error (discovery ("Discovery failed: " <> e))

  -- What the task has to tell.
  abbrev pub message_of : News → ManagerOutputMessage M
  message_of began = is_discovering true
  message_of (gave result) = outcome result
  message_of over = is_discovering false

  -- The task of `discover`, given what the discovery gives.
  unfoldable pub discover_task :
      Result (List LgTvDevice) String
      → Channel (ManagerOutputMessage M)
      → Channel (ManagerOutputMessage M)
  unfolding send_out_with_sender
  discover_task result output_tx =
      output_tx
      ▹ send_out_with_sender (message_of began)
      ▹ send_out_with_sender (message_of (gave result))
      ▹ send_out_with_sender (message_of over)
