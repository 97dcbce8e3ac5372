-- ===== src/Tests/Waking.antt =====
-- The theorem on Wake-on-LAN (src/lgtv_manager/network_utils.rs) at a concrete manager.
use lgtv_manager.Prelude.{◌≡◌, refl, none, some, [], ◌∷◌, String, ok}
use lgtv_manager.Environment.{Env, v4, ipv4}
use lgtv_manager.Helpers.{url_ip_addr}
use lgtv_manager.Manager.State.{Manager, blank}
use lgtv_manager.Manager.Persisted.{read_persisted_state}
use lgtv_manager.Manager.Network.{wake_last_seen_tv}
use lgtv_manager.Manager.Waking.{targets, after_waking, wake_outcome}
use lgtv_manager.Tests.Demo.{demo}

-- Every URL is at one address, and every persisted state has a MAC address.
abbrev lan : Env
lan = record demo {
  url_host = λ u. some (ipv4 9);
  persisted_from_str =
      λ t. ok (record { ws_url = some t; client_key = none; mac_addr = some "a:b" });
}

abbrev sleeper : Manager lan
sleeper = record (blank lan none none) {
  data_dir = some "/tmp";
  disk = some ("lgtv_manager_data.json", "wss://tv");
}

one_sent : (wake_last_seen_tv sleeper).wol_sent ≡ ("a:b", v4 9) ∷ []
unfolding wake_last_seen_tv read_persisted_state url_ip_addr
one_sent = refl

wake_outcome_example :
    let (read, disk) = read_persisted_state lan sleeper.data_dir sleeper.disk in
    (text : String) × (wake_last_seen_tv sleeper
      ≡ after_waking (targets lan read) text (record sleeper { disk = disk }))
wake_outcome_example = wake_outcome {E = lan} sleeper
