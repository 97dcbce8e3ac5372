-- ===== src/Tests/Displaying.antt =====
-- The `Display` texts at concrete values, those of the unit tests of src/discovery.rs among them.
use lgtv_manager.Prelude.{◌≡◌, refl, none, true}
use lgtv_manager.StateMachine.{pairing, zombie}
use lgtv_manager.TvCommand.{set_mute, set_volume}
use lgtv_manager.Display.{display_state, display_command, display_connection, display_device}
use lgtv_manager.Tests.Managers.{tv}

device_text :
    display_device (record {
      friendly_name = "LG WebOS TV";
      model = "model";
      model_number = none;
      serial_number = none;
      url = "http://38.0.101.76:3000";
      udn = "uuid:00000000-0000-0000-0000-000000000000";
      mac_addr = none;
    })
    ≡ "LG WebOS TV (model) [uuid:00000000-0000-0000-0000-000000000000]"
unfolding display_device
device_text = refl

volume_text : display_command (λ c. "") (set_volume 105) ≡ "SetVolume(105)"
unfolding display_command
volume_text = refl

loudest_text : display_command (λ c. "") (set_volume 255) ≡ "SetVolume(255)"
unfolding display_command
loudest_text = refl

mute_text : display_command (λ c. "") (set_mute true) ≡ "SetMute(true)"
unfolding display_command
mute_text = refl

state_text : display_state (λ s. "Zombie") (pairing "wss://tv") ≡ "Pairing(wss://tv)"
unfolding display_state
state_text = refl

zombie_text : display_state (λ s. "Zombie") zombie ≡ "Zombie"
unfolding display_state
zombie_text = refl

connection_text : display_connection (λ s. "{}") tv ≡ "Connection to host 'tv', {}"
unfolding display_connection
connection_text = refl
