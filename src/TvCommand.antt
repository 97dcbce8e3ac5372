-- ===== src/TvCommand.antt =====
-- The LG control commands (src/tv_commands.rs).
pub mod Request
pub mod Decoding
use lgtv_manager.Prelude.{ℕ, String, Bool}

-- `enum TvCommand`.
pub data TvCommand : Type 0 where
  get_current_sw_info : TvCommand
  get_external_input_list : TvCommand
  get_power_state : TvCommand
  get_system_info : TvCommand
  get_volume : TvCommand
  media_fast_forward : TvCommand
  media_pause : TvCommand
  media_play : TvCommand
  media_rewind : TvCommand
  media_stop : TvCommand
  set_mute : Bool → TvCommand
  set_screen_on : Bool → TvCommand
  set_volume : ℕ → TvCommand
  subscribe_get_volume : TvCommand
  subscribe_get_power_state : TvCommand
  switch_input : String → TvCommand
  turn_off : TvCommand
  volume_down : TvCommand
  volume_up : TvCommand
