-- ===== src/TvCommand/Request.antt =====
-- The request that a command is sent as (`impl From<TvCommand> for String` of src/tv_commands.rs).
use lgtv_manager.Prelude.{if◌then◌else◌, Option, none, some, String, ◌<>◌, ok, err}
use lgtv_manager.Environment.{Env}
use lgtv_manager.Ssap.{LgTvRequest, request, subscribe}
use lgtv_manager.TvCommand.{
  TvCommand, get_current_sw_info, get_external_input_list, get_power_state, get_system_info,
  get_volume, media_fast_forward, media_pause, media_play, media_rewind, media_stop, set_mute,
  set_screen_on, set_volume, subscribe_get_volume, subscribe_get_power_state, switch_input,
  turn_off, volume_down, volume_up,
}

-- The path behind the scheme of the URI.
path : TvCommand → String
path get_current_sw_info = "com.webos.service.update/getCurrentSWInformation"
path get_external_input_list = "tv/getExternalInputList"
path get_power_state = "com.webos.service.tvpower/power/getPowerState"
path get_system_info = "system/getSystemInfo"
path get_volume = "audio/getVolume"
path media_fast_forward = "media.controls/fastForward"
path media_pause = "media.controls/pause"
path media_play = "media.controls/play"
path media_rewind = "media.controls/rewind"
path media_stop = "media.controls/stop"
path (set_mute _) = "audio/setMute"
path (set_screen_on value) =
    "com.webos.service.tvpower/power/turn" <> (if value then "On" else "Off") <> "Screen"
path (set_volume _) = "audio/setVolume"
path subscribe_get_volume = "audio/getVolume"
path subscribe_get_power_state = "com.webos.service.tvpower/power/getPowerState"
path (switch_input _) = "tv/switchInput"
path turn_off = "system/turnOff"
path volume_down = "audio/volumeDown"
path volume_up = "audio/volumeUp"

-- Subscriptions have identifiers of their own, `GET_VOLUME_SUBSCRIPTION_ID` and
-- `GET_POWER_STATE_SUBSCRIPTION_ID`.
abbrev pub subscription_id : TvCommand → Option String
subscription_id subscribe_get_volume = some "get_volume_subscription"
subscription_id subscribe_get_power_state = some "get_power_state_subscription"
subscription_id _ = none

module _ (E : Env) where
  -- A map with one entry, as a JSON object.
  entry : String → E.Value → Option E.Value
  entry key value = some (E.value_object (E.map_insert key value E.map_new))

  arguments : TvCommand → Option E.Value
  unfolding entry
  arguments (set_mute value) = entry "mute" (E.value_bool value)
  arguments (set_screen_on _) = entry "standbyMode" (E.value_string "active")
  arguments (set_volume value) = entry "volume" (E.value_number value)
  arguments (switch_input input_id) = entry "inputId" (E.value_string input_id)
  arguments _ = none

  plain_request : String → TvCommand → LgTvRequest E.Value
  unfolding arguments path
  plain_request id c = record {
    type = request;
    id = id;
    uri = some ("ssap://" <> path c);
    payload = arguments c;
  }

  -- `data` in the arms of the `match`; `id` is the identifier that is generated for a request.
  unfoldable pub request_of : String → TvCommand → LgTvRequest E.Value
  unfolding plain_request
  request_of id c = elim (subscription_id c) [
    | none ↦ plain_request id c
    | some subscription ↦ record (plain_request subscription c) { type = subscribe }
  ]

  -- The string of a command, empty if it cannot be written.
  unfoldable pub command_string : String → TvCommand → String
  command_string id c = elim (E.request_to_string (request_of id c)) [ ok text ↦ text | err _ ↦ "" ]
