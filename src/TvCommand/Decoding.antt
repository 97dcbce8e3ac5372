-- ===== src/TvCommand/Decoding.antt =====
-- What a TV reads from the request of a command (`impl From<TvCommand> for String` of
-- src/tv_commands.rs).
use lgtv_manager.Prelude.{
  ℕ, ◌≡◌, refl, Bool, true, false, if◌then◌else◌, Option, none, some, String, str_eq, List, [], ◌∷◌,
}
use lgtv_manager.Environment.{Env}
use lgtv_manager.Ssap.{LgTvRequest, LgTvRequestType, register, request, subscribe}
use lgtv_manager.TvCommand.{
  TvCommand, get_current_sw_info, get_external_input_list, get_power_state, get_system_info,
  get_volume, media_fast_forward, media_pause, media_play, media_rewind, media_stop, set_mute,
  set_screen_on, set_volume, subscribe_get_volume, subscribe_get_power_state, switch_input,
  turn_off, volume_down, volume_up,
}
use lgtv_manager.TvCommand.Request.{request_of}

-- How serde_json reads a value: `Value::get` on an object, `as_bool`, `as_u64` and `as_str`.
pub record JsonReader (E : Env) : Type 0 where
  pub get : String → E.Value → Option E.Value
  pub as_bool : E.Value → Option Bool
  pub as_u64 : E.Value → Option ℕ
  pub as_str : E.Value → Option String

-- A value that was put into a map is found there, and one that was made of a Rust value gives it.
pub record IsJsonReader (E : Env) (reader : JsonReader E) : Type 0 where
  pub found :
      (key : String) (value : E.Value) (map : E.Map)
      → reader.get key (E.value_object (E.map_insert key value map)) ≡ some value
  pub bool_read : (b : Bool) → reader.as_bool (E.value_bool b) ≡ some b
  pub number_read : (n : ℕ) → reader.as_u64 (E.value_number n) ≡ some n
  pub string_read : (s : String) → reader.as_str (E.value_string s) ≡ some s

abbrev and_then : {A B : Type 0} → Option A → (A → Option B) → Option B
and_then none f = none
and_then (some a) f = f a

module _ {E : Env} (reader : JsonReader E) where
  -- The argument with the given name.
  abbrev argument :
      {A : Type 0}
      → String
      → (E.Value → Option A)
      → (A → TvCommand)
      → Option E.Value
      → Option TvCommand
  argument key read c payload =
      and_then payload (λ o. and_then (reader.get key o) (λ v. and_then (read v) (λ a. some (c a))))

  subscribed_to : String → Option TvCommand
  subscribed_to uri =
      if str_eq uri "ssap://audio/getVolume"
      then some subscribe_get_volume
      else if str_eq uri "ssap://com.webos.service.tvpower/power/getPowerState"
      then some subscribe_get_power_state
      else none

  -- The calls that have arguments.
  called_with : String → Option E.Value → Option TvCommand
  called_with uri payload =
      if str_eq uri "ssap://audio/setMute"
      then argument "mute" reader.as_bool set_mute payload
      else if str_eq uri "ssap://audio/setVolume"
      then argument "volume" reader.as_u64 set_volume payload
      else if str_eq uri "ssap://tv/switchInput"
      then argument "inputId" reader.as_str switch_input payload
      else none

  -- The calls that are known by their URI alone.
  abbrev plain_calls : List (String × TvCommand)
  plain_calls =
      ("ssap://com.webos.service.update/getCurrentSWInformation", get_current_sw_info)
      ∷ ("ssap://tv/getExternalInputList", get_external_input_list)
      ∷ ("ssap://com.webos.service.tvpower/power/getPowerState", get_power_state)
      ∷ ("ssap://system/getSystemInfo", get_system_info)
      ∷ ("ssap://audio/getVolume", get_volume)
      ∷ ("ssap://media.controls/fastForward", media_fast_forward)
      ∷ ("ssap://media.controls/pause", media_pause)
      ∷ ("ssap://media.controls/play", media_play)
      ∷ ("ssap://media.controls/rewind", media_rewind)
      ∷ ("ssap://media.controls/stop", media_stop)
      ∷ ("ssap://com.webos.service.tvpower/power/turnOnScreen", set_screen_on true)
      ∷ ("ssap://com.webos.service.tvpower/power/turnOffScreen", set_screen_on false)
      ∷ ("ssap://system/turnOff", turn_off)
      ∷ ("ssap://audio/volumeDown", volume_down)
      ∷ ("ssap://audio/volumeUp", volume_up)
      ∷ []

  called : List (String × TvCommand) → String → Option E.Value → Option TvCommand
  unfolding called_with
  called [] uri payload = called_with uri payload
  called ((known, c) ∷ calls) uri payload =
      if str_eq uri known then some c else called calls uri payload

  asked : LgTvRequestType → String → Option E.Value → Option TvCommand
  unfolding subscribed_to called
  asked register uri payload = none
  asked request uri payload = called plain_calls uri payload
  asked subscribe uri payload = subscribed_to uri

  -- The command that a request stands for.
  unfoldable pub command_of : LgTvRequest E.Value → Option TvCommand
  unfolding asked
  command_of r = and_then r.uri (λ uri. asked r.type uri r.payload)

  -- The request of a command, whatever its identifier, is read as that command: the type, the URI and
  -- the arguments tell all commands apart.
  pub command_of-request_of :
      IsJsonReader E reader
      → (id : String) (c : TvCommand) → command_of (request_of E id c) ≡ some c
  unfolding command_of request_of
  command_of-request_of law id get_current_sw_info = refl
  command_of-request_of law id get_external_input_list = refl
  command_of-request_of law id get_power_state = refl
  command_of-request_of law id get_system_info = refl
  command_of-request_of law id get_volume = refl
  command_of-request_of law id media_fast_forward = refl
  command_of-request_of law id media_pause = refl
  command_of-request_of law id media_play = refl
  command_of-request_of law id media_rewind = refl
  command_of-request_of law id media_stop = refl
  command_of-request_of law id (set_mute b) = rw (law.found "mute", law.bool_read b) refl
  command_of-request_of law id (set_screen_on true) = refl
  command_of-request_of law id (set_screen_on false) = refl
  command_of-request_of law id (set_volume n) = rw (law.found "volume", law.number_read n) refl
  command_of-request_of law id subscribe_get_volume = refl
  command_of-request_of law id subscribe_get_power_state = refl
  command_of-request_of law id (switch_input i) = rw (law.found "inputId", law.string_read i) refl
  command_of-request_of law id turn_off = refl
  command_of-request_of law id volume_down = refl
  command_of-request_of law id volume_up = refl
