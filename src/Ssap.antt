-- ===== src/Ssap.antt =====
-- The message payloads of the SSAP protocol (src/ssap_payloads.rs) and the TV's details that are made
-- of them (src/state.rs). `Value` stands for the type of JSON values, which the crate serde_json has.
use lgtv_manager.Prelude.{ℕ, ℤ, Bool, Option, none, List, String}

-- `enum LgTvRequestType`.
pub data LgTvRequestType : Type 0 where
  register request subscribe : LgTvRequestType

-- `struct LgTvRequest`.
pub record LgTvRequest (Value : Type 0) : Type 0 where
  pub type : LgTvRequestType
  pub id : String
  pub uri : Option String
  pub payload : Option Value

-- `struct PairPayload`.
pub record PairPayload : Type 0 where
  pub pairing_type : String
  pub return_value : Bool

-- `struct PlainReturnValuePayload`.
pub record PlainReturnValuePayload : Type 0 where
  pub return_value : Bool

-- `struct CurrentSwInfoPayload`, which the callers know as `TvSoftwareInfo`.
pub record CurrentSwInfoPayload : Type 0 where
  pub return_value : Bool
  pub product_name : String
  pub model_name : String
  pub sw_type : String
  pub major_ver : String
  pub minor_ver : String
  pub country : String
  pub country_group : String
  pub device_id : String
  pub auth_flag : String
  pub ignore_disable : String
  pub eco_info : String
  pub config_key : String
  pub language_code : String

-- `struct ExternalInput`, which the callers know as `TvInput`.
pub record ExternalInput : Type 0 where
  pub id : String
  pub label : String
  pub port : ℤ
  pub connected : Bool
  pub app_id : Option String
  pub icon : Option String
  pub force_icon : Option Bool
  pub modified : Option Bool
  pub last_unique_id : Option ℤ
  pub hdmi_plug_in : Option Bool
  pub sub_count : Option ℤ
  pub favorite : Option Bool

-- `struct GetExternalInputListPayload`.
pub record GetExternalInputListPayload : Type 0 where
  pub return_value : Bool
  pub devices : List ExternalInput

-- `struct GetPowerStatePayload`.
pub record GetPowerStatePayload : Type 0 where
  pub state : String
  pub processing : Option String
  pub return_value : Bool

-- `struct Features`.
pub record Features : Type 0 where
  pub three_d : Option Bool
  pub dvr : Option Bool

-- `struct GetSystemInfoPayload`.
pub record GetSystemInfoPayload : Type 0 where
  pub return_value : Bool
  pub features : Option Features
  pub receiver_type : String
  pub model_name : String
  pub serial_number : Option String
  pub program_mode : Bool

-- `struct VolumeStatusVariantA`. The numbers are of type `u8`.
pub record VolumeStatusVariantA : Type 0 where
  pub volume_limitable : Option Bool
  pub active_status : Option Bool
  pub max_volume : ℕ
  pub volume_limiter : Option String
  pub sound_output : Option String
  pub volume : ℕ
  pub cause : Option String
  pub mode : Option String
  pub external_device_control : Option Bool
  pub mute_status : Bool
  pub volume_syncable : Option Bool
  pub adjust_volume : Bool

-- `struct GetVolumePayloadVariantA`.
pub record GetVolumePayloadVariantA : Type 0 where
  pub return_value : Bool
  pub volume_status : VolumeStatusVariantA
  pub caller_id : Option String

-- `struct GetVolumePayloadVariantB`. The numbers are of type `u8`.
pub record GetVolumePayloadVariantB : Type 0 where
  pub return_value : Bool
  pub volume_max : ℕ
  pub ringtonewithvibration : Option Bool
  pub scenario : Option String
  pub muted : Bool
  pub hac : Option Bool
  pub subscribed : Option Bool
  pub volume : ℕ
  pub action : Option String
  pub supportvolume : Bool
  pub ringer_switch : Option Bool
  pub slider : Option Bool
  pub active : Option Bool

-- `struct SetMutePayload`.
pub record SetMutePayload : Type 0 where
  pub return_value : Bool
  pub mute_status : Bool
  pub sound_output : String

-- `struct SetScreenOnPayload`.
pub record SetScreenOnPayload : Type 0 where
  pub return_value : Bool
  pub state : String

-- `struct SetVolumePayload`. The volume is of type `u8`.
pub record SetVolumePayload : Type 0 where
  pub return_value : Bool
  pub volume : ℕ
  pub sound_output : String

-- `enum LgTvResponsePayload`.
pub data LgTvResponsePayload : Type 0 where
  current_sw_info : CurrentSwInfoPayload → LgTvResponsePayload
  get_external_input_list : GetExternalInputListPayload → LgTvResponsePayload
  get_power_state : GetPowerStatePayload → LgTvResponsePayload
  get_system_info : GetSystemInfoPayload → LgTvResponsePayload
  get_volume_variant_a : GetVolumePayloadVariantA → LgTvResponsePayload
  get_volume_variant_b : GetVolumePayloadVariantB → LgTvResponsePayload
  pair : PairPayload → LgTvResponsePayload
  plain_return_value : PlainReturnValuePayload → LgTvResponsePayload
  set_mute : SetMutePayload → LgTvResponsePayload
  set_screen_on : SetScreenOnPayload → LgTvResponsePayload
  set_volume : SetVolumePayload → LgTvResponsePayload

-- `struct LgTvCommandResponse`.
pub record LgTvCommandResponse : Type 0 where
  pub id : String
  pub payload : LgTvResponsePayload

-- `struct LgTvErrorResponse`; its payload, `ErrorPayload`, has no fields.
pub record LgTvErrorResponse : Type 0 where
  pub id : String
  pub error : Option String

-- `struct RegisteredPayload`.
pub record RegisteredPayload : Type 0 where
  pub client_key : String

-- `struct LgTvRegisteredResponse`.
pub record LgTvRegisteredResponse : Type 0 where
  pub id : String
  pub payload : RegisteredPayload

-- `enum LgTvResponse`.
pub data LgTvResponse : Type 0 where
  error_response : LgTvErrorResponse → LgTvResponse
  registered : LgTvRegisteredResponse → LgTvResponse
  command : LgTvCommandResponse → LgTvResponse

-- `struct PowerState` and its `From<GetPowerStatePayload>`.
pub record PowerState : Type 0 where
  pub state : String
  pub processing : Option String

unfoldable pub power_state_from : GetPowerStatePayload → PowerState
power_state_from p = record { state = p.state; processing = p.processing }

-- `struct TvInfo` and its `From<GetSystemInfoPayload>`.
pub record TvInfo : Type 0 where
  pub receiver_type : String
  pub model_name : String
  pub serial_number : Option String
  pub program_mode : Bool

unfoldable pub tv_info_from : GetSystemInfoPayload → TvInfo
tv_info_from p = record {
  receiver_type = p.receiver_type;
  model_name = p.model_name;
  serial_number = p.serial_number;
  program_mode = p.program_mode;
}

-- `struct TvState`. The volume is of type `u8`.
pub record TvState : Type 0 where
  pub power_state : Option PowerState
  pub volume : Option ℕ
  pub is_muted : Option Bool
  pub is_screen_on : Option Bool
  pub is_volume_settable : Option Bool

-- `TvState::default()`.
abbrev pub default_tv_state : TvState
default_tv_state = record {
  power_state = none;
  volume = none;
  is_muted = none;
  is_screen_on = none;
  is_volume_settable = none;
}
