-- ===== src/Environment.antt =====
-- What lies outside the repository and is used by it: the crates url, macaddr, serde_json, uuid,
-- directories and wol-rs, the file system, and the texts that derived `{:?}` formatting gives. All of it
-- is a parameter of the model.
use lgtv_manager.Prelude.{ℕ, Bool, false, Option, String, Result, ◌==◌}
use lgtv_manager.StateMachine.{State}
use lgtv_manager.Ssap.{LgTvRequest, LgTvResponse}

-- `std::net::IpAddr`: the address as a number.
pub data IpAddr : Type 0 where
  v4 : ℕ → IpAddr
  v6 : ℕ → IpAddr

-- The derived `==` of `IpAddr`.
abbrev pub ip_eq : IpAddr → IpAddr → Bool
ip_eq (v4 a) (v4 b) = a == b
ip_eq (v6 a) (v6 b) = a == b
ip_eq _ _ = false

-- `url::Host`.
pub data Host : Type 0 where
  domain : String → Host
  ipv4 : ℕ → Host
  ipv6 : ℕ → Host

-- An error of a library, by the two texts that the code makes of it.
pub record Failure : Type 0 where
  pub display : String
  pub debug : String

-- `struct PersistedState` (src/lgtv_manager/persisted_state.rs).
pub record PersistedState : Type 0 where
  pub ws_url : Option String
  pub client_key : Option String
  pub mac_addr : Option String

pub record Env : Type 1 where
  -- url
  pub Url : Type 0
  pub url_parse : String → Result Url Failure
  pub url_scheme : Url → String
  pub url_port : Url → Option ℕ
  pub url_set_port : ℕ → Url → Option Url
  pub url_to_string : Url → String
  pub url_host : Url → Option Host
  pub url_host_str : Url → Option String
  -- macaddr
  pub MacAddr : Type 0
  pub mac_from_str : String → Option MacAddr
  pub mac_to_string : MacAddr → String
  -- serde_json
  pub Value : Type 0
  pub Map : Type 0
  pub value_null : Value
  pub value_bool : Bool → Value
  pub value_number : ℕ → Value
  pub value_string : String → Value
  pub value_object : Map → Value
  pub as_object : Value → Option Map
  pub map_new : Map
  pub map_insert : String → Value → Map → Map
  pub value_from_str : String → Result Value Failure
  pub request_to_string : LgTvRequest Value → Result String Failure
  pub response_from_str : String → Result LgTvResponse Failure
  pub persisted_from_str : String → Result PersistedState Failure
  pub persisted_to_string : PersistedState → Result String Failure
  -- uuid: the n-th identifier that is generated
  pub uuid : ℕ → String
  -- the file register_payload.json of the resources, as text
  pub register_payload : String
  -- directories, and the file system; `Disk` is its whole content
  pub project_data_dir : Option String
  pub path_push : String → String → String
  pub Disk : Type 0
  pub create_dir_all : String → Disk → Option Failure × Disk
  pub file_open : String → Disk → Option Failure
  pub read_to_string : String → Disk → Result String Failure
  pub file_create : String → Disk → Option Failure × Disk
  pub write_all : String → String → Disk → Option Failure × Disk
  -- wol, which has a type of MAC addresses of its own
  pub WolMacAddr : Type 0
  pub wol_mac_from_str : String → Option WolMacAddr
  pub send_wol : WolMacAddr → IpAddr → Option Failure
  -- the derived `{:?}` texts
  pub debug_state : State → String
  pub debug_str : String → String
  -- how many messages the handler of the n-th WebSocket takes before it goes away
  pub ws_room : ℕ → Option ℕ
