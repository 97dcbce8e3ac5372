-- ===== src/Connection.antt =====
-- Connections and their settings (src/connection_settings.rs), and the devices of a discovery
-- (`LgTvDevice` of src/discovery.rs).
pub mod Builder
use lgtv_manager.Prelude.{Bool, Option, String}

-- `struct LgTvDevice`.
pub record LgTvDevice : Type 0 where
  pub friendly_name : String
  pub model : String
  pub model_number : Option String
  pub serial_number : Option String
  pub url : String
  pub udn : String
  pub mac_addr : Option String

-- `struct ConnectionSettings`.
pub record ConnectionSettings : Type 0 where
  pub is_tls : Bool
  pub client_key : Option String
  pub force_pairing : Bool
  pub initial_connect_retries : Bool
  pub auto_reconnect : Bool

-- `enum Connection`.
pub data Connection : Type 0 where
  host : String → ConnectionSettings → Connection
  device : LgTvDevice → ConnectionSettings → Connection

-- The `match` on a connection for its settings, which the code repeats at each use.
abbrev pub settings : Connection → ConnectionSettings
settings (host _ s) = s
settings (device _ s) = s
