-- ===== src/Connection/Builder.antt =====
-- The builder of the connection settings (`ConnectionSettingsBuilder` of
-- src/connection_settings.rs).
use lgtv_manager.Prelude.{
  ◌≡◌, refl, ◌∙◌, Bool, true, false, not, ◌&&◌, ◌||◌, Option, none, some, List, [], ◌∷◌, String,
  arith,
}
use lgtv_manager.Connection.{ConnectionSettings}

-- `struct ConnectionSettingsBuilder`.
pub record ConnectionSettingsBuilder : Type 0 where
  pub is_tls : Bool
  pub client_key : Option String
  pub force_pairing : Bool
  pub initial_connect_retries : Bool
  pub auto_reconnect : Bool

-- `ConnectionSettingsBuilder::new`.
unfoldable pub new_settings : ConnectionSettingsBuilder
new_settings = record {
  is_tls = true;
  client_key = none;
  force_pairing = false;
  initial_connect_retries = false;
  auto_reconnect = false;
}

unfoldable pub with_no_tls : ConnectionSettingsBuilder → ConnectionSettingsBuilder
with_no_tls b = record b { is_tls = false }

unfoldable pub with_client_key : String → ConnectionSettingsBuilder → ConnectionSettingsBuilder
with_client_key client_key b = record b { client_key = some client_key }

unfoldable pub with_forced_pairing : ConnectionSettingsBuilder → ConnectionSettingsBuilder
with_forced_pairing b = record b { force_pairing = true }

unfoldable pub with_initial_connect_retries : ConnectionSettingsBuilder → ConnectionSettingsBuilder
with_initial_connect_retries b = record b { initial_connect_retries = true }

unfoldable pub with_auto_reconnect : ConnectionSettingsBuilder → ConnectionSettingsBuilder
with_auto_reconnect b = record b { auto_reconnect = true }

-- `ConnectionSettingsBuilder::build`.
unfoldable pub build : ConnectionSettingsBuilder → ConnectionSettings
build b = record {
  is_tls = b.is_tls;
  client_key = b.client_key;
  force_pairing = b.force_pairing;
  initial_connect_retries = b.initial_connect_retries;
  auto_reconnect = b.auto_reconnect;
}

-- A call of one of the methods.
pub data BuilderCall : Type 0 where
  no_tls : BuilderCall
  key : String → BuilderCall
  forced_pairing : BuilderCall
  connect_retries : BuilderCall
  reconnect : BuilderCall

abbrev pub apply : BuilderCall → ConnectionSettingsBuilder → ConnectionSettingsBuilder
apply no_tls b = with_no_tls b
apply (key k) b = with_client_key k b
apply forced_pairing b = with_forced_pairing b
apply connect_retries b = with_initial_connect_retries b
apply reconnect b = with_auto_reconnect b

-- The calls in their order.
abbrev pub configure : List BuilderCall → ConnectionSettingsBuilder → ConnectionSettingsBuilder
configure [] b = b
configure (c ∷ cs) b = configure cs (apply c b)

abbrev pub is_no_tls : BuilderCall → Bool
is_no_tls no_tls = true
is_no_tls _ = false

abbrev pub is_forced_pairing : BuilderCall → Bool
is_forced_pairing forced_pairing = true
is_forced_pairing _ = false

abbrev pub is_connect_retries : BuilderCall → Bool
is_connect_retries connect_retries = true
is_connect_retries _ = false

abbrev pub is_reconnect : BuilderCall → Bool
is_reconnect reconnect = true
is_reconnect _ = false

abbrev pub any : (BuilderCall → Bool) → List BuilderCall → Bool
any p [] = false
any p (c ∷ cs) = p c || any p cs

abbrev key_of : BuilderCall → Option String → Option String
key_of (key k) old = some k
key_of _ old = old

-- The key of the last call that sets one, or the given one.
abbrev pub last_key : List BuilderCall → Option String → Option String
last_key [] old = old
last_key (c ∷ cs) old = last_key cs (key_of c old)

configured :
    (cs : List BuilderCall) (b : ConnectionSettingsBuilder)
    → configure cs b ≡ record {
      is_tls = b.is_tls && not (any is_no_tls cs);
      client_key = last_key cs b.client_key;
      force_pairing = b.force_pairing || any is_forced_pairing cs;
      initial_connect_retries = b.initial_connect_retries || any is_connect_retries cs;
      auto_reconnect = b.auto_reconnect || any is_reconnect cs;
    }
unfolding with_no_tls with_client_key with_forced_pairing with_initial_connect_retries
    with_auto_reconnect
configured [] b = ground arith
configured (c ∷ cs) b = configured cs (apply c b) ∙ ground arith

-- Whatever methods of the builder are called, in any order and any number, the settings use TLS
-- unless it was switched off, have the key that was set last, and have the other three settings on
-- exactly where they were asked for.
build-configure :
    (cs : List BuilderCall)
    → build (configure cs new_settings) ≡ record {
      is_tls = not (any is_no_tls cs);
      client_key = last_key cs none;
      force_pairing = any is_forced_pairing cs;
      initial_connect_retries = any is_connect_retries cs;
      auto_reconnect = any is_reconnect cs;
    }
unfolding build new_settings
build-configure cs = rw (configured cs new_settings) refl
