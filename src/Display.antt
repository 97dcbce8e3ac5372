-- ===== src/Display.antt =====
-- The `Display` texts of the states, the commands, the connections and the devices
-- (src/state_machine.rs, src/tv_commands.rs, src/connection_settings.rs and src/discovery.rs). The
-- texts that a derived `{:?}` gives are parameters.
use Prim.Native.String.{slice}
use lgtv_manager.Prelude.{
  ℕ, zero, suc, ◌+◌, ◌/◌, ◌%◌, Bool, true, false, if◌then◌else◌, ltb, String, ◌<>◌,
}
use lgtv_manager.Connection.{LgTvDevice, ConnectionSettings, Connection, host, device}
use lgtv_manager.StateMachine.{
  State, connecting, connected, pairing, initializing, communicating, disconnecting,
}
use lgtv_manager.TvCommand.{TvCommand, set_mute, set_screen_on, set_volume, switch_input}

show_bool : Bool → String
show_bool true = "true"
show_bool false = "false"

-- The digit of a number below ten.
digit : ℕ → String
digit n = slice "0123456789" n (n + 1)

-- A number in decimal, with at most as many digits after the first as the first argument says.
digits : ℕ → ℕ → String
unfolding digit
digits zero n = digit (n % 10)
digits (suc places) n =
    let rest = digits places (n / 10) in if ltb n 10 then digit n else rest <> digit (n % 10)

-- `Display` of a `u8`, which has at most three digits.
show_u8 : ℕ → String
unfolding digits
show_u8 n = digits 2 n

-- `impl Display for State`.
unfoldable pub display_state : (State → String) → State → String
display_state debug (connecting val) = "Connecting(" <> val <> ")"
display_state debug (connected val) = "Connected(" <> val <> ")"
display_state debug (pairing val) = "Pairing(" <> val <> ")"
display_state debug (initializing val) = "Initializing(" <> val <> ")"
display_state debug (communicating val) = "Communicating(" <> val <> ")"
display_state debug (disconnecting val) = "Disconnecting(" <> val <> ")"
display_state debug variant = debug variant

-- `impl Display for TvCommand`.
unfoldable pub display_command : (TvCommand → String) → TvCommand → String
unfolding show_bool show_u8
display_command debug (set_mute val) = "SetMute(" <> show_bool val <> ")"
display_command debug (set_screen_on val) = "SetScreenOn(" <> show_bool val <> ")"
display_command debug (set_volume val) = "SetVolume(" <> show_u8 val <> ")"
display_command debug (switch_input val) = "SwitchInput(" <> val <> ")"
display_command debug variant = debug variant

-- `impl Display for Connection`.
unfoldable pub display_connection : (ConnectionSettings → String) → Connection → String
display_connection debug (host name settings) =
    "Connection to host '" <> name <> "', " <> debug settings
display_connection debug (device d settings) =
    "Connection to UPnP device '" <> d.friendly_name <> "', " <> debug settings

-- `impl Display for LgTvDevice`.
unfoldable pub display_device : LgTvDevice → String
display_device d = d.friendly_name <> " (" <> d.model <> ") [" <> d.udn <> "]"
