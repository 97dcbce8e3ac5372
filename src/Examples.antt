-- ===== src/Examples.antt =====
-- The two example programs (examples/control.rs and examples/discover.rs): what they send to a manager,
-- and what they print. The texts that a derived
-- `{:?}` gives are parameters.
pub mod Ends
use lgtv_manager.Prelude.{
  Bool, true, false, if◌then◌else◌, Option, none, some, List, [], ◌∷◌, String, ◌<>◌, str_eq,
}
use lgtv_manager.Prelude.Channel.{Channel, channel, send, is_open}
use lgtv_manager.Prelude.Strings.{trim}
use lgtv_manager.Connection.{host, ConnectionSettings, LgTvDevice}
use lgtv_manager.Connection.Builder.{new_settings, build}
use lgtv_manager.StateMachine.{State}
use lgtv_manager.TvCommand.{volume_up, volume_down}
use lgtv_manager.Manager.Messages.{
  ManagerMessage, connect, disconnect, discover, send_tv_command, shut_down, test_connection,
  ManagerOutputMessage, status, discovered_devices,
}

-- `ConnectionSettings::default()`.
unfoldable pub default_settings : ConnectionSettings
default_settings = build new_settings

-- The `match` on a line of the console.
abbrev pub console_message : String → Option ManagerMessage
console_message line =
    if str_eq line "c"
    then some (connect (host "10.0.0.101" default_settings))
    else if str_eq line "u"
    then some (send_tv_command volume_up)
    else if str_eq line "d"
    then some (send_tv_command volume_down)
    else if str_eq line "t"
    then some test_connection
    else if str_eq line "i"
    then some disconnect
    else if str_eq line "s"
    then some shut_down
    else none

-- What the console's loop does with it. The result is whether the task ends well.
typed :
    Option ManagerMessage
    → (Channel ManagerMessage → Bool × Channel ManagerMessage)
    → Channel ManagerMessage
    → Bool × Channel ManagerMessage
unfolding send
typed none rest tx = rest tx
typed (some shut_down) rest tx = (is_open tx.room, send shut_down tx)
typed (some message) rest tx =
    if is_open tx.room then rest (send message tx) else (false, send message tx)

-- The task that reads the console, over its lines up to the end of the input.
unfoldable pub console : List String → Channel ManagerMessage → Bool × Channel ManagerMessage
unfolding typed
console [] tx = (true, tx)
console (line ∷ lines) tx = typed (console_message (trim line)) (console lines) tx

module _ {M : Type 0} (debug : ManagerOutputMessage M → String)
    (debug_devices : List LgTvDevice → String) where
  is_disconnected : ManagerOutputMessage M → Bool
  is_disconnected (status State.disconnected) = true
  is_disconnected _ = false

  -- What the task of control.rs prints for a message.
  unfoldable pub announce : ManagerOutputMessage M → List String
  unfolding is_disconnected
  announce manager_output_msg =
      ("<<< Received message from LgTvManager: " <> debug manager_output_msg)
      ∷ (if is_disconnected manager_output_msg
          then "\n>>> Manager is disconnected and ready to receive messages"
            ∷ ">>> SEND CONNECT ('c') COMMAND FIRST; TV IP MUST BE VALID"
            ∷ ">>> Enter command:\n>>>    c (connect), u (volume up), d (volume down)\n>>>    t (test connection), i (disconnect), s (shut down)\n"
            ∷ []
          else [])

  -- What discover.rs prints of the devices.
  unfoldable pub listing : List LgTvDevice → String
  listing [] = "\nNo LG TV devices found.\n"
  listing devices = "\nDiscovered devices:\n\n" <> debug_devices devices <> "\n"

-- The task of discover.rs that waits for the devices.
unfoldable pub await_devices :
    {M : Type 0} → List (ManagerOutputMessage M) → Channel ManagerMessage → Channel ManagerMessage
unfolding send
await_devices [] tx = tx
await_devices (discovered_devices devices ∷ rest) tx = send shut_down tx
await_devices (_ ∷ rest) tx = await_devices rest tx

-- What discover.rs sends, over the messages that it receives.
unfoldable pub discover_example :
    {M : Type 0} → List (ManagerOutputMessage M) → Channel ManagerMessage → Channel ManagerMessage
unfolding send
discover_example received tx = await_devices received (send discover tx)
