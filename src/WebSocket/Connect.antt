-- ===== src/WebSocket/Connect.antt =====
-- `LgTvWebSocket::connect` and `LgTvWebSocket::start` (src/websocket_client.rs). The crates native_tls
-- and tokio_tungstenite and the network are parameters.
use lgtv_manager.Prelude.{
  Bool, if◌then◌else◌, Option, none, some, List, String, ◌<>◌, contains, ok, err,
}
use lgtv_manager.Prelude.Channel.{Channel}
use lgtv_manager.Environment.{Env, Failure}
use lgtv_manager.Manager.Messages.{WsUpdateMessage}
use lgtv_manager.WebSocket.{SocketEvent, SocketTask, handler}

-- `tokio_tungstenite::Connector`.
pub data Connector : Type 0 where
  native_tls plain : Connector

-- What the connection, which is given `CONNECTION_TIMEOUT`, comes to: a stream, an error of the
-- system, another error, or nothing in time.
pub data Attempt : Type 0 where
  opened : Attempt
  io_error other_error : Failure → Attempt
  elapsed : Attempt

-- Whether a TLS connector can be built, and the attempts to connect.
pub record Network (E : Env) : Type 0 where
  pub tls_connector : Option Failure
  pub connect_async : E.Url → Connector → Attempt

module _ (E : Env) (net : Network E) where
  -- The `match` on the attempt: none, or the error.
  unfoldable pub refused : Attempt → Option String
  refused opened = none
  refused (io_error e) =
      some (if contains e.display "Host is down" then "Host is down" else e.display)
  refused (other_error e) = some e.display
  refused elapsed = some "Connection timeout"

  -- `connect`, as the error that it returns, if it does.
  unfoldable pub connect : String → Bool → Option String
  unfolding refused
  connect host use_tls = elim (E.url_parse host) [
    | err e ↦ some ("Could not parse host '" <> host <> "': " <> e.debug)
    | ok url ↦ elim net.tls_connector [
      | some e ↦ some ("Could not create TLS connector: " <> e.debug)
      | none ↦ refused (net.connect_async url (if use_tls then native_tls else plain))
    ]
  ]

  -- `start`: the task that it spawns, given what it finds ready.
  unfoldable pub start : String → Bool → List SocketEvent → Channel WsUpdateMessage → SocketTask
  start host use_tls es tx = handler (connect host use_tls) es tx
