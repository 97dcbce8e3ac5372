-- ===== src/Manager/Invariant.antt =====
-- What holds of the manager of src/lgtv_manager.rs between any two events: the fields that the
-- reconnect flow and the WebSocket handler depend on fit together.
pub mod Frame
pub mod Kept
pub mod Calls
pub mod Machine
pub mod Socket
pub mod Handled
use lgtv_manager.Prelude.{ℕ, ◌<◌, ◌≡◌, true, Option, none, some, length, is_some}
use lgtv_manager.Prelude.Channel.{Channel}
use lgtv_manager.Connection.{Connection}
use lgtv_manager.Environment.{Env}
use lgtv_manager.Manager.Messages.{ReconnectFlowStatus, WsMessage}
use lgtv_manager.Manager.State.{Manager}
use lgtv_manager.Manager.Reset.{in_reconnect_flow}

-- The fields that the invariant speaks of.
pub record Core : Type 0 where
  pub flow : ReconnectFlowStatus
  pub details : Option Connection
  pub to_ws : Option (Channel WsMessage)
  pub from_ws : Option ℕ
  pub join : Option ℕ
  pub started : ℕ

abbrev pub core : {E : Env} → Manager E → Core
core m = record {
  flow = m.reconnect_flow_status;
  details = m.connection_details;
  to_ws = m.to_ws_tx;
  from_ws = m.from_ws_rx;
  join = m.ws_join_handle;
  started = length m.ws_handlers;
}

-- A number, if there is one, is below the bound.
abbrev pub Below : Option ℕ → ℕ → Type 0
Below none n = Unit {0}
Below (some k) n = k < n

-- A reconnect flow has the details of the connection to make. The two channels of a WebSocket handler
-- come and go together, a handler to be awaited is the one that the manager listens to, and that one
-- was started.
pub record Inv (c : Core) : Type 0 where
  pub flow_backed : in_reconnect_flow c.flow ≡ true → is_some c.details ≡ true
  pub channels_paired : is_some c.to_ws ≡ is_some c.from_ws
  pub join_current : is_some c.join ≡ true → c.join ≡ c.from_ws
  pub handler_started : Below c.from_ws c.started
