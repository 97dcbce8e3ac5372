-- ===== src/Manager/Retrying.antt =====
-- How reconnects are prepared and how long they wait (`optionally_prepare_for_reconnect` and
-- `should_retry_connect_failure` of src/lgtv_manager/network_utils.rs, `initiate_reconnect` and
-- `initiate_connect_to_tv` of src/lgtv_manager/orchestration.rs).
use lgtv_manager.Prelude.{ℕ, ◌≡◌, ◌∙◌, Bool, not, ◌||◌, if◌then◌else◌, Option, some, String, arith}
use lgtv_manager.Connection.{Connection, settings}
use lgtv_manager.Environment.{Env}
use lgtv_manager.StateMachine.{Input}
use lgtv_manager.Manager.Messages.{
  ReconnectFlowStatus, active, cancelled, inactive, waiting_for_tv_on_network, flow_eq,
}
use lgtv_manager.Manager.State.{Manager}
use lgtv_manager.Manager.Senders.{
  send_out, send_to_fsm, set_manager_status, set_reconnect_flow_status,
}
use lgtv_manager.Manager.Network.{optionally_prepare_for_reconnect, wants_auto_reconnect}
use lgtv_manager.Manager.Orchestration.Reconnect.{attempt_fsm_error}
use lgtv_manager.Manager.Handlers.Socket.{handle_lost_connection}

-- The statuses, counters and flags that the preparation of a reconnect reads and writes.
pub record Flow : Type 0 where
  pub status : ReconnectFlowStatus
  pub attempts : ℕ
  pub details : Option Connection
  pub manual : Bool
  pub on_network : Bool
  pub operational : Bool

abbrev pub flow : {E : Env} → Manager E → Flow
flow m = record {
  status = m.reconnect_flow_status;
  attempts = m.reconnect_attempts;
  details = m.connection_details;
  manual = m.is_manual_disconnect_requested;
  on_network = m.is_tv_on_network;
  operational = m.tv_on_network_checker.is_operational;
}

-- The flow status for a connection that was lost.
abbrev pub lost_status : Flow → ReconnectFlowStatus
lost_status f =
    if f.manual || flow_eq f.status cancelled
    then f.status
    else if not (wants_auto_reconnect f.details)
    then inactive
    else if f.on_network || not f.operational
    then active
    else waiting_for_tv_on_network

abbrev pub lost_attempts : Flow → ℕ
lost_attempts f =
    if f.manual || (flow_eq f.status cancelled || flow_eq f.status active) then f.attempts else 0

abbrev begun : Connection → Flow → Flow
begun c f = record f {
  status = if (settings c).initial_connect_retries then active else inactive;
  attempts = if flow_eq f.status active then f.attempts else 0;
  details = some c;
}

module _ {E : Env} where
  flow-send_to_fsm : (i : Input) (m : Manager E) → flow (send_to_fsm i m) ≡ flow m
  unfolding send_to_fsm set_manager_status
  flow-send_to_fsm i m = ground arith

  pub flow-lost :
      (msg : String) (m : Manager E)
      → flow (handle_lost_connection msg m)
        ≡ record (flow m) { status = lost_status (flow m); attempts = lost_attempts (flow m) }
  unfolding handle_lost_connection attempt_fsm_error optionally_prepare_for_reconnect
      set_reconnect_flow_status send_out
  flow-lost msg m = flow-send_to_fsm Input.error _ ∙ ground arith
