-- ===== src/Manager/Handlers/Network.antt =====
-- The notifications of the network checker (`is_tv_on_network_notify` and
-- `is_testing_tv_on_network_notify` in `run` of src/lgtv_manager.rs).
use lgtv_manager.Prelude.{◌▹◌, Bool, true, not, ◌&&◌, if◌then◌else◌, []}
use lgtv_manager.Environment.{Env}
use lgtv_manager.StateMachine.{disconnected}
use lgtv_manager.Manager.Messages.{
  connection, tv_on_network_test_status, passed, failed, in_progress, inactive,
  waiting_for_tv_on_network, flow_eq, state_eq,
}
use lgtv_manager.Manager.State.{Manager}
use lgtv_manager.Manager.Senders.{send_out, emit_is_wake_tv_available, set_reconnect_flow_status}
use lgtv_manager.Manager.Network.{is_auto_reconnect_enabled}
use lgtv_manager.Manager.Orchestration.Reconnect.{initiate_reconnect, attempt_fsm_error}

module _ {E : Env} where
  -- The TV goes offline.
  unfoldable pub handle_tv_lost : Manager E → Manager E
  handle_tv_lost m =
      if state_eq m.manager_status disconnected
      then set_reconnect_flow_status
          (if is_auto_reconnect_enabled m then waiting_for_tv_on_network else inactive) m
      else attempt_fsm_error (connection "TV host is not available on the network") m

  -- The TV comes back online.
  unfoldable pub handle_tv_back : Manager E → Manager E
  handle_tv_back m =
      if flow_eq m.reconnect_flow_status waiting_for_tv_on_network
      then initiate_reconnect true [] m
      else m

  -- `was_on_network` is what the last notification found.
  unfoldable pub handle_network_checked : Bool → Manager E → Manager E
  handle_network_checked was_on_network m =
      let is_on_network = m.is_tv_on_network in
      let m =
        m
        ▹ send_out (tv_on_network_test_status (if is_on_network then passed else failed))
        ▹ emit_is_wake_tv_available in
      let m = if was_on_network && not is_on_network then handle_tv_lost m else m in
      if not was_on_network && is_on_network then handle_tv_back m else m

  -- A network test begins or ends.
  unfoldable pub handle_network_testing : Manager E → Manager E
  handle_network_testing m =
      if m.is_testing_tv_on_network then send_out (tv_on_network_test_status in_progress) m else m
