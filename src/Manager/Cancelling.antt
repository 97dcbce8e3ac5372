-- ===== src/Manager/Cancelling.antt =====
-- A reconnect flow that the caller cancels (`ManagerMessage::CancelReconnect` in src/lgtv_manager.rs).
use lgtv_manager.Prelude.{◌≡◌, ap, ◌∙◌, Bool, false, ◌&&◌, if◌then◌else◌, some, String, arith}
use lgtv_manager.Environment.{Env}
use lgtv_manager.StateMachine.{State, handle_connect_error}
use lgtv_manager.StateMachine.Task.{state_update, output_update}
use lgtv_manager.Manager.Messages.{
  ManagerMessage, ReconnectFlowStatus, active, cancelled, inactive, flow_eq, status, connect_error,
}
use lgtv_manager.Manager.State.{Manager}
use lgtv_manager.Manager.Senders.{send_out, set_manager_status, set_reconnect_flow_status}
use lgtv_manager.Manager.Reset.{force_manager_reset}
use lgtv_manager.Manager.Network.{should_retry_connect_failure}
use lgtv_manager.Manager.Orchestration.Reconnect.{Ticks, initiate_reconnect}
use lgtv_manager.Manager.Handlers.Caller.{handle_cancel_reconnect, handle_manager_message}
use lgtv_manager.Manager.Handlers.Machine.{recover_from_connect_error, handle_output, handle_update}
use lgtv_manager.Manager.Handlers.Socket.{
  handle_lost_connection, handle_ws_message, handle_ws_update, handle_ws_status,
}
use lgtv_manager.Manager.Invariant.Frame.{core-set_manager_status}
use lgtv_manager.Manager.Retrying.{flow-lost}
use lgtv_manager.Manager.Resetting.{settled, reset_settles, recover_retries}

module _ {E : Env} where
  cancel_marks :
      (m : Manager E)
      → m.reconnect_flow_status ≡ active
      → (handle_cancel_reconnect m).reconnect_flow_status ≡ cancelled
  unfolding handle_cancel_reconnect set_reconnect_flow_status send_out
  cancel_marks m h = ground (arith, h)

  -- A cancelled flow stays one when the connection is lost, whatever the settings.
  lost_cancelled :
      (msg : String) (m : Manager E)
      → m.reconnect_flow_status ≡ cancelled
      → (handle_lost_connection msg m).reconnect_flow_status ≡ cancelled
  lost_cancelled msg m h = ap (λ f. f.status) (flow-lost msg m) ∙ ground (arith, h)

  unretried :
      (b : Bool) (s : ReconnectFlowStatus) (x y : Manager E)
      → s ≡ inactive
      → (if b && flow_eq s active then x else y) ≡ y
  unretried b s x y h = ground arith

  -- The caller cancels an active reconnect flow, the connect that was under way then fails, and the
  -- state machine reports its state, whichever, and the error: the connect is not tried again,
  -- whatever the settings. All that follows is the reset, and the flow is inactive after it.
  pub cancel_ends_retries :
      (e : String) (s : State) (ticks later : Ticks) (m : Manager E)
      → m.reconnect_flow_status ≡ active
      → let stopped = handle_manager_message ManagerMessage.cancel_reconnect m in
        let failed = handle_ws_message (some (status (connect_error e))) stopped in
        let shown = handle_update (state_update s) ticks failed in
        let after = handle_update (output_update handle_connect_error) later shown in
        (after ≡ force_manager_reset "A WebSocket connection error occurred" shown)
        × (after.reconnect_flow_status ≡ inactive)
  unfolding handle_manager_message handle_update handle_output handle_ws_message handle_ws_update
      handle_ws_status
  cancel_ends_retries e s ticks later m h =
      let failed =
        handle_ws_message (some (status (connect_error e)))
          (handle_manager_message ManagerMessage.cancel_reconnect m) in
      let marked : failed.reconnect_flow_status ≡ cancelled =
        lost_cancelled _ (handle_cancel_reconnect m) (cancel_marks m h) in
      let shown = set_manager_status s failed in
      let kept : shown.reconnect_flow_status ≡ cancelled =
        ap (λ c. c.flow) (core-set_manager_status s failed) ∙ marked in
      let r = force_manager_reset "A WebSocket connection error occurred" shown in
      let flow : r.reconnect_flow_status ≡ inactive =
        reset_settles "A WebSocket connection error occurred" shown ∙ ap settled kept in
      let same : recover_from_connect_error later shown ≡ r =
        recover_retries later shown
        ∙ unretried (should_retry_connect_failure r) r.reconnect_flow_status
            (initiate_reconnect false later r) r flow in
      (same, ap (λ n. n.reconnect_flow_status) same ∙ flow)
