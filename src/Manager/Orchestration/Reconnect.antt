-- ===== src/Manager/Orchestration/Reconnect.antt =====
-- Reconnecting and the error flow: `handle_disconnected`, `initiate_reconnect` and
-- `attempt_fsm_error` of src/lgtv_manager/orchestration.rs.
use lgtv_manager.Prelude.{
  ℕ, ◌+◌, ◌-◌, ◌%◌, ◌▹◌, Bool, false, not, ◌&&◌, if◌then◌else◌, Option, none, some, List, [], ◌∷◌,
  String, u64_mod,
}
use lgtv_manager.Connection.{Connection}
use lgtv_manager.Environment.{Env}
use lgtv_manager.Helpers.{reconnect_falloff}
use lgtv_manager.StateMachine.{waiting_to_reconnect, Input}
use lgtv_manager.Manager.Messages.{
  ManagerError, connection, error, status, active, inactive, flow_eq,
}
use lgtv_manager.Manager.State.{Manager}
use lgtv_manager.Manager.Senders.{send_out, send_to_fsm, set_reconnect_flow_status}
use lgtv_manager.Manager.Reset.{initialize_manager_state, force_manager_reset}
use lgtv_manager.Manager.Orchestration.Connect.{initiate_connect_to_tv}

-- The ticks of the feedback interval before the retry interval ticks: the milliseconds that have
-- passed since the start, or `none` where the clock went back.
abbrev pub Ticks : Type 0
Ticks = List (Option ℕ)

module _ {E : Env} where
  -- The loop that waits for the next attempt and reports the time that is left.
  unfoldable pub wait_for_retry : String → ℕ → Ticks → Manager E → Manager E
  wait_for_retry url retry_duration [] m = m
  wait_for_retry url retry_duration (none ∷ ticks) m = wait_for_retry url retry_duration ticks m
  wait_for_retry url retry_duration (some elapsed ∷ ticks) m =
      wait_for_retry url retry_duration ticks (
        send_out
          (status (
            waiting_to_reconnect (record {
              url = url;
              attempts = m.reconnect_attempts;
              next_attempt_ms = retry_duration - elapsed;
            })))
          m)

  unfoldable pub report_connect : Option String × Manager E → Manager E
  report_connect (none, m) = m
  report_connect (some e, m) = send_out (error (connection e)) m

  -- The next attempt, a connect with the details at hand. The counter is a `u64`.
  unfoldable pub attempt_reconnect : Connection → Manager E → Manager E
  unfolding report_connect
  attempt_reconnect details m =
      record m { reconnect_attempts = (m.reconnect_attempts + 1) % u64_mod }
      ▹ initiate_connect_to_tv details
      ▹ report_connect

  -- With the details of the connection, if they are there.
  unfoldable pub reconnect_with : Bool → Ticks → String → Option Connection → Manager E → Manager E
  reconnect_with immediate ticks url none m = m
  reconnect_with immediate ticks url (some details) m =
      (if immediate
        then m
        else wait_for_retry url (reconnect_falloff m.reconnect_attempts 250 10000) ticks m)
      ▹ attempt_reconnect details

  -- With the URL, if it is known.
  unfoldable pub reconnect_to : Bool → Ticks → Option String → Manager E → Manager E
  reconnect_to immediate ticks none m =
      m
      ▹ set_reconnect_flow_status inactive
      ▹ force_manager_reset "Unable to initiate reconnect: cannot determine URL to re-connect to"
  reconnect_to immediate ticks (some url) m =
      reconnect_with immediate ticks url m.connection_details m

  -- `initiate_reconnect`.
  unfoldable pub initiate_reconnect : Bool → Ticks → Manager E → Manager E
  initiate_reconnect immediate ticks m =
      if not m.is_tv_on_network && m.tv_on_network_checker.is_operational
      then m
      else let m = set_reconnect_flow_status active m in reconnect_to immediate ticks m.ws_url m

  -- A disconnect during pairing ends the reconnect flow, since the pair request was likely refused.
  unfoldable pub reconnect_if_active : Ticks → Manager E → Manager E
  reconnect_if_active ticks m =
      if flow_eq m.reconnect_flow_status active
      then (if m.is_pairing
          then record (set_reconnect_flow_status inactive m) { is_pairing = false }
          else initiate_reconnect false ticks m)
      else m

  -- `handle_disconnected`. The join handle is taken and awaited.
  unfoldable pub handle_disconnected : Ticks → Manager E → Manager E
  handle_disconnected ticks m =
      record m { ws_join_handle = none } ▹ initialize_manager_state ▹ reconnect_if_active ticks

  -- `attempt_fsm_error`.
  unfoldable pub attempt_fsm_error : ManagerError → Manager E → Manager E
  attempt_fsm_error manager_error m = m ▹ send_to_fsm Input.error ▹ send_out (error manager_error)
