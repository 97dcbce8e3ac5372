-- ===== src/Manager/Inputs/Reconnecting.antt =====
-- Connecting and reconnecting (src/lgtv_manager/orchestration.rs) keep the manager's status and what
-- it sent.
use lgtv_manager.Prelude.{
  subst, sym, inl, inr, Bool, true, false, not, ◌&&◌, if◌then◌else◌, Option, none, some, List,
  String,
}
use lgtv_manager.Connection.{Connection}
use lgtv_manager.Environment.{Env}
use lgtv_manager.Helpers.{reconnect_falloff}
use lgtv_manager.StateMachine.{State, Input, connect}
use lgtv_manager.Manager.Messages.{active, inactive, flow_eq}
use lgtv_manager.Manager.State.{Manager}
use lgtv_manager.Manager.Senders.{send_out, set_reconnect_flow_status}
use lgtv_manager.Manager.Reset.{initialize_manager_state}
use lgtv_manager.Manager.Orchestration.Connect.{begin_connect, initiate_connect_to_tv}
use lgtv_manager.Manager.Orchestration.Reconnect.{
  Ticks, report_connect, attempt_reconnect, initiate_reconnect, handle_disconnected, reconnect_with,
  reconnect_to, reconnect_if_active,
}
use lgtv_manager.Manager.Connecting.{connect_outcome}
use lgtv_manager.Manager.Inputs.{trace, LeavesOut, Keeps}
use lgtv_manager.Manager.Inputs.Traces.{trace-initialize, trace-set_mac_addr, trace-wait}
use lgtv_manager.Manager.Inputs.Kept.{Keeps-if, send_to_fsm-Keeps, reset-Keeps, set_flow-Keeps}

module _ {E : Env} {s : State} {xs : List Input} {b : Bool} {A : Type 0} {f : Input → List A}
    ⦃quiet : LeavesOut f⦄ {cs : List A} where
  begin_connect-Keeps :
      (c : Connection) (url : String) (m : Manager E)
      → Keeps f s xs b cs (trace m)
      → Keeps f s xs b cs (trace (begin_connect c url m))
  unfolding begin_connect set_reconnect_flow_status send_out
  begin_connect-Keeps c url m h =
      rw (trace-set_mac_addr c url _) (send_to_fsm-Keeps (connect url) (quiet.connects url) _ h)

  pub connect-Keeps :
      (c : Connection) (m : Manager E)
      → Keeps f s xs b cs (trace m)
      → Keeps f s xs b cs (trace (initiate_connect_to_tv c m).1)
  connect-Keeps c m h = elim (connect_outcome c m) [
    | inl (_, same) ↦ subst (λ n. Keeps f s xs b cs (trace n)) (sym same) h
    | inr (_, _, _, (url, _, begun)) ↦
        subst (λ n. Keeps f s xs b cs (trace n)) (sym begun) (begin_connect-Keeps c url _ h)
  ]

  pub report_connect-Keeps :
      (r : Option String × Manager E)
      → Keeps f s xs b cs (trace r.1)
      → Keeps f s xs b cs (trace (report_connect r))
  unfolding report_connect send_out
  report_connect-Keeps (none, m) h = h
  report_connect-Keeps (some e, m) h = h

  attempt-Keeps :
      (c : Connection) (m : Manager E)
      → Keeps f s xs b cs (trace m)
      → Keeps f s xs b cs (trace (attempt_reconnect c m))
  unfolding attempt_reconnect
  attempt-Keeps c m h = report_connect-Keeps _ (connect-Keeps c _ h)

  reconnect_with-Keeps :
      (immediate : Bool) (ticks : Ticks) (url : String) (c : Option Connection) (m : Manager E)
      → Keeps f s xs b cs (trace m)
      → Keeps f s xs b cs (trace (reconnect_with immediate ticks url c m))
  unfolding reconnect_with
  reconnect_with-Keeps immediate ticks url none m h = h
  reconnect_with-Keeps true ticks url (some c) m h = attempt-Keeps c m h
  reconnect_with-Keeps false ticks url (some c) m h =
      attempt-Keeps c _
        (rw (trace-wait url (reconnect_falloff m.reconnect_attempts 250 10000) ticks m) h)

  reconnect_to-Keeps :
      (immediate : Bool) (ticks : Ticks) (url : Option String) (m : Manager E)
      → Keeps f s xs b cs (trace m)
      → Keeps f s xs b cs (trace (reconnect_to immediate ticks url m))
  unfolding reconnect_to set_reconnect_flow_status send_out
  reconnect_to-Keeps immediate ticks none m h = reset-Keeps _ _ h
  reconnect_to-Keeps immediate ticks (some url) m h =
      reconnect_with-Keeps immediate ticks url m.connection_details m h

  pub reconnect-Keeps :
      (immediate : Bool) (ticks : Ticks) (m : Manager E)
      → Keeps f s xs b cs (trace m)
      → Keeps f s xs b cs (trace (initiate_reconnect immediate ticks m))
  unfolding initiate_reconnect
  reconnect-Keeps immediate ticks m h =
      let n = set_reconnect_flow_status active m in
      Keeps-if (not m.is_tv_on_network && m.tv_on_network_checker.is_operational) m
        (reconnect_to immediate ticks n.ws_url n) h
        (reconnect_to-Keeps immediate ticks n.ws_url n (set_flow-Keeps active m h))

  pub disconnected-Keeps :
      (ticks : Ticks) (m : Manager E)
      → Keeps f s xs b cs (trace m)
      → Keeps f s xs b cs (trace (handle_disconnected ticks m))
  unfolding handle_disconnected reconnect_if_active
  disconnected-Keeps ticks m h =
      let n : Manager E = initialize_manager_state (record m { ws_join_handle = none }) in
      let k : Keeps f s xs b cs (trace n) =
        rw (trace-initialize (record m { ws_join_handle = none })) h in
      let quiet : Manager E = record (set_reconnect_flow_status inactive n) {
        is_pairing = false;
      } in
      Keeps-if (flow_eq n.reconnect_flow_status active)
        (if n.is_pairing then quiet else initiate_reconnect false ticks n) n
        (Keeps-if n.is_pairing quiet (initiate_reconnect false ticks n)
          (set_flow-Keeps inactive n k) (reconnect-Keeps false ticks n k))
        k
