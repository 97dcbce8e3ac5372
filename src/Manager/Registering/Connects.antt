-- ===== src/Manager/Registering/Connects.antt =====
-- What connecting and reconnecting make of the messages to the WebSocket handler.
use lgtv_manager.Prelude.{
  ℕ, sym, ap, ◌∙◌, subst, Bool, true, false, not, ◌&&◌, inl, inr, Option, none, some, [], ◌∷◌,
  String, arith,
}
use lgtv_manager.Connection.{Connection}
use lgtv_manager.Environment.{Env}
use lgtv_manager.Helpers.{reconnect_falloff}
use lgtv_manager.StateMachine.{connect}
use lgtv_manager.Manager.Messages.{active, inactive}
use lgtv_manager.Manager.State.{Manager}
use lgtv_manager.Manager.Senders.{send_out, set_reconnect_flow_status}
use lgtv_manager.Manager.Orchestration.Connect.{begin_connect, initiate_connect_to_tv}
use lgtv_manager.Manager.Orchestration.Reconnect.{
  Ticks, wait_for_retry, report_connect, attempt_reconnect, initiate_reconnect, handle_disconnected,
  reconnect_with, reconnect_to, reconnect_if_active,
}
use lgtv_manager.Manager.Connecting.{connect_outcome}
use lgtv_manager.Manager.Invariant.Frame.{core-set_mac_addr, core-send_to_fsm}
use lgtv_manager.Manager.Registering.{Opens}
use lgtv_manager.Manager.Registering.Kept.{
  Asks, Asks-if, initialize-Asks, reset-Asks, set_flow-Asks,
}

module _ {E : Env} (asked : Bool) where
  begin_connect-Asks :
      (c : Connection) (url : String) (m : Manager E)
      → Asks asked m
      → Asks asked (begin_connect c url m)
  unfolding begin_connect set_reconnect_flow_status send_out
  begin_connect-Asks c url m h =
      subst (Opens E asked)
        (sym (ap (λ c. c.to_ws) (core-set_mac_addr c url _ ∙ core-send_to_fsm (connect url) _))) h

  pub connect-Asks :
      (c : Connection) (m : Manager E) → Asks asked m → Asks asked (initiate_connect_to_tv c m).1
  connect-Asks c m h = elim (connect_outcome c m) [
    | inl (_, same) ↦ subst (λ n. Asks asked n) (sym same) h
    | inr (_, _, _, (url, _, begun)) ↦
        subst (λ n. Asks asked n) (sym begun) (begin_connect-Asks c url _ h)
  ]

  wait-Asks :
      (url : String) (d : ℕ) (ticks : Ticks) (m : Manager E)
      → Asks asked m
      → Asks asked (wait_for_retry url d ticks m)
  unfolding wait_for_retry send_out
  wait-Asks url d [] m h = h
  wait-Asks url d (none ∷ ticks) m h = wait-Asks url d ticks m h
  wait-Asks url d (some e ∷ ticks) m h = wait-Asks url d ticks _ h

  pub report_connect-Asks :
      (r : Option String × Manager E) → Asks asked r.1 → Asks asked (report_connect r)
  unfolding report_connect send_out
  report_connect-Asks (none, m) h = h
  report_connect-Asks (some e, m) h = h

  attempt-Asks :
      (c : Connection) (m : Manager E) → Asks asked m → Asks asked (attempt_reconnect c m)
  unfolding attempt_reconnect
  attempt-Asks c m h = report_connect-Asks _ (connect-Asks c _ h)

  reconnect_with-Asks :
      (immediate : Bool) (ticks : Ticks) (url : String) (c : Option Connection) (m : Manager E)
      → Asks asked m
      → Asks asked (reconnect_with immediate ticks url c m)
  unfolding reconnect_with
  reconnect_with-Asks immediate ticks url none m h = h
  reconnect_with-Asks true ticks url (some c) m h = attempt-Asks c m h
  reconnect_with-Asks false ticks url (some c) m h =
      attempt-Asks c _ (wait-Asks url (reconnect_falloff m.reconnect_attempts 250 10000) ticks m h)

  reconnect_to-Asks :
      (immediate : Bool) (ticks : Ticks) (url : Option String) (m : Manager E)
      → Asks asked m
      → Asks asked (reconnect_to immediate ticks url m)
  unfolding reconnect_to
  reconnect_to-Asks immediate ticks none m h =
      reset-Asks asked _ _ (set_flow-Asks asked inactive m h)
  reconnect_to-Asks immediate ticks (some url) m h =
      reconnect_with-Asks immediate ticks url m.connection_details m h

  pub reconnect-Asks :
      (immediate : Bool) (ticks : Ticks) (m : Manager E)
      → Asks asked m
      → Asks asked (initiate_reconnect immediate ticks m)
  unfolding initiate_reconnect
  reconnect-Asks immediate ticks m h =
      let n = set_reconnect_flow_status active m in
      Asks-if asked (not m.is_tv_on_network && m.tv_on_network_checker.is_operational) m
        (reconnect_to immediate ticks n.ws_url n) h
        (reconnect_to-Asks immediate ticks n.ws_url n (set_flow-Asks asked active m h))

  reconnect_if_active-Asks :
      (ticks : Ticks) (m : Manager E) → Asks asked m → Asks asked (reconnect_if_active ticks m)
  unfolding reconnect_if_active
  reconnect_if_active-Asks ticks m h =
      grind (arith, reconnect-Asks false ticks m h, set_flow-Asks asked inactive m h)

  pub disconnected-Asks :
      (ticks : Ticks) (m : Manager E) → Asks asked m → Asks asked (handle_disconnected ticks m)
  unfolding handle_disconnected
  disconnected-Asks ticks m h =
      reconnect_if_active-Asks ticks _
        (initialize-Asks asked (record m { ws_join_handle = none }) h)
