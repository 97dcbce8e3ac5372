-- ===== src/Manager/Invariant/Kept.antt =====
-- The methods of the manager keep the invariant.
use lgtv_manager.Prelude.{
  ℕ, ◌+◌, ◌≡◌, refl, inl, inr, ◌∙◌, subst, sym, Bool, true, false, if◌then◌else◌, Option, none,
  some, is_some, List, [], ◌∷◌, ◌++◌, length, String, arith,
}
use lgtv_manager.Connection.{Connection}
use lgtv_manager.Environment.{Env}
use lgtv_manager.Helpers.{reconnect_falloff, url_ip_addr}
use lgtv_manager.StateMachine.{Input, connect}
use lgtv_manager.TvCommand.{
  TvCommand, get_current_sw_info, get_external_input_list, get_power_state, get_system_info,
  subscribe_get_volume, subscribe_get_power_state,
}
use lgtv_manager.Manager.Messages.{ManagerError, ReconnectFlowStatus, active, inactive, WsMessage}
use lgtv_manager.Manager.State.{Manager}
use lgtv_manager.Manager.Senders.{send_out, set_reconnect_flow_status}
use lgtv_manager.Manager.Reset.{
  in_reconnect_flow, order_shut_down, initialize_manager_state, force_manager_reset, send_to_ws,
}
use lgtv_manager.Manager.Network.{optionally_prepare_for_reconnect}
use lgtv_manager.Manager.Orchestration.Connect.{
  uses_tls, watch, begin_connect, initiate_connect_to_tv, start_websocket_handler_and_connect,
  send_register_payload, send_command_to_ws, initialize_connection, initiate_disconnect_from_tv,
  track_good_connection,
}
use lgtv_manager.Manager.Orchestration.Reconnect.{
  Ticks, wait_for_retry, report_connect, attempt_reconnect, initiate_reconnect, handle_disconnected,
  reconnect_with, reconnect_to, reconnect_if_active, attempt_fsm_error,
}
use lgtv_manager.Manager.Connecting.{connect_outcome}
use lgtv_manager.Manager.Invariant.{Core, core, Inv}
use lgtv_manager.Manager.Invariant.Frame.{
  forget, core-set_mac_addr, core-send_to_fsm, core-initialize, core-reset,
}

Inv-forget : {c : Core} → Inv c → Inv (forget c)
Inv-forget h = ground arith

Inv-unjoined : {c : Core} → Inv c → Inv (record c { join = none })
Inv-unjoined h = ground arith

Inv-ordered : {c : Core} → Inv c → Inv (record c { to_ws = order_shut_down c.to_ws })
unfolding order_shut_down
Inv-ordered h = ground arith

length-snoc : {A : Type 0} (xs : List A) (x : A) → length (xs ++ x ∷ []) ≡ length xs + 1
length-snoc [] x = omega arith
length-snoc (_ ∷ xs) x = omega (arith, length-snoc xs x)

-- A branch keeps the invariant if both of its sides do.
pub Inv-if :
    {E : Env} (b : Bool) (x y : Manager E)
    → (b ≡ true → Inv (core x))
    → (b ≡ false → Inv (core y))
    → Inv (core (if b then x else y))
Inv-if true x y p q = p refl
Inv-if false x y p q = q refl

module _ {E : Env} where
  pub initialize-Inv : (m : Manager E) → Inv (core m) → Inv (core (initialize_manager_state m))
  initialize-Inv m h = rw (core-initialize m) (Inv-forget h)

  pub reset-Inv :
      (reason : String) (m : Manager E) → Inv (core m) → Inv (core (force_manager_reset reason m))
  reset-Inv reason m h = rw (core-reset reason m) (Inv-forget (Inv-unjoined (Inv-ordered h)))

  pub send_to_ws-Inv : (w : WsMessage) (m : Manager E) → Inv (core m) → Inv (core (send_to_ws w m))
  unfolding send_to_ws
  send_to_ws-Inv w m h =
      ground
        (arith, reset-Inv "Cannot send message to WebSocket handler: channel unexpectedly closed" m)

  pub send_command-Inv :
      (c : TvCommand) (m : Manager E) → Inv (core m) → Inv (core (send_command_to_ws c m))
  unfolding send_command_to_ws
  send_command-Inv c m h = send_to_ws-Inv _ _ h

  track-Inv :
      (c : Option Connection) (m : Manager E)
      → Inv (core m)
      → Inv (core (track_good_connection c m))
  unfolding track_good_connection
  track-Inv none m h = h
  track-Inv (some c) m h = h

  pub initialize_connection-Inv :
      (m : Manager E) → Inv (core m) → Inv (core (initialize_connection m))
  unfolding initialize_connection
  initialize_connection-Inv m h = track-Inv _ _ (
      send_command-Inv subscribe_get_power_state _ (
        send_command-Inv subscribe_get_volume _ (
          send_command-Inv get_system_info _ (
            send_command-Inv get_power_state _ (
              send_command-Inv get_external_input_list _
                (send_command-Inv get_current_sw_info m h))))))

  pub register-Inv : (m : Manager E) → Inv (core m) → Inv (core (send_register_payload m))
  unfolding send_register_payload
  register-Inv m h = grind (arith, send_to_ws-Inv, reset-Inv)

  pub initiate_disconnect-Inv :
      (m : Manager E) → Inv (core m) → Inv (core (initiate_disconnect_from_tv m))
  unfolding initiate_disconnect_from_tv
  initiate_disconnect-Inv m h = grind (arith, send_to_ws-Inv)

  pub start_handler-Inv :
      (url : String) (m : Manager E)
      → Inv (core m)
      → Inv (core (start_websocket_handler_and_connect url m))
  unfolding start_websocket_handler_and_connect
  start_handler-Inv url m h =
      ground (arith, length-snoc m.ws_handlers (url, uses_tls m.connection_details))

  -- The flow status may be set where the details are at hand if it needs them.
  pub set_flow-Inv :
      (s : ReconnectFlowStatus) (m : Manager E)
      → (in_reconnect_flow s ≡ true → is_some m.connection_details ≡ true)
      → Inv (core m)
      → Inv (core (set_reconnect_flow_status s m))
  unfolding set_reconnect_flow_status send_out
  set_flow-Inv s m d h = ground arith

  pub prepare-Inv : (m : Manager E) → Inv (core m) → Inv (core (optionally_prepare_for_reconnect m))
  unfolding optionally_prepare_for_reconnect set_reconnect_flow_status send_out
  prepare-Inv m h = ground arith

  pub fsm_error-Inv :
      (e : ManagerError) (m : Manager E) → Inv (core m) → Inv (core (attempt_fsm_error e m))
  unfolding attempt_fsm_error send_out
  fsm_error-Inv e m h = rw (core-send_to_fsm Input.error m) h

  begin_connect-Inv :
      (c : Connection) (url : String) (m : Manager E)
      → Inv (core m)
      → Inv (core (begin_connect c url m))
  unfolding begin_connect
  begin_connect-Inv c url m h =
      let asked : Manager E = record m {
        connection_details = some c;
        tv_on_network_checker = watch (url_ip_addr E url) m.tv_on_network_checker;
      } in
      subst Inv (sym (core-set_mac_addr c url _ ∙ core-send_to_fsm (connect url) _))
        (set_flow-Inv _ asked (λ _. refl) (ground arith))

  pub connect-Inv :
      (c : Connection) (m : Manager E) → Inv (core m) → Inv (core (initiate_connect_to_tv c m).1)
  connect-Inv c m h = elim (connect_outcome c m) [
    | inl (_, same) ↦ subst (λ n. Inv (core n)) (sym same) h
    | inr (_, _, _, (url, _, begun)) ↦
        subst (λ n. Inv (core n)) (sym begun) (begin_connect-Inv c url _ h)
  ]

  wait-Inv :
      (url : String) (d : ℕ) (ticks : Ticks) (m : Manager E)
      → core (wait_for_retry url d ticks m) ≡ core m
  unfolding wait_for_retry send_out
  wait-Inv url d [] m = refl
  wait-Inv url d (none ∷ ticks) m = wait-Inv url d ticks m
  wait-Inv url d (some e ∷ ticks) m = wait-Inv url d ticks _

  pub report_connect-Inv :
      (r : Option String × Manager E) → Inv (core r.1) → Inv (core (report_connect r))
  unfolding report_connect send_out
  report_connect-Inv (none, m) h = h
  report_connect-Inv (some e, m) h = h

  attempt-Inv : (c : Connection) (m : Manager E) → Inv (core m) → Inv (core (attempt_reconnect c m))
  unfolding attempt_reconnect
  attempt-Inv c m h = report_connect-Inv _ (connect-Inv c _ h)

  reconnect_with-Inv :
      (immediate : Bool) (ticks : Ticks) (url : String) (c : Option Connection) (m : Manager E)
      → Inv (core m)
      → Inv (core (reconnect_with immediate ticks url c m))
  unfolding reconnect_with
  reconnect_with-Inv immediate ticks url none m h = h
  reconnect_with-Inv true ticks url (some c) m h = attempt-Inv c m h
  reconnect_with-Inv false ticks url (some c) m h =
      attempt-Inv c _
        (rw (wait-Inv url (reconnect_falloff m.reconnect_attempts 250 10000) ticks m) h)

  reconnect_to-Inv :
      (immediate : Bool) (ticks : Ticks) (url : Option String) (m : Manager E)
      → Inv (core m)
      → Inv (core (reconnect_to immediate ticks url m))
  unfolding reconnect_to
  reconnect_to-Inv immediate ticks none m h = reset-Inv _ _ (set_flow-Inv inactive m (λ e. cc) h)
  reconnect_to-Inv immediate ticks (some url) m h =
      reconnect_with-Inv immediate ticks url m.connection_details m h

  pub reconnect-Inv :
      (immediate : Bool) (ticks : Ticks) (m : Manager E)
      → in_reconnect_flow m.reconnect_flow_status ≡ true
      → Inv (core m)
      → Inv (core (initiate_reconnect immediate ticks m))
  unfolding initiate_reconnect
  reconnect-Inv immediate ticks m f h = ground (
    arith,
    reconnect_to-Inv immediate ticks (set_reconnect_flow_status active m).ws_url
        (set_reconnect_flow_status active m) (set_flow-Inv active m (λ _. h.flow_backed f) h),
  )

  reconnect_if_active-Inv :
      (ticks : Ticks) (m : Manager E) → Inv (core m) → Inv (core (reconnect_if_active ticks m))
  unfolding reconnect_if_active
  reconnect_if_active-Inv ticks m h = ground (
    arith,
    λ (f : in_reconnect_flow m.reconnect_flow_status ≡ true). reconnect-Inv false ticks m f h,
    set_flow-Inv inactive m (λ e. cc) h,
  )

  pub disconnected-Inv :
      (ticks : Ticks) (m : Manager E) → Inv (core m) → Inv (core (handle_disconnected ticks m))
  unfolding handle_disconnected
  disconnected-Inv ticks m h = reconnect_if_active-Inv ticks _ (initialize-Inv _ (Inv-unjoined h))
