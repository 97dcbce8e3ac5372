-- ===== src/Manager/Registering/Kept.antt =====
-- What the methods of the manager make of the messages to its WebSocket handler.
use lgtv_manager.Prelude.{
  ◌≡◌, sym, ap, ◌∙◌, subst, Bool, Bool-cases, true, false, inl, inr, if◌then◌else◌, Option, none,
  some, is_some, [], ◌∷◌, String, arith,
}
use lgtv_manager.Prelude.Channel.{Channel, is_open}
use lgtv_manager.Environment.{Env}
use lgtv_manager.StateMachine.{Input}
use lgtv_manager.Manager.Messages.{ManagerError, ReconnectFlowStatus, WsMessage, shut_down}
use lgtv_manager.Manager.State.{Manager}
use lgtv_manager.Manager.Senders.{send_out, send_to_fsm, set_reconnect_flow_status}
use lgtv_manager.Manager.Reset.{initialize_manager_state, force_manager_reset, send_to_ws}
use lgtv_manager.Manager.Network.{optionally_prepare_for_reconnect}
use lgtv_manager.Manager.Orchestration.Connect.{initiate_disconnect_from_tv}
use lgtv_manager.Manager.Orchestration.Reconnect.{attempt_fsm_error}
use lgtv_manager.Manager.Invariant.{core}
use lgtv_manager.Manager.Invariant.Frame.{core-send_to_fsm, core-initialize, core-reset}
use lgtv_manager.Manager.Registering.{
  first_order, Proper, IsOrder, Opening, Opens, send-Opening, Opens-weaken, shut_down-Opens,
}

-- The messages to the handler that the manager talks to.
abbrev pub Asks : {E : Env} → Bool → Manager E → Type 0
Asks {E} asked m = Opens E asked m.to_ws_tx

module _ {E : Env} (asked : Bool) where
  pub Asks-same : (m n : Manager E) → core n ≡ core m → Asks asked m → Asks asked n
  Asks-same m n e h = subst (Opens E asked) (sym (ap (λ c. c.to_ws) e)) h

  pub Asks-if :
      (b : Bool) (x y : Manager E) → Asks asked x → Asks asked y → Asks asked (if b then x else y)
  Asks-if true x y p q = p
  Asks-if false x y p q = q

  pub initialize-Asks : (m : Manager E) → Asks asked m → Asks asked (initialize_manager_state m)
  initialize-Asks m h =
      subst (Opens E asked) (sym (ap (λ c. c.to_ws) (core-initialize m) ∙ ground arith)) h

  -- A handler that is told to shut down was asked something.
  pub asked-reset :
      (reason : String) (m : Manager E) → Asks asked m → Asks true (force_manager_reset reason m)
  asked-reset reason m h =
      subst (Opens E true) (sym (ap (λ c. c.to_ws) (core-reset reason m) ∙ ground arith))
        (shut_down-Opens E asked m.to_ws_tx h)

  pub reset-Asks :
      (reason : String) (m : Manager E) → Asks asked m → Asks asked (force_manager_reset reason m)
  reset-Asks reason m h = Opens-weaken E asked _ (asked-reset reason m h)

  may_begin :
      (w : WsMessage) (tx : Channel WsMessage)
      → Opening E asked tx
      → (asked ≡ false → Proper E (first_order (w ∷ [])))
      → first_order tx.sent ≡ none
      → is_open tx.room ≡ true
      → Proper E (first_order (w ∷ []))
  may_begin w tx h proper empty o = elim (Bool-cases asked) [
    | inl asks ↦ let have = h.begun asks o in cc (have, empty)
    | inr asks_not ↦ proper asks_not
  ]

  send-Asks :
      (w : WsMessage) (tx : Option (Channel WsMessage)) (m : Manager E)
      → Opens E asked tx
      → IsOrder E w
      → (asked ≡ false → Proper E (first_order (w ∷ [])))
      → Asks asked (send_to_ws w (record m { to_ws_tx = tx }))
  unfolding send_to_ws
  send-Asks w none m h o proper = h
  send-Asks w (some tx) m h o proper =
      Asks-if (is_open tx.room) _ _
        (send-Opening E asked w tx.sent tx.room h o (may_begin w tx h proper))
        (reset-Asks _ (record m { to_ws_tx = some tx }) h)

  -- A message to a handler that it may begin with, or to one that was asked something.
  pub send_to_ws-Asks :
      (w : WsMessage) (m : Manager E)
      → Asks asked m
      → IsOrder E w
      → (asked ≡ false → Proper E (first_order (w ∷ [])))
      → Asks asked (send_to_ws w m)
  send_to_ws-Asks w m h o proper = send-Asks w m.to_ws_tx m h o proper

  pub initiate_disconnect-Asks :
      (m : Manager E) → Asks asked m → Asks asked (initiate_disconnect_from_tv m)
  unfolding initiate_disconnect_from_tv
  initiate_disconnect-Asks m h =
      Asks-if (is_some m.ws_join_handle) (send_to_ws shut_down m) m
        (send_to_ws-Asks shut_down m h tt (λ _. tt)) h

  pub prepare-Asks :
      (m : Manager E) → Asks asked m → Asks asked (optionally_prepare_for_reconnect m)
  unfolding optionally_prepare_for_reconnect set_reconnect_flow_status send_out
  prepare-Asks m h = ground (arith, h)

  pub set_flow-Asks :
      (s : ReconnectFlowStatus) (m : Manager E)
      → Asks asked m
      → Asks asked (set_reconnect_flow_status s m)
  unfolding set_reconnect_flow_status send_out
  set_flow-Asks s m h = h

  pub fsm_error-Asks :
      (e : ManagerError) (m : Manager E) → Asks asked m → Asks asked (attempt_fsm_error e m)
  unfolding attempt_fsm_error send_out
  fsm_error-Asks e m h = Asks-same m (send_to_fsm Input.error m) (core-send_to_fsm Input.error m) h
