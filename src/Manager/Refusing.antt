-- ===== src/Manager/Refusing.antt =====
-- A request to disconnect that the state machine refuses (`Disconnect` in `run` of
-- src/lgtv_manager.rs), and a connection that is made and lost later.
use lgtv_manager.Prelude.{
  ◌≡◌, refl, ap, ◌∙◌, true, false, none, some, Option, String, Result, ok, err, ◌<>◌, arith,
}
use lgtv_manager.Environment.{Env, Failure}
use lgtv_manager.Ssap.{LgTvRequest}
use lgtv_manager.StateMachine.{
  Input, connecting, transition, disconnect_from_tv, handle_successful_disconnect,
}
use lgtv_manager.StateMachine as Machine
use lgtv_manager.StateMachine.Task.{transition_error}
use lgtv_manager.Manager.Messages.{
  ManagerMessage, WsMessage, WsUpdateMessage, status, message_read_error, payload, inactive, active,
}
use lgtv_manager.Manager.State.{Manager}
use lgtv_manager.Manager.Senders.{send_out, set_reconnect_flow_status}
use lgtv_manager.Manager.Reset.{force_manager_reset, send_to_ws}
use lgtv_manager.Manager.Network.{is_auto_reconnect_enabled}
use lgtv_manager.Manager.Orchestration.Connect.{
  send_register_payload, send_register_request, send_register_text,
}
use lgtv_manager.Manager.Orchestration.Reconnect.{Ticks}
use lgtv_manager.Manager.Handlers.Caller.{handle_manager_message}
use lgtv_manager.Manager.Handlers.Machine.{handle_update, handle_output}
use lgtv_manager.Manager.Handlers.Socket.{
  handle_lost_connection, handle_ws_message, handle_ws_update, handle_ws_status,
}
use lgtv_manager.Manager.Resetting.{view-send_to_fsm, reset_clears}
use lgtv_manager.Manager.Retrying.{flow-lost}
use lgtv_manager.Manager.Disconnecting.{marked_disconnect}

module _ {E : Env} where
  -- Outside of a reconnect flow, with a disconnect marked as the caller's.
  record Marked (m : Manager E) : Type 0 where
    off : m.reconnect_flow_status ≡ inactive
    mark : m.is_manual_disconnect_requested ≡ true

  reset-Marked :
      (reason : String) (m : Manager E) → Marked m → Marked (force_manager_reset reason m)
  reset-Marked reason m h = record {
    off = ap (λ v. v.reconnect_flow_status) (reset_clears reason m) ∙ ground (arith, h.off);
    mark = ap (λ v. v.is_manual_disconnect_requested) (reset_clears reason m) ∙ h.mark;
  }

  send-Marked : (w : WsMessage) (m : Manager E) → Marked m → Marked (send_to_ws w m)
  unfolding send_to_ws
  send-Marked w m h =
      let r =
        reset-Marked "Cannot send message to WebSocket handler: channel unexpectedly closed" m h in
      record { off = ground (arith, h.off, r.off); mark = ground (arith, h.mark, r.mark) }

  text-Marked :
      (r : Result String Failure) (m : Manager E) → Marked m → Marked (send_register_text r m)
  unfolding send_register_text
  text-Marked (ok text) m h = send-Marked (payload text) m h
  text-Marked (err e) m h = reset-Marked _ m h

  request-Marked :
      (r : Result (LgTvRequest E.Value) String) (m : Manager E)
      → Marked m
      → Marked (send_register_request r m)
  unfolding send_register_request
  request-Marked (ok request) m h =
      text-Marked (E.request_to_string request) _ (record { off = h.off; mark = h.mark })
  request-Marked (err e) m h = reset-Marked e m h

  register-Marked : (m : Manager E) → Marked m → Marked (send_register_payload m)
  unfolding send_register_payload
  register-Marked m h = request-Marked _ m h

  -- The connection is made, whatever the flow was.
  made-Marked :
      (ticks : Ticks) (m : Manager E)
      → m.is_manual_disconnect_requested ≡ true
      → Marked (handle_output Machine.send_register_payload ticks m)
  unfolding handle_output set_reconnect_flow_status send_out
  made-Marked ticks m h = register-Marked _ (record { off = refl; mark = h })

  lost-Marked : (msg : String) (m : Manager E) → Marked m → Marked (handle_lost_connection msg m)
  lost-Marked msg m h = record {
    off = ap (λ f. f.status) (flow-lost msg m) ∙ ground (arith, h.off, h.mark);
    mark = ap (λ f. f.manual) (flow-lost msg m) ∙ h.mark;
  }

  refused-mark :
      (e : String) (ticks : Ticks) (m : Manager E)
      → (handle_update
          (transition_error e)
          ticks
          (handle_manager_message ManagerMessage.disconnect m)).is_manual_disconnect_requested
        ≡ true
  unfolding handle_update handle_manager_message send_out
  refused-mark e ticks m =
      ap (λ v. v.is_manual_disconnect_requested)
        (view-send_to_fsm Input.disconnect (record m { is_manual_disconnect_requested = true }))

  -- The state machine refuses a disconnect while it connects. If the caller asks for one nevertheless,
  -- the connection is then made, and is lost later: where its settings ask for a reconnect and the TV
  -- is on the network, the loss would begin a reconnect if the mark of the disconnect had gone with the
  -- refusal; as it has not, there is none: at the end of the loss the flow is inactive and the
  -- connection is forgotten.
  pub refused_disconnect-lost :
      (url e msg : String) (t0 t1 t2 t3 : Ticks) (m : Manager E)
      → let refused =
          handle_update
            (transition_error e)
            t0
            (handle_manager_message ManagerMessage.disconnect m) in
        let made = handle_output Machine.send_register_payload t1 refused in
        is_auto_reconnect_enabled made ≡ true
        → made.is_tv_on_network ≡ true
        → let loss : Option WsUpdateMessage = some (status (message_read_error msg)) in
          let unmarked = record made { is_manual_disconnect_requested = false } in
          let closing = handle_output disconnect_from_tv t2 (handle_ws_message loss made) in
          let after = handle_output handle_successful_disconnect t3 closing in
          (transition (connecting url) Input.disconnect ≡ none)
          × ((handle_ws_message loss unmarked).reconnect_flow_status ≡ active)
          × (after.reconnect_flow_status ≡ inactive)
          × (after.connection_details ≡ none)
  unfolding transition handle_ws_message handle_ws_update handle_ws_status
  refused_disconnect-lost url e msg t0 t1 t2 t3 m auto net =
      let made = handle_output Machine.send_register_payload t1 (
        handle_update (transition_error e) t0
          (handle_manager_message ManagerMessage.disconnect m)) in
      let known = made-Marked t1 _ (refused-mark e t0 m) in
      let text : String = "WebSocket message read error: " <> E.debug_str msg in
      let lost = lost-Marked text made known in
      let (_, over, _, forgotten, _, _) =
        marked_disconnect t2 t3 (handle_lost_connection text made) lost.off lost.mark in
      (
        refl,
        ap (λ f. f.status) (flow-lost text (record made { is_manual_disconnect_requested = false }))
            ∙ ground (arith, known.off, auto, net),
        over,
        forgotten,
      )
