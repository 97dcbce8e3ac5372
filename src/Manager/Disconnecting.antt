-- ===== src/Manager/Disconnecting.antt =====
-- A disconnect that the caller asks for (`run` of src/lgtv_manager.rs, `initiate_disconnect_from_tv`
-- and `handle_disconnected` of src/lgtv_manager/orchestration.rs).
use lgtv_manager.Prelude.{◌≡◌, ap, ◌∙◌, true, false, none, arith}
use lgtv_manager.Environment.{Env}
use lgtv_manager.StateMachine.{disconnect_from_tv, handle_successful_disconnect}
use lgtv_manager.Manager.Messages.{inactive, WsMessage, shut_down}
use lgtv_manager.Manager.State.{Manager}
use lgtv_manager.Manager.Reset.{initialize_manager_state, send_to_ws}
use lgtv_manager.Manager.Network.{optionally_prepare_for_reconnect}
use lgtv_manager.Manager.Orchestration.Connect.{initiate_disconnect_from_tv}
use lgtv_manager.Manager.Orchestration.Reconnect.{Ticks, reconnect_if_active, handle_disconnected}
use lgtv_manager.Manager.Handlers.Machine.{end_disconnect, handle_output}
use lgtv_manager.Manager.Resetting.{view, cleared, settled, view-initialize, reset_settles}

module _ {E : Env} where
  inactive_sent :
      (message : WsMessage) (m : Manager E)
      → m.reconnect_flow_status ≡ inactive
      → (send_to_ws message m).reconnect_flow_status ≡ inactive
  unfolding send_to_ws
  inactive_sent message m h = ground (
    arith,
    reset_settles "Cannot send message to WebSocket handler: channel unexpectedly closed" m,
  )

  inactive_disconnecting :
      (m : Manager E)
      → m.reconnect_flow_status ≡ inactive
      → (initiate_disconnect_from_tv m).reconnect_flow_status ≡ inactive
  unfolding initiate_disconnect_from_tv
  inactive_disconnecting m h = ground (arith, inactive_sent shut_down m h)

  -- The end of a disconnect outside of a reconnect flow is the initialization of the state.
  ended :
      (ticks : Ticks) (m : Manager E)
      → m.reconnect_flow_status ≡ inactive
      → view (end_disconnect ticks m)
        ≡ cleared
            (record (view m) { ws_join_handle = none; is_manual_disconnect_requested = false })
  unfolding end_disconnect handle_disconnected reconnect_if_active
  ended ticks m h =
      let quiet : Manager E = record m {
        ws_join_handle = none;
        is_manual_disconnect_requested = false;
      } in
      let same : view (initialize_manager_state quiet) ≡ cleared (view quiet) =
        view-initialize quiet in
      let flow : (initialize_manager_state quiet).reconnect_flow_status ≡ inactive =
        ap (λ v. v.reconnect_flow_status) same ∙ ap settled h in
      ground (arith, same, flow)

  -- The manager's part in a disconnect, and its end, once a disconnect is marked as the caller's.
  pub marked_disconnect :
      (ticks later : Ticks) (asked : Manager E)
      → asked.reconnect_flow_status ≡ inactive
      → asked.is_manual_disconnect_requested ≡ true
      → let closing = handle_output disconnect_from_tv ticks asked in
        let after = handle_output handle_successful_disconnect later closing in
        (closing.reconnect_flow_status ≡ inactive)
        × (after.reconnect_flow_status ≡ inactive)
        × (after.is_manual_disconnect_requested ≡ false)
        × (after.connection_details ≡ none)
        × (after.is_connection_initialized ≡ false)
        × (after.ws_join_handle ≡ none)
  unfolding handle_output optionally_prepare_for_reconnect
  marked_disconnect ticks later asked kept manual =
      let closing = handle_output disconnect_from_tv ticks asked in
      let quiet : closing.reconnect_flow_status ≡ inactive =
        ground (arith, inactive_disconnecting asked kept, manual) in
      let last = ended later closing quiet in
      (
        quiet,
        ap (λ v. v.reconnect_flow_status) last ∙ ap settled quiet,
        ap (λ v. v.is_manual_disconnect_requested) last,
        ap (λ v. v.connection_details) last ∙ ground (arith, quiet),
        ap (λ v. v.is_connection_initialized) last,
        ap (λ v. v.ws_join_handle) last,
      )
