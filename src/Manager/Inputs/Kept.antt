-- ===== src/Manager/Inputs/Kept.antt =====
-- The methods of the manager (src/lgtv_manager/) that send to the state machine or to the WebSocket
-- handler keep its status and what it sent.
use lgtv_manager.Prelude.{
  ◌≡◌, refl, ap, ◌∙◌, subst, append-nil, Bool, true, false, if◌then◌else◌, Option, none, some,
  is_some, List, [], ◌∷◌, ◌++◌, append_assoc, String, arith,
}
use lgtv_manager.Connection.{Connection}
use lgtv_manager.Environment.{Env}
use lgtv_manager.StateMachine.{State, Input, reset}
use lgtv_manager.TvCommand.{
  TvCommand, get_current_sw_info, get_external_input_list, get_power_state, get_system_info,
  subscribe_get_volume, subscribe_get_power_state,
}
use lgtv_manager.Manager.Messages.{ReconnectFlowStatus, WsMessage, shut_down}
use lgtv_manager.Manager.State.{Manager}
use lgtv_manager.Manager.Senders.{
  send_out, emit_manager_status, send_to_fsm, set_reconnect_flow_status,
}
use lgtv_manager.Manager.Reset.{force_manager_reset, send_to_ws}
use lgtv_manager.Manager.Network.{optionally_prepare_for_reconnect}
use lgtv_manager.Manager.Orchestration.Connect.{
  start_websocket_handler_and_connect, send_register_payload, send_command_to_ws,
  initialize_connection, initiate_disconnect_from_tv, track_good_connection,
}
use lgtv_manager.Manager.Inputs.{trace, LeavesOut, Keeps, all_from-append}
use lgtv_manager.Manager.Inputs.Traces.{trace-initialize, trace-prepare}

module _ {E : Env} {s : State} {xs : List Input} {b : Bool} {A : Type 0} {f : Input → List A}
    ⦃quiet : LeavesOut f⦄ {cs : List A} where
  -- A branch keeps what both of its sides keep.
  pub Keeps-if :
      (test : Bool) (m n : Manager E)
      → Keeps f s xs b cs (trace m)
      → Keeps f s xs b cs (trace n)
      → Keeps f s xs b cs (trace (if test then m else n))
  Keeps-if true m n h k = h
  Keeps-if false m n h k = k

  pub sent-Keeps :
      (i : Input) (m : Manager E)
      → Keeps f s xs b cs (trace m)
      → Keeps f s xs b (cs ++ f i) (trace (send_to_fsm i m))
  unfolding send_to_fsm
  sent-Keeps i m h =
      let (ys, e) = h.has_sent in
      record {
        same_status = ground (arith, h.same_status, e);
        has_sent = (ys ++ i ∷ [], ground (arith, e, append_assoc xs ys (i ∷ [])));
        same_view =
            ground (arith, e, h.same_view, all_from-append f (xs ++ ys) (i ∷ []), append-nil (f i));
        still_heard = λ q. ground (arith, h.still_heard q);
      }

  -- An input that the view leaves out.
  pub send_to_fsm-Keeps :
      (i : Input)
      → f i ≡ []
      → (m : Manager E) → Keeps f s xs b cs (trace m)
      → Keeps f s xs b cs (trace (send_to_fsm i m))
  send_to_fsm-Keeps i plain m h =
      subst (λ ds. Keeps f s xs b ds (trace (send_to_fsm i m)))
        (ap (λ ds. cs ++ ds) plain ∙ append-nil cs) (sent-Keeps i m h)

  pub reset-Keeps :
      (reason : String) (m : Manager E)
      → Keeps f s xs b cs (trace m)
      → Keeps f s xs b cs (trace (force_manager_reset reason m))
  unfolding force_manager_reset send_out emit_manager_status
  reset-Keeps reason m h = send_to_fsm-Keeps reset quiet.resets _ (rw (trace-initialize _) h)

  pub send_to_ws-Keeps :
      (w : WsMessage) (m : Manager E)
      → Keeps f s xs b cs (trace m)
      → Keeps f s xs b cs (trace (send_to_ws w m))
  unfolding send_to_ws
  send_to_ws-Keeps w m h = ground (
    arith,
    reset-Keeps "Cannot send message to WebSocket handler: channel unexpectedly closed" m h,
    h,
  )

  pub send_command-Keeps :
      (c : TvCommand) (m : Manager E)
      → Keeps f s xs b cs (trace m)
      → Keeps f s xs b cs (trace (send_command_to_ws c m))
  unfolding send_command_to_ws
  send_command-Keeps c m h = send_to_ws-Keeps _ _ h

  track-Keeps :
      (c : Option Connection) (m : Manager E)
      → Keeps f s xs b cs (trace m)
      → Keeps f s xs b cs (trace (track_good_connection c m))
  unfolding track_good_connection
  track-Keeps none m h = h
  track-Keeps (some c) m h = h

  pub initialize_connection-Keeps :
      (m : Manager E)
      → Keeps f s xs b cs (trace m)
      → Keeps f s xs b cs (trace (initialize_connection m))
  unfolding initialize_connection
  initialize_connection-Keeps m h = track-Keeps _ _ (
      send_command-Keeps subscribe_get_power_state _ (
        send_command-Keeps subscribe_get_volume _ (
          send_command-Keeps get_system_info _ (
            send_command-Keeps get_power_state _ (
              send_command-Keeps get_external_input_list _
                (send_command-Keeps get_current_sw_info m h))))))

  pub register-Keeps :
      (m : Manager E)
      → Keeps f s xs b cs (trace m)
      → Keeps f s xs b cs (trace (send_register_payload m))
  unfolding send_register_payload
  register-Keeps m h = grind (arith, send_to_ws-Keeps, reset-Keeps)

  pub initiate_disconnect-Keeps :
      (m : Manager E)
      → Keeps f s xs b cs (trace m)
      → Keeps f s xs b cs (trace (initiate_disconnect_from_tv m))
  unfolding initiate_disconnect_from_tv
  initiate_disconnect-Keeps m h =
      Keeps-if (is_some m.ws_join_handle) (send_to_ws shut_down m) m
        (send_to_ws-Keeps shut_down m h) h

  pub start_handler-Keeps :
      (url : String) (m : Manager E)
      → Keeps f s xs b cs (trace m)
      → Keeps f s xs b cs (trace (start_websocket_handler_and_connect url m))
  unfolding start_websocket_handler_and_connect
  start_handler-Keeps url m h = record {
    same_status = h.same_status;
    has_sent = h.has_sent;
    same_view = h.same_view;
    still_heard = λ _. refl;
  }

  pub set_flow-Keeps :
      (flow : ReconnectFlowStatus) (m : Manager E)
      → Keeps f s xs b cs (trace m)
      → Keeps f s xs b cs (trace (set_reconnect_flow_status flow m))
  unfolding set_reconnect_flow_status send_out
  set_flow-Keeps flow m h = h

  pub prepare-Keeps :
      (m : Manager E)
      → Keeps f s xs b cs (trace m)
      → Keeps f s xs b cs (trace (optionally_prepare_for_reconnect m))
  prepare-Keeps m h = rw (trace-prepare m) h
