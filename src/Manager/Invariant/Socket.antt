-- ===== src/Manager/Invariant/Socket.antt =====
-- The handling of a message of the WebSocket handler keeps the invariant.
use lgtv_manager.Prelude.{
  ◌≡◌, refl, ◌∙◌, Bool, true, false, if◌then◌else◌, is_some, Option, none, some, String, Result, ok,
  err, arith,
}
use lgtv_manager.Environment.{Env, Failure}
use lgtv_manager.StateMachine.{Input}
use lgtv_manager.Ssap.{
  LgTvResponsePayload, current_sw_info, get_external_input_list, get_power_state, get_system_info,
  get_volume_variant_a, get_volume_variant_b, plain_return_value, set_mute, set_screen_on,
  set_volume, LgTvResponse, error_response, registered, command, PairPayload,
}
use lgtv_manager.Manager.Messages.{
  WsStatus, idle, connected, disconnected, connect_error, message_read_error,
  server_closed_connection, WsUpdateMessage, is_connection_ok, connection, connection_test_status,
  passed, failed, tv_error,
}
use lgtv_manager.Manager.State.{Manager}
use lgtv_manager.Manager.Senders.{
  send_out, emit_tv_info, emit_tv_inputs, emit_tv_software_info, emit_tv_state, send_to_fsm,
}
use lgtv_manager.Manager.Orchestration.Reconnect.{attempt_fsm_error}
use lgtv_manager.Manager.Orchestration.Responses.{
  is_pairing_error, error_text, complete_initialization, handle_pair, handle_payload,
  handle_registered, handle_error_response, handle_response, handle_lgtv_response,
}
use lgtv_manager.Manager.Handlers.Socket.{
  handle_lost_connection, handle_ws_status, handle_ws_payload, handle_ws_update, handle_ws_message,
}
use lgtv_manager.Manager.Invariant.{core, Inv}
use lgtv_manager.Manager.Invariant.Frame.{core-send_to_fsm, core-save, core-set_host_ip}
use lgtv_manager.Manager.Invariant.Kept.{Inv-if, prepare-Inv, fsm_error-Inv}

module _ {E : Env} where
  completed-core : (m : Manager E) → core (complete_initialization m) ≡ core m
  unfolding complete_initialization
  completed-core m = ground (
    arith,
    core-send_to_fsm Input.start_communication m,
    core-set_host_ip
        (record (send_to_fsm Input.start_communication m) { is_connection_initialized = true }),
  )

  pair-core : (p : PairPayload) (m : Manager E) → core (handle_pair p m) ≡ core m
  unfolding handle_pair attempt_fsm_error send_out
  pair-core p m = ground (arith, core-send_to_fsm Input.pair m, core-send_to_fsm Input.error m)

  payload-core : (p : LgTvResponsePayload) (m : Manager E) → core (handle_payload p m) ≡ core m
  unfolding handle_payload emit_tv_info emit_tv_inputs emit_tv_software_info emit_tv_state send_out
  payload-core (current_sw_info p) m = refl
  payload-core (get_external_input_list p) m = refl
  payload-core (get_power_state p) m = refl
  payload-core (get_system_info p) m = refl
  payload-core (get_volume_variant_a p) m = completed-core m
  payload-core (get_volume_variant_b p) m = completed-core m
  payload-core (LgTvResponsePayload.pair p) m = pair-core p m
  payload-core (plain_return_value p) m = refl
  payload-core (set_mute p) m = refl
  payload-core (set_screen_on p) m = refl
  payload-core (set_volume p) m = refl

  core-if : (b : Bool) (x y : Manager E) → core x ≡ core y → core (if b then x else y) ≡ core y
  core-if true x y e = e
  core-if false x y e = refl

  pub response-core : (r : LgTvResponse) (m : Manager E) → core (handle_response r m) ≡ core m
  unfolding handle_response handle_registered handle_error_response send_out
  response-core (command r) m = payload-core r.payload m
  response-core (registered r) m = core-send_to_fsm Input.initialize _ ∙ core-save _
  response-core (error_response r) m =
      let n = send_out (tv_error (error_text r.error)) m in
      core-if (is_pairing_error r.error) (send_to_fsm Input.error n) n
        (core-send_to_fsm Input.error n)

  response-Inv :
      (r : LgTvResponse) (m : Manager E) → Inv (core m) → Inv (core (handle_lgtv_response r m))
  unfolding handle_lgtv_response
  response-Inv r m h =
      Inv-if (is_some m.to_fsm_tx) (handle_response r m) m (λ _. rw (response-core r m) h) (λ _. h)

  lost-Inv :
      (msg : String) (m : Manager E) → Inv (core m) → Inv (core (handle_lost_connection msg m))
  unfolding handle_lost_connection
  lost-Inv msg m h = fsm_error-Inv _ _ (prepare-Inv m h)

  status-Inv : (s : WsStatus) (m : Manager E) → Inv (core m) → Inv (core (handle_ws_status s m))
  unfolding handle_ws_status
  status-Inv idle m h = h
  status-Inv connected m h = rw (core-send_to_fsm Input.attempt_register m) h
  status-Inv disconnected m h = rw (core-send_to_fsm Input.disconnection_complete m) h
  status-Inv (connect_error e) m h = lost-Inv _ m h
  status-Inv (message_read_error e) m h = lost-Inv _ m h
  status-Inv server_closed_connection m h = lost-Inv _ m h

  payload-Inv :
      (p : String) (r : Result LgTvResponse Failure) (m : Manager E)
      → Inv (core m)
      → Inv (core (handle_ws_payload p r m))
  unfolding handle_ws_payload send_out
  payload-Inv p (ok r) m h = response-Inv r m h
  payload-Inv p (err e) m h = h

  pub socket-Inv :
      (u : Option WsUpdateMessage) (m : Manager E)
      → Inv (core m)
      → Inv (core (handle_ws_message u m))
  unfolding handle_ws_message handle_ws_update send_out
  socket-Inv none m h = h
  socket-Inv (some (WsUpdateMessage.status s)) m h = status-Inv s m h
  socket-Inv (some (WsUpdateMessage.payload p)) m h = payload-Inv p (E.response_from_str p) m h
  socket-Inv (some (is_connection_ok is_ok)) m h =
      let n = send_out (connection_test_status (if is_ok then passed else failed)) m in
      let failure = connection "WebSocket connection test failed" in
      Inv-if is_ok n (attempt_fsm_error failure n) (λ _. h) (λ _. fsm_error-Inv failure n h)
