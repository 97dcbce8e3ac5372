-- ===== src/Manager/Starting.antt =====
-- The start of communication (`handle_lgtv_response` of src/lgtv_manager/orchestration.rs): the first
-- volume response, and no later one, ends the initialization.
use lgtv_manager.Prelude.{
  ℕ, ◌+◌, ◌≤◌, ◌≡◌, refl, Bool, true, false, if◌then◌else◌, is_some, Option, none, some, List, [],
  ◌∷◌, ◌++◌, arith,
}
use lgtv_manager.Prelude.Channel.{Channel, send}
use lgtv_manager.Environment.{Env}
use lgtv_manager.StateMachine.{Input, pair, initialize, start_communication, error}
use lgtv_manager.Ssap.{
  LgTvResponsePayload, current_sw_info, get_external_input_list, get_power_state, get_system_info,
  get_volume_variant_a, get_volume_variant_b, plain_return_value, set_mute, set_screen_on,
  set_volume, LgTvResponse, error_response, registered, command, PairPayload,
}
use lgtv_manager.Manager.Messages.{tv_error}
use lgtv_manager.Manager.State.{Manager}
use lgtv_manager.Manager.Senders.{
  send_out, send_to_fsm, set_manager_status, set_host_ip_from_ws_url, emit_tv_info, emit_tv_inputs,
  emit_tv_software_info, emit_tv_state, emit_is_wake_tv_available,
}
use lgtv_manager.Manager.Persisted.{save_persisted_state}
use lgtv_manager.Manager.Orchestration.Reconnect.{attempt_fsm_error}
use lgtv_manager.Manager.Orchestration.Responses.{
  is_pairing_error, error_text, complete_initialization, handle_pair, handle_payload,
  handle_registered, handle_error_response, handle_response, handle_lgtv_response,
}

abbrev is_start : Input → ℕ
is_start start_communication = 1
is_start _ = 0

abbrev pub count_starts : List Input → ℕ
count_starts [] = 0
count_starts (i ∷ is) = is_start i + count_starts is

-- How often the state machine was told to start communication.
abbrev pub starts : Option (Channel Input) → ℕ
starts none = 0
starts (some tx) = count_starts tx.sent

count_starts-snoc :
    (is : List Input) (i : Input) → count_starts (is ++ i ∷ []) ≡ count_starts is + is_start i
count_starts-snoc [] i = omega arith
count_starts-snoc (j ∷ is) i = omega (arith, count_starts-snoc is i)

-- The starts so far, and one more that may come before the connection is initialized.
abbrev pub bound : {E : Env} → Manager E → ℕ
bound m = starts m.to_fsm_tx + (if m.is_connection_initialized then 0 else 1)

starts-send :
    (i : Input) (tx : Channel Input)
    → count_starts (send i tx).sent ≤ count_starts tx.sent + is_start i
unfolding send
starts-send i tx = ground (arith, count_starts-snoc tx.sent i)

module _ {E : Env} where
  send_to_fsm-starts :
      (i : Input) (m : Manager E)
      → (starts (send_to_fsm i m).to_fsm_tx ≤ starts m.to_fsm_tx + is_start i)
        × ((send_to_fsm i m).is_connection_initialized ≡ m.is_connection_initialized)
  unfolding send_to_fsm set_manager_status
  send_to_fsm-starts i m = sent m.to_fsm_tx refl
    where
      sent :
          (tx : Option (Channel Input))
          → m.to_fsm_tx ≡ tx
          → (starts (send_to_fsm i m).to_fsm_tx ≤ starts m.to_fsm_tx + is_start i)
            × ((send_to_fsm i m).is_connection_initialized ≡ m.is_connection_initialized)
      sent none e = ground arith
      sent (some tx) e = ground (arith, starts-send i tx)

  bound-send_to_fsm :
      (i : Input) (m : Manager E) → is_start i ≡ 0 → bound (send_to_fsm i m) ≤ bound m
  bound-send_to_fsm i m z = let (sent, same) = send_to_fsm-starts i m in rw same (omega arith)

  bound-set_host_ip : (m : Manager E) → bound (set_host_ip_from_ws_url m) ≡ bound m
  unfolding set_host_ip_from_ws_url
  bound-set_host_ip m = ground arith

  bound_complete : (m : Manager E) → bound (complete_initialization m) ≤ bound m
  unfolding complete_initialization
  bound_complete m = ground (
    arith,
    send_to_fsm-starts start_communication m,
    bound-set_host_ip
        (record (send_to_fsm start_communication m) { is_connection_initialized = true }),
  )

  bound-pair : (p : PairPayload) (m : Manager E) → bound (handle_pair p m) ≤ bound m
  unfolding handle_pair attempt_fsm_error send_out
  bound-pair p m = ground (arith, bound-send_to_fsm pair m refl, bound-send_to_fsm error m refl)

  bound-payload : (p : LgTvResponsePayload) (m : Manager E) → bound (handle_payload p m) ≤ bound m
  unfolding handle_payload emit_tv_info emit_tv_inputs emit_tv_software_info emit_tv_state send_out
  bound-payload (current_sw_info p) m = omega arith
  bound-payload (get_external_input_list p) m = omega arith
  bound-payload (get_power_state p) m = omega arith
  bound-payload (get_system_info p) m = omega arith
  bound-payload (get_volume_variant_a p) m = bound_complete m
  bound-payload (get_volume_variant_b p) m = bound_complete m
  bound-payload (LgTvResponsePayload.pair p) m = bound-pair p m
  bound-payload (plain_return_value p) m = omega arith
  bound-payload (set_mute p) m = omega arith
  bound-payload (set_screen_on p) m = omega arith
  bound-payload (set_volume p) m = omega arith

  bound-save : (m : Manager E) → bound (save_persisted_state m) ≡ bound m
  unfolding save_persisted_state emit_is_wake_tv_available send_out
  bound-save m = ground arith

  bound-if : (b : Bool) (x y : Manager E) → bound x ≤ bound y → bound (if b then x else y) ≤ bound y
  bound-if true x y h = h
  bound-if false x y h = omega arith

  bound-response : (r : LgTvResponse) (m : Manager E) → bound (handle_response r m) ≤ bound m
  unfolding handle_response handle_registered handle_error_response send_out
  bound-response (command r) m = bound-payload r.payload m
  bound-response (registered r) m =
      let keyed = record m { client_key = some r.payload.client_key } in
      omega
        (arith, bound-send_to_fsm initialize (save_persisted_state keyed) refl, bound-save keyed)
  bound-response (error_response r) m =
      let n = send_out (tv_error (error_text r.error)) m in
      bound-if (is_pairing_error r.error) (send_to_fsm error n) n (bound-send_to_fsm error n refl)

  bound-lgtv_response :
      (r : LgTvResponse) (m : Manager E) → bound (handle_lgtv_response r m) ≤ bound m
  unfolding handle_lgtv_response
  bound-lgtv_response r m =
      bound-if (is_some m.to_fsm_tx) (handle_response r m) m (bound-response r m)

  -- The responses of the TV, one after the other.
  unfoldable pub receive_all : List LgTvResponse → Manager E → Manager E
  receive_all [] m = m
  receive_all (r ∷ rs) m = receive_all rs (handle_lgtv_response r m)

  bound-receive_all : (rs : List LgTvResponse) (m : Manager E) → bound (receive_all rs m) ≤ bound m
  unfolding receive_all
  bound-receive_all [] m = omega arith
  bound-receive_all (r ∷ rs) m =
      omega (arith, bound-lgtv_response r m, bound-receive_all rs (handle_lgtv_response r m))

  -- However many responses of whatever kinds the TV sends, they tell the state machine to start
  -- communication at most once, and not at all if the connection is initialized already.
  pub starts_once :
      (rs : List LgTvResponse) (m : Manager E)
      → starts (receive_all rs m).to_fsm_tx
        ≤ starts m.to_fsm_tx + (if m.is_connection_initialized then 0 else 1)
  starts_once rs m = omega (arith, bound-receive_all rs m)
