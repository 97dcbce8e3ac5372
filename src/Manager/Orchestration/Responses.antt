-- ===== src/Manager/Orchestration/Responses.antt =====
-- The responses of the TV (`handle_lgtv_response` of src/lgtv_manager/orchestration.rs).
use lgtv_manager.Prelude.{
  ◌▹◌, Bool, true, false, ◌||◌, if◌then◌else◌, Option, none, some, is_some, String, ◌<>◌, str_eq,
  contains,
}
use lgtv_manager.Environment.{Env}
use lgtv_manager.StateMachine.{Input}
use lgtv_manager.Ssap.{
  LgTvResponsePayload, current_sw_info, get_external_input_list, get_power_state, get_system_info,
  get_volume_variant_a, get_volume_variant_b, plain_return_value, set_mute, set_screen_on,
  set_volume, LgTvResponse, error_response, registered, command, power_state_from, tv_info_from,
  PairPayload, LgTvRegisteredResponse,
}
use lgtv_manager.Manager.Messages.{pair, tv_error}
use lgtv_manager.Manager.State.{Manager}
use lgtv_manager.Manager.Senders.{
  send_out, emit_tv_info, emit_tv_inputs, emit_tv_software_info, emit_tv_state, send_to_fsm,
  set_host_ip_from_ws_url,
}
use lgtv_manager.Manager.Persisted.{save_persisted_state}
use lgtv_manager.Manager.Orchestration.Reconnect.{attempt_fsm_error}

-- A pairing error is handled by the state machine.
unfoldable pub is_pairing_error : Option String → Bool
is_pairing_error none = false
is_pairing_error (some text) = contains text "pairing" || contains text "403 cancelled"

unfoldable pub error_text : Option String → String
error_text none = "Unknown TV error"
error_text (some text) = text

module _ {E : Env} where
  -- The first volume response after a connect completes the initialization.
  unfoldable pub complete_initialization : Manager E → Manager E
  complete_initialization m =
      if m.is_connection_initialized
      then m
      else m
        ▹ send_to_fsm Input.start_communication
        ▹ (λ m. record m { is_connection_initialized = true })
        ▹ set_host_ip_from_ws_url

  -- A request to pair.
  unfoldable pub handle_pair : PairPayload → Manager E → Manager E
  handle_pair pair_info m =
      if str_eq pair_info.pairing_type "PROMPT"
      then send_to_fsm Input.pair m
      else attempt_fsm_error (pair ("Unexpected pair type: " <> pair_info.pairing_type)) m

  -- The `match` on the payload of a command's response.
  unfoldable pub handle_payload : LgTvResponsePayload → Manager E → Manager E
  handle_payload (current_sw_info p) m =
      record m { tv_software_info = some p } ▹ emit_tv_software_info
  handle_payload (get_external_input_list p) m =
      record m { tv_inputs = some p.devices } ▹ emit_tv_inputs
  handle_payload (get_power_state p) m =
      record m { tv_state = record m.tv_state { power_state = some (power_state_from p) } }
      ▹ emit_tv_state
  handle_payload (get_system_info p) m = record m { tv_info = some (tv_info_from p) } ▹ emit_tv_info
  handle_payload (get_volume_variant_a p) m =
      m
      ▹ complete_initialization
      ▹ (λ m. record m {
        tv_state = record m.tv_state {
          volume = some p.volume_status.volume;
          is_muted = some p.volume_status.mute_status;
          is_volume_settable = some p.volume_status.adjust_volume;
        };
      })
      ▹ emit_tv_state
  handle_payload (get_volume_variant_b p) m =
      m
      ▹ complete_initialization
      ▹ (λ m. record m {
        tv_state = record m.tv_state {
          volume = some p.volume;
          is_muted = some p.muted;
          is_volume_settable = some p.supportvolume;
        };
      })
      ▹ emit_tv_state
  handle_payload (LgTvResponsePayload.pair p) m = handle_pair p m
  handle_payload (plain_return_value _) m = m
  handle_payload (set_screen_on p) m =
      record m { tv_state = record m.tv_state { is_screen_on = some (str_eq p.state "Active") } }
      ▹ emit_tv_state
  handle_payload (set_mute _) m = m
  handle_payload (set_volume _) m = m

  -- The TV accepted the client.
  unfoldable pub handle_registered : LgTvRegisteredResponse → Manager E → Manager E
  handle_registered r m =
      record m { client_key = some r.payload.client_key }
      ▹ save_persisted_state
      ▹ send_to_fsm Input.initialize

  -- An error of the TV.
  unfoldable pub handle_error_response : Option String → Manager E → Manager E
  handle_error_response e m =
      let m = send_out (tv_error (error_text e)) m in
      if is_pairing_error e then send_to_fsm Input.error m else m

  -- The `match` on the response.
  unfoldable pub handle_response : LgTvResponse → Manager E → Manager E
  handle_response (command r) m = handle_payload r.payload m
  handle_response (registered r) m = handle_registered r m
  handle_response (error_response r) m = handle_error_response r.error m

  -- `handle_lgtv_response`. Its only error, the lack of a channel to the state machine, is logged.
  unfoldable pub handle_lgtv_response : LgTvResponse → Manager E → Manager E
  handle_lgtv_response r m = if is_some m.to_fsm_tx then handle_response r m else m
