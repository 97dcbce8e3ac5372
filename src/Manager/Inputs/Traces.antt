-- ===== src/Manager/Inputs/Traces.antt =====
-- Methods of the manager (src/lgtv_manager/) that leave its status and its channels alone.
use lgtv_manager.Prelude.{ℕ, ◌≡◌, refl, none, some, [], ◌∷◌, String, arith}
use lgtv_manager.Connection.{Connection, host, device}
use lgtv_manager.Environment.{Env}
use lgtv_manager.Manager.State.{Manager}
use lgtv_manager.Manager.Senders.{
  send_out, emit_all_tv_details, emit_is_wake_tv_available, set_reconnect_flow_status,
  set_host_ip_from_ws_url,
}
use lgtv_manager.Manager.Persisted.{import_persisted_state, save_persisted_state}
use lgtv_manager.Manager.Reset.{check_network, initialize_manager_state}
use lgtv_manager.Manager.Network.{optionally_prepare_for_reconnect, wake_last_seen_tv}
use lgtv_manager.Manager.Orchestration.Connect.{set_mac_addr}
use lgtv_manager.Manager.Orchestration.Reconnect.{Ticks, wait_for_retry}
use lgtv_manager.Manager.Inputs.{trace}

module _ {E : Env} where
  pub trace-import : (m : Manager E) → trace (import_persisted_state m) ≡ trace m
  unfolding import_persisted_state
  trace-import m = ground arith

  pub trace-save : (m : Manager E) → trace (save_persisted_state m) ≡ trace m
  unfolding save_persisted_state emit_is_wake_tv_available
  trace-save m = ground arith

  pub trace-set_host_ip : (m : Manager E) → trace (set_host_ip_from_ws_url m) ≡ trace m
  unfolding set_host_ip_from_ws_url
  trace-set_host_ip m = ground arith

  pub trace-wake : (m : Manager E) → trace (wake_last_seen_tv m) ≡ trace m
  unfolding wake_last_seen_tv
  trace-wake m = ground arith

  pub trace-initialize : (m : Manager E) → trace (initialize_manager_state m) ≡ trace m
  unfolding initialize_manager_state import_persisted_state check_network emit_all_tv_details
      send_out set_reconnect_flow_status
  trace-initialize m = ground arith

  pub trace-prepare : (m : Manager E) → trace (optionally_prepare_for_reconnect m) ≡ trace m
  unfolding optionally_prepare_for_reconnect set_reconnect_flow_status send_out
  trace-prepare m = ground arith

  pub trace-set_mac_addr :
      (c : Connection) (url : String) (m : Manager E) → trace (set_mac_addr c url m) ≡ trace m
  unfolding set_mac_addr
  trace-set_mac_addr (host h s) url m = refl
  trace-set_mac_addr (device d s) url m = refl

  pub trace-wait :
      (url : String) (d : ℕ) (ticks : Ticks) (m : Manager E)
      → trace (wait_for_retry url d ticks m) ≡ trace m
  unfolding wait_for_retry send_out
  trace-wait url d [] m = refl
  trace-wait url d (none ∷ ticks) m = trace-wait url d ticks m
  trace-wait url d (some e ∷ ticks) m = trace-wait url d ticks _
