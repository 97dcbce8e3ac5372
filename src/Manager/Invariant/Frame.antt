-- ===== src/Manager/Invariant/Frame.antt =====
-- What the manager's methods make of the fields that the invariant speaks of.
use lgtv_manager.Prelude.{◌≡◌, refl, ◌∙◌, if◌then◌else◌, none, String, arith}
use lgtv_manager.Connection.{Connection, host, device}
use lgtv_manager.Environment.{Env}
use lgtv_manager.StateMachine.{State, Input, reset}
use lgtv_manager.Manager.Messages.{cancelled, inactive, flow_eq}
use lgtv_manager.Manager.State.{Manager}
use lgtv_manager.Manager.Senders.{
  send_out, set_manager_status, emit_manager_status, send_to_fsm, set_reconnect_flow_status,
  set_host_ip_from_ws_url, emit_all_tv_details, emit_is_wake_tv_available,
}
use lgtv_manager.Manager.Persisted.{import_persisted_state, save_persisted_state}
use lgtv_manager.Manager.Reset.{
  in_reconnect_flow, check_network, order_shut_down, initialize_manager_state, force_manager_reset,
}
use lgtv_manager.Manager.Network.{wake_last_seen_tv}
use lgtv_manager.Manager.Orchestration.Connect.{set_mac_addr}
use lgtv_manager.Manager.Invariant.{Core, core}

-- The fields after the manager's state was initialized: without a reconnect flow the connection is
-- forgotten, and a cancelled flow becomes an inactive one.
abbrev pub forget : Core → Core
forget c =
    if in_reconnect_flow c.flow
    then c
    else record c { details = none; flow = if flow_eq c.flow cancelled then inactive else c.flow }

module _ {E : Env} where
  pub core-set_manager_status : (s : State) (m : Manager E) → core (set_manager_status s m) ≡ core m
  unfolding set_manager_status
  core-set_manager_status s m = ground arith

  pub core-send_to_fsm : (i : Input) (m : Manager E) → core (send_to_fsm i m) ≡ core m
  unfolding send_to_fsm
  core-send_to_fsm i m = ground arith

  pub core-set_mac_addr :
      (c : Connection) (url : String) (m : Manager E) → core (set_mac_addr c url m) ≡ core m
  unfolding set_mac_addr
  core-set_mac_addr (host h s) url m = refl
  core-set_mac_addr (device d s) url m = refl

  pub core-import : (m : Manager E) → core (import_persisted_state m) ≡ core m
  unfolding import_persisted_state
  core-import m = ground arith

  pub core-save : (m : Manager E) → core (save_persisted_state m) ≡ core m
  unfolding save_persisted_state emit_is_wake_tv_available
  core-save m = ground arith

  pub core-set_host_ip : (m : Manager E) → core (set_host_ip_from_ws_url m) ≡ core m
  unfolding set_host_ip_from_ws_url
  core-set_host_ip m = ground arith

  pub core-wake : (m : Manager E) → core (wake_last_seen_tv m) ≡ core m
  unfolding wake_last_seen_tv
  core-wake m = ground arith

  pub core-initialize : (m : Manager E) → core (initialize_manager_state m) ≡ forget (core m)
  unfolding initialize_manager_state import_persisted_state check_network emit_all_tv_details
      send_out set_reconnect_flow_status
  core-initialize m = ground arith

  pub core-reset :
      (reason : String) (m : Manager E)
      → core (force_manager_reset reason m)
        ≡ forget (record (core m) { to_ws = order_shut_down m.to_ws_tx; join = none })
  unfolding force_manager_reset send_out emit_manager_status
  core-reset reason m = core-send_to_fsm reset _ ∙ core-initialize _ ∙ ground arith
