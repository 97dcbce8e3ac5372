-- ===== src/Manager/Resetting.antt =====
-- What a reset of the manager leaves (`force_manager_reset` and `initialize_manager_state` of
-- src/lgtv_manager.rs), and what follows for the retry after a failed connect.
use lgtv_manager.Prelude.{
  ◌≡◌, refl, sym, ap, ◌∙◌, ◌≢◌, List, Bool, true, false, ◌&&◌, if◌then◌else◌, Option, none, String,
  ok, arith, ℕ,
}
use lgtv_manager.Environment.{Env, PersistedState}
use lgtv_manager.Connection.{Connection}
use lgtv_manager.Ssap.{CurrentSwInfoPayload, ExternalInput, TvInfo, TvState, default_tv_state}
use lgtv_manager.StateMachine.{Input, reset}
use lgtv_manager.Manager.Messages.{
  ReconnectFlowStatus, active, cancelled, inactive, waiting_for_tv_on_network, flow_eq,
}
use lgtv_manager.Manager.State.{Manager}
use lgtv_manager.Manager.Senders.{
  send_out, emit_manager_status, emit_all_tv_details, set_reconnect_flow_status, send_to_fsm,
  set_manager_status,
}
use lgtv_manager.Manager.Persisted.{read_persisted_state, import_persisted_state}
use lgtv_manager.Manager.Reset.{
  in_reconnect_flow, check_network, initialize_manager_state, force_manager_reset,
}
use lgtv_manager.Manager.Network.{should_retry_connect_failure}
use lgtv_manager.Manager.Orchestration.Reconnect.{Ticks, initiate_reconnect}
use lgtv_manager.Manager.Handlers.Machine.{retry_connect, recover_from_connect_error}

-- The fields of a manager that a reset decides on.
pub record View : Type 0 where
  pub tv_info : Option TvInfo
  pub tv_inputs : Option (List ExternalInput)
  pub tv_software_info : Option CurrentSwInfoPayload
  pub tv_state : TvState
  pub is_connection_initialized : Bool
  pub ws_join_handle : Option ℕ
  pub reconnect_flow_status : ReconnectFlowStatus
  pub connection_details : Option Connection
  pub session_connection_count : ℕ
  pub is_pairing : Bool
  pub last_good_connection : Option Connection
  pub is_manual_disconnect_requested : Bool

abbrev pub view : {E : Env} → Manager E → View
view m = record {
  tv_info = m.tv_info;
  tv_inputs = m.tv_inputs;
  tv_software_info = m.tv_software_info;
  tv_state = m.tv_state;
  is_connection_initialized = m.is_connection_initialized;
  ws_join_handle = m.ws_join_handle;
  reconnect_flow_status = m.reconnect_flow_status;
  connection_details = m.connection_details;
  session_connection_count = m.session_connection_count;
  is_pairing = m.is_pairing;
  last_good_connection = m.last_good_connection;
  is_manual_disconnect_requested = m.is_manual_disconnect_requested;
}

-- The flow status after a reset: a cancelled flow is over.
abbrev pub settled : ReconnectFlowStatus → ReconnectFlowStatus
settled active = active
settled cancelled = inactive
settled inactive = inactive
settled waiting_for_tv_on_network = waiting_for_tv_on_network

-- What the documentation asks of a reset: no details of a TV are left, and those of the connection
-- survive in a reconnect flow alone.
abbrev pub cleared : View → View
cleared v =
    let flow = in_reconnect_flow v.reconnect_flow_status in
    record v {
      tv_info = none;
      tv_inputs = none;
      tv_software_info = none;
      tv_state = default_tv_state;
      is_connection_initialized = false;
      reconnect_flow_status = settled v.reconnect_flow_status;
      connection_details = if flow then v.connection_details else none;
      session_connection_count = if flow then v.session_connection_count else 0;
      is_pairing = if flow then v.is_pairing else false;
    }

settled-ne-cancelled : (s : ReconnectFlowStatus) → settled s ≢ cancelled
settled-ne-cancelled s h = ground arith

if_and :
    {A : Type 0} (b c : Bool) (x y z : A)
    → x ≡ (if c then y else z)
    → (if b then x else z) ≡ (if b && c then y else z)
if_and true c x y z e = e
if_and false c x y z e = refl

module _ {E : Env} where
  pub view-send_to_fsm : (i : Input) (m : Manager E) → view (send_to_fsm i m) ≡ view m
  unfolding send_to_fsm set_manager_status
  view-send_to_fsm i m = ground arith

  view-import : (m : Manager E) → view (import_persisted_state m) ≡ view m
  unfolding import_persisted_state
  view-import m = ground arith

  pub view-initialize : (m : Manager E) → view (initialize_manager_state m) ≡ cleared (view m)
  unfolding initialize_manager_state check_network emit_all_tv_details send_out
      set_reconnect_flow_status
  view-initialize m = view-import _ ∙ ground arith

  -- After a reset, for any reason and from any state, the details of the TV are gone, no handler is
  -- to be awaited and a cancelled flow has become an inactive one; the details of the connection, the
  -- count of connections and the pairing survive exactly in an active or waiting reconnect flow; and
  -- the last good connection and the mark of a manual disconnect stay.
  pub reset_clears :
      (reason : String) (m : Manager E)
      → view (force_manager_reset reason m) ≡ cleared (record (view m) { ws_join_handle = none })
  unfolding force_manager_reset emit_manager_status send_out
  reset_clears reason m = view-send_to_fsm reset _ ∙ view-initialize _

  pub reset_settles :
      (reason : String) (m : Manager E)
      → (force_manager_reset reason m).reconnect_flow_status ≡ settled m.reconnect_flow_status
  reset_settles reason m = ap (λ v. v.reconnect_flow_status) (reset_clears reason m)

  retry_if_active :
      (s : ReconnectFlowStatus) (ticks : Ticks) (m : Manager E)
      → s ≢ cancelled
      → retry_connect s ticks m ≡ (if flow_eq s active then initiate_reconnect false ticks m else m)
  unfolding retry_connect
  retry_if_active active ticks m h = refl
  retry_if_active cancelled ticks m h = absurd (h refl)
  retry_if_active inactive ticks m h = refl
  retry_if_active waiting_for_tv_on_network ticks m h = refl

  -- A connect that failed is retried exactly where the connection's settings ask for it and the
  -- reconnect flow is active after the reset: the arm for a cancelled flow is never taken.
  pub recover_retries :
      (ticks : Ticks) (m : Manager E)
      → recover_from_connect_error ticks m ≡ (
          let r = force_manager_reset "A WebSocket connection error occurred" m in
          if should_retry_connect_failure r && flow_eq r.reconnect_flow_status active
          then initiate_reconnect false ticks r
          else r)
  unfolding recover_from_connect_error
  recover_retries ticks m =
      let r = force_manager_reset "A WebSocket connection error occurred" m in
      if_and (should_retry_connect_failure r) _ _ _ _ (
        retry_if_active r.reconnect_flow_status ticks r
          (λ e. settled-ne-cancelled m.reconnect_flow_status (sym (reset_settles _ m) ∙ e)))

  -- Where the persisted state can be read, the initialization of the manager's state takes the URL,
  -- the client key and the MAC address from it also in a reconnect flow, in which the connection's
  -- own are to be retained.
  initialize_overwrites :
      (m : Manager E) (s : PersistedState)
      → in_reconnect_flow m.reconnect_flow_status ≡ true
      → (read_persisted_state E m.data_dir m.disk).0 ≡ ok s
      → ((initialize_manager_state m).ws_url ≡ s.ws_url)
        × ((initialize_manager_state m).client_key ≡ s.client_key)
        × ((initialize_manager_state m).connection_details ≡ m.connection_details)
  unfolding initialize_manager_state import_persisted_state check_network emit_all_tv_details
      send_out set_reconnect_flow_status
  initialize_overwrites m s f e = ground arith
