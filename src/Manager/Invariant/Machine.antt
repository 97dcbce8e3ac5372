-- ===== src/Manager/Invariant/Machine.antt =====
-- The handling of a message of the state machine keeps the invariant.
use lgtv_manager.Prelude.{◌≡◌, refl, false}
use lgtv_manager.Environment.{Env}
use lgtv_manager.StateMachine.{
  Output, connect_to_tv, send_register_payload, pair_with_tv, initialize_connection,
  forward_command, disconnect_from_tv, handle_connect_error, handle_disconnect_error,
  handle_successful_disconnect,
}
use lgtv_manager.StateMachine.Task.{
  StateMachineUpdateMessage, state_update, output_update, transition_error,
}
use lgtv_manager.Manager.Messages.{
  ReconnectFlowStatus, active, cancelled, inactive, waiting_for_tv_on_network,
}
use lgtv_manager.Manager.State.{Manager}
use lgtv_manager.Manager.Senders.{send_out}
use lgtv_manager.Manager.Reset.{force_manager_reset}
use lgtv_manager.Manager.Network.{should_retry_connect_failure}
use lgtv_manager.Manager.Orchestration.Reconnect.{Ticks}
use lgtv_manager.Manager.Handlers.Machine.{
  retry_connect, recover_from_connect_error, end_disconnect, handle_output, handle_update,
}
use lgtv_manager.Manager.Invariant.{core, Inv}
use lgtv_manager.Manager.Invariant.Frame.{core-set_manager_status}
use lgtv_manager.Manager.Invariant.Kept.{
  Inv-if, reset-Inv, send_command-Inv, initialize_connection-Inv, register-Inv,
  initiate_disconnect-Inv, start_handler-Inv, set_flow-Inv, prepare-Inv, reconnect-Inv,
  disconnected-Inv,
}

module _ {E : Env} where
  retry-Inv :
      (s : ReconnectFlowStatus) (ticks : Ticks) (m : Manager E)
      → m.reconnect_flow_status ≡ s
      → Inv (core m)
      → Inv (core (retry_connect s ticks m))
  unfolding retry_connect
  retry-Inv active ticks m e h = reconnect-Inv false ticks m (rw e) h
  retry-Inv cancelled ticks m e h = set_flow-Inv inactive m (λ e. cc) h
  retry-Inv inactive ticks m e h = h
  retry-Inv waiting_for_tv_on_network ticks m e h = h

  recover-Inv :
      (ticks : Ticks) (m : Manager E)
      → Inv (core m)
      → Inv (core (recover_from_connect_error ticks m))
  unfolding recover_from_connect_error
  recover-Inv ticks m h =
      let r = reset-Inv "A WebSocket connection error occurred" m h in
      let n = force_manager_reset "A WebSocket connection error occurred" m in
      Inv-if (should_retry_connect_failure n) (retry_connect n.reconnect_flow_status ticks n) n
        (λ _. retry-Inv n.reconnect_flow_status ticks n refl r) (λ _. r)

  output-Inv :
      (o : Output) (ticks : Ticks) (m : Manager E)
      → Inv (core m)
      → Inv (core (handle_output o ticks m))
  unfolding handle_output end_disconnect
  output-Inv (connect_to_tv url) ticks m h = start_handler-Inv url m h
  output-Inv send_register_payload ticks m h = register-Inv _ (set_flow-Inv inactive m (λ e. cc) h)
  output-Inv pair_with_tv ticks m h = h
  output-Inv initialize_connection ticks m h = initialize_connection-Inv _ h
  output-Inv (forward_command c) ticks m h = send_command-Inv c m h
  output-Inv disconnect_from_tv ticks m h = initiate_disconnect-Inv _ (prepare-Inv m h)
  output-Inv handle_successful_disconnect ticks m h = disconnected-Inv ticks _ h
  output-Inv handle_connect_error ticks m h = recover-Inv ticks m h
  output-Inv handle_disconnect_error ticks m h = disconnected-Inv ticks _ h

  pub update-Inv :
      (u : StateMachineUpdateMessage) (ticks : Ticks) (m : Manager E)
      → Inv (core m)
      → Inv (core (handle_update u ticks m))
  unfolding handle_update send_out
  update-Inv (state_update s) ticks m h = rw (core-set_manager_status s m) h
  update-Inv (output_update o) ticks m h = output-Inv o ticks m h
  update-Inv (transition_error e) ticks m h = h
