-- ===== src/Manager/Registering/Handled.antt =====
-- Every event of the main loop (`run` of src/lgtv_manager.rs), and the messages to the WebSocket
-- handler.
use lgtv_manager.Prelude.{
  ◌≡◌, Bool, true, false, not, ◌&&◌, ◌▹◌, if◌then◌else◌, Option, none, some, List, [], ◌∷◌, arith,
  ℕ,
}
use lgtv_manager.Environment.{Env}
use lgtv_manager.StateMachine as Machine
use lgtv_manager.StateMachine.{
  Input, Output, connect_to_tv, send_register_payload, pair_with_tv, initialize_connection,
  forward_command, disconnect_from_tv, handle_connect_error, handle_disconnect_error,
  handle_successful_disconnect,
}
use lgtv_manager.StateMachine.Task.{
  StateMachineUpdateMessage, state_update, output_update, transition_error,
}
use lgtv_manager.Manager.Messages.{
  ReconnectFlowStatus, active, cancelled, inactive, waiting_for_tv_on_network, WsUpdateMessage,
  connection, tv_on_network_test_status, passed, failed, in_progress, flow_eq, state_eq,
}
use lgtv_manager.Manager.State.{Manager}
use lgtv_manager.Manager.Senders.{
  send_out, set_manager_status, emit_is_wake_tv_available, set_reconnect_flow_status,
}
use lgtv_manager.Manager.Reset.{force_manager_reset}
use lgtv_manager.Manager.Network.{should_retry_connect_failure, is_auto_reconnect_enabled}
use lgtv_manager.Manager.Orchestration.Reconnect.{Ticks, attempt_fsm_error, initiate_reconnect}
use lgtv_manager.Manager.Handlers.Machine.{
  retry_connect, recover_from_connect_error, end_disconnect, handle_output, handle_update,
}
use lgtv_manager.Manager.Handlers.Network.{
  handle_tv_lost, handle_tv_back, handle_network_checked, handle_network_testing,
}
use lgtv_manager.Manager.MainLoop.{
  Event, from_caller, from_fsm, from_ws, network_checked, network_testing, flags, from_discovery,
  receive_ws, handle,
}
use lgtv_manager.Manager.Invariant.Frame.{core-set_manager_status}
use lgtv_manager.Manager.Registering.Connects.{reconnect-Asks, disconnected-Asks}
use lgtv_manager.Manager.Registering.Orders.{
  register-Asks, send_command-Asks, initialize_connection-Asks, start_handler-Asks,
}
use lgtv_manager.Manager.Registering.Kept.{
  Asks, Asks-same, Asks-if, reset-Asks, initiate_disconnect-Asks, prepare-Asks, set_flow-Asks,
  fsm_error-Asks,
}
use lgtv_manager.Manager.Registering.Calls.{caller-Asks}
use lgtv_manager.Manager.Registering.Socket.{socket-Asks}

-- Whether a handler was asked something since it was started, after a message of the state machine.
abbrev pub asked_after : Bool → StateMachineUpdateMessage → Bool
asked_after asked (output_update (connect_to_tv url)) = false
asked_after asked (output_update send_register_payload) = true
asked_after asked _ = asked

-- Whether the message lets only a handler that was asked something have a command.
abbrev pub in_turn : Bool → StateMachineUpdateMessage → Bool
in_turn asked (output_update initialize_connection) = asked
in_turn asked (output_update (forward_command c)) = asked
in_turn asked _ = true

-- After several messages.
abbrev pub asked_since : Bool → List StateMachineUpdateMessage → Bool
asked_since asked [] = asked
asked_since asked (u ∷ us) = asked_since (asked_after asked u) us

abbrev pub all_in_turn : Bool → List StateMachineUpdateMessage → Bool
all_in_turn asked [] = true
all_in_turn asked (u ∷ us) = in_turn asked u && all_in_turn (asked_after asked u) us

-- The messages of the state machine in an event.
abbrev pub messages : Event → List StateMachineUpdateMessage
messages (from_fsm u ticks) = u ∷ []
messages _ = []

module _ {E : Env} (asked : Bool) where
  retry-Asks :
      (s : ReconnectFlowStatus) (ticks : Ticks) (m : Manager E)
      → Asks asked m
      → Asks asked (retry_connect s ticks m)
  unfolding retry_connect
  retry-Asks active ticks m h = reconnect-Asks asked false ticks m h
  retry-Asks cancelled ticks m h = set_flow-Asks asked inactive m h
  retry-Asks inactive ticks m h = h
  retry-Asks waiting_for_tv_on_network ticks m h = h

  recover-Asks :
      (ticks : Ticks) (m : Manager E)
      → Asks asked m
      → Asks asked (recover_from_connect_error ticks m)
  unfolding recover_from_connect_error
  recover-Asks ticks m h =
      let n = force_manager_reset "A WebSocket connection error occurred" m in
      let r = reset-Asks asked "A WebSocket connection error occurred" m h in
      Asks-if asked (should_retry_connect_failure n) (retry_connect n.reconnect_flow_status ticks n)
        n (retry-Asks n.reconnect_flow_status ticks n r) r

  ended-Asks : (ticks : Ticks) (m : Manager E) → Asks asked m → Asks asked (end_disconnect ticks m)
  unfolding end_disconnect
  ended-Asks ticks m h =
      disconnected-Asks asked ticks (record m { is_manual_disconnect_requested = false }) h

  tv_lost-Asks : (m : Manager E) → Asks asked m → Asks asked (handle_tv_lost m)
  unfolding handle_tv_lost
  tv_lost-Asks m h =
      let waiting = if is_auto_reconnect_enabled m then waiting_for_tv_on_network else inactive in
      let failure = connection "TV host is not available on the network" in
      Asks-if asked (state_eq m.manager_status Machine.disconnected)
        (set_reconnect_flow_status waiting m) (attempt_fsm_error failure m)
        (set_flow-Asks asked waiting m h) (fsm_error-Asks asked failure m h)

  tv_back-Asks : (m : Manager E) → Asks asked m → Asks asked (handle_tv_back m)
  unfolding handle_tv_back
  tv_back-Asks m h =
      Asks-if asked (flow_eq m.reconnect_flow_status waiting_for_tv_on_network)
        (initiate_reconnect true [] m) m (reconnect-Asks asked true [] m h) h

  network-Asks :
      (was : Bool) (m : Manager E) → Asks asked m → Asks asked (handle_network_checked was m)
  unfolding handle_network_checked send_out emit_is_wake_tv_available
  network-Asks was m h =
      let n =
        m
        ▹ send_out (tv_on_network_test_status (if m.is_tv_on_network then passed else failed))
        ▹ emit_is_wake_tv_available in
      let gone = was && not m.is_tv_on_network in
      let k = if gone then handle_tv_lost n else n in
      let lost = Asks-if asked gone (handle_tv_lost n) n (tv_lost-Asks n h) h in
      Asks-if asked (not was && m.is_tv_on_network) (handle_tv_back k) k (tv_back-Asks k lost) lost

  receive-Asks :
      (rx : Option ℕ) (u : Option WsUpdateMessage) (m : Manager E)
      → Asks asked m
      → Asks asked (receive_ws rx u m)
  unfolding receive_ws
  receive-Asks none u m h = h
  receive-Asks (some n) u m h = socket-Asks asked u m h

module _ {E : Env} where
  output-Asks :
      (asked : Bool) (o : Output) (ticks : Ticks) (m : Manager E)
      → in_turn asked (output_update o) ≡ true
      → Asks asked m
      → Asks (asked_after asked (output_update o)) (handle_output o ticks m)
  unfolding handle_output set_reconnect_flow_status send_out
  output-Asks asked (connect_to_tv url) ticks m t h = start_handler-Asks url m
  output-Asks asked send_register_payload ticks m t h = register-Asks asked _ h
  output-Asks asked pair_with_tv ticks m t h = h
  output-Asks true initialize_connection ticks m t h = initialize_connection-Asks _ h
  output-Asks false initialize_connection ticks m t h = cc
  output-Asks true (forward_command c) ticks m t h = send_command-Asks c m h
  output-Asks false (forward_command c) ticks m t h = cc
  output-Asks asked disconnect_from_tv ticks m t h =
      initiate_disconnect-Asks asked _ (prepare-Asks asked m h)
  output-Asks asked handle_successful_disconnect ticks m t h = ended-Asks asked ticks m h
  output-Asks asked handle_connect_error ticks m t h = recover-Asks asked ticks m h
  output-Asks asked handle_disconnect_error ticks m t h = ended-Asks asked ticks m h

  update-Asks :
      (asked : Bool) (u : StateMachineUpdateMessage) (ticks : Ticks) (m : Manager E)
      → in_turn asked u ≡ true
      → Asks asked m
      → Asks (asked_after asked u) (handle_update u ticks m)
  unfolding handle_update send_out
  update-Asks asked (state_update s) ticks m t h =
      Asks-same asked m (set_manager_status s m) (core-set_manager_status s m) h
  update-Asks asked (output_update o) ticks m t h = output-Asks asked o ticks m t h
  update-Asks asked (transition_error e) ticks m t h = h

  -- A handler begins with a register request, or a shut down, after every event, provided that the
  -- state machine speaks in turn.
  pub handle-Asks :
      (asked : Bool) (e : Event) (was : Bool) (m : Manager E)
      → all_in_turn asked (messages e) ≡ true
      → Asks asked m
      → Asks (asked_since asked (messages e)) (handle e was m)
  unfolding handle handle_network_testing send_out
  handle-Asks asked (from_caller message) was m t h = caller-Asks asked message m h
  handle-Asks asked (from_fsm u ticks) was m t h = update-Asks asked u ticks m (ground (arith, t)) h
  handle-Asks asked (from_ws u) was m t h = receive-Asks asked m.from_ws_rx u m h
  handle-Asks asked network_checked was m t h = network-Asks asked was m h
  handle-Asks asked network_testing was m t h =
      Asks-if asked m.is_testing_tv_on_network (send_out (tv_on_network_test_status in_progress) m)
        m h h
  handle-Asks asked (flags on testing) was m t h = h
  handle-Asks asked (from_discovery news) was m t h = h
