-- ===== src/Manager/Invariant/Handled.antt =====
-- Every event of the main loop (`run` of src/lgtv_manager.rs) keeps the invariant.
use lgtv_manager.Prelude.{
  ℕ, Bool, true, ◌▹◌, ◌&&◌, not, if◌then◌else◌, Option, none, some, List, [], ◌∷◌, arith,
}
use lgtv_manager.Environment.{Env}
use lgtv_manager.StateMachine.{State}
use lgtv_manager.Manager.Messages.{
  inactive, waiting_for_tv_on_network, WsUpdateMessage, connection, tv_on_network_test_status,
  passed, failed, in_progress, flow_eq, state_eq,
}
use lgtv_manager.Manager.State.{Manager, blank}
use lgtv_manager.Manager.Senders.{
  send_out, emit_manager_status, emit_is_wake_tv_available, set_reconnect_flow_status,
}
use lgtv_manager.Manager.Network.{is_auto_reconnect_enabled}
use lgtv_manager.Manager.Orchestration.Reconnect.{attempt_fsm_error, initiate_reconnect}
use lgtv_manager.Manager.Handlers.Network.{
  handle_tv_lost, handle_tv_back, handle_network_checked, handle_network_testing,
}
use lgtv_manager.Manager.MainLoop.{
  Event, from_caller, from_fsm, from_ws, network_checked, network_testing, flags, from_discovery,
  MainLoop, new, start, receive_ws, handle, step, run,
}
use lgtv_manager.Manager.Invariant.{core, Inv}
use lgtv_manager.Manager.Invariant.Frame.{core-import, core-set_host_ip}
use lgtv_manager.Manager.Invariant.Kept.{
  Inv-if, initialize-Inv, set_flow-Inv, fsm_error-Inv, reconnect-Inv,
}
use lgtv_manager.Manager.Invariant.Calls.{caller-Inv}
use lgtv_manager.Manager.Invariant.Machine.{update-Inv}
use lgtv_manager.Manager.Invariant.Socket.{socket-Inv}

module _ {E : Env} where
  tv_lost-Inv : (m : Manager E) → Inv (core m) → Inv (core (handle_tv_lost m))
  unfolding handle_tv_lost
  tv_lost-Inv m h =
      let waiting = if is_auto_reconnect_enabled m then waiting_for_tv_on_network else inactive in
      let failure = connection "TV host is not available on the network" in
      Inv-if (state_eq m.manager_status State.disconnected) (set_reconnect_flow_status waiting m)
        (attempt_fsm_error failure m) (λ _. set_flow-Inv waiting m (ground arith) h)
        (λ _. fsm_error-Inv failure m h)

  tv_back-Inv : (m : Manager E) → Inv (core m) → Inv (core (handle_tv_back m))
  unfolding handle_tv_back
  tv_back-Inv m h =
      Inv-if (flow_eq m.reconnect_flow_status waiting_for_tv_on_network)
        (initiate_reconnect true [] m) m (λ w. reconnect-Inv true [] m (ground arith) h) (λ _. h)

  network-Inv :
      (was : Bool) (m : Manager E) → Inv (core m) → Inv (core (handle_network_checked was m))
  unfolding handle_network_checked send_out emit_is_wake_tv_available
  network-Inv was m h =
      let n =
        m
        ▹ send_out (tv_on_network_test_status (if m.is_tv_on_network then passed else failed))
        ▹ emit_is_wake_tv_available in
      let gone = was && not m.is_tv_on_network in
      let k = if gone then handle_tv_lost n else n in
      let lost = Inv-if gone (handle_tv_lost n) n (λ _. tv_lost-Inv n h) (λ _. h) in
      Inv-if (not was && m.is_tv_on_network) (handle_tv_back k) k (λ _. tv_back-Inv k lost)
        (λ _. lost)

  receive-Inv :
      (rx : Option ℕ) (u : Option WsUpdateMessage) (m : Manager E)
      → Inv (core m)
      → Inv (core (receive_ws rx u m))
  unfolding receive_ws
  receive-Inv none u m h = h
  receive-Inv (some n) u m h = socket-Inv u m h

  handle-Inv : (e : Event) (was : Bool) (m : Manager E) → Inv (core m) → Inv (core (handle e was m))
  unfolding handle handle_network_testing send_out
  handle-Inv (from_caller message) was m h = caller-Inv message m h
  handle-Inv (from_fsm u ticks) was m h = update-Inv u ticks m h
  handle-Inv (from_ws u) was m h = receive-Inv m.from_ws_rx u m h
  handle-Inv network_checked was m h = network-Inv was m h
  handle-Inv network_testing was m h =
      Inv-if m.is_testing_tv_on_network (send_out (tv_on_network_test_status in_progress) m) m
        (λ _. h) (λ _. h)
  handle-Inv (flags on testing) was m h = h
  handle-Inv (from_discovery news) was m h = h

  -- One round of the main loop, for any event, keeps the invariant.
  step-Inv : (e : Event) (l : MainLoop E) → Inv (core l.manager) → Inv (core (step e l).manager)
  unfolding step
  step-Inv e l h = ground (arith, handle-Inv e l.was_on_network l.manager h)

  run-Inv :
      (es : List Event) (l : MainLoop E) → Inv (core l.manager) → Inv (core (run es l).manager)
  unfolding run
  run-Inv [] l h = h
  run-Inv (e ∷ es) l h = run-Inv es (step e l) (step-Inv e l h)

  start-Inv :
      (room : Option ℕ) (started : Bool) (m : Manager E)
      → Inv (core m)
      → Inv (core (start room started m).manager)
  unfolding start emit_manager_status send_out
  start-Inv room started m h =
      set_flow-Inv inactive _ (λ e. cc) (rw (core-set_host_ip _) (initialize-Inv _ h))

new-Inv : (E : Env) (room : Option ℕ) (disk : E.Disk) → Inv (core (new E room disk))
unfolding new
new-Inv E room disk = rw (core-import (blank E room disk)) (ground arith)

-- From a new manager, with any channels and any content of the disk, after any events in any order:
-- an active or waiting reconnect flow has the details of the connection to make; the two channels of
-- a WebSocket handler come and go together; and a handler that is still to be awaited is the one
-- that the manager listens to, and was started.
pub run-new-Inv :
    (E : Env) (out_room fsm_room : Option ℕ) (disk : E.Disk) (started : Bool) (es : List Event)
    → Inv (core (run es (start fsm_room started (new E out_room disk))).manager)
run-new-Inv E out_room fsm_room disk started es =
    run-Inv es _ (start-Inv fsm_room started _ (new-Inv E out_room disk))
