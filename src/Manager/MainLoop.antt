-- ===== src/Manager/MainLoop.antt =====
-- `LgTvManager::new` and `LgTvManager::run` (src/lgtv_manager.rs): the start-up and the loop, whose
-- events come in any order.
use lgtv_manager.Prelude.{ℕ, ◌▹◌, Bool, true, false, Option, none, some, List, [], ◌∷◌}
use lgtv_manager.Prelude.Channel.{channel}
use lgtv_manager.Environment.{Env}
use lgtv_manager.Discovery.{News, message_of}
use lgtv_manager.StateMachine.Task.{StateMachineUpdateMessage}
use lgtv_manager.Manager.Messages.{ManagerMessage, inactive, WsUpdateMessage}
use lgtv_manager.Manager.State.{Manager, blank}
use lgtv_manager.Manager.Senders.{
  send_out, emit_manager_status, set_reconnect_flow_status, set_host_ip_from_ws_url,
}
use lgtv_manager.Manager.Persisted.{import_persisted_state}
use lgtv_manager.Manager.Reset.{initialize_manager_state}
use lgtv_manager.Manager.Orchestration.Reconnect.{Ticks}
use lgtv_manager.Manager.Handlers.Caller.{handle_manager_message}
use lgtv_manager.Manager.Handlers.Machine.{handle_update}
use lgtv_manager.Manager.Handlers.Socket.{handle_ws_message}
use lgtv_manager.Manager.Handlers.Network.{handle_network_checked, handle_network_testing}

-- What `select!` finds ready; `flags`, which stands for the stores of the network checker to the flags
-- that it shares with the manager; and `from_discovery`, which stands for a message that the task of a
-- discovery sends to the caller, over the channel that it shares with the manager.
pub data Event : Type 0 where
  from_caller : ManagerMessage → Event
  from_fsm : StateMachineUpdateMessage → Ticks → Event
  from_ws : Option WsUpdateMessage → Event
  network_checked : Event
  network_testing : Event
  flags : Bool → Bool → Event
  from_discovery : News → Event

-- The loop's variables. `running` is false after the `break`.
pub record MainLoop (E : Env) : Type 0 where
  pub manager : Manager E
  pub was_on_network : Bool
  pub running : Bool

-- The loop goes on after every event but the request to shut down.
abbrev goes_on : Event → Bool
goes_on (from_caller ManagerMessage.shut_down) = false
goes_on _ = true

-- `was_on_network` after an event.
seen : Event → Bool → Bool → Bool
seen network_checked on was = on
seen _ on was = was

-- `LgTvManager::new`.
unfoldable pub new : (E : Env) → Option ℕ → E.Disk → Manager E
new E room disk = blank E room disk ▹ import_persisted_state

module _ {E : Env} where
  -- `run` up to its loop: the channel to the state machine takes `room` messages, and `started` says
  -- whether the network checker could be started.
  unfoldable pub start : Option ℕ → Bool → Manager E → MainLoop E
  start room started m =
      let m =
        record m { to_fsm_tx = some (channel room) }
        ▹ initialize_manager_state
        ▹ set_host_ip_from_ws_url
        ▹ emit_manager_status
        ▹ set_reconnect_flow_status inactive in
      record {
        manager = record m {
          tv_on_network_checker = record m.tv_on_network_checker { is_operational = started };
        };
        was_on_network = false;
        running = true;
      }

  -- The branch on `from_ws_rx` is off until there is a receiver.
  unfoldable pub receive_ws : Option ℕ → Option WsUpdateMessage → Manager E → Manager E
  receive_ws none u m = m
  receive_ws (some _) u m = handle_ws_message u m

  -- The manager after an event.
  unfoldable pub handle : Event → Bool → Manager E → Manager E
  handle (from_caller message) was m = handle_manager_message message m
  handle (from_fsm update ticks) was m = handle_update update ticks m
  handle (from_ws update) was m = receive_ws m.from_ws_rx update m
  handle network_checked was m = handle_network_checked was m
  handle network_testing was m = handle_network_testing m
  handle (flags on testing) was m = record m {
    is_tv_on_network = on;
    is_testing_tv_on_network = testing;
  }
  handle (from_discovery news) was m = send_out (message_of news) m

  round : Bool → Event → MainLoop E → MainLoop E
  unfolding seen
  round false e l = l
  round true e l = record {
    manager = handle e l.was_on_network l.manager;
    was_on_network = seen e l.manager.is_tv_on_network l.was_on_network;
    running = goes_on e;
  }

  -- One round of the loop; none is made after the `break`.
  unfoldable pub step : Event → MainLoop E → MainLoop E
  unfolding round
  step e l = round l.running e l

  unfoldable pub run : List Event → MainLoop E → MainLoop E
  run [] l = l
  run (e ∷ es) l = run es (step e l)
