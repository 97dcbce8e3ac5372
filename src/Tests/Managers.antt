-- ===== src/Tests/Managers.antt =====
-- Concrete managers and events for the tests.
use lgtv_manager.Prelude.{true, false, none, some, List, [], ◌∷◌}
use lgtv_manager.Prelude.Channel.{channel}
use lgtv_manager.Connection.{Connection, host, ConnectionSettings}
use lgtv_manager.Environment.{PersistedState}
use lgtv_manager.Ssap.{LgTvResponse, command, get_volume_variant_b}
use lgtv_manager.StateMachine.{State, communicating, connect_to_tv}
use lgtv_manager.StateMachine.Task.{state_update, output_update}
use lgtv_manager.Manager.Messages.{ManagerMessage, active, inactive, WsUpdateMessage, WsStatus}
use lgtv_manager.Manager.State.{Manager, blank}
use lgtv_manager.Manager.MainLoop.{Event, from_caller, from_fsm, from_ws, network_checked, flags}
use lgtv_manager.Tests.Demo.{demo}

-- A host over TLS, with auto-reconnect and no retries of the first connect.
abbrev pub auto_only : ConnectionSettings
auto_only = record {
  is_tls = true;
  client_key = some "key";
  force_pairing = false;
  initial_connect_retries = false;
  auto_reconnect = true;
}

abbrev pub tv : Connection
tv = host "tv" auto_only

abbrev pub saved : PersistedState
saved = record { ws_url = some "wss://tv"; client_key = none; mac_addr = none }

-- A manager that has a channel to the state machine.
abbrev pub idle : Manager demo
idle = record (blank demo none none) { to_fsm_tx = some (channel none) }

-- One whose fifth attempt to reconnect is under way, with a persisted state on its disk.
abbrev pub retrying : Manager demo
retrying = record idle {
  reconnect_flow_status = active;
  reconnect_attempts = 5;
  connection_details = some tv;
  ws_url = some "wss://other";
  data_dir = some "/tmp";
  disk = some ("lgtv_manager_data.json", "wss://tv");
}

-- One whose state machine is gone.
abbrev pub orphan : Manager demo
orphan = record idle {
  manager_status = communicating "wss://tv";
  to_fsm_tx = some (channel (some 0));
}

abbrev pub events : List Event
events =
    from_caller (ManagerMessage.connect tv)
    ∷ from_fsm (state_update (State.connecting "wss://tv")) []
    ∷ from_fsm (output_update (connect_to_tv "wss://tv")) []
    ∷ flags true false
    ∷ network_checked
    ∷ from_ws (some (WsUpdateMessage.status (WsStatus.connect_error "refused")))
    ∷ []

abbrev pub volume : LgTvResponse
volume = command (record {
  id = "get_volume_subscription";
  payload = get_volume_variant_b (record {
    return_value = true;
    volume_max = 100;
    ringtonewithvibration = none;
    scenario = none;
    muted = false;
    hac = none;
    subscribed = some true;
    volume = 12;
    action = none;
    supportvolume = true;
    ringer_switch = none;
    slider = none;
    active = none;
  });
})

-- A connection with auto-reconnect, outside of a reconnect flow.
abbrev pub talking : Manager demo
talking = record retrying {
  manager_status = communicating "wss://tv";
  reconnect_flow_status = inactive;
  to_ws_tx = some (channel none);
  from_ws_rx = some 0;
  ws_join_handle = some 0;
}
