-- ===== src/Manager/Orchestration/Connect.antt =====
-- Connecting and disconnecting: `initiate_connect_to_tv`, `start_websocket_handler_and_connect`,
-- `send_register_payload`, `initialize_connection` and `initiate_disconnect_from_tv` of
-- src/lgtv_manager/orchestration.rs.
use lgtv_manager.Prelude.{
  suc, ◌▹◌, Bool, true, false, if◌then◌else◌, Option, none, some, [], ◌∷◌, ◌++◌, length, is_some,
  String, ◌<>◌, str_eq, Result, ok, err,
}
use lgtv_manager.Prelude.Channel.{channel}
use lgtv_manager.Connection.{Connection, host, device, settings}
use lgtv_manager.Environment.{Env, IpAddr, ip_eq, Failure, PersistedState}
use lgtv_manager.Helpers.{url_ip_addr, websocket_url_for_connection, generate_register_request}
use lgtv_manager.StateMachine.{disconnected, connect}
use lgtv_manager.Ssap.{LgTvRequest}
use lgtv_manager.TvCommand.{
  TvCommand, get_current_sw_info, get_external_input_list, get_power_state, get_system_info,
  subscribe_get_volume, subscribe_get_power_state,
}
use lgtv_manager.TvCommand.Request.{subscription_id, command_string}
use lgtv_manager.Manager.Messages.{active, inactive, state_eq, shut_down, payload}
use lgtv_manager.Manager.State.{Manager, TvNetworkChecker}
use lgtv_manager.Manager.Senders.{send_to_fsm, set_reconnect_flow_status}
use lgtv_manager.Manager.Persisted.{read_persisted_state}
use lgtv_manager.Manager.Reset.{force_manager_reset, send_to_ws}
use lgtv_manager.Manager.Network.{is_initial_connect_retries_enabled}

-- `TvNetworkChecker::set_tv_ip`.
unfoldable pub set_tv_ip : IpAddr → TvNetworkChecker → TvNetworkChecker
set_tv_ip ip c = record c { tv_ip = some ip; tv_ip_notify = true; check = true }

-- The checker is told of the address if it has none or another.
unfoldable pub watch : Option IpAddr → TvNetworkChecker → TvNetworkChecker
unfolding set_tv_ip
watch none c = c
watch (some ip) c = elim c.tv_ip [
  | some existing ↦ if ip_eq ip existing then c else set_tv_ip ip c
  | none ↦ set_tv_ip ip c
]

-- `Option::and_then` on a text of a MAC address.
parse_mac : (E : Env) → Option String → Option E.MacAddr
parse_mac E none = none
parse_mac E (some text) = E.mac_from_str text

-- The persisted MAC address, if it belongs to the URL.
persisted_mac : (E : Env) → String → Result PersistedState String → Option E.MacAddr
unfolding parse_mac
persisted_mac E url (err _) = none
persisted_mac E url (ok s) = elim s.ws_url [
  | some known ↦ if str_eq known url then parse_mac E s.mac_addr else none
  | none ↦ none
]

unfoldable pub uses_tls : Option Connection → Bool
uses_tls none = true
uses_tls (some connection) = (settings connection).is_tls

abbrev pub forces_pairing : Option Connection → Bool
forces_pairing none = false
forces_pairing (some connection) = (settings connection).force_pairing

module _ {E : Env} where
  -- The client key of the settings takes the place of the manager's.
  unfoldable pub override_client_key : Option String → Manager E → Manager E
  override_client_key none m = m
  override_client_key (some key) m = record m { client_key = some key }

  -- A host connection has the persisted MAC address, a device connection its own.
  unfoldable pub set_mac_addr : Connection → String → Manager E → Manager E
  unfolding persisted_mac
  set_mac_addr (host _ _) url m =
      let (result, disk) = read_persisted_state E m.data_dir m.disk in
      record m { mac_addr = persisted_mac E url result; disk = disk }
  set_mac_addr (device d _) url m = record m { mac_addr = parse_mac E d.mac_addr }

  -- The flow from the URL on.
  unfoldable pub begin_connect : Connection → String → Manager E → Manager E
  begin_connect connection url m =
      let m = record m {
        connection_details = some connection;
        tv_on_network_checker = watch (url_ip_addr E url) m.tv_on_network_checker;
      } in
      m
      ▹ set_reconnect_flow_status
          (if is_initial_connect_retries_enabled m then active else inactive)
      ▹ send_to_fsm (connect url)
      ▹ (λ m. record m { ws_url = some url })
      ▹ set_mac_addr connection url

  -- The `match` on the URL of the connection.
  unfoldable pub connect_at :
      Connection → Result String String → Manager E → Option String × Manager E
  connect_at connection (ok url) m = (none, begin_connect connection url m)
  connect_at connection (err e) m = (some ("Error determining TV URL: " <> e), m)

  -- `initiate_connect_to_tv`, with the error that it returns, if any.
  unfoldable pub initiate_connect_to_tv : Connection → Manager E → Option String × Manager E
  unfolding override_client_key
  initiate_connect_to_tv connection m =
      let m = override_client_key (settings connection).client_key m in
      if state_eq m.manager_status disconnected
      then (if is_some m.to_fsm_tx
          then connect_at connection (websocket_url_for_connection E connection) m
          else (some "Cannot connect before state machine channel is available", m))
      else (
        some (
            "Cannot connect while not in Disconnected state (current state: "
            <> E.debug_state m.manager_status
            <> ")"),
        m,
      )

  -- `start_websocket_handler_and_connect`. The new handler has the next number.
  unfoldable pub start_websocket_handler_and_connect : String → Manager E → Manager E
  unfolding uses_tls
  start_websocket_handler_and_connect url m =
      let n = length m.ws_handlers in
      record m {
        to_ws_tx = some (channel (E.ws_room n));
        from_ws_rx = some n;
        ws_join_handle = some n;
        ws_handlers = m.ws_handlers ++ (url, uses_tls m.connection_details) ∷ [];
      }

  unfoldable pub send_register_text : Result String Failure → Manager E → Manager E
  send_register_text (ok text) m = send_to_ws (payload text) m
  send_register_text (err e) m =
      force_manager_reset ("Could not generate register payload string: " <> e.debug) m

  unfoldable pub send_register_request : Result (LgTvRequest E.Value) String → Manager E → Manager E
  unfolding send_register_text
  send_register_request (ok request) m =
      send_register_text (E.request_to_string request) (record m { ids_used = suc m.ids_used })
  send_register_request (err e) m = force_manager_reset e m

  -- `send_register_payload`.
  unfoldable pub send_register_payload : Manager E → Manager E
  unfolding forces_pairing send_register_request
  send_register_payload m =
      send_register_request
        (generate_register_request E (E.uuid m.ids_used) m.client_key
          (forces_pairing m.connection_details))
        m

  -- A command is written and sent. A subscription generates no identifier.
  unfoldable pub send_command_to_ws : TvCommand → Manager E → Manager E
  send_command_to_ws c m = send_to_ws (payload (command_string E (E.uuid m.ids_used) c)) (record m {
    ids_used = elim (subscription_id c) [ none ↦ suc m.ids_used | some _ ↦ m.ids_used ];
  })

  -- The current connection becomes the last good one.
  unfoldable pub track_good_connection : Option Connection → Manager E → Manager E
  track_good_connection none m = m
  track_good_connection (some current) m = record m { last_good_connection = some current }

  -- `initialize_connection`.
  unfoldable pub initialize_connection : Manager E → Manager E
  unfolding track_good_connection
  initialize_connection m =
      m
      ▹ send_command_to_ws get_current_sw_info
      ▹ send_command_to_ws get_external_input_list
      ▹ send_command_to_ws get_power_state
      ▹ send_command_to_ws get_system_info
      ▹ send_command_to_ws subscribe_get_volume
      ▹ send_command_to_ws subscribe_get_power_state
      ▹ (λ m. track_good_connection m.connection_details m)

  -- `initiate_disconnect_from_tv`.
  unfoldable pub initiate_disconnect_from_tv : Manager E → Manager E
  initiate_disconnect_from_tv m = if is_some m.ws_join_handle then send_to_ws shut_down m else m
