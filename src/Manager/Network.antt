-- ===== src/Manager/Network.antt =====
-- The reconnect settings and Wake-on-LAN (src/lgtv_manager/network_utils.rs).
use lgtv_manager.Prelude.{
  Bool, true, false, not, ◌&&◌, ◌||◌, if◌then◌else◌, ltb, ◌==◌, Option, none, some, [], ◌∷◌, ◌++◌,
  suc, String, ◌<>◌, Result, ok, err,
}
use lgtv_manager.Connection.{Connection, settings}
use lgtv_manager.Environment.{Env, IpAddr, PersistedState}
use lgtv_manager.Helpers.{url_ip_addr}
use lgtv_manager.Manager.Messages.{
  error, action, active, cancelled, inactive, waiting_for_tv_on_network, ReconnectFlowStatus,
  flow_eq,
}
use lgtv_manager.Manager.State.{Manager}
use lgtv_manager.Manager.Senders.{send_out, set_reconnect_flow_status}
use lgtv_manager.Manager.Persisted.{read_persisted_state}

abbrev pub wants_initial_retries : Option Connection → Bool
wants_initial_retries none = false
wants_initial_retries (some connection) = (settings connection).initial_connect_retries

abbrev pub wants_auto_reconnect : Option Connection → Bool
wants_auto_reconnect none = false
wants_auto_reconnect (some connection) = (settings connection).auto_reconnect

module _ {E : Env} where
  -- `is_initial_connect_retries_enabled`.
  abbrev pub is_initial_connect_retries_enabled : Manager E → Bool
  is_initial_connect_retries_enabled m = wants_initial_retries m.connection_details

  -- `is_auto_reconnect_enabled`.
  abbrev pub is_auto_reconnect_enabled : Manager E → Bool
  is_auto_reconnect_enabled m = wants_auto_reconnect m.connection_details

  -- The status that `optionally_prepare_for_reconnect` sets.
  abbrev prepared_status : Manager E → ReconnectFlowStatus
  prepared_status m =
      if is_auto_reconnect_enabled m
      then (if m.is_tv_on_network
          then active
          else if not m.is_tv_on_network && not m.tv_on_network_checker.is_operational
          then active
          else waiting_for_tv_on_network)
      else inactive

  -- `optionally_prepare_for_reconnect`.
  unfoldable pub optionally_prepare_for_reconnect : Manager E → Manager E
  optionally_prepare_for_reconnect m =
      if m.is_manual_disconnect_requested || flow_eq m.reconnect_flow_status cancelled
      then m
      else set_reconnect_flow_status (prepared_status m) m

  -- `should_retry_connect_failure`.
  unfoldable pub should_retry_connect_failure : Manager E → Bool
  should_retry_connect_failure m =
      if is_initial_connect_retries_enabled m && m.session_connection_count == 0
      then true
      else is_auto_reconnect_enabled m && ltb 0 m.session_connection_count

  -- `discover`: the task runs by itself.
  unfoldable pub discover : Manager E → Manager E
  discover m = record m { discoveries = suc m.discoveries }

  -- `send_wol` and the message of its failure.
  unfoldable pub wake : E.WolMacAddr → IpAddr → Manager E → Option String × Manager E
  wake mac ip m = (
    elim (E.send_wol mac ip) [ none ↦ none | some e ↦ some ("Send error: " <> e.display) ],
    record m { wol_sent = m.wol_sent ++ (mac, ip) ∷ [] },
  )

  unfoldable pub wake_at :
      String → String → Option IpAddr → Option E.WolMacAddr → Manager E → Option String × Manager E
  unfolding wake
  wake_at ws_url mac_addr (some ip) (some mac) m = wake mac ip m
  wake_at ws_url mac_addr _ _ m =
      (some ("Cannot determine host IP and MAC from URL: " <> ws_url <> " MAC: " <> mac_addr), m)

  unfoldable pub wake_persisted :
      Option String → Option String → Manager E → Option String × Manager E
  unfolding wake_at
  wake_persisted (some ws_url) (some mac_addr) m =
      wake_at ws_url mac_addr (url_ip_addr E ws_url) (E.wol_mac_from_str mac_addr) m
  wake_persisted _ _ m = (some "Missing WebSocket URL or MAC address", m)

  unfoldable pub wake_read : Result PersistedState String → Manager E → Option String × Manager E
  unfolding wake_persisted
  wake_read (ok s) m = wake_persisted s.ws_url s.mac_addr m
  wake_read (err e) m = (some ("Cannot read persisted data: " <> e), m)

  unfoldable pub report_wake : Option String × Manager E → Manager E
  unfolding send_out
  report_wake (none, m) = m
  report_wake (some msg, m) = send_out (error (action ("Cannot send Wake-on-LAN: " <> msg))) m

  -- `wake_last_seen_tv`.
  unfoldable pub wake_last_seen_tv : Manager E → Manager E
  unfolding wake_read report_wake
  wake_last_seen_tv m =
      let (result, disk) = read_persisted_state E m.data_dir m.disk in
      report_wake (wake_read result (record m { disk = disk }))
