-- ===== src/Manager/Senders.antt =====
-- Sending, emitting and setting: src/lgtv_manager/message_senders.rs, out_emitters.rs and setters.rs,
-- and `enter_zombie_state` of orchestration.rs. The results of the senders are not returned, since
-- every caller drops them.
use lgtv_manager.Prelude.{
  ◌▹◌, Bool, true, false, ◌&&◌, if◌then◌else◌, Option, none, some, String, is_some,
}
use lgtv_manager.Prelude.Channel.{Channel, send, is_open}
use lgtv_manager.Environment.{Env, IpAddr}
use lgtv_manager.Helpers.{url_ip_addr}
use lgtv_manager.StateMachine.{State, communicating, zombie, Input}
use lgtv_manager.Manager.Messages.{
  ManagerOutputMessage, error, fatal, reconnect_flow_status, is_wake_last_seen_tv_available,
  last_seen_tv, status, tv_info, tv_inputs, tv_software_info, tv_state, ReconnectFlowStatus, active,
  flow_eq, state_eq,
}
use lgtv_manager.Manager.State.{Manager}

abbrev pub is_communicating : State → Bool
is_communicating (communicating _) = true
is_communicating _ = false

abbrev pub ip_of_url : (E : Env) → Option String → Option IpAddr
ip_of_url E none = none
ip_of_url E (some ws_url) = url_ip_addr E ws_url

module _ {E : Env} where
  -- `send_out`.
  unfoldable pub send_out : ManagerOutputMessage E.MacAddr → Manager E → Manager E
  unfolding send
  send_out message m = record m { output_tx = send message m.output_tx }

  -- `emit_manager_status`.
  unfoldable pub emit_manager_status : Manager E → Manager E
  unfolding send_out
  emit_manager_status m = send_out (status m.manager_status) m

  -- `emit_last_seen_tv`.
  unfoldable pub emit_last_seen_tv : Manager E → Manager E
  unfolding send_out
  emit_last_seen_tv m =
      send_out
        (last_seen_tv
          (record { websocket_url = m.ws_url; client_key = m.client_key; mac_addr = m.mac_addr }))
        m

  -- `emit_tv_info`.
  unfoldable pub emit_tv_info : Manager E → Manager E
  unfolding send_out
  emit_tv_info m = send_out (tv_info m.tv_info) m

  -- `emit_tv_inputs`.
  unfoldable pub emit_tv_inputs : Manager E → Manager E
  unfolding send_out
  emit_tv_inputs m = send_out (tv_inputs m.tv_inputs) m

  -- `emit_tv_software_info`.
  unfoldable pub emit_tv_software_info : Manager E → Manager E
  unfolding send_out
  emit_tv_software_info m = send_out (tv_software_info m.tv_software_info) m

  -- `emit_tv_state`.
  unfoldable pub emit_tv_state : Manager E → Manager E
  unfolding send_out
  emit_tv_state m = send_out (tv_state m.tv_state) m

  -- `emit_is_wake_tv_available`.
  unfoldable pub emit_is_wake_tv_available : Manager E → Manager E
  unfolding send_out
  emit_is_wake_tv_available m =
      send_out (is_wake_last_seen_tv_available (m.is_tv_on_network && is_some m.mac_addr)) m

  -- `emit_all_tv_details`.
  unfoldable pub emit_all_tv_details : Manager E → Manager E
  unfolding emit_last_seen_tv emit_tv_info emit_tv_inputs emit_tv_software_info emit_tv_state
      emit_is_wake_tv_available
  emit_all_tv_details m =
      m ▹ emit_last_seen_tv ▹ emit_tv_info ▹ emit_tv_inputs ▹ emit_tv_software_info ▹ emit_tv_state
      ▹ emit_is_wake_tv_available

  -- `set_manager_status`.
  unfoldable pub set_manager_status : State → Manager E → Manager E
  unfolding emit_manager_status emit_last_seen_tv
  set_manager_status new m =
      if state_eq new m.manager_status
      then m
      else let m = record m { manager_status = new } ▹ emit_manager_status in
        if is_communicating m.manager_status then emit_last_seen_tv m else m

  -- `enter_zombie_state`.
  unfoldable pub enter_zombie_state : String → Manager E → Manager E
  unfolding send_out set_manager_status
  enter_zombie_state reason m = m ▹ send_out (error (fatal reason)) ▹ set_manager_status zombie

  -- `send_to_fsm`, after the `match` on the channel.
  send_on_fsm_channel : Input → Option (Channel Input) → Manager E → Manager E
  unfolding send enter_zombie_state
  send_on_fsm_channel message none m = m
  send_on_fsm_channel message (some to_fsm_tx) m =
      if is_open to_fsm_tx.room
      then record m { to_fsm_tx = some (send message to_fsm_tx) }
      else enter_zombie_state "The channel to the state machine has unexpectedly closed" m

  unfoldable pub send_to_fsm : Input → Manager E → Manager E
  unfolding send_on_fsm_channel
  send_to_fsm message m = send_on_fsm_channel message m.to_fsm_tx m

  -- `set_reconnect_flow_status`.
  unfoldable pub set_reconnect_flow_status : ReconnectFlowStatus → Manager E → Manager E
  unfolding send_out
  set_reconnect_flow_status new m =
      record m {
        reconnect_attempts =
            if flow_eq m.reconnect_flow_status active then m.reconnect_attempts else 0;
        reconnect_flow_status = new;
      }
      ▹ send_out (reconnect_flow_status new)

  -- `set_host_ip_from_ws_url`, after the two tests.
  set_host_ip : Option IpAddr → Manager E → Manager E
  set_host_ip none m = m
  set_host_ip (some ip_addr) m = record m { tv_host_ip = some ip_addr; tv_host_ip_notifier = true }

  unfoldable pub set_host_ip_from_ws_url : Manager E → Manager E
  unfolding set_host_ip
  set_host_ip_from_ws_url m = set_host_ip (ip_of_url E m.ws_url) m
