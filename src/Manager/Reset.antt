-- ===== src/Manager/Reset.antt =====
-- The reset of the manager (`initialize_manager_state` and `force_manager_reset` of
-- src/lgtv_manager.rs) and the sending of messages to the WebSocket handler, which falls back on it
-- (`send_to_ws` of src/lgtv_manager/message_senders.rs).
use lgtv_manager.Prelude.{◌▹◌, Bool, true, false, ◌||◌, if◌then◌else◌, Option, none, some, String}
use lgtv_manager.Prelude.Channel.{Channel, send, is_open}
use lgtv_manager.Environment.{Env}
use lgtv_manager.StateMachine.{reset}
use lgtv_manager.Ssap.{default_tv_state}
use lgtv_manager.Manager.Messages.{
  connection_test_status, resetting, tv_on_network_test_status, unknown, ReconnectFlowStatus,
  active, cancelled, inactive, waiting_for_tv_on_network, flow_eq, WsMessage, shut_down,
}
use lgtv_manager.Manager.State.{Manager}
use lgtv_manager.Manager.Senders.{
  send_out, emit_manager_status, emit_all_tv_details, set_reconnect_flow_status, send_to_fsm,
}
use lgtv_manager.Manager.Persisted.{import_persisted_state}

-- A reconnect is under way, or waits for the TV.
abbrev pub in_reconnect_flow : ReconnectFlowStatus → Bool
in_reconnect_flow s = flow_eq s active || flow_eq s waiting_for_tv_on_network

-- The handler of the WebSocket is told to shut down, whether or not it still listens.
unfoldable pub order_shut_down : Option (Channel WsMessage) → Option (Channel WsMessage)
unfolding send
order_shut_down none = none
order_shut_down (some to_ws_tx) = some (send shut_down to_ws_tx)

module _ {E : Env} where
  -- `self.tv_on_network_checker.check()`.
  unfoldable pub check_network : Manager E → Manager E
  check_network m = record m {
    tv_on_network_checker = record m.tv_on_network_checker { check = true };
  }

  clear_tv_details : Manager E → Manager E
  clear_tv_details m = record m {
    tv_info = none;
    tv_inputs = none;
    tv_software_info = none;
    tv_state = default_tv_state;
    is_connection_initialized = false;
  }

  -- What is kept during a reconnect flow.
  clear_connection : Manager E → Manager E
  clear_connection m = if in_reconnect_flow m.reconnect_flow_status then m else record m {
    connection_details = none;
    ws_url = none;
    mac_addr = none;
    session_connection_count = 0;
    is_pairing = false;
  }

  finish_cancel : Manager E → Manager E
  finish_cancel m =
      if flow_eq m.reconnect_flow_status cancelled then set_reconnect_flow_status inactive m else m

  -- `initialize_manager_state`.
  unfoldable pub initialize_manager_state : Manager E → Manager E
  unfolding clear_tv_details clear_connection finish_cancel
  initialize_manager_state m =
      m
      ▹ clear_tv_details
      ▹ clear_connection
      ▹ finish_cancel
      ▹ import_persisted_state
      ▹ check_network
      ▹ emit_all_tv_details
      ▹ send_out (connection_test_status unknown)
      ▹ send_out (tv_on_network_test_status unknown)

  -- `force_manager_reset`. The join handle is taken and awaited.
  unfoldable pub force_manager_reset : String → Manager E → Manager E
  unfolding order_shut_down
  force_manager_reset reason m =
      let m = send_out (resetting reason) m in
      record m { to_ws_tx = order_shut_down m.to_ws_tx; ws_join_handle = none }
      ▹ initialize_manager_state
      ▹ send_to_fsm reset
      ▹ emit_manager_status

  -- `send_to_ws`, after the `match` on the channel.
  send_on_ws_channel : WsMessage → Option (Channel WsMessage) → Manager E → Manager E
  unfolding send
  send_on_ws_channel message none m = m
  send_on_ws_channel message (some to_ws_tx) m =
      if is_open to_ws_tx.room
      then record m { to_ws_tx = some (send message to_ws_tx) }
      else force_manager_reset
          "Cannot send message to WebSocket handler: channel unexpectedly closed" m

  unfoldable pub send_to_ws : WsMessage → Manager E → Manager E
  unfolding send_on_ws_channel
  send_to_ws message m = send_on_ws_channel message m.to_ws_tx m
