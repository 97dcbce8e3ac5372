-- ===== src/Manager/Registering/Orders.antt =====
-- The methods of the manager that give its WebSocket handler something to send to the TV.
use lgtv_manager.Prelude.{
  inl, inr, ◌≡◌, refl, Bool, true, false, Option, none, some, String, Result, ok, err,
}
use lgtv_manager.Prelude.Channel.{Channel, is_open}
use lgtv_manager.Connection.{Connection}
use lgtv_manager.Environment.{Env, Failure}
use lgtv_manager.Helpers.{generate_register_request}
use lgtv_manager.TvCommand.{
  TvCommand, get_current_sw_info, get_external_input_list, get_power_state, get_system_info,
  subscribe_get_volume, subscribe_get_power_state,
}
use lgtv_manager.Ssap.{LgTvRequest}
use lgtv_manager.Manager.Messages.{WsMessage, payload}
use lgtv_manager.Manager.State.{Manager}
use lgtv_manager.Manager.Reset.{send_to_ws}
use lgtv_manager.Manager.Orchestration.Connect.{
  start_websocket_handler_and_connect, send_register_payload, send_command_to_ws,
  initialize_connection, track_good_connection, forces_pairing, send_register_text,
  send_register_request,
}
use lgtv_manager.Manager.Registering.{IsRegister, Opens, order-Opening}
use lgtv_manager.Manager.Registering.Kept.{Asks, Asks-if, asked-reset, send_to_ws-Asks}

module _ {E : Env} where
  order-Asks :
      (asked : Bool) (p : String) (tx : Option (Channel WsMessage)) (m : Manager E)
      → Opens E asked tx
      → IsRegister E p
      → Asks true (send_to_ws (payload p) (record m { to_ws_tx = tx }))
  unfolding send_to_ws
  order-Asks asked p none m h is = h
  order-Asks asked p (some tx) m h is =
      Asks-if true (is_open tx.room) _ _ (order-Opening E asked (payload p) tx h (inl is) is refl)
        (asked-reset asked _ (record m { to_ws_tx = some tx }) h)

  register_text-Asks :
      (asked : Bool) (id : String) (key : Option String) (forces : Bool)
      (request : LgTvRequest E.Value) (r : Result String Failure) (m : Manager E)
      → generate_register_request E id key forces ≡ ok request
      → E.request_to_string request ≡ r
      → Asks asked m
      → Asks true (send_register_text r m)
  unfolding send_register_text
  register_text-Asks asked id key forces request (ok text) m made written h =
      order-Asks asked text m.to_ws_tx m h (id, key, forces, request, made, written)
  register_text-Asks asked id key forces request (err e) m made written h = asked-reset asked _ m h

  register_request-Asks :
      (asked : Bool) (id : String) (key : Option String) (forces : Bool)
      (r : Result (LgTvRequest E.Value) String) (m : Manager E)
      → generate_register_request E id key forces ≡ r
      → Asks asked m
      → Asks true (send_register_request r m)
  unfolding send_register_request
  register_request-Asks asked id key forces (ok request) m made h =
      register_text-Asks asked id key forces request (E.request_to_string request) _ made refl h
  register_request-Asks asked id key forces (err e) m made h = asked-reset asked e m h

  -- After the register payload was to be sent, the handler was asked something: to register, or to
  -- shut down where no request could be written.
  pub register-Asks :
      (asked : Bool) (m : Manager E) → Asks asked m → Asks true (send_register_payload m)
  unfolding send_register_payload
  register-Asks asked m h =
      register_request-Asks asked (E.uuid m.ids_used) m.client_key
        (forces_pairing m.connection_details) _ m refl h

  pub send_command-Asks :
      (c : TvCommand) (m : Manager E) → Asks true m → Asks true (send_command_to_ws c m)
  unfolding send_command_to_ws
  send_command-Asks c m h = send_to_ws-Asks true _ _ h (inr (c, _, refl)) (λ no_order. cc)

  track-Asks :
      (c : Option Connection) (m : Manager E) → Asks true m → Asks true (track_good_connection c m)
  unfolding track_good_connection
  track-Asks none m h = h
  track-Asks (some c) m h = h

  pub initialize_connection-Asks :
      (m : Manager E) → Asks true m → Asks true (initialize_connection m)
  unfolding initialize_connection
  initialize_connection-Asks m h = track-Asks _ _ (
      send_command-Asks subscribe_get_power_state _ (
        send_command-Asks subscribe_get_volume _ (
          send_command-Asks get_system_info _ (
            send_command-Asks get_power_state _ (
              send_command-Asks get_external_input_list _
                (send_command-Asks get_current_sw_info m h))))))

  pub start_handler-Asks :
      (url : String) (m : Manager E) → Asks false (start_websocket_handler_and_connect url m)
  unfolding start_websocket_handler_and_connect
  start_handler-Asks url m = record { begins = tt; each = tt; begun = λ asks. cc }
