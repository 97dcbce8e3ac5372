-- ===== src/Tests/Managing.antt =====
-- The theorems on the manager (src/lgtv_manager.rs and src/lgtv_manager) at concrete inputs.
use lgtv_manager.Manager.Cancelling.{cancel_ends_retries}
use lgtv_manager.StateMachine.{handle_connect_error}
use lgtv_manager.Prelude.{
  ◌+◌, ◌≤◌, ◌≡◌, refl, ◌≢◌, ◌⊎◌, true, false, if◌then◌else◌, none, some, [], ◌∷◌, String, ok,
}
use lgtv_manager.Prelude.Channel.{Channel, send, is_open}
use lgtv_manager.Connection.{settings}
use lgtv_manager.Helpers.{websocket_url_for_connection}
use lgtv_manager.StateMachine.{disconnected, Input}
use lgtv_manager.StateMachine.Task.{state_update, output_update}
use lgtv_manager.Manager.Messages.{ManagerMessage, inactive, WsUpdateMessage, WsStatus}
use lgtv_manager.Manager.Persisted.{read_persisted_state, write_persisted_state}
use lgtv_manager.Manager.Reset.{force_manager_reset}
use lgtv_manager.Manager.Orchestration.Connect.{initiate_connect_to_tv}
use lgtv_manager.Manager.Handlers.Caller.{handle_manager_message}
use lgtv_manager.Manager.Handlers.Machine.{handle_update}
use lgtv_manager.Manager.Handlers.Socket.{handle_ws_message}
use lgtv_manager.Manager.MainLoop.{new, start, run}
use lgtv_manager.Manager.Invariant.{Inv, core}
use lgtv_manager.Manager.Invariant.Handled.{run-new-Inv}
use lgtv_manager.Manager.Connecting.{or_else, Ready, connect_decides}
use lgtv_manager.Manager.Starting.{starts, receive_all, starts_once}
use lgtv_manager.Manager.Persistence.{read-write}
use lgtv_manager.Tests.Demo.{demo, demo-IsReliable}
use lgtv_manager.Tests.Managers.{tv, saved, idle, retrying, events, volume}

run-new-Inv_example : Inv (core (run events (start none true (new demo (some 20) none))).manager)
run-new-Inv_example = run-new-Inv demo (some 20) none none true events

connect_decides_example :
    let key = or_else (settings tv).client_key idle.client_key in
    let (failure, after) = initiate_connect_to_tv tv idle in
    ((failure ≢ none) × ¬ Ready tv idle × (after ≡ record idle { client_key = key }))
    ⊎ ((failure ≡ none)
        × (idle.manager_status ≡ disconnected)
        × ((url : String) × (tx : Channel Input) × (websocket_url_for_connection demo tv ≡ ok url)
            × (idle.to_fsm_tx ≡ some tx)
            × (after.connection_details ≡ some tv)
            × (after.ws_url ≡ some url)
            × (after.client_key ≡ key)
            × (after.reconnect_flow_status ≡ inactive)
            × (after.to_fsm_tx ≡ some (send (Input.connect url) tx))
            × ((is_open tx.room ≡ false) ⊎ (after.manager_status ≡ disconnected))))
connect_decides_example = connect_decides {E = demo} tv idle

starts_once_example :
    starts (receive_all (volume ∷ volume ∷ []) idle).to_fsm_tx
    ≤ starts idle.to_fsm_tx + (if idle.is_connection_initialized then 0 else 1)
starts_once_example = starts_once {E = demo} (volume ∷ volume ∷ []) idle

read-write_example :
    read_persisted_state demo none (some ("lgtv_manager_data.json", "wss://tv"))
    ≡ (ok saved, some ("lgtv_manager_data.json", "wss://tv"))
unfolding write_persisted_state
read-write_example =
    read-write demo demo-IsReliable saved none none (some ("lgtv_manager_data.json", "wss://tv"))
      refl

cancel_ends_retries_example :
    let stopped = handle_manager_message ManagerMessage.cancel_reconnect retrying in
    let failed =
      handle_ws_message
        (some (WsUpdateMessage.status (WsStatus.connect_error "refused")))
        stopped in
    let shown = handle_update (state_update disconnected) [] failed in
    let after = handle_update (output_update handle_connect_error) (some 100 ∷ []) shown in
    (after ≡ force_manager_reset "A WebSocket connection error occurred" shown)
    × (after.reconnect_flow_status ≡ inactive)
cancel_ends_retries_example =
    cancel_ends_retries {E = demo} "refused" disconnected [] (some 100 ∷ []) retrying refl
