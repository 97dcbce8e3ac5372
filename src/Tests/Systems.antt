-- ===== src/Tests/Systems.antt =====
-- The theorems on the manager and its state machine together (src/lgtv_manager.rs and
-- src/state_machine.rs) at a concrete run.
use lgtv_manager.Prelude.{◌≡◌, refl, sym, true, none, [], ◌∷◌}
use lgtv_manager.StateMachine.{
  disconnected, connecting, connect, initial_state, transition, output, connect_to_tv,
}
use lgtv_manager.StateMachine.Paths as Paths
use lgtv_manager.StateMachine.Task.{
  state_update, output_update, received, task_step, start_state_machine,
}
use lgtv_manager.Manager.Messages.{ManagerMessage, state_eq}
use lgtv_manager.Manager.MainLoop.{from_caller, from_fsm, step, new, start, handle}
use lgtv_manager.Prelude.Channel.{send}
use lgtv_manager.Helpers.{websocket_url_for_connection}
use lgtv_manager.Manager.Senders.{
  send_to_fsm, send_out, emit_manager_status, set_host_ip_from_ws_url, set_reconnect_flow_status,
  set_manager_status, emit_all_tv_details,
}
use lgtv_manager.Manager.Persisted.{import_persisted_state, read_persisted_state}
use lgtv_manager.Manager.Reset.{initialize_manager_state, check_network}
use lgtv_manager.Manager.Orchestration.Connect.{
  initiate_connect_to_tv, connect_at, begin_connect, set_mac_addr, watch,
  start_websocket_handler_and_connect,
}
use lgtv_manager.Manager.Orchestration.Reconnect.{report_connect}
use lgtv_manager.Manager.Handlers.Caller.{handle_manager_message}
use lgtv_manager.Manager.Handlers.Machine.{handle_update, handle_output}
use lgtv_manager.System.{
  System, inputs, outside, machine_turn, manager_turn, started, Reach, here, next,
}
use lgtv_manager.System.Reported.{reported}
use lgtv_manager.System.Status.{status-run, settled_status-run}
use lgtv_manager.System.Outputs.{belongs, output_belongs}
use lgtv_manager.System.Commands.{commands_taken, forwarded, all_served, commands_pass}
use lgtv_manager.Manager.Inputs.{commands_sent}
use lgtv_manager.Prelude.Subseq.{Subseq}
use lgtv_manager.TvCommand.{volume_up}
use lgtv_manager.Tests.Demo.{demo, demo_fsm, demo_fsm-IsRustFsm}
use lgtv_manager.Tests.Managers.{tv}

abbrev pub first : System demo
first = started demo none none true

abbrev asked : System demo
asked = record first { loop = step (from_caller (ManagerMessage.connect tv)) first.loop }

abbrev moved : System demo
moved = record asked {
  fsm = task_step demo_fsm (received (connect "wss://tv")) asked.fsm;
  inputs_read = connect "wss://tv" ∷ [];
}

abbrev told : System demo
told = record moved {
  loop = step (from_fsm (state_update (connecting "wss://tv")) []) moved.loop;
  updates_read = state_update (connecting "wss://tv") ∷ [];
}

abbrev pub served : System demo
served = record told {
  loop = step (from_fsm (output_update (connect_to_tv "wss://tv")) []) told.loop;
  updates_read =
      state_update (connecting "wss://tv") ∷ output_update (connect_to_tv "wss://tv") ∷ [];
}

asked-inputs : inputs asked.loop.manager.to_fsm_tx ≡ connect "wss://tv" ∷ []
unfolding step start new handle handle_manager_message report_connect initiate_connect_to_tv
    connect_at begin_connect set_mac_addr watch check_network state_eq send_to_fsm send_out send
    emit_manager_status initialize_manager_state set_host_ip_from_ws_url set_reconnect_flow_status
    import_persisted_state read_persisted_state websocket_url_for_connection emit_all_tv_details
asked-inputs = refl

moved-updates :
    moved.fsm.msg_tx.sent
    ≡ state_update (connecting "wss://tv") ∷ output_update (connect_to_tv "wss://tv") ∷ []
unfolding task_step start_state_machine transition output
moved-updates = refl

served-inputs : inputs served.loop.manager.to_fsm_tx ≡ connect "wss://tv" ∷ []
unfolding step start new handle handle_manager_message report_connect initiate_connect_to_tv
    connect_at begin_connect set_mac_addr watch check_network state_eq send_to_fsm send_out send
    emit_manager_status initialize_manager_state set_host_ip_from_ws_url set_reconnect_flow_status
    import_persisted_state read_persisted_state websocket_url_for_connection handle_update
    handle_output start_websocket_handler_and_connect set_manager_status emit_all_tv_details
served-inputs = refl

pub served-Reach : Reach demo_fsm first served
unfolding step start
served-Reach =
    next
      (next
        (next (next here (outside (from_caller (ManagerMessage.connect tv)) refl))
          (machine_turn (connect "wss://tv") [] refl asked-inputs))
        (manager_turn (state_update (connecting "wss://tv")) []
          (output_update (connect_to_tv "wss://tv") ∷ []) refl moved-updates))
      (manager_turn (output_update (connect_to_tv "wss://tv")) [] [] refl moved-updates)

status-run_example :
    (served.loop.manager.manager_status ≡ reported disconnected served.updates_read)
    × (served.fsm.state ≡ Paths.run initial_state served.inputs_read)
    × (reported disconnected served.fsm.msg_tx.sent ≡ served.fsm.state)
status-run_example = status-run demo_fsm demo_fsm-IsRustFsm none none true served-Reach

settled_status-run_example :
    served.loop.manager.manager_status
    ≡ Paths.run initial_state (inputs served.loop.manager.to_fsm_tx)
settled_status-run_example =
    settled_status-run demo_fsm demo_fsm-IsRustFsm none none true served-Reach (sym moved-updates)
      (sym served-inputs)

told-Reach : Reach demo_fsm first told
unfolding step start
told-Reach =
    next
      (next (next here (outside (from_caller (ManagerMessage.connect tv)) refl))
        (machine_turn (connect "wss://tv") [] refl asked-inputs))
      (manager_turn (state_update (connecting "wss://tv")) []
        (output_update (connect_to_tv "wss://tv") ∷ []) refl moved-updates)

output_belongs_example : belongs (connect_to_tv "wss://tv") told.loop.manager.manager_status ≡ true
output_belongs_example =
    output_belongs demo_fsm demo_fsm-IsRustFsm none none true (connect_to_tv "wss://tv") []
      told-Reach moved-updates

-- A command that comes before the TV is connected.
abbrev early : System demo
early = record served {
  loop = step (from_caller (ManagerMessage.send_tv_command volume_up)) served.loop;
}

early-Reach : Reach demo_fsm first early
early-Reach =
    next served-Reach (outside (from_caller (ManagerMessage.send_tv_command volume_up)) refl)

commands_pass_example :
    (commands_sent early.loop.manager.to_fsm_tx ≡ commands_taken demo_fsm early-Reach)
    × (forwarded early.fsm.msg_tx.sent ≡ all_served initial_state early.inputs_read)
    × Subseq (forwarded early.updates_read) (commands_taken demo_fsm early-Reach)
commands_pass_example = commands_pass demo_fsm demo_fsm-IsRustFsm none none true early-Reach
