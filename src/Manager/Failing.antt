-- ===== src/Manager/Failing.antt =====
-- The fatal error (`send_to_fsm` of src/lgtv_manager/message_senders.rs and `enter_zombie_state` of
-- src/lgtv_manager/orchestration.rs).
use lgtv_manager.Prelude.{
  ◌≡◌, refl, true, false, if◌then◌else◌, none, some, [], ◌∷◌, ◌++◌, append_assoc, arith,
}
use lgtv_manager.Prelude.Channel.{Channel, send, is_open}
use lgtv_manager.Environment.{Env}
use lgtv_manager.StateMachine.{State, zombie, Input}
use lgtv_manager.StateMachine.Task.{state_update}
use lgtv_manager.Manager.Messages.{error, fatal, status, state_eq}
use lgtv_manager.Manager.State.{Manager}
use lgtv_manager.Manager.Senders.{send_out, send_to_fsm, set_manager_status, emit_manager_status}
use lgtv_manager.Manager.Orchestration.Reconnect.{Ticks}
use lgtv_manager.Manager.Handlers.Machine.{handle_update}

zombie-of_state_eq : (s : State) → state_eq zombie s ≡ true → s ≡ zombie
unfolding state_eq
zombie-of_state_eq zombie h = refl
zombie-of_state_eq s h = cc

state_eq-zombie : (s : State) → state_eq s zombie ≡ true → s ≡ zombie
unfolding state_eq
state_eq-zombie zombie h = refl
state_eq-zombie s h = cc

module _ {E : Env} where
  -- An input that the state machine no longer takes is a fatal error. The caller, if there is room,
  -- hears of it and, unless the manager was a zombie before, of the new status; the manager is a
  -- zombie, and the channel to the state machine and the reconnect flow are as they were.
  closed_fsm :
      (i : Input) (m : Manager E) (tx : Channel Input)
      → m.to_fsm_tx ≡ some tx
      → is_open tx.room ≡ false
      → m.output_tx.room ≡ none
      → let after = send_to_fsm i m in
        (after.manager_status ≡ zombie)
        × (after.to_fsm_tx ≡ some tx)
        × (after.reconnect_flow_status ≡ m.reconnect_flow_status)
        × (after.output_tx.sent
            ≡ m.output_tx.sent
              ++ (error (fatal "The channel to the state machine has unexpectedly closed")
                  ∷ (if state_eq zombie m.manager_status then [] else status zombie ∷ [])))
  unfolding send_to_fsm set_manager_status send_out send emit_manager_status
  closed_fsm i m tx e o r = ground (
    arith,
    zombie-of_state_eq m.manager_status,
    append_assoc m.output_tx.sent
        (error (fatal "The channel to the state machine has unexpectedly closed") ∷ [])
        (status zombie ∷ []),
  )

  became_zombie :
      (i : Input) (m : Manager E) (tx : Channel Input)
      → m.to_fsm_tx ≡ some tx
      → is_open tx.room ≡ false
      → (send_to_fsm i m).manager_status ≡ zombie
  unfolding send_to_fsm set_manager_status
  became_zombie i m tx e o = ground (arith, zombie-of_state_eq m.manager_status)

  -- The zombie status is not final: a report of a state that is still under way replaces it.
  zombie_left :
      (i : Input) (s : State) (ticks : Ticks) (m : Manager E) (tx : Channel Input)
      → m.to_fsm_tx ≡ some tx
      → is_open tx.room ≡ false
      → ((send_to_fsm i m).manager_status ≡ zombie)
        × ((handle_update (state_update s) ticks (send_to_fsm i m)).manager_status ≡ s)
  unfolding handle_update set_manager_status
  zombie_left i s ticks m tx e o =
      let z = became_zombie i m tx e o in (z, ground (arith, z, state_eq-zombie s))
