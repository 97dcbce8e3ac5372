-- ===== src/System/Status.antt =====
-- The status that the manager (src/lgtv_manager.rs) shows and the state of its state machine
-- (src/state_machine.rs).
use lgtv_manager.Prelude.{ℕ, ◌≡◌, sym, ap, ◌∙◌, Bool, Option}
use lgtv_manager.Environment.{Env}
use lgtv_manager.StateMachine.{disconnected, initial_state}
use lgtv_manager.StateMachine.Paths.{follow}
use lgtv_manager.StateMachine.Paths as Paths
use lgtv_manager.StateMachine.Task.{RustFsm, IsRustFsm}
use lgtv_manager.System.{System, inputs, started, Reach}
use lgtv_manager.System.Reported.{reported}
use lgtv_manager.System.Turns.{started-InStep, Reach-InStep}

module _ {E : Env} (lib : RustFsm) (law : IsRustFsm lib) where
  -- Whatever the caller, the socket, the network and the clock do, and in whatever order the two
  -- tasks take their turns: the status that the manager shows is the last state among the messages
  -- that it has read, the state machine is where the inputs that it has read lead from the
  -- disconnected state, and the last state that it reported is that one.
  pub status-run :
      (out_room : Option ℕ) (disk : E.Disk) (checker : Bool) {s : System E}
      → Reach lib (started E out_room disk checker) s
      → (s.loop.manager.manager_status ≡ reported disconnected s.updates_read)
        × (s.fsm.state ≡ Paths.run initial_state s.inputs_read)
        × (reported disconnected s.fsm.msg_tx.sent ≡ s.fsm.state)
  status-run out_room disk checker r =
      let h = Reach-InStep lib law r (started-InStep out_room disk checker) in
      let at_state = ap (λ t. t.state) h.machine_at in
      (h.manager_keeps.same_status, at_state, h.machine_reported ∙ sym at_state)

  -- At any moment of any run at which the manager has read every message of the state machine and
  -- the state machine every input of the manager: the status that the manager shows is where the
  -- inputs that the manager itself has sent lead from the disconnected state.
  pub settled_status-run :
      (out_room : Option ℕ) (disk : E.Disk) (checker : Bool) {s : System E}
      → Reach lib (started E out_room disk checker) s
      → s.updates_read ≡ s.fsm.msg_tx.sent
      → s.inputs_read ≡ inputs s.loop.manager.to_fsm_tx
      → s.loop.manager.manager_status ≡ Paths.run initial_state (inputs s.loop.manager.to_fsm_tx)
  settled_status-run out_room disk checker r p q =
      let (shows, stands, says) = status-run out_room disk checker r in
      shows ∙ ap (reported disconnected) p ∙ says ∙ stands ∙ ap (Paths.run initial_state) q
