-- ===== src/System/Turns.antt =====
-- What holds between any two turns of the manager (src/lgtv_manager.rs) and its state machine
-- (src/state_machine.rs).
use lgtv_manager.Prelude.{
  ℕ, ◌≡◌, refl, sym, ap, ◌∙◌, subst, Bool, Bool-cases, inl, inr, true, false, Option, none, some,
  List, [], ◌∷◌, ◌++◌, append_assoc, arith,
}
use lgtv_manager.Prelude.Channel.{Channel, channel}
use lgtv_manager.Environment.{Env}
use lgtv_manager.StateMachine.{State, disconnected, Input, initial_state, transition}
use lgtv_manager.StateMachine.Paths as Paths
use lgtv_manager.StateMachine.Task.{
  RustFsm, IsRustFsm, StateMachineUpdateMessage, state_update, output_update, transition_error,
  received, task_step, start_state_machine,
}
use lgtv_manager.StateMachine.Task.Replies.{at, replies_of, task_step_lem}
use lgtv_manager.Manager.State.{blank}
use lgtv_manager.Manager.Senders.{emit_manager_status, set_reconnect_flow_status, send_out}
use lgtv_manager.Manager.Orchestration.Reconnect.{Ticks}
use lgtv_manager.Manager.MainLoop.{Event, from_fsm, MainLoop, new, start, step}
use lgtv_manager.Manager.Inputs.{trace, HasSent, Keeps, commands_sent, Now, Keeps-Now, command_of}
use lgtv_manager.Manager.Inputs.Traces.{trace-import, trace-initialize, trace-set_host_ip}
use lgtv_manager.Manager.Inputs.Handled.{shown, given, handle-Keeps}
use lgtv_manager.System.{
  System, inputs, is_outside, SystemStep, outside, machine_turn, manager_turn, started, Reach, here,
  next,
}
use lgtv_manager.System.Reported.{reported, reported-append, run-append, reported-replies}

-- What holds between any two turns.
pub record InStep {E : Env} (s : System E) : Type 0 where
  pub manager_keeps : Now (reported disconnected s.updates_read) s.inputs_read false s.loop.manager
  pub machine_at : s.fsm ≡ at (Paths.run initial_state s.inputs_read) s.fsm.msg_tx.sent none
  pub machine_reported :
      reported disconnected s.fsm.msg_tx.sent ≡ Paths.run initial_state s.inputs_read
  pub manager_read :
      (unread : List StateMachineUpdateMessage) × (s.fsm.msg_tx.sent ≡ s.updates_read ++ unread)

-- A message that the manager handles counts among those that it has read.
pub heard :
    (u : StateMachineUpdateMessage) (ticks : Ticks) (us : List StateMachineUpdateMessage)
    → shown (from_fsm u ticks) (reported disconnected us) ≡ reported disconnected (us ++ u ∷ [])
heard (state_update t) ticks us = sym (reported-append disconnected us (state_update t ∷ []))
heard (output_update o) ticks us = sym (reported-append disconnected us (output_update o ∷ []))
heard (transition_error e) ticks us =
    sym (reported-append disconnected us (transition_error e ∷ []))

status-new :
    (E : Env) (out_room : Option ℕ) (disk : E.Disk)
    → (new E out_room disk).manager_status ≡ disconnected
unfolding new
status-new E out_room disk = ap (λ t. t.status) (trace-import (blank E out_room disk))

-- One more reading by the state machine.
pub read_input :
    (xs rest : List Input) (i : Input) (tx : Option (Channel Input))
    → HasSent xs tx
    → inputs tx ≡ xs ++ i ∷ rest
    → HasSent (xs ++ i ∷ []) tx
read_input xs rest i tx (ys, e) h = (rest, ground (arith, append_assoc xs (i ∷ []) rest, e, h))

shown-outside : (e : Event) (s : State) → is_outside e ≡ true → shown e s ≡ s
shown-outside e s o = ground (arith, o)

-- A new manager runs, and the channel to its state machine is fresh.
pub first-tx :
    (E : Env) (out_room : Option ℕ) (disk : E.Disk) (checker : Bool)
    → ((start none checker (new E out_room disk)).running ≡ true)
      × ((start none checker (new E out_room disk)).manager.to_fsm_tx ≡ some (channel none))
unfolding start emit_manager_status set_reconnect_flow_status send_out
first-tx E out_room disk checker =
    (refl, ap (λ t. t.to_fsm_tx) (trace-set_host_ip _ ∙ trace-initialize _))

module _ {E : Env} where
  pub step-Keeps :
      (e : Event) (l : MainLoop E) (s : State) (xs : List Input)
      → l.running ≡ true
      → Now s xs false l.manager
      → Keeps command_of
          (shown e s)
          xs
          false
          (given e (commands_sent l.manager.to_fsm_tx))
          (trace (step e l).manager)
  unfolding step
  step-Keeps e l s xs r h = ground (arith, r, handle-Keeps e l.was_on_network l.manager h)

  pub step-Now :
      (e : Event) (l : MainLoop E) (s : State) (xs : List Input)
      → l.running ≡ true
      → Now s xs false l.manager
      → Now (shown e s) xs false (step e l).manager
  step-Now e l s xs r h = Keeps-Now (step e l).manager (step-Keeps e l s xs r h)

  pub outside-Now :
      (e : Event) (l : MainLoop E) (s : State) (xs : List Input)
      → is_outside e ≡ true
      → Now s xs false l.manager
      → Now s xs false (step e l).manager
  unfolding step
  outside-Now e l s xs o h = elim (Bool-cases l.running) [
    | inl on ↦
        subst (λ t. Now t xs false (step e l).manager) (shown-outside e s o)
          (step-Now e l s xs on h)
    | inr off ↦ ground (arith, off, h)
  ]

  pub started-InStep :
      (out_room : Option ℕ) (disk : E.Disk) (checker : Bool)
      → InStep (started E out_room disk checker)
  unfolding start new start_state_machine Paths.run emit_manager_status set_reconnect_flow_status
      send_out
  started-InStep out_room disk checker = record {
    manager_keeps = Keeps-Now {cs = []} (started E out_room disk checker).loop.manager (
        rw (trace-set_host_ip _, trace-initialize _)
          (record {
            same_status = status-new E out_room disk;
            has_sent = ([], refl);
            same_view = refl;
            still_heard = λ q. cc;
          }));
    machine_at = refl;
    machine_reported = refl;
    manager_read = ([], refl);
  }

module _ {E : Env} (lib : RustFsm) (law : IsRustFsm lib) where
  -- A turn of the state machine.
  pub turned :
      (i : Input) (s : System E)
      → InStep s
      → task_step lib (received i) s.fsm
        ≡ at
            (Paths.run initial_state (s.inputs_read ++ i ∷ []))
            (s.fsm.msg_tx.sent
              ++ replies_of lib
                  (Paths.run initial_state s.inputs_read)
                  i
                  (transition (Paths.run initial_state s.inputs_read) i))
            none
  unfolding Paths.run
  turned i s h =
      let here_now = Paths.run initial_state s.inputs_read in
      ap (task_step lib (received i)) h.machine_at
      ∙ task_step_lem lib law i here_now s.fsm.msg_tx.sent
      ∙ ap (λ t. at t (s.fsm.msg_tx.sent ++ replies_of lib here_now i (transition here_now i)) none)
          (sym (run-append initial_state s.inputs_read (i ∷ [])))

  pub step-InStep : {s t : System E} → SystemStep lib s t → InStep s → InStep t
  unfolding Paths.run
  step-InStep {s} (outside e o) h = record {
    manager_keeps = outside-Now e s.loop _ _ o h.manager_keeps;
    machine_at = h.machine_at;
    machine_reported = h.machine_reported;
    manager_read = h.manager_read;
  }
  step-InStep {s} (machine_turn i rest runs queued) h =
      let k = h.manager_keeps in
      let now = Paths.run initial_state s.inputs_read in
      let replied = replies_of lib now i (transition now i) in
      let after = turned i s h in
      let sent : (task_step lib (received i) s.fsm).msg_tx.sent ≡ s.fsm.msg_tx.sent ++ replied =
        ap (λ t. t.msg_tx.sent) after in
      record {
        manager_keeps = record {
          same_status = k.same_status;
          has_sent = read_input s.inputs_read rest i s.loop.manager.to_fsm_tx k.has_sent queued;
          same_view = refl;
          still_heard = λ q. cc;
        };
        machine_at =
            after
            ∙ ap (λ us. at (Paths.run initial_state (s.inputs_read ++ i ∷ [])) us none) (sym sent);
        machine_reported =
            ap (reported disconnected) sent
            ∙ reported-append disconnected s.fsm.msg_tx.sent replied
            ∙ ap (λ z. reported z replied) h.machine_reported
            ∙ reported-replies lib now i (transition now i)
            ∙ sym (run-append initial_state s.inputs_read (i ∷ []));
        manager_read =
            let (unread, e) = h.manager_read in
            (
              unread ++ replied,
              sent ∙ ap (λ us. us ++ replied) e ∙ append_assoc s.updates_read unread replied,
            );
      }
  step-InStep {s} (manager_turn u ticks rest runs queued) h = record {
    manager_keeps =
        subst (λ t. Now t s.inputs_read false (step (from_fsm u ticks) s.loop).manager)
          (heard u ticks s.updates_read)
          (step-Now (from_fsm u ticks) s.loop _ _ runs h.manager_keeps);
    machine_at = h.machine_at;
    machine_reported = h.machine_reported;
    manager_read = (rest, queued ∙ sym (append_assoc s.updates_read (u ∷ []) rest));
  }

  pub Reach-InStep : {s t : System E} → Reach lib s t → InStep s → InStep t
  Reach-InStep here h = h
  Reach-InStep (next r st) h = step-InStep st (Reach-InStep r h)
