-- ===== src/System/Settling/Weights.antt =====
-- What a turn of the manager (src/lgtv_manager.rs) or of its state machine (src/state_machine.rs) adds
-- to the two channels, at most.
use lgtv_manager.Prelude.{
  ℕ, ◌+◌, ◌≤◌, ◌≡◌, refl, sym, ap, ◌∙◌, Bool, true, false, none, some, List, [], ◌∷◌, ◌++◌, length,
  length-append, arith,
}
use lgtv_manager.Environment.{Env}
use lgtv_manager.StateMachine.{State, Input, connect, reset, transition, output, connect_to_tv}
use lgtv_manager.StateMachine.Task.{
  RustFsm, StateMachineUpdateMessage, state_update, output_update, transition_error,
}
use lgtv_manager.StateMachine.Task.Replies.{replies_of}
use lgtv_manager.Manager.State.{Manager}
use lgtv_manager.Manager.Senders.{
  send_out, set_manager_status, emit_manager_status, emit_last_seen_tv,
}
use lgtv_manager.Manager.Orchestration.Connect.{start_websocket_handler_and_connect}
use lgtv_manager.Manager.Orchestration.Reconnect.{Ticks}
use lgtv_manager.Manager.Handlers.Machine.{handle_update, handle_output}
use lgtv_manager.Manager.Inputs.{trace, LeavesOut, Keeps, all_from, all_from-append, sent_from}
use lgtv_manager.Manager.Inputs.Calls.{output-Keeps}

-- The inputs that the manager does not send in answer to an output.
abbrev pub weighty : Input → List Input
weighty reset = []
weighty (connect url) = []
weighty i = i ∷ []

instance abbrev pub weighty-LeavesOut : LeavesOut weighty
weighty-LeavesOut = record { resets = refl; connects = λ url. refl }

-- Whether the manager may send inputs in answer to a message.
abbrev pub is_acting : StateMachineUpdateMessage → Bool
is_acting (output_update (connect_to_tv url)) = false
is_acting (output_update o) = true
is_acting _ = false

abbrev pub one_if : Bool → ℕ
one_if true = 1
one_if false = 0

abbrev pub acting : List StateMachineUpdateMessage → ℕ
acting [] = 0
acting (u ∷ us) = one_if (is_acting u) + acting us

pub acting-append :
    (us vs : List StateMachineUpdateMessage) → acting (us ++ vs) ≡ acting us + acting vs
acting-append [] vs = omega arith
acting-append (u ∷ us) vs = omega (arith, acting-append us vs)

-- The answers to an input.
pub acting-replies :
    (lib : RustFsm) (s : State) (i : Input)
    → acting (replies_of lib s i (transition s i)) ≤ length (weighty i)
unfolding transition output
acting-replies lib s i = ground arith

pub length-replies :
    (lib : RustFsm) (s : State) (i : Input) → length (replies_of lib s i (transition s i)) ≤ 2
unfolding transition output
length-replies lib s i = ground arith

module _ {E : Env} where
  -- A message that is not acting adds no input.
  pub calm_update :
      (u : StateMachineUpdateMessage) (ticks : Ticks) (m : Manager E)
      → is_acting u ≡ false
      → (handle_update u ticks m).to_fsm_tx ≡ m.to_fsm_tx
  unfolding handle_update handle_output start_websocket_handler_and_connect set_manager_status
      emit_manager_status emit_last_seen_tv send_out
  calm_update u ticks m q = ground (arith, q)

  -- An acting one adds only inputs that are not weighty.
  pub acting_update :
      (u : StateMachineUpdateMessage) (ticks : Ticks) (m : Manager E) (read unread : List Input)
      → is_acting u ≡ true
      → m.to_fsm_tx ≡ some (record { sent = read ++ unread; room = none })
      → (more : List Input) × ((handle_update u ticks m).to_fsm_tx
          ≡ some (record { sent = read ++ more; room = none }))
        × (length (all_from weighty more) ≡ length (all_from weighty unread))
  unfolding handle_update
  acting_update (state_update s) ticks m read unread a e = cc
  acting_update (transition_error t) ticks m read unread a e = cc
  acting_update (output_update o) ticks m read unread a e =
      let start : Keeps weighty m.manager_status read false (sent_from weighty m.to_fsm_tx)
          (trace m) =
        record {
          same_status = refl;
          has_sent = (unread, e);
          same_view = refl;
          still_heard = λ q. cc;
        } in
      let after = output-Keeps o ticks m start in
      let (more, f) = after.has_sent in
      (
        more,
        f,
        omega (
          arith,
          ap length (sym (ap (sent_from weighty) f) ∙ after.same_view ∙ ap (sent_from weighty) e),
          ap length (all_from-append weighty read more),
          ap length (all_from-append weighty read unread),
          length-append (all_from weighty read) (all_from weighty more),
          length-append (all_from weighty read) (all_from weighty unread),
        ),
      )
