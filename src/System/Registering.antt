-- ===== src/System/Registering.antt =====
-- What the manager (src/lgtv_manager.rs), driven by its state machine (src/state_machine.rs), asks of
-- a WebSocket handler first.
pub mod Wire
use lgtv_manager.Prelude.{
  ℕ, ◌≡◌, refl, sym, ap, ◌∙◌, subst, Bool, Bool-cases, inl, inr, true, false, ◌&&◌, Option, none,
  some, is_some, List, [], ◌∷◌, ◌++◌, arith,
}
use lgtv_manager.Prelude.Channel.{Channel, is_open}
use lgtv_manager.Environment.{Env}
use lgtv_manager.StateMachine.{
  State, connected, pairing, initializing, communicating, Input, initial_state, transition, output,
}
use lgtv_manager.StateMachine.Paths.{follow}
use lgtv_manager.StateMachine.Paths as Paths
use lgtv_manager.StateMachine.Task.{
  RustFsm, IsRustFsm, StateMachineUpdateMessage, received, task_step, start_state_machine,
}
use lgtv_manager.StateMachine.Task.Replies.{replies_of}
use lgtv_manager.Manager.Messages.{WsMessage}
use lgtv_manager.Manager.Invariant.Frame.{core-import, core-initialize, core-set_host_ip}
use lgtv_manager.Manager.State.{blank}
use lgtv_manager.Manager.Senders.{emit_manager_status, set_reconnect_flow_status, send_out}
use lgtv_manager.Manager.MainLoop.{Event, from_fsm, MainLoop, new, start, step}
use lgtv_manager.Manager.Registering.{first_order, Proper, EachOrder, Opens}
use lgtv_manager.Manager.Registering.Kept.{Asks}
use lgtv_manager.Manager.Registering.Handled.{
  asked_after, asked_since, all_in_turn, messages, handle-Asks,
}
use lgtv_manager.System.{
  System, SystemStep, is_outside, outside, machine_turn, manager_turn, started, Reach, here, next,
}
use lgtv_manager.System.Reported.{run-append}
use lgtv_manager.System.Turns.{InStep, turned, started-InStep, Reach-InStep}

asked_since-append :
    (a : Bool) (us vs : List StateMachineUpdateMessage)
    → asked_since a (us ++ vs) ≡ asked_since (asked_since a us) vs
asked_since-append a [] vs = refl
asked_since-append a (u ∷ us) vs = asked_since-append _ us vs

all_in_turn-append :
    (a : Bool) (us vs : List StateMachineUpdateMessage)
    → all_in_turn a (us ++ vs) ≡ (all_in_turn a us && all_in_turn (asked_since a us) vs)
all_in_turn-append a [] vs = refl
all_in_turn-append a (u ∷ us) vs = ground (arith, all_in_turn-append (asked_after a u) us vs)

-- The states behind the register request.
abbrev registered : State → Bool
registered (connected url) = true
registered (pairing url) = true
registered (initializing url) = true
registered (communicating url) = true
registered _ = false

-- In such a state the machine has asked for the register request, and it speaks in turn.
replies-in_turn :
    (lib : RustFsm) (s : State) (i : Input) (a : Bool)
    → (registered s ≡ true → a ≡ true)
    → (all_in_turn a (replies_of lib s i (transition s i)) ≡ true)
      × (registered (follow s (transition s i)) ≡ true
          → asked_since a (replies_of lib s i (transition s i)) ≡ true)
unfolding transition output
replies-in_turn lib s i true h = ground arith
replies-in_turn lib s i false h = ground (arith, h)

-- What holds of the messages of the state machine between any two turns.
record Speaks {E : Env} (s : System E) : Type 0 where
  pub in_turn : all_in_turn false s.fsm.msg_tx.sent ≡ true
  pub asked :
      registered (Paths.run initial_state s.inputs_read) ≡ true
      → asked_since false s.fsm.msg_tx.sent ≡ true

module _ {E : Env} where
  step-Asks :
      (asked : Bool) (e : Event) (l : MainLoop E)
      → all_in_turn asked (messages e) ≡ true
      → l.running ≡ true
      → Asks asked l.manager
      → Asks (asked_since asked (messages e)) (step e l).manager
  unfolding step
  step-Asks asked e l t r h = ground (arith, r, handle-Asks asked e l.was_on_network l.manager t h)

  outside-Asks :
      (asked : Bool) (e : Event) (l : MainLoop E)
      → is_outside e ≡ true
      → Asks asked l.manager
      → Asks asked (step e l).manager
  unfolding step
  outside-Asks asked e l o h =
      let silent : messages e ≡ [] = ground (arith, o) in
      elim (Bool-cases l.running) [
        | inl on ↦
            subst (λ us. Asks (asked_since asked us) (step e l).manager) silent
              (step-Asks asked e l (ap (all_in_turn asked) silent) on h)
        | inr off ↦ ground (arith, off, h)
      ]

started-tx :
    (E : Env) (out_room : Option ℕ) (disk : E.Disk) (checker : Bool)
    → (started E out_room disk checker).loop.manager.to_ws_tx ≡ none
unfolding start new emit_manager_status set_reconnect_flow_status send_out
started-tx E out_room disk checker =
    ap (λ c. c.to_ws) (core-set_host_ip _ ∙ core-initialize _)
    ∙ ground (arith, core-import (blank E out_room disk))

module _ {E : Env} (lib : RustFsm) (law : IsRustFsm lib) where
  step-Speaks : {s t : System E} → SystemStep lib s t → InStep s → Speaks s → Speaks t
  unfolding Paths.run
  step-Speaks (outside e o) h a = record { in_turn = a.in_turn; asked = a.asked }
  step-Speaks {s} (machine_turn i rest runs queued) h a =
      let now = Paths.run initial_state s.inputs_read in
      let replied = replies_of lib now i (transition now i) in
      let before = asked_since false s.fsm.msg_tx.sent in
      let sent : (task_step lib (received i) s.fsm).msg_tx.sent ≡ s.fsm.msg_tx.sent ++ replied =
        ap (λ t. t.msg_tx.sent) (turned lib law i s h) in
      let (speaks, asks) = replies-in_turn lib now i before a.asked in
      record {
        in_turn =
            ground
              (arith, sent, all_in_turn-append false s.fsm.msg_tx.sent replied, a.in_turn, speaks);
        asked = λ far.
            ap (asked_since false) sent
            ∙ asked_since-append false s.fsm.msg_tx.sent replied
            ∙ asks (ap registered (sym (run-append initial_state s.inputs_read (i ∷ []))) ∙ far);
      }
  step-Speaks (manager_turn u ticks rest runs queued) h a = record {
    in_turn = a.in_turn;
    asked = a.asked;
  }

  reach-Speaks :
      (out_room : Option ℕ) (disk : E.Disk) (checker : Bool) {s : System E}
      → Reach lib (started E out_room disk checker) s
      → Speaks s
  unfolding start_state_machine Paths.run
  reach-Speaks out_room disk checker here = record { in_turn = refl; asked = λ e. cc }
  reach-Speaks out_room disk checker (next r st) =
      step-Speaks st (Reach-InStep lib law r (started-InStep out_room disk checker))
        (reach-Speaks out_room disk checker r)

  reach-Asks :
      (out_room : Option ℕ) (disk : E.Disk) (checker : Bool) {s : System E}
      → Reach lib (started E out_room disk checker) s
      → Asks (asked_since false s.updates_read) s.loop.manager
  reach-Asks out_room disk checker here =
      subst (Opens E false) (sym (started-tx E out_room disk checker)) tt
  reach-Asks out_room disk checker (next r (outside e o)) =
      outside-Asks _ e _ o (reach-Asks out_room disk checker r)
  reach-Asks out_room disk checker (next r (machine_turn i rest runs queued)) =
      reach-Asks out_room disk checker r
  reach-Asks out_room disk checker (next {t = t} r (manager_turn u ticks rest runs queued)) =
      let turn = reach-Speaks out_room disk checker r in
      subst (λ a. Asks a (step (from_fsm u ticks) t.loop).manager)
        (sym (asked_since-append false t.updates_read (u ∷ [])))
        (step-Asks _ (from_fsm u ticks) t.loop
          (ground (
            arith,
            turn.in_turn,
            ap (all_in_turn false) queued,
            all_in_turn-append false t.updates_read (u ∷ rest),
          ))
          runs (reach-Asks out_room disk checker r))

  -- Whatever the caller, the socket, the network and the clock do, and in whatever order the two
  -- tasks take their turns: the first message, other than a connection test, to the WebSocket handler
  -- that the manager talks to is a register request of the program or the order to shut down, so
  -- that no command goes to a TV before the request to register; and once the manager has read the
  -- output that tells it to register, a handler that still listens has one of the two. Every text
  -- that the handler is given is a register request or the request of a command.
  pub registers_first :
      (out_room : Option ℕ) (disk : E.Disk) (checker : Bool) {s : System E} (tx : Channel WsMessage)
      → Reach lib (started E out_room disk checker) s
      → s.loop.manager.to_ws_tx ≡ some tx
      → Proper E (first_order tx.sent)
        × (asked_since false s.updates_read ≡ true
            → is_open tx.room ≡ true
            → is_some (first_order tx.sent) ≡ true)
        × EachOrder E tx.sent
  registers_first out_room disk checker {s} tx r e =
      let h =
        subst (Opens E (asked_since false s.updates_read)) e (reach-Asks out_room disk checker r) in
      (h.begins, h.begun, h.each)
