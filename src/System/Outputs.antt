-- ===== src/System/Outputs.antt =====
-- In which status the manager (src/lgtv_manager.rs) acts on the outputs of its state machine
-- (src/state_machine.rs).
use lgtv_manager.Prelude.{
  ℕ, ◌≡◌, refl, ap, Bool, true, false, ◌&&◌, Option, List, [], ◌∷◌, ◌++◌, String, str_eq, eq_iff,
  arith,
}
use lgtv_manager.Environment.{Env}
use lgtv_manager.StateMachine.{
  State, disconnected, connecting, connected, pairing, initializing, communicating, disconnecting,
  Input, initial_state, transition, output, Output, connect_to_tv, send_register_payload,
  pair_with_tv, initialize_connection, forward_command, disconnect_from_tv, handle_connect_error,
  handle_disconnect_error, handle_successful_disconnect,
}
use lgtv_manager.StateMachine.Paths as Paths
use lgtv_manager.StateMachine.Task.{
  RustFsm, IsRustFsm, StateMachineUpdateMessage, state_update, output_update, transition_error,
  received, task_step, start_state_machine,
}
use lgtv_manager.StateMachine.Task.Replies.{replies_of}
use lgtv_manager.System.{
  System, SystemStep, outside, machine_turn, manager_turn, started, Reach, here, next,
}
use lgtv_manager.System.Reported.{reported}
use lgtv_manager.System.Status.{status-run}
use lgtv_manager.System.Turns.{InStep, turned, started-InStep, Reach-InStep}

-- The status that an output belongs to: the manager opens a socket to the URL that it shows as the
-- one it connects to, registers once connected, and so on.
abbrev pub belongs : Output → State → Bool
belongs (connect_to_tv host) (connecting url) = str_eq host url
belongs send_register_payload (connected url) = true
belongs pair_with_tv (pairing url) = true
belongs initialize_connection (initializing url) = true
belongs (forward_command c) (communicating url) = true
belongs disconnect_from_tv (disconnecting url) = true
belongs handle_connect_error disconnected = true
belongs handle_disconnect_error disconnected = true
belongs handle_successful_disconnect disconnected = true
belongs _ _ = false

-- Whether each output among the messages belongs to the last state reported before it, the given one
-- at first.
abbrev all_belong : State → List StateMachineUpdateMessage → Bool
all_belong s [] = true
all_belong s (state_update t ∷ us) = all_belong t us
all_belong s (output_update o ∷ us) = belongs o s && all_belong s us
all_belong s (transition_error e ∷ us) = all_belong s us

str_eq-same : (t : String) → str_eq t t ≡ true
str_eq-same t = (eq_iff t t).1 refl

all_belong-append :
    (s : State) (us vs : List StateMachineUpdateMessage)
    → all_belong s (us ++ vs) ≡ (all_belong s us && all_belong (reported s us) vs)
all_belong-append s [] vs = refl
all_belong-append s (state_update t ∷ us) vs = all_belong-append t us vs
all_belong-append s (output_update o ∷ us) vs = ground (arith, all_belong-append s us vs)
all_belong-append s (transition_error e ∷ us) vs = all_belong-append s us vs

all_belong-replies :
    (lib : RustFsm) (s r : State) (i : Input)
    → all_belong r (replies_of lib s i (transition s i)) ≡ true
unfolding transition output
all_belong-replies lib s r i = grind (arith, str_eq-same)

module _ {E : Env} (lib : RustFsm) (law : IsRustFsm lib) where
  step-belong :
      {s t : System E}
      → SystemStep lib s t
      → InStep s
      → all_belong disconnected s.fsm.msg_tx.sent ≡ true
      → all_belong disconnected t.fsm.msg_tx.sent ≡ true
  step-belong (outside e o) h a = a
  step-belong {s} (machine_turn i rest runs queued) h a =
      let now = Paths.run initial_state s.inputs_read in
      let replied = replies_of lib now i (transition now i) in
      let sent : (task_step lib (received i) s.fsm).msg_tx.sent ≡ s.fsm.msg_tx.sent ++ replied =
        ap (λ t. t.msg_tx.sent) (turned lib law i s h) in
      ground (
        arith,
        sent,
        all_belong-append disconnected s.fsm.msg_tx.sent replied,
        a,
        all_belong-replies lib now (reported disconnected s.fsm.msg_tx.sent) i,
      )
  step-belong (manager_turn u ticks rest runs queued) h a = a

  reach-belong :
      (out_room : Option ℕ) (disk : E.Disk) (checker : Bool) {s : System E}
      → Reach lib (started E out_room disk checker) s
      → all_belong disconnected s.fsm.msg_tx.sent ≡ true
  unfolding start_state_machine
  reach-belong out_room disk checker here = refl
  reach-belong out_room disk checker (next r st) =
      step-belong st (Reach-InStep lib law r (started-InStep out_room disk checker))
        (reach-belong out_room disk checker r)

  -- Whatever the caller, the socket, the network and the clock do, and in whatever order the two
  -- tasks take their turns: whenever the manager is about to read an output of the state machine,
  -- the status that it shows is the one that the output belongs to. So, told by an output, it opens a
  -- socket only to the URL that it shows as the one it connects to, registers only when connected,
  -- forwards a command only when communicating, begins to disconnect only when disconnecting, and
  -- recovers from an error or ends a disconnect only when disconnected.
  pub output_belongs :
      (out_room : Option ℕ) (disk : E.Disk) (checker : Bool) {s : System E} (o : Output)
      (rest : List StateMachineUpdateMessage)
      → Reach lib (started E out_room disk checker) s
      → s.fsm.msg_tx.sent ≡ s.updates_read ++ output_update o ∷ rest
      → belongs o s.loop.manager.manager_status ≡ true
  output_belongs out_room disk checker {s} o rest r queued = ground (
    arith,
    (status-run lib law out_room disk checker r).0,
    reach-belong out_room disk checker r,
    ap (all_belong disconnected) queued,
    all_belong-append disconnected s.updates_read (output_update o ∷ rest),
  )
