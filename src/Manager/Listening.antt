-- ===== src/Manager/Listening.antt =====
-- The manager's side of a WebSocket handler that has ended (`from_ws_rx` in `run` of
-- src/lgtv_manager.rs).
use lgtv_manager.Prelude.{
  ◌≡◌, refl, true, is_some, Option, none, some, List, [], ◌∷◌, append-nil, ℕ, Bool-cases, inl, inr,
  arith,
}
use lgtv_manager.Environment.{Env}
use lgtv_manager.StateMachine.{State, Input}
use lgtv_manager.Manager.State.{Manager}
use lgtv_manager.Manager.Handlers.Socket.{handle_ws_message}
use lgtv_manager.Manager.MainLoop.{Event, from_ws, MainLoop, step, run, receive_ws, handle}
use lgtv_manager.Manager.Inputs.{Now, Keeps-Now, command_of-LeavesOut}
use lgtv_manager.Manager.Inputs.Handled.{shown, handle-Keeps}

module _ {E : Env} where
  -- The state machine takes the manager's inputs, and there is a receiver of a handler's messages.
  Listens : MainLoop E → Type 0
  Listens l = (s : State) × (xs : List Input) × Now s xs true l.manager

  step-Listens : (e : Event) (l : MainLoop E) → Listens l → Listens (step e l)
  unfolding Listens step
  step-Listens e l (s, xs, h) = elim (Bool-cases l.running) [
    | inl on ↦ (
      shown e s,
      xs,
      ground (
        arith,
        on,
        Keeps-Now (handle e l.was_on_network l.manager)
            (handle-Keeps e l.was_on_network l.manager h),
      ),
    )
    | inr off ↦ (s, xs, ground (arith, off, h))
  ]

  run-Listens : (es : List Event) (l : MainLoop E) → Listens l → Listens (run es l)
  unfolding run
  run-Listens [] l h = h
  run-Listens (e ∷ es) l h = run-Listens es (step e l) (step-Listens e l h)

  receive_none : (rx : Option ℕ) (m : Manager E) → receive_ws rx none m ≡ m
  unfolding receive_ws handle_ws_message
  receive_none none m = refl
  receive_none (some n) m = refl

  -- A read of a closed channel changes nothing.
  closed_read : (l : MainLoop E) → step (from_ws none) l ≡ l
  unfolding step handle
  closed_read l = elim (Bool-cases l.running) [
    | inl on ↦ ground (arith, on, receive_none l.manager.from_ws_rx l.manager)
    | inr off ↦ ground (arith, off)
  ]

  -- Once the manager, whose state machine takes its inputs, has the receiver of a WebSocket handler,
  -- it has one after any events: the branch of the loop that reads it is never off again, and the
  -- none that a handler that is gone leaves to be read there, at once and every time, changes
  -- nothing.
  pub receiver_stays :
      (es : List Event) (l : MainLoop E) (xs : List Input)
      → l.manager.to_fsm_tx ≡ some (record { sent = xs; room = none })
      → is_some l.manager.from_ws_rx ≡ true
      → (is_some (run es l).manager.from_ws_rx ≡ true) × (step (from_ws none) (run es l) ≡ run es l)
  unfolding Listens
  receiver_stays es l xs fsm ws =
      let start : Listens l = (
        l.manager.manager_status,
        xs,
        record {
          same_status = refl;
          has_sent = ([], rw (append-nil xs) fsm);
          same_view = refl;
          still_heard = λ q. ws;
        },
      ) in
      let (s, ys, k) = run-Listens es l start in (k.still_heard refl, closed_read (run es l))
