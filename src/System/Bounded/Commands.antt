-- ===== src/System/Bounded/Commands.antt =====
-- The manager (src/lgtv_manager.rs) and its state machine (src/state_machine.rs) while the caller sends
-- commands and no TV is connected.
use lgtv_manager.Prelude.{
  ℕ, zero, suc, ◌+◌, ◌≡◌, refl, ap, ◌∙◌, Bool, true, Option, none, some, List, [], ◌∷◌, ◌++◌,
  length, length-append, arith,
}
use lgtv_manager.Prelude.Channel.{channel, send}
use lgtv_manager.Environment.{Env}
use lgtv_manager.StateMachine.{disconnected, Input, transition}
use lgtv_manager.StateMachine.Task.{
  RustFsm, IsRustFsm, StateMachineUpdateMessage, transition_error, FsmTask, received, task_step,
  start_state_machine,
}
use lgtv_manager.StateMachine.Task.Replies.{at, refusal, task_step_lem}
use lgtv_manager.TvCommand.{TvCommand}
use lgtv_manager.Manager.Messages.{send_tv_command}
use lgtv_manager.Manager.Senders.{send_to_fsm}
use lgtv_manager.Manager.Handlers.Caller.{handle_manager_message}
use lgtv_manager.Manager.MainLoop.{from_caller, MainLoop, new, start, step, handle}

-- A function applied a number of times.
abbrev pub again : {A : Type 0} → ℕ → (A → A) → A → A
again zero f x = x
again (suc n) f x = f (again n f x)

abbrev pub snoc : {A : Type 0} → A → List A → List A
snoc x xs = xs ++ x ∷ []

pub length-again :
    {A : Type 0} (x : A) (xs : List A) (n : ℕ) → length (again n (snoc x) xs) ≡ length xs + n
length-again x xs zero = omega arith
length-again x xs (suc n) =
    omega (arith, length-again x xs n, length-append (again n (snoc x) xs) (x ∷ []))

-- The input of a command.
abbrev pub asks : TvCommand → Input
asks c = Input.send_command c

module _ {E : Env} (c : TvCommand) where
  -- The loop after a number of commands.
  abbrev pub commanded : ℕ → MainLoop E → MainLoop E
  commanded n l = again n (step (from_caller (send_tv_command c))) l

  command-step :
      (l : MainLoop E) (xs : List Input)
      → l.running ≡ true
      → l.manager.to_fsm_tx ≡ some (record { sent = xs; room = none })
      → ((step (from_caller (send_tv_command c)) l).running ≡ true)
        × ((step (from_caller (send_tv_command c)) l).manager.to_fsm_tx
            ≡ some (record { sent = snoc (asks c) xs; room = none }))
  unfolding step handle handle_manager_message send_to_fsm send
  command-step l xs r e = ground (arith, r, e)

  pub commanded-tx :
      (n : ℕ) (l : MainLoop E) (xs : List Input)
      → l.running ≡ true
      → l.manager.to_fsm_tx ≡ some (record { sent = xs; room = none })
      → ((commanded n l).running ≡ true)
        × ((commanded n l).manager.to_fsm_tx
            ≡ some (record { sent = again n (snoc (asks c)) xs; room = none }))
  commanded-tx zero l xs r e = (r, e)
  commanded-tx (suc n) l xs r e =
      let (s, f) = commanded-tx n l xs r e in
      command-step (commanded n l) (again n (snoc (asks c)) xs) s f

-- The loop of a new manager.
abbrev pub first : (E : Env) → Option ℕ → E.Disk → Bool → MainLoop E
first E out_room disk checker = start none checker (new E out_room disk)

module _ (lib : RustFsm) (law : IsRustFsm lib) (c : TvCommand) where
  -- Its answer to one, while disconnected.
  abbrev pub refuses : StateMachineUpdateMessage
  refuses = transition_error (refusal lib disconnected (asks c))

  abbrev pub refusing : ℕ → FsmTask
  refusing n = again n (task_step lib (received (asks c))) (start_state_machine (channel none))

  refusing-at : (n : ℕ) → refusing n ≡ at disconnected (again n (snoc refuses) []) none
  unfolding start_state_machine transition
  refusing-at zero = refl
  refusing-at (suc n) =
      ap (task_step lib (received (asks c))) (refusing-at n)
      ∙ task_step_lem lib law (asks c) disconnected (again n (snoc refuses) [])

  pub refusing-sent : (n : ℕ) → (refusing n).msg_tx.sent ≡ again n (snoc refuses) []
  refusing-sent n = ap (λ t. t.msg_tx.sent) (refusing-at n)
