-- ===== src/StateMachine/Task/Replies.antt =====
-- What the manager hears from the task, said without the task: the replies to each input in turn,
-- cut off where the channel closes.
use lgtv_manager.StateMachine.Paths.{follow}
use lgtv_manager.Prelude.{
  ℕ, zero, suc, ◌≡◌, refl, ◌∙◌, ap, true, false, Option, none, some, List, [], ◌∷◌, ◌++◌,
  append-nil, append_assoc, String, ◌<>◌, ok,
}
use lgtv_manager.Prelude.Channel.{send, channel, take_room, take_room-nil}
use lgtv_manager.StateMachine.{State, Input, Output, transition, output}
use lgtv_manager.StateMachine.Task.{
  RustFsm, IsRustFsm, StateMachineUpdateMessage, state_update, output_update, transition_error,
  FsmTask, TaskEvent, received, cancelled, report, task_step, start_state_machine, run_task,
}

-- The replies to an input.
abbrev pub output_reply : Option Output → List StateMachineUpdateMessage
output_reply none = []
output_reply (some o) = output_update o ∷ []

abbrev pub refusal : RustFsm → State → Input → String
refusal lib s i =
    "FSM transition error with Input ["
    <> lib.debug_input i
    <> "] while in State '"
    <> lib.debug_state s
    <> "': "
    <> lib.impossible

abbrev pub replies_of : RustFsm → State → Input → Option State → List StateMachineUpdateMessage
replies_of lib s i none = transition_error (refusal lib s i) ∷ []
replies_of lib s i (some t) = state_update t ∷ output_reply (output s i)

-- The replies to a whole run of events, if the channel takes them all.
pub replies : RustFsm → State → List TaskEvent → List StateMachineUpdateMessage
replies lib s [] = []
replies lib s (cancelled ∷ es) = []
replies lib s (received i ∷ es) =
    replies_of lib s i (transition s i) ++ replies lib (follow s (transition s i)) es

-- The loop's variables while it runs.
abbrev pub at : State → List StateMachineUpdateMessage → Option ℕ → FsmTask
at s xs room = record { state = s; msg_tx = record { sent = xs; room = room }; running = true }

abbrev left : State → List StateMachineUpdateMessage → FsmTask
left s xs = record { state = s; msg_tx = record { sent = xs; room = some zero }; running = false }

-- Several messages in a row, until one is not taken.
deliver :
    List StateMachineUpdateMessage → State → List StateMachineUpdateMessage → Option ℕ → FsmTask
deliver [] s xs r = at s xs r
deliver (m ∷ ms) s xs none = deliver ms s (xs ++ m ∷ []) none
deliver (m ∷ ms) s xs (some zero) = left s xs
deliver (m ∷ ms) s xs (some (suc n)) = deliver ms s (xs ++ m ∷ []) (some n)

stopped :
    (lib : RustFsm) (es : List TaskEvent) (s : State) (xs : List StateMachineUpdateMessage)
    → run_task lib es (left s xs) ≡ left s xs
unfolding run_task task_step
stopped lib [] s xs = refl
stopped lib (e ∷ es) s xs = stopped lib es s xs

cancel :
    (lib : RustFsm) (es : List TaskEvent) (s : State) (xs : List StateMachineUpdateMessage)
    (r : Option ℕ)
    → (run_task lib (cancelled ∷ es) (at s xs r)).msg_tx.sent ≡ xs
unfolding run_task task_step
cancel lib [] s xs r = refl
cancel lib (e ∷ es) s xs r = cancel lib es s xs r

module _ (lib : RustFsm) (law : IsRustFsm lib) where
  open law use {accepted, refused}

  report-deliver :
      (i : Input) (s t : State) (xs : List StateMachineUpdateMessage) (r : Option ℕ)
      (o : Option Output)
      → report lib i (ok o) (at t xs r) ≡ deliver (state_update t ∷ output_reply o) t xs r
  unfolding task_step deliver send
  report-deliver i s t xs none none = refl
  report-deliver i s t xs none (some o) = refl
  report-deliver i s t xs (some zero) o = refl
  report-deliver i s t xs (some (suc zero)) none = refl
  report-deliver i s t xs (some (suc (suc n))) none = refl
  report-deliver i s t xs (some (suc zero)) (some o) = refl
  report-deliver i s t xs (some (suc (suc n))) (some o) = refl

  task_step-deliver :
      (i : Input) (s : State) (xs : List StateMachineUpdateMessage) (r : Option ℕ)
      (to : Option State)
      → transition s i ≡ to
      → task_step lib (received i) (at s xs r) ≡ deliver (replies_of lib s i to) (follow s to) xs r
  unfolding task_step deliver send
  task_step-deliver i s xs none none e = rw (refused transition output s i e)
  task_step-deliver i s xs (some zero) none e = rw (refused transition output s i e)
  task_step-deliver i s xs (some (suc n)) none e = rw (refused transition output s i e)
  task_step-deliver i s xs r (some t) e =
      rw (accepted transition output s t i e) (report-deliver i s t xs r (output s i))

  deliver_all :
      (ms : List StateMachineUpdateMessage) (s : State) (xs : List StateMachineUpdateMessage)
      → deliver ms s xs none ≡ at s (xs ++ ms) none
  unfolding deliver
  deliver_all [] s xs = rw append-nil
  deliver_all (m ∷ ms) s xs = deliver_all ms s (xs ++ m ∷ []) ∙ rw append_assoc

  -- An input to a task whose channel stays: the new state, and the replies sent.
  pub task_step_lem :
      (i : Input) (s : State) (xs : List StateMachineUpdateMessage)
      → task_step lib (received i) (at s xs none)
        ≡ at (follow s (transition s i)) (xs ++ replies_of lib s i (transition s i)) none
  task_step_lem i s xs =
      let to = transition s i in
      task_step-deliver i s xs none to refl ∙ deliver_all (replies_of lib s i to) (follow s to) xs

  sent-deliver :
      (es : List TaskEvent) (s : State)
      → ((xs : List StateMachineUpdateMessage) (r : Option ℕ)
          → (run_task lib es (at s xs r)).msg_tx.sent ≡ xs ++ take_room r (replies lib s es))
      → (ms xs : List StateMachineUpdateMessage) (r : Option ℕ)
      → (run_task lib es (deliver ms s xs r)).msg_tx.sent
        ≡ xs ++ take_room r (ms ++ replies lib s es)
  unfolding deliver
  sent-deliver es s ih [] xs r = ih xs r
  sent-deliver es s ih (m ∷ ms) xs none =
      sent-deliver es s ih ms (xs ++ m ∷ []) none ∙ rw append_assoc
  sent-deliver es s ih (m ∷ ms) xs (some zero) = rw (stopped, append-nil)
  sent-deliver es s ih (m ∷ ms) xs (some (suc n)) =
      sent-deliver es s ih ms (xs ++ m ∷ []) (some n) ∙ rw append_assoc

  sent-run_task-at :
      (es : List TaskEvent) (s : State) (xs : List StateMachineUpdateMessage) (r : Option ℕ)
      → (run_task lib es (at s xs r)).msg_tx.sent ≡ xs ++ take_room r (replies lib s es)
  unfolding run_task replies
  sent-run_task-at [] s xs r = rw (take_room-nil r, append-nil)
  sent-run_task-at (cancelled ∷ es) s xs r = rw (take_room-nil r, append-nil) (cancel lib es s xs r)
  sent-run_task-at (received i ∷ es) s xs r =
      let to = transition s i in
      ap (λ t. (run_task lib es t).msg_tx.sent) (task_step-deliver i s xs r to refl)
      ∙ sent-deliver es (follow s to) (sent-run_task-at es (follow s to)) (replies_of lib s i to) xs
          r

  -- Started in any state on a channel with any room, the task hands the manager, in order, the
  -- replies to the inputs that it receives before it is cancelled, cut off at the number of messages
  -- that the channel takes: the new state and then the output if there is one, or the refusal.
  pub sent-run_task :
      (es : List TaskEvent) (s : State) (room : Option ℕ)
      → (run_task lib es (record (start_state_machine (channel room)) { state = s })).msg_tx.sent
        ≡ take_room room (replies lib s es)
  unfolding start_state_machine
  sent-run_task es s room = sent-run_task-at es s [] room
