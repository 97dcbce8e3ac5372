-- ===== src/Manager/Inputs.antt =====
-- What every handler of src/lgtv_manager.rs but one leaves alone: the status that the manager shows,
-- which only a report of the state machine changes, and what was sent to the state machine.
pub mod Traces
pub mod Kept
pub mod Reconnecting
pub mod Calls
pub mod Handled
use lgtv_manager.Prelude.{
  ◌≡◌, refl, sym, ap, ◌∙◌, append_assoc, Bool, true, Option, some, is_some, List, [], ◌∷◌, none,
  ◌++◌, String, ℕ,
}
use lgtv_manager.TvCommand.{TvCommand}
use lgtv_manager.Prelude.Channel.{Channel}
use lgtv_manager.Environment.{Env}
use lgtv_manager.StateMachine.{State, Input, connect, send_command, reset}
use lgtv_manager.Manager.State.{Manager}

-- The fields that this is about.
pub record Trace : Type 0 where
  pub status : State
  pub to_fsm_tx : Option (Channel Input)
  pub from_ws : Option ℕ

abbrev pub trace : {E : Env} → Manager E → Trace
trace m = record { status = m.manager_status; to_fsm_tx = m.to_fsm_tx; from_ws = m.from_ws_rx }

-- A channel whose receiver stays, and over which the given inputs and perhaps more were sent.
abbrev pub HasSent : List Input → Option (Channel Input) → Type 0
HasSent inputs tx =
    (more : List Input) × (tx ≡ some (record { sent = inputs ++ more; room = none }))

-- What a list of inputs gives, each input in turn.
abbrev pub all_from : {A : Type 0} → (Input → List A) → List Input → List A
all_from f [] = []
all_from f (i ∷ is) = f i ++ all_from f is

pub all_from-append :
    {A : Type 0} (f : Input → List A) (is js : List Input)
    → all_from f (is ++ js) ≡ all_from f is ++ all_from f js
all_from-append f [] js = refl
all_from-append f (i ∷ is) js =
    ap (λ ys. f i ++ ys) (all_from-append f is js)
    ∙ sym (append_assoc (f i) (all_from f is) (all_from f js))

-- What was sent over a channel gives.
abbrev pub sent_from : {A : Type 0} → (Input → List A) → Option (Channel Input) → List A
sent_from f none = []
sent_from f (some tx) = all_from f tx.sent

-- A view on the inputs that leaves out the resets and the connects, which the manager sends of its own
-- accord.
pub record LeavesOut {A : Type 0} (f : Input → List A) : Type 0 where
  pub resets : f reset ≡ []
  pub connects : (url : String) → f (connect url) ≡ []

-- The commands among the inputs.
abbrev pub command_of : Input → List TvCommand
command_of (send_command c) = c ∷ []
command_of _ = []

instance abbrev pub command_of-LeavesOut : LeavesOut command_of
command_of-LeavesOut = record { resets = refl; connects = λ url. refl }

abbrev pub commands_in : List Input → List TvCommand
commands_in is = all_from command_of is

abbrev pub commands_sent : Option (Channel Input) → List TvCommand
commands_sent tx = sent_from command_of tx

-- The status is the given one, the inputs given were sent, all that was sent gives in the view `f`
-- what is given, and once there was a receiver for the messages of a WebSocket handler (`heard`),
-- there is one.
pub record Keeps {A : Type 0} (f : Input → List A) (status : State) (inputs : List Input)
    (heard : Bool) (gives : List A) (t : Trace) : Type 0 where
  pub same_status : t.status ≡ status
  pub has_sent : HasSent inputs t.to_fsm_tx
  pub same_view : sent_from f t.to_fsm_tx ≡ gives
  pub still_heard : heard ≡ true → is_some t.from_ws ≡ true

-- The same of a manager, with the commands that it has sent.
abbrev pub Now : {E : Env} → State → List Input → Bool → Manager E → Type 0
Now status inputs heard m =
    Keeps command_of status inputs heard (commands_sent m.to_fsm_tx) (trace m)

pub Keeps-Now :
    {E : Env} {s : State} {xs : List Input} {b : Bool} {cs : List TvCommand} (m : Manager E)
    → Keeps command_of s xs b cs (trace m)
    → Now s xs b m
Keeps-Now m h = record {
  same_status = h.same_status;
  has_sent = h.has_sent;
  same_view = refl;
  still_heard = h.still_heard;
}
