-- ===== src/StateMachine/Diagram.antt =====
-- The diagram that src/state_machine.rs documents in Mermaid form, as a relation, and what
-- `transition` and `output` make of it.
use lgtv_manager.Prelude.{
  ◌≡◌, refl, ◌≢◌, ◌↔◌, ◌⊎◌, inl, inr, none, some, Bool, true, false, String, arith,
}
use lgtv_manager.TvCommand.{TvCommand}
use lgtv_manager.StateMachine.{
  State, disconnected, connecting, connected, pairing, initializing, communicating, disconnecting,
  waiting_to_reconnect, zombie, Input, connect, attempt_register, pair, initialize,
  start_communication, send_command, reset, error, disconnect, disconnection_complete, transition,
  output,
}

-- The states that the diagram draws: all but the two that only the manager announces.
abbrev pub is_drawn : State → Bool
is_drawn (waiting_to_reconnect _) = false
is_drawn zombie = false
is_drawn _ = true

-- An edge of the diagram for each line of the text, and the `Reset` edges, which it leaves out.
pub data Edge : State → Input → State → Type 0 where
  open_socket : (url : String) → Edge disconnected (connect url) (connecting url)
  register : (url : String) → Edge (connecting url) attempt_register (connected url)
  fail_connect : (url : String) → Edge (connecting url) error disconnected
  prompt : (url : String) → Edge (connected url) pair (pairing url)
  set_up : (url : String) → Edge (connected url) initialize (initializing url)
  drop_connected : (url : String) → Edge (connected url) error (disconnecting url)
  approve : (url : String) → Edge (pairing url) initialize (initializing url)
  drop_pairing : (url : String) → Edge (pairing url) error (disconnecting url)
  ready : (url : String) → Edge (initializing url) start_communication (communicating url)
  drop_initializing : (url : String) → Edge (initializing url) error (disconnecting url)
  command :
      (url : String) (c : TvCommand) → Edge (communicating url) (send_command c) (communicating url)
  hang_up : (url : String) → Edge (communicating url) disconnect (disconnecting url)
  drop_communicating : (url : String) → Edge (communicating url) error (disconnecting url)
  closed : (url : String) → Edge (disconnecting url) disconnection_complete disconnected
  fail_disconnect : (url : String) → Edge (disconnecting url) error disconnected
  clear : (s : State) → is_drawn s ≡ true → Edge s reset disconnected

ruleset edges = (
  open_socket, register, fail_connect, prompt, set_up, drop_connected, approve, drop_pairing, ready,
  drop_initializing, command, hang_up, drop_communicating, closed, fail_disconnect, clear,
)

Edge-of_transition : (s : State) (i : Input) {t : State} → transition s i ≡ some t → Edge s i t
unfolding transition
Edge-of_transition s i h = grind (arith, edges)

reset_of_drawn : (s : State) → is_drawn s ≡ true → transition s reset ≡ some disconnected
unfolding transition
reset_of_drawn s h = ground arith

transition-of_Edge : {s : State} {i : Input} {t : State} → Edge s i t → transition s i ≡ some t
unfolding transition
transition-of_Edge (open_socket _) = refl
transition-of_Edge (register _) = refl
transition-of_Edge (fail_connect _) = refl
transition-of_Edge (prompt _) = refl
transition-of_Edge (set_up _) = refl
transition-of_Edge (drop_connected _) = refl
transition-of_Edge (approve _) = refl
transition-of_Edge (drop_pairing _) = refl
transition-of_Edge (ready _) = refl
transition-of_Edge (drop_initializing _) = refl
transition-of_Edge (command _ _) = refl
transition-of_Edge (hang_up _) = refl
transition-of_Edge (drop_communicating _) = refl
transition-of_Edge (closed _) = refl
transition-of_Edge (fail_disconnect _) = refl
transition-of_Edge (clear s h) = reset_of_drawn s h

-- The code moves from s to t on input i exactly when the diagram has that edge, where the diagram is
-- the documented one with a reset edge to the disconnected state from every state that it draws.
pub transition-iff-Edge :
    (s : State) (i : Input) (t : State) → (transition s i ≡ some t) ↔ Edge s i t
transition-iff-Edge s i t = (λ h. Edge-of_transition s i h, λ e. transition-of_Edge e)

-- An input has an output only where it has a transition, and a transition has no output exactly when
-- its input is a reset or the start of communication.
output_silent :
    (s : State) (i : Input)
    → (output s i ≢ none → transition s i ≢ none)
      × (transition s i ≢ none → ((output s i ≡ none) ↔ ((i ≡ reset) ⊎ (i ≡ start_communication))))
unfolding transition output
output_silent s i = ground arith

-- Every state that the diagram draws is taken back to the disconnected state by a reset and, but for
-- that state itself, by one error or by two, the first of which begins to close the socket.
pub drawn-recovers :
    (s : State)
    → is_drawn s ≡ true
    → (transition s reset ≡ some disconnected)
      × ((s ≡ disconnected)
          ⊎ ((transition s error ≡ some disconnected)
              ⊎ ((url : String) × (transition s error ≡ some (disconnecting url))
                  × (transition (disconnecting url) error ≡ some disconnected))))
unfolding transition
drawn-recovers disconnected d = (refl, inl refl)
drawn-recovers (connecting url) d = (refl, inr (inl refl))
drawn-recovers (disconnecting url) d = (refl, inr (inl refl))
drawn-recovers (waiting_to_reconnect _) d = cc
drawn-recovers zombie d = cc
drawn-recovers (connected url) d = (refl, inr (inr (url, refl, refl)))
drawn-recovers (pairing url) d = (refl, inr (inr (url, refl, refl)))
drawn-recovers (initializing url) d = (refl, inr (inr (url, refl, refl)))
drawn-recovers (communicating url) d = (refl, inr (inr (url, refl, refl)))
