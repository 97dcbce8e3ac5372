-- ===== src/StateMachine/Paths.antt =====
-- Runs of `transition` (src/state_machine.rs) over lists of inputs, refused inputs included.
use lgtv_manager.Prelude.{
  ◌≡◌, ◌⊎◌, refl, String, true, Option, none, some, List, [], ◌∷◌, ◌++◌, append-nil, append_assoc,
  subst, arith,
}
use lgtv_manager.Prelude.Subseq.{Subseq, done, nil-Subseq, Subseq-more, Subseq-snoc, Subseq-prefix}
use lgtv_manager.StateMachine.{
  State, disconnected, connecting, connected, pairing, initializing, communicating, disconnecting,
  waiting_to_reconnect, zombie, Input, connect, attempt_register, pair, initialize,
  start_communication, send_command, reset, error, disconnect, disconnection_complete,
  initial_state, transition,
}
use lgtv_manager.StateMachine.Diagram.{
  is_drawn, Edge, open_socket, register, fail_connect, prompt, set_up, drop_connected, approve,
  drop_pairing, ready, drop_initializing, command, hang_up, drop_communicating, closed,
  fail_disconnect, clear, transition-iff-Edge, drawn-recovers,
}

-- A refused input leaves the state.
abbrev pub follow : State → Option State → State
follow s none = s
follow s (some t) = t

unfoldable pub run : State → List Input → State
run s [] = s
run s (i ∷ is) = run (follow s (transition s i)) is

-- The inputs without which a state is not reached, in their order.
abbrev pub needed : State → List Input
needed disconnected = []
needed (connecting url) = connect url ∷ []
needed (connected url) = connect url ∷ attempt_register ∷ []
needed (pairing url) = connect url ∷ attempt_register ∷ pair ∷ []
needed (initializing url) = connect url ∷ attempt_register ∷ initialize ∷ []
needed (communicating url) = connect url ∷ attempt_register ∷ initialize ∷ start_communication ∷ []
needed (disconnecting url) = connect url ∷ attempt_register ∷ []
needed (waiting_to_reconnect _) = []
needed zombie = []

needed-Edge :
    {s : State} {i : Input} {t : State} (ys : List Input)
    → Edge s i t
    → Subseq (needed s) ys
    → Subseq (needed t) (ys ++ i ∷ [])
needed-Edge ys (open_socket url) h = Subseq-snoc (connect url) h
needed-Edge ys (register url) h = Subseq-snoc attempt_register h
needed-Edge ys (fail_connect url) h = nil-Subseq (ys ++ error ∷ [])
needed-Edge ys (prompt url) h = Subseq-snoc pair h
needed-Edge ys (set_up url) h = Subseq-snoc initialize h
needed-Edge ys (drop_connected url) h = Subseq-more error h
needed-Edge ys (approve url) h =
    Subseq-snoc initialize (Subseq-prefix (needed (connected url)) (pair ∷ []) h)
needed-Edge ys (drop_pairing url) h =
    Subseq-more error (Subseq-prefix (needed (connected url)) (pair ∷ []) h)
needed-Edge ys (ready url) h = Subseq-snoc start_communication h
needed-Edge ys (drop_initializing url) h =
    Subseq-more error (Subseq-prefix (needed (connected url)) (initialize ∷ []) h)
needed-Edge ys (command url c) h = Subseq-more (send_command c) h
needed-Edge ys (hang_up url) h =
    Subseq-more disconnect
      (Subseq-prefix (needed (connected url)) (initialize ∷ start_communication ∷ []) h)
needed-Edge ys (drop_communicating url) h =
    Subseq-more error
      (Subseq-prefix (needed (connected url)) (initialize ∷ start_communication ∷ []) h)
needed-Edge ys (closed url) h = nil-Subseq (ys ++ disconnection_complete ∷ [])
needed-Edge ys (fail_disconnect url) h = nil-Subseq (ys ++ error ∷ [])
needed-Edge ys (clear s d) h = nil-Subseq (ys ++ reset ∷ [])

needed-follow :
    (s : State) (i : Input) (ys : List Input) (to : Option State)
    → transition s i ≡ to
    → Subseq (needed s) ys
    → Subseq (needed (follow s to)) (ys ++ i ∷ [])
needed-follow s i ys none e h = Subseq-more i h
needed-follow s i ys (some t) e h = needed-Edge ys ((transition-iff-Edge s i t).0 e) h

needed-run :
    (is : List Input) (s : State) (ys : List Input)
    → Subseq (needed s) ys
    → Subseq (needed (run s is)) (ys ++ is)
unfolding run
needed-run [] s ys h = rw append-nil h
needed-run (i ∷ is) s ys h =
    let to = transition s i in
    subst (Subseq (needed (run (follow s to) is))) (append_assoc ys (i ∷ []) is)
      (needed-run is (follow s to) (ys ++ i ∷ []) (needed-follow s i ys to refl h))

-- Whatever inputs arrive from the start, refused ones included, the state that is reached was
-- prepared by its inputs in their order: the manager communicates with a TV only after a connect to
-- its url, the attempt to register, the initialization and the start of communication, pairs with
-- one only after the prompt, and disconnects from one only after it was registered with.
pub run-needed : (is : List Input) → Subseq (needed (run initial_state is)) is
run-needed is = needed-run is initial_state [] done

is_drawn-follow :
    (s : State) (i : Input) → is_drawn s ≡ true → is_drawn (follow s (transition s i)) ≡ true
unfolding transition
is_drawn-follow s i h = ground arith

drawn-run : (is : List Input) (s : State) → is_drawn s ≡ true → is_drawn (run s is) ≡ true
unfolding run
drawn-run [] s h = h
drawn-run (i ∷ is) s h = drawn-run is (follow s (transition s i)) (is_drawn-follow s i h)

-- Whatever inputs came before: the machine is in none of the two states that exist only to be
-- announced, zombie and waiting to reconnect; a reset brings it back to the disconnected state; and so
-- do, unless it is there, one error or two, the first of which begins to close the socket.
run-recovers :
    (is : List Input)
    → (let now = run initial_state is in
        (is_drawn now ≡ true)
        × (transition now reset ≡ some disconnected)
        × ((now ≡ disconnected)
            ⊎ ((transition now error ≡ some disconnected)
                ⊎ ((url : String) × (transition now error ≡ some (disconnecting url))
                    × (transition (disconnecting url) error ≡ some disconnected)))))
run-recovers is =
    let d = drawn-run is initial_state refl in
    let (resets, errs) = drawn-recovers (run initial_state is) d in (d, resets, errs)
