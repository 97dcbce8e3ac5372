-- ===== src/System/Registering/Wire.antt =====
-- The texts that a TV is written (src/websocket_client.rs) by a handler of the manager
-- (src/lgtv_manager.rs).
use lgtv_manager.Prelude.{
  ℕ, ◌≡◌, refl, ap, ◌∙◌, sym, subst, Bool, Bool-cases, inl, inr, false, Option, none, some, List,
  [], ◌∷◌, ◌++◌, String, arith,
}
use lgtv_manager.Prelude.Channel.{Channel}
use lgtv_manager.Environment.{Env}
use lgtv_manager.StateMachine.Task.{RustFsm, IsRustFsm}
use lgtv_manager.Manager.Messages.{WsMessage, payload, shut_down}
use lgtv_manager.Manager.Ending.{read_messages}
use lgtv_manager.Manager.Registering.{first_order, IsRegister, IsRequest, Proper, EachOrder}
use lgtv_manager.WebSocket.{
  SocketEvent, from_caller, from_tv, tick, SocketTask, socket_step, run_loop,
}
use lgtv_manager.WebSocket.Relaying.{texts, ordered, all_of, written_same, stopped, relays}
use lgtv_manager.System.{System, started, Reach}
use lgtv_manager.System.Registering.{registers_first}

ended :
    (w : Bool) (now : ℕ) (t : SocketTask)
    → (socket_step (from_caller (some shut_down) w now) t).running ≡ false
unfolding socket_step
ended w now t = ground arith

module _ (E : Env) (p : String) (ps : List String) where
  -- The payload that a handler reads before any other order is the first text that it writes.
  payload-first :
      (q : String) (w : Bool) (now : ℕ) (es : List SocketEvent) (t : SocketTask)
      → texts t.written ≡ []
      → texts (run_loop (from_caller (some (payload q)) w now ∷ es) t).written ≡ p ∷ ps
      → q ≡ p
  payload-first q w now es t empty has =
      let all = from_caller (some (payload q)) w now ∷ es in
      elim (Bool-cases t.running) [
        | inl on ↦
            let (passed, left, after, given, _) = (relays all t on).0 in
            ground (arith, after, given, has, empty)
        | inr off ↦ cc (ap (λ u. texts u.written) (stopped all t off), empty, has)
      ]

  -- So is the first text written a register request, if the first order read is a proper one.
  first_written :
      (es : List SocketEvent) (t : SocketTask)
      → Proper E (first_order (read_messages es))
      → texts t.written ≡ []
      → texts (run_loop es t).written ≡ p ∷ ps
      → IsRegister E p
  unfolding run_loop
  first_written [] t h empty has = cc (empty, has)
  first_written (from_caller (some (payload q)) w now ∷ es) t h empty has =
      subst (IsRegister E) (payload-first q w now es t empty has) h
  first_written (from_caller (some shut_down) w now ∷ es) t h empty has =
      let e = from_caller (some shut_down) w now in
      cc (
        ap (λ u. texts u.written) (stopped es (socket_step e t) (ended w now t)),
        written_same e t refl,
        empty,
        has,
      )
  first_written (from_caller (some WsMessage.test_connection) w now ∷ es) t h empty has =
      let e = from_caller (some WsMessage.test_connection) w now in
      first_written es (socket_step e t) h (written_same e t refl ∙ empty) has
  first_written (from_caller none w now ∷ es) t h empty has =
      let e = from_caller none w now in
      first_written es (socket_step e t) h (written_same e t refl ∙ empty) has
  first_written (from_tv m ∷ es) t h empty has =
      first_written es (socket_step (from_tv m) t) h (written_same (from_tv m) t refl ∙ empty) has
  first_written (tick now ∷ es) t h empty has =
      first_written es (socket_step (tick now) t) h (written_same (tick now) t refl ∙ empty) has

first_order-part :
    (E : Env) (ms rest : List WsMessage)
    → Proper E (first_order (ms ++ rest))
    → Proper E (first_order ms)
first_order-part E [] rest h = tt
first_order-part E (WsMessage.test_connection ∷ ms) rest h = first_order-part E ms rest h
first_order-part E (payload q ∷ ms) rest h = h
first_order-part E (shut_down ∷ ms) rest h = h

abbrev pub EachRequest : (E : Env) → List String → Type 0
EachRequest E [] = Unit {0}
EachRequest E (p ∷ ps) = IsRequest E p × EachRequest E ps

EachRequest-part : (E : Env) (ps qs : List String) → EachRequest E (ps ++ qs) → EachRequest E ps
EachRequest-part E [] qs h = tt
EachRequest-part E (p ∷ ps) qs h = (h.0, EachRequest-part E ps qs h.1)

-- The payloads that a handler reads are requests if what it is sent are.
ordered-EachRequest :
    (E : Env) (es : List SocketEvent) (rest : List WsMessage)
    → EachOrder E (read_messages es ++ rest)
    → EachRequest E (all_of ordered es)
ordered-EachRequest E [] rest h = tt
ordered-EachRequest E (from_caller (some (payload q)) w now ∷ es) rest h =
    (h.0, ordered-EachRequest E es rest h.1)
ordered-EachRequest E (from_caller (some shut_down) w now ∷ es) rest h =
    ordered-EachRequest E es rest h.1
ordered-EachRequest E (from_caller (some WsMessage.test_connection) w now ∷ es) rest h =
    ordered-EachRequest E es rest h.1
ordered-EachRequest E (from_caller none w now ∷ es) rest h = ordered-EachRequest E es rest h
ordered-EachRequest E (from_tv m ∷ es) rest h = ordered-EachRequest E es rest h
ordered-EachRequest E (tick now ∷ es) rest h = ordered-EachRequest E es rest h

-- So are the texts that it writes.
written-EachRequest :
    (E : Env) (p : String) (ps : List String) (es : List SocketEvent) (t : SocketTask)
    → texts t.written ≡ []
    → texts (run_loop es t).written ≡ p ∷ ps
    → EachRequest E (all_of ordered es)
    → EachRequest E ps
written-EachRequest E p ps es t empty has h = elim (Bool-cases t.running) [
  | inl on ↦
      let (passed, left, after, given, _) = (relays es t on).0 in
      let same : p ∷ ps ≡ passed = ground (arith, after, has, empty) in
      (subst (EachRequest E) (sym same)
        (EachRequest-part E passed left (subst (EachRequest E) given h))).1
  | inr off ↦ cc (ap (λ u. texts u.written) (stopped es t off), empty, has)
]

-- Whatever the caller, the TV, the network and the clock do, in whatever order the manager, its state
-- machine and the handler of the WebSocket take their turns, and however much the handler has read of
-- what the manager sent: the first text that the TV is written over the connection is a register
-- request of the program, and every later one is such a request or the request of a command.
pub registers_on_wire :
    {E : Env} (lib : RustFsm) (law : IsRustFsm lib) (out_room : Option ℕ) (disk : E.Disk)
    (checker : Bool) {s : System E} (tx : Channel WsMessage) (es : List SocketEvent)
    (t : SocketTask) (rest : List WsMessage) (p : String) (ps : List String)
    → Reach lib (started E out_room disk checker) s
    → s.loop.manager.to_ws_tx ≡ some tx
    → tx.sent ≡ read_messages es ++ rest
    → texts t.written ≡ []
    → texts (run_loop es t).written ≡ p ∷ ps
    → IsRegister E p × EachRequest E ps
registers_on_wire {E} lib law out_room disk checker tx es t rest p ps r e read empty has =
    let (first, _, each) = registers_first lib law out_room disk checker tx r e in
    (
      first_written E p ps es t
          (first_order-part E (read_messages es) rest
            (subst (λ ms. Proper E (first_order ms)) read first))
          empty has,
      written-EachRequest E p ps es t empty has
          (ordered-EachRequest E es rest (subst (EachOrder E) read each)),
    )
