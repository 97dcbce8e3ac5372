-- ===== src/WebSocket/Testing.antt =====
-- The connection test of the handler of src/websocket_client.rs.
use lgtv_manager.Prelude.{
  ℕ, ◌+◌, ◌<◌, ◌≡◌, refl, sym, ◌∙◌, ap, Bool, true, false, Bool-cases, inl, inr, if◌then◌else◌, ltb,
  none, some, List, [], ◌∷◌, ◌++◌, append-nil, append_assoc, ok, arith,
}
use lgtv_manager.Prelude.Channel.{send}
use lgtv_manager.Manager.Messages.{test_connection, WsUpdateMessage, is_connection_ok}
use lgtv_manager.WebSocket.Relaying.{stopped}
use lgtv_manager.WebSocket.{
  Message, ping, SocketEvent, SocketTask, from_caller, from_tv, tick, pong, socket_step, run_loop,
  test_connection_duration,
}

-- A test that is answered in time: the pong ends it with one report that the connection is well, and
-- a tick before the pong, no later than the test's duration, reports nothing.
answered_test :
    (start now : ℕ) (t : SocketTask)
    → t.running ≡ true
    → t.connection_test_start ≡ none
    → t.tx.room ≡ none
    → start < now
    → now < start + test_connection_duration
    → let after =
        run_loop
          (from_caller (some test_connection) true start ∷ tick now ∷ from_tv (ok pong) ∷ [])
          t in
      (after.tx.sent ≡ t.tx.sent ++ is_connection_ok true ∷ [])
      × (after.connection_test_start ≡ none)
      × (after.running ≡ true)
unfolding run_loop socket_step send
answered_test start now t r n o a b = ground arith

-- The reports on the connection among what was told to the manager.
abbrev pub verdicts : List WsUpdateMessage → List Bool
verdicts [] = []
verdicts (is_connection_ok b ∷ us) = b ∷ verdicts us
verdicts (_ ∷ us) = verdicts us

verdicts-append : (us vs : List WsUpdateMessage) → verdicts (us ++ vs) ≡ verdicts us ++ verdicts vs
verdicts-append [] vs = refl
verdicts-append (u ∷ us) vs = ground (arith, verdicts-append us vs)

-- The pings among what was written to the TV.
abbrev pub pings : List Message → ℕ
pings [] = 0
pings (ping ∷ ms) = 1 + pings ms
pings (_ ∷ ms) = pings ms

pings-append : (ms ns : List Message) → pings (ms ++ ns) ≡ pings ms + pings ns
pings-append [] ns = omega arith
pings-append (m ∷ ms) ns = ground (arith, pings-append ms ns)

abbrev pub has_pong : List SocketEvent → Bool
has_pong [] = false
has_pong (from_tv (ok pong) ∷ es) = true
has_pong (_ ∷ es) = has_pong es

-- A failure for each tick that comes after the test's duration.
abbrev pub late : ℕ → SocketEvent → List Bool
late start (tick now) = if ltb (start + test_connection_duration) now then false ∷ [] else []
late start _ = []

abbrev pub all_late : ℕ → List SocketEvent → List Bool
all_late start [] = []
all_late start (e ∷ es) = late start e ++ all_late start es

-- A test is under way, and the manager listens.
record Testing (start : ℕ) (t : SocketTask) : Type 0 where
  pub stays : t.tx.room ≡ none
  pub tests : t.connection_test_start ≡ some start

-- What one event does to a test under way.
unanswered-step :
    (start : ℕ) (e : SocketEvent) (t : SocketTask)
    → Testing start t
    → has_pong (e ∷ []) ≡ false
    → (socket_step e t).running ≡ true
    → Testing start (socket_step e t)
      × (verdicts (socket_step e t).tx.sent ≡ verdicts t.tx.sent ++ late start e)
      × (pings (socket_step e t).written ≡ pings t.written)
unfolding socket_step send
unanswered-step start (tick now) t h n on = (
  record { stays = ground (arith, h.stays, h.tests, on); tests = ground (arith, h.tests, on) },
  ground (
    arith,
    h.stays,
    h.tests,
    on,
    verdicts-append t.tx.sent (is_connection_ok false ∷ []),
    append-nil (verdicts t.tx.sent),
  ),
  ground (arith, h.tests, on),
)
unanswered-step start e t h n on = (
  record {
    stays = ground (arith, h.stays, h.tests, on, n);
    tests = ground (arith, h.tests, on, n);
  },
  grind (arith, h.stays, h.tests, on, n, verdicts-append, append-nil (verdicts t.tx.sent)),
  grind (arith, h.stays, h.tests, on, n, pings-append),
)

-- While a test is not answered, whatever else happens and in whatever order, as long as the handler's
-- loop runs and the manager listens: each tick that comes after the test's duration, also a second
-- or third one, reports once more that the connection is broken, nothing else is reported of it, the
-- test stays under way since it began, and no new one begins.
pub unanswered_test :
    (start : ℕ) (es : List SocketEvent) (t : SocketTask)
    → t.connection_test_start ≡ some start
    → t.tx.room ≡ none
    → has_pong es ≡ false
    → (run_loop es t).running ≡ true
    → let after = run_loop es t in
      (verdicts after.tx.sent ≡ verdicts t.tx.sent ++ all_late start es)
      × (after.connection_test_start ≡ some start)
      × (pings after.written ≡ pings t.written)
unfolding run_loop
unanswered_test start [] t tests stays n on = (sym (append-nil (verdicts t.tx.sent)), tests, refl)
unanswered_test start (e ∷ es) t tests stays n on =
    let u = socket_step e t in
    elim (Bool-cases u.running) [
      | inl still ↦
          let (h, told, written) =
            unanswered-step start e t (record { stays = stays; tests = tests }) (ground (arith, n))
              still in
          let (more, same, no_more) =
            unanswered_test start es u h.tests h.stays (ground (arith, n)) on in
          (
            more
                ∙ ground (
                  arith,
                  told,
                  append_assoc (verdicts t.tx.sent) (late start e) (all_late start es),
                ),
            same,
            no_more ∙ written,
          )
      | inr off ↦ cc (ap (λ v. v.running) (stopped es u off), off, on)
    ]
