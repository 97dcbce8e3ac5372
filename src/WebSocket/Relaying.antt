-- ===== src/WebSocket/Relaying.antt =====
-- What the handler of src/websocket_client.rs passes on from the manager to the TV and back.
use lgtv_manager.Prelude.{
  ◌≡◌, ◌⊎◌, inl, inr, refl, sym, ◌∙◌, subst, Bool, Bool-cases, true, false, none, some, List, [],
  ◌∷◌, ◌++◌, append-nil, append_assoc, String, ok, err, arith,
}
use lgtv_manager.Prelude.Channel.{Channel, send, is_open}
use lgtv_manager.Manager.Messages.{WsMessage, WsUpdateMessage}
use lgtv_manager.WebSocket.{
  Message, text, ping, pong, close, other, SocketEvent, from_caller, from_tv, tick, SocketTask,
  socket_step, run_loop,
}

-- The texts among what was written to the socket.
abbrev pub texts : List Message → List String
texts [] = []
texts (text p ∷ ms) = p ∷ texts ms
texts (_ ∷ ms) = texts ms

-- The payloads among what was told to the manager.
abbrev pub payloads : List WsUpdateMessage → List String
payloads [] = []
payloads (WsUpdateMessage.payload p ∷ us) = p ∷ payloads us
payloads (_ ∷ us) = payloads us

-- The payload that an event brings from the manager.
abbrev pub ordered : SocketEvent → List String
ordered (from_caller (some (WsMessage.payload p)) writes now) = p ∷ []
ordered _ = []

-- The text that an event brings from the TV.
abbrev pub read : SocketEvent → List String
read (from_tv (ok (text p))) = p ∷ []
read _ = []

abbrev pub all_of : (SocketEvent → List String) → List SocketEvent → List String
all_of brings [] = []
all_of brings (e ∷ es) = brings e ++ all_of brings es

-- The first ones of the given texts have come to what was passed on before, in their order, and all
-- of them if the task still runs.
abbrev pub Passes : Bool → List String → List String → List String → Type 0
Passes running before given after =
    (passed : List String) × (left : List String) × (after ≡ before ++ passed)
    × (given ≡ passed ++ left)
    × ((running ≡ false) ⊎ (left ≡ []))

Passes-trans :
    {b : Bool} (xs ys zs given more : List String)
    → Passes true xs given ys
    → Passes b ys more zs
    → Passes b xs (given ++ more) zs
Passes-trans xs ys zs given more (ps, left, e, g, inl stopped) k = cc
Passes-trans xs ys zs given more (ps, left, e, g, inr all) (qs, rest, f, h, ends) = (
  ps ++ qs,
  rest,
  ground (arith, e, f, append_assoc xs ps qs),
  ground (arith, g, h, all, append-nil ps, append_assoc ps qs rest),
  ends,
)

Passes-stop :
    (xs ys given more : List String) → Passes false xs given ys → Passes false xs (given ++ more) ys
Passes-stop xs ys given more (ps, left, e, g, ends) =
    (ps, left ++ more, e, ground (arith, g, append_assoc ps left more), inl refl)

Passes-none : {b : Bool} (xs ys : List String) → ys ≡ xs → Passes b xs [] ys
Passes-none xs ys same = ([], [], same ∙ sym (append-nil xs), refl, inr refl)

texts-append : (ms ns : List Message) → texts (ms ++ ns) ≡ texts ms ++ texts ns
texts-append [] ns = refl
texts-append (m ∷ ms) ns = ground (arith, texts-append ms ns)

payloads-append : (us vs : List WsUpdateMessage) → payloads (us ++ vs) ≡ payloads us ++ payloads vs
payloads-append [] vs = refl
payloads-append (u ∷ us) vs = ground (arith, payloads-append us vs)

pub written_same :
    (e : SocketEvent) (t : SocketTask)
    → ordered e ≡ []
    → texts (socket_step e t).written ≡ texts t.written
unfolding socket_step
written_same e t o = ground (
  arith,
  o,
  texts-append t.written (ping ∷ []),
  texts-append t.written (close ∷ []),
  append-nil (texts t.written),
)

quiet_send :
    (u : WsUpdateMessage) (tx : Channel WsUpdateMessage)
    → payloads (u ∷ []) ≡ []
    → payloads (send u tx).sent ≡ payloads tx.sent
unfolding send
quiet_send u tx q =
    ground (arith, q, payloads-append tx.sent (u ∷ []), append-nil (payloads tx.sent))

told_same :
    (e : SocketEvent) (t : SocketTask)
    → read e ≡ []
    → payloads (socket_step e t).tx.sent ≡ payloads t.tx.sent
unfolding socket_step
told_same e t o = grind (arith, o, quiet_send)

written-Passes :
    (e : SocketEvent) (t : SocketTask)
    → t.running ≡ true
    → Passes
        (socket_step e t).running
        (texts t.written)
        (ordered e)
        (texts (socket_step e t).written)
unfolding socket_step
written-Passes (from_caller (some (WsMessage.payload p)) true now) t r =
    (p ∷ [], [], ground (arith, r, texts-append t.written (text p ∷ [])), refl, inr refl)
written-Passes (from_caller (some (WsMessage.payload p)) false now) t r =
    ([], p ∷ [], ground (arith, r, append-nil (texts t.written)), refl, inl (ground (arith, r)))
written-Passes (from_caller (some WsMessage.shut_down) w now) t r =
    Passes-none _ _ (written_same (from_caller (some WsMessage.shut_down) w now) t refl)
written-Passes (from_caller (some WsMessage.test_connection) w now) t r =
    Passes-none _ _ (written_same (from_caller (some WsMessage.test_connection) w now) t refl)
written-Passes (from_caller none w now) t r =
    Passes-none _ _ (written_same (from_caller none w now) t refl)
written-Passes (from_tv m) t r = Passes-none _ _ (written_same (from_tv m) t refl)
written-Passes (tick now) t r = Passes-none _ _ (written_same (tick now) t refl)

told-Passes :
    (e : SocketEvent) (t : SocketTask)
    → t.running ≡ true
    → Passes
        (socket_step e t).running
        (payloads t.tx.sent)
        (read e)
        (payloads (socket_step e t).tx.sent)
unfolding socket_step send
told-Passes (from_tv (ok (text p))) t r = elim (Bool-cases (is_open t.tx.room)) [
  | inl open_room ↦ (
    p ∷ [],
    [],
    ground (arith, r, open_room, payloads-append t.tx.sent (WsUpdateMessage.payload p ∷ [])),
    refl,
    inr refl,
  )
  | inr gone ↦ (
    [],
    p ∷ [],
    ground (arith, r, gone, append-nil (payloads t.tx.sent)),
    refl,
    inl (ground (arith, r, gone)),
  )
]
told-Passes (from_tv (ok ping)) t r = Passes-none _ _ (told_same (from_tv (ok ping)) t refl)
told-Passes (from_tv (ok pong)) t r = Passes-none _ _ (told_same (from_tv (ok pong)) t refl)
told-Passes (from_tv (ok close)) t r = Passes-none _ _ (told_same (from_tv (ok close)) t refl)
told-Passes (from_tv (ok other)) t r = Passes-none _ _ (told_same (from_tv (ok other)) t refl)
told-Passes (from_tv (err e)) t r = Passes-none _ _ (told_same (from_tv (err e)) t refl)
told-Passes (from_caller m w now) t r = Passes-none _ _ (told_same (from_caller m w now) t refl)
told-Passes (tick now) t r = Passes-none _ _ (told_same (tick now) t refl)

pub stopped : (es : List SocketEvent) (t : SocketTask) → t.running ≡ false → run_loop es t ≡ t
unfolding run_loop socket_step
stopped [] t off = refl
stopped (e ∷ es) t off = ground (arith, off, stopped es t off)

module _ (view : SocketTask → List String) (brings : SocketEvent → List String)
    (one : (e : SocketEvent) (t : SocketTask)
      → t.running ≡ true
      → Passes (socket_step e t).running (view t) (brings e) (view (socket_step e t))) where
  -- What each round passes on, the loop does.
  run-Passes :
      (es : List SocketEvent) (t : SocketTask)
      → t.running ≡ true
      → Passes (run_loop es t).running (view t) (all_of brings es) (view (run_loop es t))
  unfolding run_loop
  run-Passes [] t r = Passes-none _ _ refl
  run-Passes (e ∷ es) t r =
      let u = socket_step e t in
      elim (Bool-cases u.running) [
        | inl on ↦
            Passes-trans (view t) (view u) (view (run_loop es u)) (brings e) (all_of brings es)
              (subst (λ b. Passes b (view t) (brings e) (view u)) on (one e t r))
              (run-Passes es u on)
        | inr off ↦
            subst (λ v. Passes v.running (view t) (brings e ++ all_of brings es) (view v))
              (sym (stopped es u off))
              (subst (λ b. Passes b (view t) (brings e ++ all_of brings es) (view u)) (sym off)
                (Passes-stop (view t) (view u) (brings e) (all_of brings es)
                  (subst (λ b. Passes b (view t) (brings e) (view u)) off (one e t r))))
      ]

-- Whatever happens while the handler serves a socket, in any order: the texts that it writes to the
-- TV are the payloads that the manager sends, and the payloads that it tells the manager are the
-- texts that the TV sends, each in their order and from the first on, and as long as the handler's
-- loop runs none is left out.
pub relays :
    (es : List SocketEvent) (t : SocketTask)
    → t.running ≡ true
    → let after = run_loop es t in
      Passes after.running (texts t.written) (all_of ordered es) (texts after.written)
      × Passes after.running (payloads t.tx.sent) (all_of read es) (payloads after.tx.sent)
relays es t r = (
  run-Passes (λ t. texts t.written) ordered written-Passes es t r,
  run-Passes (λ t. payloads t.tx.sent) read told-Passes es t r,
)
