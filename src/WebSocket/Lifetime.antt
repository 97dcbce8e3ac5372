-- ===== src/WebSocket/Lifetime.antt =====
-- The statuses that the handler of src/websocket_client.rs sends over its lifetime.
use lgtv_manager.Prelude.{
  ◌≡◌, refl, Bool, true, if◌then◌else◌, Option, none, some, List, [], ◌∷◌, ◌++◌, append-nil,
  append_assoc, String, ok, err, Bool-cases, ◌↔◌, Result-cases, Option-cases, inl, inr, arith,
}
use lgtv_manager.Prelude.Channel.{send, channel}
use lgtv_manager.Manager.Messages.{
  WsStatus, idle, connected, disconnected, connect_error, message_read_error,
  server_closed_connection, WsUpdateMessage, status,
}
use lgtv_manager.WebSocket.{
  close, from_tv, SocketTask, SocketEvent, socket_step, run_loop, finish, open_socket, serve,
  handler,
}
use lgtv_manager.WebSocket.Relaying.{stopped}
use lgtv_manager.WebSocket.Connect.{
  Network, Attempt, opened, io_error, other_error, elapsed, native_tls, plain, refused, connect,
  start,
}
use lgtv_manager.Environment.{Env}

-- The statuses among what was told to the manager.
abbrev pub statuses : List WsUpdateMessage → List WsStatus
statuses [] = []
statuses (status s ∷ us) = s ∷ statuses us
statuses (_ ∷ us) = statuses us

statuses-append : (us vs : List WsUpdateMessage) → statuses (us ++ vs) ≡ statuses us ++ statuses vs
statuses-append [] vs = refl
statuses-append (u ∷ us) vs = ground (arith, statuses-append us vs)

-- The event at which the loop is left, if it is.
abbrev pub left_at : List SocketEvent → SocketTask → Option SocketEvent
left_at [] t = none
left_at (e ∷ es) t = if (socket_step e t).running then left_at es (socket_step e t) else some e

-- What a handler says of the event at which it ends: it speaks of the TV that closed the connection
-- and of one that could not be read, and says nothing where the manager ended it or a write failed.
abbrev pub reason : SocketEvent → List WsStatus
reason (from_tv (ok close)) = server_closed_connection ∷ []
reason (from_tv (err e)) = message_read_error e ∷ []
reason _ = []

-- The last words of a handler, from the event at which its loop is left.
abbrev pub last_words : Option SocketEvent → List WsStatus
last_words none = []
last_words (some e) = reason e ++ disconnected ∷ []

-- A round says something of its event only where it ends the loop.
step-statuses :
    (e : SocketEvent) (t : SocketTask)
    → t.running ≡ true
    → t.tx.room ≡ none
    → (statuses (socket_step e t).tx.sent
        ≡ statuses t.tx.sent ++ (if (socket_step e t).running then [] else reason e))
      × ((socket_step e t).tx.room ≡ none)
unfolding socket_step send
step-statuses e t r o = grind (arith, statuses-append, append-nil)

-- The statuses of the loop and of its end.
loop-statuses :
    (es : List SocketEvent) (t : SocketTask)
    → t.running ≡ true
    → t.tx.room ≡ none
    → statuses (finish (run_loop es t)).tx.sent ≡ statuses t.tx.sent ++ last_words (left_at es t)
unfolding run_loop finish send
loop-statuses [] t r o = ground (arith, r, append-nil (statuses t.tx.sent))
loop-statuses (e ∷ es) t r o =
    let u = socket_step e t in
    let (said, stays) = step-statuses e t r o in
    elim (Bool-cases u.running) [
      | inl on ↦
          ground (arith, on, said, loop-statuses es u on stays, append-nil (statuses t.tx.sent))
      | inr off ↦ ground (
        arith,
        off,
        said,
        stays,
        stopped es u off,
        statuses-append u.tx.sent (status disconnected ∷ []),
        append_assoc (statuses t.tx.sent) (reason e) (disconnected ∷ []),
      )
    ]

-- The task as its loop begins, for a manager that listens.
abbrev pub connected_task : SocketTask
connected_task = open_socket none (send (status idle) (channel none))

-- The statuses of a handler, given its failure to connect, if it fails.
statuses-handler :
    (failure : Option String) (es : List SocketEvent)
    → statuses (handler failure es (channel none)).tx.sent ≡ (elim failure [
      | some e ↦ idle ∷ connect_error e ∷ []
      | none ↦ idle ∷ connected ∷ last_words (left_at es connected_task)
    ])
unfolding handler serve open_socket send
statuses-handler (some e) es = refl
statuses-handler none es = loop-statuses es connected_task refl refl

module _ (E : Env) (net : Network E) where
  -- The library can build a connector, reads the URL and opens a socket to it, over TLS if so asked.
  abbrev pub Opens : String → Bool → Type 0
  Opens host use_tls =
      (url : E.Url) × (E.url_parse host ≡ ok url)
      × (net.tls_connector ≡ none)
      × (net.connect_async url (if use_tls then native_tls else plain) ≡ opened)

  refused-none : (a : Attempt) → refused E net a ≡ none → a ≡ opened
  unfolding refused
  refused-none opened h = refl
  refused-none (io_error e) h = cc
  refused-none (other_error e) h = cc
  refused-none elapsed h = cc

  connect_iff :
      (host : String) (use_tls : Bool) → (connect E net host use_tls ≡ none) ↔ Opens host use_tls
  unfolding connect refused
  connect_iff host use_tls = (
    λ h. elim (Result-cases (E.url_parse host)) [
      | inl (url, parsed) ↦ elim (Option-cases net.tls_connector) [
        | inl built ↦ (url, parsed, built, refused-none _ (rw (parsed, built, connect) at h))
        | inr (e, failed) ↦ ground (arith, parsed, failed, h)
      ]
      | inr (e, failed) ↦ ground (arith, failed, h)
    ],
    λ (url, parsed, built, opens). rw (parsed, built, opens, connect),
  )

  -- The task of a WebSocket handler whose manager listens reports all of its life, once and in
  -- order: idle, then the failure to connect and nothing more; or connected, and, when its loop has
  -- been left, that the TV closed the connection or that it could not be read, exactly where that is
  -- why it left, and disconnected as the last. It connects exactly if the host is a URL, a TLS
  -- connector can be built, whether or not it is needed, and the library opens the socket with the
  -- connector asked for.
  pub statuses-start :
      (host : String) (use_tls : Bool) (es : List SocketEvent)
      → (statuses (start E net host use_tls es (channel none)).tx.sent
          ≡ (elim (connect E net host use_tls) [
            | some e ↦ idle ∷ connect_error e ∷ []
            | none ↦ idle ∷ connected ∷ last_words (left_at es connected_task)
          ]))
        × ((connect E net host use_tls ≡ none) ↔ Opens host use_tls)
  unfolding start
  statuses-start host use_tls es =
      (statuses-handler (connect E net host use_tls) es, connect_iff host use_tls)
