-- ===== src/Manager/Ending.antt =====
-- The end of the manager's loop (`ShutDown` in `run` of src/lgtv_manager.rs) and of the WebSocket
-- handler that it is told to (src/websocket_client.rs).
use lgtv_manager.Prelude.{
  ◌≡◌, refl, sym, ◌∙◌, ap, Bool-cases, inl, inr, Bool, true, false, not, ◌||◌, is_some, Option,
  none, some, List, [], ◌∷◌, ◌++◌, arith,
}
use lgtv_manager.Prelude.Channel.{Channel, send, is_open}
use lgtv_manager.Environment.{Env}
use lgtv_manager.Manager.Messages.{ManagerMessage, WsMessage, shut_down}
use lgtv_manager.Manager.State.{Manager}
use lgtv_manager.Manager.Reset.{send_to_ws}
use lgtv_manager.Manager.Orchestration.Connect.{initiate_disconnect_from_tv}
use lgtv_manager.Manager.Handlers.Caller.{handle_manager_message}
use lgtv_manager.Manager.MainLoop.{Event, from_caller, MainLoop, step, run, handle}
use lgtv_manager.WebSocket.{SocketEvent, SocketTask, socket_step, run_loop}
use lgtv_manager.WebSocket as Socket

abbrev pub is_shut_down : Event → Bool
is_shut_down (from_caller ManagerMessage.shut_down) = true
is_shut_down _ = false

abbrev pub has_shut_down : List Event → Bool
has_shut_down [] = false
has_shut_down (e ∷ es) = is_shut_down e || has_shut_down es

module _ {E : Env} where
  pub step-runs :
      (e : Event) (l : MainLoop E)
      → is_shut_down e ≡ false
      → l.running ≡ true
      → (step e l).running ≡ true
  unfolding step
  step-runs e l h r = grind arith

  pub step-ends :
      (e : Event) (l : MainLoop E)
      → is_shut_down e ≡ true
      → l.running ≡ true
      → (step e l).running ≡ false
  unfolding step
  step-ends e l h r = grind arith

  run-runs :
      (es : List Event) (l : MainLoop E)
      → has_shut_down es ≡ false
      → l.running ≡ true
      → (run es l).running ≡ true
  unfolding run
  run-runs [] l h r = r
  run-runs (e ∷ es) l h r = run-runs es (step e l) (ground arith) (step-runs e l (ground arith) r)

  step-stopped : (e : Event) (l : MainLoop E) → l.running ≡ false → step e l ≡ l
  unfolding step
  step-stopped e l r = ground arith

  run-stopped : (es : List Event) (l : MainLoop E) → l.running ≡ false → run es l ≡ l
  unfolding run
  run-stopped [] l r = refl
  run-stopped (e ∷ es) l r = rw (step-stopped e l r) (run-stopped es l r)

  pub step-shut_down :
      (l : MainLoop E)
      → l.running ≡ true
      → step (from_caller ManagerMessage.shut_down) l ≡ record l {
        manager = initiate_disconnect_from_tv (record l.manager { cancel_token = true });
        running = false;
      }
  unfolding step handle handle_manager_message
  step-shut_down l r = ground (arith, r)

  -- Whether the loop still runs.
  pub run-running :
      (es : List Event) (l : MainLoop E)
      → l.running ≡ true
      → (run es l).running ≡ not (has_shut_down es)
  unfolding run
  run-running [] l r = r
  run-running (e ∷ es) l r = elim (Bool-cases (is_shut_down e)) [
    | inl ends ↦ let off = step-ends e l ends r in rw (run-stopped es (step e l) off) (rw ends off)
    | inr stays ↦ rw stays (run-running es (step e l) (step-runs e l stays r))
  ]

-- What the manager sent to its WebSocket handler.
abbrev pub sent_to_ws : {E : Env} → Manager E → Option (List WsMessage)
sent_to_ws m = elim m.to_ws_tx [ none ↦ none | some tx ↦ some tx.sent ]

-- What a WebSocket handler reads of its manager's messages over some events.
abbrev pub read_messages : List SocketEvent → List WsMessage
read_messages [] = []
read_messages (Socket.from_caller (some message) _ _ ∷ es) = message ∷ read_messages es
read_messages (_ ∷ es) = read_messages es

abbrev is_order : WsMessage → Bool
is_order shut_down = true
is_order _ = false

abbrev has_order : List WsMessage → Bool
has_order [] = false
has_order (m ∷ ms) = is_order m || has_order ms

socket_step-stopped : (e : SocketEvent) (t : SocketTask) → t.running ≡ false → socket_step e t ≡ t
unfolding socket_step
socket_step-stopped e t r = ground (arith, r)

handler-stopped : (es : List SocketEvent) (t : SocketTask) → t.running ≡ false → run_loop es t ≡ t
unfolding run_loop
handler-stopped [] t r = refl
handler-stopped (e ∷ es) t r = rw (socket_step-stopped e t r) (handler-stopped es t r)

order-leaves :
    (e : SocketEvent) (t : SocketTask)
    → has_order (read_messages (e ∷ [])) ≡ true
    → (socket_step e t).running ≡ false
unfolding socket_step
order-leaves e t h = ground arith

read_later :
    (e : SocketEvent) (es : List SocketEvent)
    → has_order (read_messages (e ∷ [])) ≡ false
    → has_order (read_messages (e ∷ es)) ≡ true
    → has_order (read_messages es) ≡ true
read_later e es n h = ground arith

order-ends :
    (es : List SocketEvent) (t : SocketTask)
    → has_order (read_messages es) ≡ true
    → (run_loop es t).running ≡ false
unfolding run_loop
order-ends [] t h = cc
order-ends (e ∷ es) t h = elim (Bool-cases (has_order (read_messages (e ∷ [])))) [
  | inl now ↦
      ap (λ u. u.running) (handler-stopped es (socket_step e t) (order-leaves e t now))
      ∙ order-leaves e t now
  | inr later ↦ order-ends es (socket_step e t) (read_later e es later h)
]

has_order-last : (ms : List WsMessage) → has_order (ms ++ shut_down ∷ []) ≡ true
has_order-last [] = refl
has_order-last (m ∷ ms) = ground (arith, has_order-last ms)

abbrev orders : Option (List WsMessage) → Bool
orders none = false
orders (some ms) = has_order ms

shut_down-sent :
    {E : Env} (m : Manager E) (tx : Channel WsMessage)
    → is_some m.ws_join_handle ≡ true
    → m.to_ws_tx ≡ some tx
    → is_open tx.room ≡ true
    → sent_to_ws (handle_manager_message ManagerMessage.shut_down m)
      ≡ some (tx.sent ++ shut_down ∷ [])
unfolding handle_manager_message initiate_disconnect_from_tv send_to_ws send
shut_down-sent m tx j w o = ground (arith, j, w, o)

-- A request to shut down reaches the WebSocket handler, if there is one to be awaited and it still
-- takes messages: once it has read what the manager sent, whatever else comes before, between or
-- after, its loop has ended, also if no write to the TV succeeds.
pub shut_down-ends_handler :
    {E : Env} (m : Manager E) (to_ws_tx : Channel WsMessage) (es : List SocketEvent)
    (t : SocketTask)
    → is_some m.ws_join_handle ≡ true
    → m.to_ws_tx ≡ some to_ws_tx
    → is_open to_ws_tx.room ≡ true
    → sent_to_ws (handle_manager_message ManagerMessage.shut_down m) ≡ some (read_messages es)
    → (run_loop es t).running ≡ false
shut_down-ends_handler m tx es t j w o read =
    order-ends es t
      (sym (ap orders read) ∙ ap orders (shut_down-sent m tx j w o) ∙ has_order-last tx.sent)
