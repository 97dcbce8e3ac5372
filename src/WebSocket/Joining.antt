-- ===== src/WebSocket/Joining.antt =====
-- The end of a handler of src/websocket_client.rs that the manager awaits (`ws_join_handle` in
-- `force_manager_reset` of src/lgtv_manager.rs and in `handle_disconnected` of
-- src/lgtv_manager/orchestration.rs), over a channel of a capacity: while it awaits, the manager reads
-- no message of the handler.
pub mod Flooding
use lgtv_manager.Prelude.{
  ℕ, zero, suc, ◌+◌, ◌<◌, ◌≤◌, ◌≡◌, ◌↔◌, refl, sym, ap, ◌∙◌, subst, Bool, true, false, none, some,
  List, [], ◌∷◌, ◌++◌, append-nil, append_assoc, length, length-append, arith,
}
use lgtv_manager.Prelude.Channel.{send}
use lgtv_manager.Manager.Messages.{shut_down, WsUpdateMessage, status, disconnected}
use lgtv_manager.WebSocket.{SocketEvent, from_caller, SocketTask, socket_step, finish}

-- The handler from its loop on. What has entered the channel is a first part of what it told. `over`:
-- it has said that it is disconnected, which is the last thing it does.
pub record Awaited : Type 0 where
  pub task : SocketTask
  pub told_in : List WsUpdateMessage
  pub over : Bool

-- One turn, with the number of messages that the manager has read. A handler that tells something
-- waits for room, and does nothing else meanwhile.
pub data AwaitStep (capacity read : ℕ) (s : Awaited) : Awaited → Type 0 where
  works :
      (e : SocketEvent)
      → s.task.running ≡ true
      → s.over ≡ false
      → s.task.tx.sent ≡ s.told_in
      → AwaitStep capacity read s (record s { task = socket_step e s.task })
  says_goodbye :
      s.task.running ≡ false
      → s.over ≡ false
      → s.task.tx.sent ≡ s.told_in
      → AwaitStep capacity read s (record s { task = finish s.task; over = true })
  enters :
      (u : WsUpdateMessage) (rest : List WsUpdateMessage)
      → s.task.tx.sent ≡ s.told_in ++ u ∷ rest
      → length s.told_in < read + capacity
      → AwaitStep capacity read s (record s { told_in = s.told_in ++ u ∷ [] })

pub data AwaitReach (capacity read : ℕ) (s : Awaited) : Awaited → Type 0 where
  here : AwaitReach capacity read s s
  next :
      {t u : Awaited}
      → AwaitReach capacity read s t
      → AwaitStep capacity read t u
      → AwaitReach capacity read s u

-- The task is over, so that the manager goes on.
abbrev pub Ended : Awaited → Type 0
Ended s = (s.over ≡ true) × (s.task.tx.sent ≡ s.told_in)

room-step : (e : SocketEvent) (t : SocketTask) → t.tx.room ≡ none → (socket_step e t).tx.room ≡ none
unfolding socket_step send
room-step e t r = ground (arith, r)

grows-step :
    (e : SocketEvent) (t : SocketTask)
    → t.tx.room ≡ none
    → length t.tx.sent ≤ length (socket_step e t).tx.sent
unfolding socket_step send
grows-step e t r = grind (arith, length-append)

finish-sent :
    (t : SocketTask)
    → t.tx.room ≡ none
    → t.running ≡ false
    → (finish t).tx.sent ≡ t.tx.sent ++ status disconnected ∷ []
unfolding finish send
finish-sent t r off = ground (arith, r, off)

finish-room : (t : SocketTask) → t.tx.room ≡ none → t.running ≡ false → (finish t).tx.room ≡ none
unfolding finish send
finish-room t r off = ground (arith, r, off)

-- A request to shut down ends the loop with nothing told.
asked : SocketEvent
asked = from_caller (some shut_down) true 0

asked-step :
    (t : SocketTask)
    → t.running ≡ true
    → ((socket_step asked t).running ≡ false) × ((socket_step asked t).tx ≡ t.tx)
unfolding socket_step asked
asked-step t r = ground (arith, r)

abbrev said : Bool → ℕ
said true = 1
said false = 0

module _ (capacity read : ℕ) where
  -- What holds while the manager awaits, with the number of messages told at first.
  record Grows (n : ℕ) (s : Awaited) : Type 0 where
    stays : s.task.tx.room ≡ none
    fits : length s.told_in ≤ read + capacity
    told : n + said s.over ≤ length s.task.tx.sent

  step-Grows : {n : ℕ} {s t : Awaited} → AwaitStep capacity read s t → Grows n s → Grows n t
  step-Grows {s = s} (works e r o same) h = record {
    stays = room-step e s.task h.stays;
    fits = h.fits;
    told = omega (arith, h.told, grows-step e s.task h.stays);
  }
  step-Grows {s = s} (says_goodbye off o same) h =
      let more = finish-sent s.task h.stays off in
      record {
        stays = finish-room s.task h.stays off;
        fits = h.fits;
        told = omega (
          arith,
          h.told,
          ap said o,
          ap length more,
          length-append s.task.tx.sent (status disconnected ∷ []),
        );
      }
  step-Grows {s = s} (enters u rest left room) h = record {
    stays = h.stays;
    fits = omega (arith, room, length-append s.told_in (u ∷ []));
    told = h.told;
  }

  reach-Grows : {n : ℕ} {s t : Awaited} → AwaitReach capacity read s t → Grows n s → Grows n t
  reach-Grows here h = h
  reach-Grows (next r st) h = step-Grows st (reach-Grows r h)

  -- What is left to enter does, where it fits.
  all_enter :
      {s : Awaited} (left : List WsUpdateMessage) (t : Awaited)
      → AwaitReach capacity read s t
      → t.task.tx.sent ≡ t.told_in ++ left
      → length t.task.tx.sent ≤ read + capacity
      → AwaitReach capacity read s (record t { told_in = t.task.tx.sent })
  all_enter {s} [] t r e fits =
      subst (λ us. AwaitReach capacity read s (record t { told_in = us }))
        (sym (e ∙ append-nil t.told_in)) r
  all_enter (u ∷ left) t r e fits =
      all_enter left (record t { told_in = t.told_in ++ u ∷ [] })
        (next r
          (enters u left e (omega (arith, ap length e, length-append t.told_in (u ∷ left), fits))))
        (e ∙ sym (append_assoc t.told_in (u ∷ []) left)) fits

  ends :
      (s : Awaited) (left : List WsUpdateMessage)
      → s.task.running ≡ true
      → s.over ≡ false
      → s.task.tx.room ≡ none
      → s.task.tx.sent ≡ s.told_in ++ left
      → length s.task.tx.sent + 1 ≤ read + capacity
      → (t : Awaited) × AwaitReach capacity read s t × Ended t
  ends s left r o stays e room =
      let entered = all_enter left s here e (omega (arith, room)) in
      let (off, same) = asked-step s.task r in
      let sent = ap (λ tx. tx.sent) same in
      let more =
        finish-sent (socket_step asked s.task) (ap (λ tx. tx.room) same ∙ stays) off
        ∙ ap (λ us. us ++ status disconnected ∷ []) sent in
      (
        _,
        next (next (next entered (works asked r o refl)) (says_goodbye off o sent))
            (enters (status disconnected) [] more (omega (arith, room))),
        (refl, more),
      )

  -- While the manager awaits the handler, whose loop runs and has told it any messages, over a channel
  -- of any capacity: the handler can end exactly if there is room for what the manager has not read
  -- and for one message more. If there is not, the manager awaits it for ever.
  pub join_ends_iff :
      (s : Awaited) (left : List WsUpdateMessage)
      → s.task.running ≡ true
      → s.over ≡ false
      → s.task.tx.room ≡ none
      → s.task.tx.sent ≡ s.told_in ++ left
      → length s.told_in ≤ read + capacity
      → ((t : Awaited) × AwaitReach capacity read s t × Ended t)
        ↔ (length s.task.tx.sent + 1 ≤ read + capacity)
  join_ends_iff s left r o stays e fits = (
    λ (t, reach, (over, same)).
        let h =
          reach-Grows {n = length s.task.tx.sent} reach
            (record { stays = stays; fits = fits; told = omega (arith, ap said o) }) in
        omega (arith, h.told, h.fits, ap said over, ap length same),
    λ room. ends s left r o stays e room,
  )
