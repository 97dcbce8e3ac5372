-- ===== src/WebSocket/Joining/Flooding.antt =====
-- A handler of src/websocket_client.rs that the manager awaits (`force_manager_reset` of
-- src/lgtv_manager.rs) while the TV sends texts.
use lgtv_manager.Prelude.{
  ℕ, zero, suc, ◌+◌, ◌≤◌, ◌≡◌, refl, sym, ap, ◌∙◌, true, false, none, [], ◌∷◌, ◌++◌, append-nil,
  length, length-append, String, ok, arith,
}
use lgtv_manager.Prelude.Channel.{send}
use lgtv_manager.Manager.Messages.{WsUpdateMessage}
use lgtv_manager.WebSocket.{from_tv, text, SocketTask, socket_step}
use lgtv_manager.WebSocket.Joining.{
  Awaited, works, enters, AwaitReach, here, next, Ended, join_ends_iff,
}

-- The handler of which everything told has entered.
abbrev pub caught_up : SocketTask → Awaited
caught_up t = record { task = t; told_in = t.tx.sent; over = false }

module _ (capacity : ℕ) (p : String) (t : SocketTask) where
  -- The handler after some texts of the TV that the manager did not read.
  record Flooded (n : ℕ) (s : Awaited) : Type 0 where
    reached : AwaitReach capacity (length t.tx.sent) (caught_up t) s
    goes : s.task.running ≡ true
    not_over : s.over ≡ false
    stays : s.task.tx.room ≡ none
    entered : s.task.tx.sent ≡ s.told_in
    unread : length s.told_in ≡ length t.tx.sent + n

  text-step :
      (u : SocketTask)
      → u.running ≡ true
      → u.tx.room ≡ none
      → ((socket_step (from_tv (ok (text p))) u).running ≡ true)
        × ((socket_step (from_tv (ok (text p))) u).tx.room ≡ none)
        × ((socket_step (from_tv (ok (text p))) u).tx.sent
            ≡ u.tx.sent ++ WsUpdateMessage.payload p ∷ [])
  unfolding socket_step send
  text-step u r stays = ground (arith, r, stays)

  reach-Flooded :
      (n : ℕ) → n ≤ capacity → t.running ≡ true → t.tx.room ≡ none → (s : Awaited) × Flooded n s
  reach-Flooded zero h r stays = (
    caught_up t,
    record {
      reached = here;
      goes = r;
      not_over = refl;
      stays = stays;
      entered = refl;
      unread = omega arith;
    },
  )
  reach-Flooded (suc n) h r stays =
      let (s, f) = reach-Flooded n (omega (arith, h)) r stays in
      let (goes, room, more) = text-step s.task f.goes f.stays in
      let told = more ∙ ap (λ us. us ++ WsUpdateMessage.payload p ∷ []) f.entered in
      (
        _,
        record {
          reached =
              next (next f.reached (works (from_tv (ok (text p))) f.goes f.not_over f.entered))
                (enters (WsUpdateMessage.payload p) [] told (omega (arith, f.unread, h)));
          goes = goes;
          not_over = f.not_over;
          stays = room;
          entered = told;
          unread =
              omega (arith, f.unread, length-append s.told_in (WsUpdateMessage.payload p ∷ []));
        },
      )

  -- A TV that sends as many texts as the channel takes, before the manager reads any of them, brings
  -- the handler to where its end, if the manager awaits it then, never comes.
  pub flood_hangs :
      t.running ≡ true
      → t.tx.room ≡ none
      → (s : Awaited) × AwaitReach capacity (length t.tx.sent) (caught_up t) s
        × (s.task.running ≡ true)
        × (length s.task.tx.sent ≡ length t.tx.sent + capacity)
        × ¬ ((u : Awaited) × AwaitReach capacity (length t.tx.sent) s u × Ended u)
  flood_hangs r stays =
      let (s, f) = reach-Flooded capacity (omega arith) r stays in
      let full = ap length f.entered ∙ f.unread in
      let can_end =
        join_ends_iff capacity (length t.tx.sent) s [] f.goes f.not_over f.stays
          (f.entered ∙ sym (append-nil s.told_in)) (omega (arith, f.unread)) in
      (s, f.reached, f.goes, full, λ ended. omega (arith, can_end.0 ended, full))
