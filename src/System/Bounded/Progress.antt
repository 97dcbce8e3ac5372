-- ===== src/System/Bounded/Progress.antt =====
-- When the manager (src/lgtv_manager.rs) and its state machine (src/state_machine.rs) wait for each
-- other.
use lgtv_manager.Prelude.{
  ℕ, Option, ◌<◌, ◌≡◌, refl, ap, ◌∙◌, ◌⊎◌, inl, inr, Bool, Bool-cases, true, false, [], arith,
}
use lgtv_manager.Manager.Ending.{step-shut_down}
use lgtv_manager.Environment.{Env}
use lgtv_manager.System.{inputs}
use lgtv_manager.StateMachine.Task.{RustFsm, IsRustFsm}
use lgtv_manager.System.Bounded.{
  Bounded, inputs_sent, updates_sent, ManagerWaits, BoundedStep, takes, asks_end, ends,
  input_enters, update_enters, machine_reads, manager_reads, opened, BoundedReach, here, next,
}
use lgtv_manager.System.Bounded.Refines.{Holds, erased}
use lgtv_manager.System.Bounded.Rooms.{Chokes, Sending, sending, unread, unread-Chokes, not-done}

module _ {E : Env} where
  -- Everything that was sent has entered and was read, and no end is awaited: the next turn is the
  -- caller's, the TV's, the network's or the clock's.
  abbrev pub Rests : Bounded E → Type 0
  Rests s =
      (s.closing ≡ false)
      × (inputs_sent s ≡ s.system.inputs_read)
      × (updates_sent s ≡ s.system.updates_read)

  -- Each task waits for room in the channel that the other one reads.
  abbrev pub Blocks : ℕ → Bounded E → Type 0
  Blocks capacity s =
      (s.closing ≡ false)
      × Chokes capacity s.system.inputs_read s.inputs_in (inputs_sent s)
      × Chokes capacity s.system.updates_read s.updates_in (updates_sent s)

  -- The manager awaits the end of a task that waits for room.
  abbrev pub Hangs : ℕ → Bounded E → Type 0
  Hangs capacity s =
      (s.closing ≡ true)
      × ManagerWaits s
      × Chokes capacity s.system.updates_read s.updates_in (updates_sent s)

  -- A turn that needs nothing from outside.
  abbrev pub is_inner :
      {lib : RustFsm} {capacity : ℕ} {s t : Bounded E} → BoundedStep lib capacity s t → Bool
  is_inner (takes _ _ _ _ _ _) = false
  is_inner (asks_end _ _ _) = false
  is_inner _ = true

  abbrev pub Moves : RustFsm → ℕ → Bounded E → Type 0
  Moves lib capacity s =
      (t : Bounded E) × (st : BoundedStep lib capacity s t) × (is_inner st ≡ true)

module _ {E : Env} (lib : RustFsm) (capacity : ℕ) where
  -- While the manager awaits an end, it has nothing left to send.
  step-waits :
      {s t : Bounded E}
      → BoundedStep lib capacity s t
      → (s.closing ≡ true → s.system.loop.running ≡ true → ManagerWaits s)
      → t.closing ≡ true
      → t.system.loop.running ≡ true
      → ManagerWaits t
  step-waits (takes e o n r c w) h d q = cc
  step-waits (asks_end r c w) h d q = w
  step-waits {s} (ends r c w) h d q = cc (ap (λ l. l.running) (step-shut_down s.system.loop r), q)
  step-waits {s} (input_enters x rest e room) h d q =
      absurd (not-done x s.inputs_in (inputs_sent s) rest e (h d q))
  step-waits (update_enters u rest e room) h d q = h d q
  step-waits (machine_reads x rest r w e) h d q = h d q
  step-waits (manager_reads u ticks rest r c w e) h d q = cc

  reached-waits :
      {a s : Bounded E}
      → BoundedReach lib capacity a s
      → a.closing ≡ false
      → s.closing ≡ true
      → s.system.loop.running ≡ true
      → ManagerWaits s
  reached-waits here o d q = cc
  reached-waits (next r st) o d q = step-waits st (reached-waits r o) d q

  -- What a closing manager, and one that is not, can come to.
  Turn : Bounded E → Type 0
  Turn s = Rests s ⊎ (Moves lib capacity s ⊎ (Blocks capacity s ⊎ Hangs capacity s))

  closing-Turn :
      (s : Bounded E)
      → s.system.loop.running ≡ true
      → s.closing ≡ true
      → ManagerWaits s
      → Sending capacity s.system.updates_read s.updates_in (updates_sent s)
      → Turn s
  unfolding Turn
  closing-Turn s r c w (inl idle) = inr (inl (_, ends r c idle, refl))
  closing-Turn s r c w (inr (inl (u, left, e, room))) =
      inr (inl (_, update_enters u left e room, refl))
  closing-Turn s r c w (inr (inr chokes)) = inr (inr (inr (c, w, chokes)))

  -- The manager is at its `select!`.
  waiting-Turn :
      (s : Bounded E)
      → 0 < capacity
      → s.system.loop.running ≡ true
      → s.closing ≡ false
      → ManagerWaits s
      → Holds capacity s.system.inputs_read s.inputs_in
      → Holds capacity s.system.updates_read s.updates_in
      → Sending capacity s.system.updates_read s.updates_in (updates_sent s)
      → Turn s
  unfolding Turn
  waiting-Turn s z r c w hi hu (inl idle) = elim (unread s.system.inputs_read s.inputs_in hi) [
    | inr (i, rest, e) ↦ inr (inl (_, machine_reads i rest r idle e, refl))
    | inl no_input ↦ elim (unread s.system.updates_read s.updates_in hu) [
      | inr (u, rest, e) ↦ inr (inl (_, manager_reads u [] rest r c w e, refl))
      | inl no_update ↦ inl (c, w ∙ no_input, idle ∙ no_update)
    ]
  ]
  waiting-Turn s z r c w hi hu (inr (inl (u, left, e, room))) =
      inr (inl (_, update_enters u left e room, refl))
  waiting-Turn s z r c w hi hu (inr (inr chokes)) =
      let (u, rest, e) =
        unread-Chokes s.system.updates_read s.updates_in (updates_sent s) z hu chokes in
      inr (inl (_, manager_reads u [] rest r c w e, refl))

  -- It has more to send.
  Sending-Turn :
      (s : Bounded E)
      → 0 < capacity
      → s.system.loop.running ≡ true
      → s.closing ≡ false
      → Holds capacity s.system.inputs_read s.inputs_in
      → Chokes capacity s.system.inputs_read s.inputs_in (inputs_sent s)
      → Sending capacity s.system.updates_read s.updates_in (updates_sent s)
      → Turn s
  unfolding Turn
  Sending-Turn s z r c hi chokes (inl idle) =
      let (i, rest, e) =
        unread-Chokes s.system.inputs_read s.inputs_in (inputs_sent s) z hi chokes in
      inr (inl (_, machine_reads i rest r idle e, refl))
  Sending-Turn s z r c hi chokes (inr (inl (u, left, e, room))) =
      inr (inl (_, update_enters u left e room, refl))
  Sending-Turn s z r c hi chokes (inr (inr both)) = inr (inr (inl (c, chokes, both)))

  open-Turn :
      (s : Bounded E)
      → 0 < capacity
      → s.system.loop.running ≡ true
      → s.closing ≡ false
      → Holds capacity s.system.inputs_read s.inputs_in
      → Holds capacity s.system.updates_read s.updates_in
      → Sending capacity s.system.inputs_read s.inputs_in (inputs_sent s)
      → Sending capacity s.system.updates_read s.updates_in (updates_sent s)
      → Turn s
  unfolding Turn
  open-Turn s z r c hi hu (inl idle) u = waiting-Turn s z r c idle hi hu u
  open-Turn s z r c hi hu (inr (inl (i, left, e, room))) u =
      inr (inl (_, input_enters i left e room, refl))
  open-Turn s z r c hi hu (inr (inr chokes)) u = Sending-Turn s z r c hi chokes u

module _ {E : Env} (lib : RustFsm) (law : IsRustFsm lib) (capacity : ℕ) where
  -- At any moment of any run, while the manager's loop runs, with channels of any capacity but 0: all
  -- that was sent was read and the next turn comes from outside, or some turn can be made without
  -- anything from outside, or each task waits for room in the other's channel, or the manager awaits
  -- the end of a task that waits for room.
  pub progress :
      (out_room : Option ℕ) (disk : E.Disk) (checker : Bool) {s : Bounded E}
      → 0 < capacity
      → BoundedReach lib capacity (opened E out_room disk checker) s
      → s.system.loop.running ≡ true
      → Rests s ⊎ (Moves lib capacity s ⊎ (Blocks capacity s ⊎ Hangs capacity s))
  unfolding Turn
  progress out_room disk checker {s} z reach r =
      let (q, (k, (left_updates, sent_updates), hi, hu)) =
        erased lib law capacity out_room disk checker reach in
      let (left_inputs, sent_inputs) = k.has_sent in
      let updates =
        sending capacity s.system.updates_read s.updates_in (updates_sent s) left_updates
          sent_updates hu in
      elim (Bool-cases s.closing) [
        | inl c ↦
            closing-Turn lib capacity s r c (reached-waits lib capacity reach refl c r) updates
        | inr c ↦
            open-Turn lib capacity s z r c hi hu
              (sending capacity s.system.inputs_read s.inputs_in (inputs_sent s) left_inputs
                (ap inputs sent_inputs) hi)
              updates
      ]

  -- Two tasks that wait for each other's room do so for ever, and so does a manager that awaits the
  -- end of a task that waits for room: no turn is possible, also none from outside.
  pub stuck_forever :
      {s t : Bounded E} → Blocks capacity s ⊎ Hangs capacity s → ¬ BoundedStep lib capacity s t
  stuck_forever {s} (inl (c, ((i, li, ei), fi), ((u, lu, eu), fu))) (takes _ _ _ _ _ w) =
      not-done i s.inputs_in (inputs_sent s) li ei w
  stuck_forever {s} (inl (c, ((i, li, ei), fi), ((u, lu, eu), fu))) (asks_end _ _ w) =
      not-done i s.inputs_in (inputs_sent s) li ei w
  stuck_forever {s} (inl (c, ((i, li, ei), fi), ((u, lu, eu), fu))) (ends _ d _) = cc
  stuck_forever {s} (inl (c, ((i, li, ei), fi), ((u, lu, eu), fu))) (input_enters _ _ _ room) =
      omega (arith, fi, room)
  stuck_forever {s} (inl (c, ((i, li, ei), fi), ((u, lu, eu), fu))) (update_enters _ _ _ room) =
      omega (arith, fu, room)
  stuck_forever {s} (inl (c, ((i, li, ei), fi), ((u, lu, eu), fu))) (machine_reads _ _ _ w _) =
      not-done u s.updates_in (updates_sent s) lu eu w
  stuck_forever {s} (inl (c, ((i, li, ei), fi), ((u, lu, eu), fu))) (manager_reads _ _ _ _ _ w _) =
      not-done i s.inputs_in (inputs_sent s) li ei w
  stuck_forever {s} (inr (c, w, ((u, lu, eu), fu))) (takes _ _ _ _ d _) = cc
  stuck_forever {s} (inr (c, w, ((u, lu, eu), fu))) (asks_end _ d _) = cc
  stuck_forever {s} (inr (c, w, ((u, lu, eu), fu))) (ends _ _ d) =
      not-done u s.updates_in (updates_sent s) lu eu d
  stuck_forever {s} (inr (c, w, ((u, lu, eu), fu))) (input_enters i rest e _) =
      not-done i s.inputs_in (inputs_sent s) rest e w
  stuck_forever {s} (inr (c, w, ((u, lu, eu), fu))) (update_enters _ _ _ room) =
      omega (arith, fu, room)
  stuck_forever {s} (inr (c, w, ((u, lu, eu), fu))) (machine_reads _ _ _ d _) =
      not-done u s.updates_in (updates_sent s) lu eu d
  stuck_forever {s} (inr (c, w, ((u, lu, eu), fu))) (manager_reads _ _ _ _ d _ _) = cc
