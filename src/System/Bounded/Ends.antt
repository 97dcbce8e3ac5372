-- ===== src/System/Bounded/Ends.antt =====
-- The exchange between the manager (src/lgtv_manager.rs) and its state machine (src/state_machine.rs)
-- over channels of a capacity comes to an end when nothing happens outside.
use mathlib.Core.WellFounded.{Acc}
use lgtv_manager.Prelude.{
  ℕ, zero, suc, ◌+◌, ◌<◌, ◌≡◌, ◌⊎◌, Bool, Bool-cases, true, false, inl, inr, Option, List, length,
  arith,
}
use lgtv_manager.Environment.{Env}
use lgtv_manager.StateMachine.{Input}
use lgtv_manager.StateMachine.Task.{RustFsm, IsRustFsm, StateMachineUpdateMessage}
use lgtv_manager.System.Settling.Lower.{heavy, light}
use lgtv_manager.System.Bounded.{Bounded, BoundedStep, opened, BoundedReach, next}
use lgtv_manager.System.Bounded.Progress.{is_inner, Rests, Blocks, Hangs, progress}
use lgtv_manager.System.Bounded.Settling.{Stock, Goes, stock_of, Goes-Lower}

-- Several turns that take nothing from outside.
pub data InnerReach {E : Env} (lib : RustFsm) (capacity : ℕ) : Bounded E → Bounded E → Type 0 where
  stays : {s : Bounded E} → InnerReach lib capacity s s
  turns :
      {s t u : Bounded E} (st : BoundedStep lib capacity s t)
      → is_inner st ≡ true
      → InnerReach lib capacity t u
      → InnerReach lib capacity s u

module _ {E : Env} (lib : RustFsm) (capacity : ℕ) where
  -- What the two tasks come to on their own.
  abbrev pub Arrives : Bounded E → Type 0
  Arrives s =
      (t : Bounded E) × InnerReach lib capacity s t
      × ((t.system.loop.running ≡ false) ⊎ (Rests t ⊎ (Blocks capacity t ⊎ Hangs capacity t)))

module _ {E : Env} (lib : RustFsm) (law : IsRustFsm lib) (capacity : ℕ) (out_room : Option ℕ)
    (disk : E.Disk) (checker : Bool) where
  ends_within :
      (a b c : ℕ) (s : Bounded E) (xs left_xs : List Input)
      (us left_us : List StateMachineUpdateMessage)
      → BoundedReach lib capacity (opened E out_room disk checker) s
      → Stock s xs left_xs us left_us
      → heavy xs us < a
      → light xs us < b
      → length left_xs + length left_us < c
      → Acc (Goes lib capacity) s
  ends_within zero b c s xs lx us lu r k p q l = absurd (omega (arith, p))
  ends_within (suc a) zero c s xs lx us lu r k p q l = absurd (omega (arith, q))
  ends_within (suc a) (suc b) zero s xs lx us lu r k p q l = absurd (omega (arith, l))
  ends_within (suc a) (suc b) (suc c) s xs lx us lu r k p q l = Acc.intro s (λ t turn.
      let (ys, ly, vs, lv, i, lower) =
        Goes-Lower lib law capacity out_room disk checker xs lx us lu r turn k in
      let z = next r turn.0 in
      elim lower [
        | inl less ↦
            ends_within a (suc (light ys vs)) (suc (length ly + length lv)) t ys ly vs lv z i
              (omega (arith, less, p)) (omega arith) (omega arith)
        | inr (same, inl less) ↦
            ends_within (suc a) b (suc (length ly + length lv)) t ys ly vs lv z i
              (omega (arith, same, p)) (omega (arith, less, q)) (omega arith)
        | inr (same, inr (as_many, less)) ↦
            ends_within (suc a) (suc b) c t ys ly vs lv z i (omega (arith, same, p))
              (omega (arith, as_many, q)) (omega (arith, less, l))
      ])

  bounded_turns_end :
      {s : Bounded E}
      → BoundedReach lib capacity (opened E out_room disk checker) s
      → Acc (Goes lib capacity) s
  bounded_turns_end {s} r =
      let (xs, lx, us, lu, k) = stock_of lib law capacity out_room disk checker r in
      ends_within (suc (heavy xs us)) (suc (light xs us)) (suc (length lx + length lu)) s xs lx us
        lu r k (omega arith) (omega arith) (omega arith)

  settle :
      (s : Bounded E)
      → 0 < capacity
      → Acc (Goes lib capacity) s
      → BoundedReach lib capacity (opened E out_room disk checker) s
      → s.system.loop.running ≡ true
      → Arrives lib capacity s
  settle s z (Acc.intro _ later) r on =
      elim (progress lib law capacity out_room disk checker z r on) [
        | inl rest ↦ (s, stays, inr (inl rest))
        | inr (inr stuck) ↦ (s, stays, inr (inr stuck))
        | inr (inl moves) ↦
            let (t, st, inner) = moves in
            elim (Bool-cases t.system.loop.running) [
              | inl still ↦
                  let (u, reach, done) =
                    settle t z (later t (st, inner, still)) (next r st) still in
                  (u, turns st inner reach, done)
              | inr off ↦ (t, turns st inner stays, inl off)
            ]
      ]

  -- At any moment of any run at which the manager's loop runs, with channels of any capacity but 0: if
  -- nothing happens outside from then on, the two tasks make finitely many turns only, in whatever
  -- order, while the loop runs; and they can come to where the loop has ended, or all that was sent
  -- was read, or each task waits for room in the other's channel, or the manager awaits the end of a
  -- task that waits for room.
  pub comes_to_rest :
      {s : Bounded E}
      → 0 < capacity
      → BoundedReach lib capacity (opened E out_room disk checker) s
      → s.system.loop.running ≡ true
      → Acc (Goes lib capacity) s × Arrives lib capacity s
  comes_to_rest {s} z r on = let finite = bounded_turns_end r in (finite, settle s z finite r on)
