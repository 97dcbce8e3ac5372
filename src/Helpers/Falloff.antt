-- ===== src/Helpers/Falloff.antt =====
-- The delay between reconnects (`reconnect_falloff` of src/helpers.rs).
use lgtv_manager.Prelude.{ℕ, ◌+◌, ◌^◌, ◌≤◌, ◌<◌, ◌≡◌, ◌⊎◌, refl, suc, zero, arith, u64_mod}
use native.Mathlib.Nat.{mod-eq_of_lt, pow-le-pow_right}
use lgtv_manager.Helpers.{extra_digits, round_to, as_f64, reconnect_falloff}

-- A number of at most 53 binary digits is exact as an `f64`.
no_extra_digits : (k n : ℕ) → n < 2 ^ 53 → extra_digits k n ≡ 0
unfolding extra_digits
no_extra_digits zero n h = refl
no_extra_digits (suc k) n h =
    let large : 2 ^ 53 ≤ 2 ^ (53 + k) =
      pow-le-pow_right {n = 2} (omega arith) {i = 53} {j = 53 + k} (omega arith) in
    ground (arith, no_extra_digits k n h, large, h)

as_f64-exact : (n : ℕ) → n < 2 ^ 53 → as_f64 n ≡ n
unfolding as_f64 round_to
as_f64-exact n h = rw (no_extra_digits 11 n h) refl

-- For bounds below 2 ^ 53: the delay lies between its bounds for every attempt, never falls from one
-- attempt to a later one while the counter stays clear of its limit, and is the greatest one for every
-- attempt from the first on whose power of two reaches it.
pub reconnect_falloff_bounds :
    (a b lo hi : ℕ)
    → lo ≤ hi
    → hi < 2 ^ 53
    → a ≤ b
    → b + 6 < u64_mod
    → (lo ≤ reconnect_falloff a lo hi)
      × (reconnect_falloff a lo hi ≤ reconnect_falloff b lo hi)
      × (reconnect_falloff b lo hi ≤ hi)
      × ((2 ^ (a + 6) < hi) ⊎ (reconnect_falloff b lo hi ≡ hi))
unfolding reconnect_falloff
reconnect_falloff_bounds a b lo hi h fits k w =
    let rises : 2 ^ (a + 6) ≤ 2 ^ (b + 6) = pow-le-pow_right (omega arith) (omega arith) in
    rw
      (
        as_f64-exact hi fits,
        as_f64-exact lo (omega (arith, h, fits)),
        mod-eq_of_lt w,
        mod-eq_of_lt {n = a + 6} {m = u64_mod} (omega arith),
      )
      (omega arith)
