-- ===== src/System/Bounded/Rooms.antt =====
-- A channel of a capacity (`channel(32)` in `run` of src/lgtv_manager.rs) between its sender and its
-- reader: what is left to enter, and what waits to be read.
use lgtv_manager.Prelude.{
  ℕ, ◌+◌, ◌<◌, ◌≡◌, ap, ◌∙◌, ◌⊎◌, inl, inr, List, [], ◌∷◌, ◌++◌, append-nil, length, length-append,
  arith,
}
use native.Mathlib.Decide.{dec_lt}
use lgtv_manager.System.Bounded.Refines.{Holds}

-- A sender has more to send than there is room for.
abbrev pub Chokes : {A : Type 0} → ℕ → List A → List A → List A → Type 0
Chokes {A} capacity read entered sent =
    ((a : A) × (left : List A) × (sent ≡ entered ++ a ∷ left))
    × (length entered ≡ length read + capacity)

-- Nothing is left to enter; or there is room for what is left; or there is none.
abbrev pub Sending : {A : Type 0} → ℕ → List A → List A → List A → Type 0
Sending {A} capacity read entered sent =
    (sent ≡ entered)
    ⊎ (((a : A) × (left : List A) × (sent ≡ entered ++ a ∷ left)
          × (length entered < length read + capacity))
        ⊎ Chokes capacity read entered sent)

pub sending :
    {A : Type 0} (capacity : ℕ) (read entered sent left : List A)
    → sent ≡ entered ++ left
    → Holds capacity read entered
    → Sending capacity read entered sent
sending capacity read entered sent [] e h = inl (e ∙ append-nil entered)
sending capacity read entered sent (a ∷ left) e (waiting, f, fits) =
    elim (dec_lt (length entered) (length read + capacity)) [
      | yes room ↦ inr (inl (a, left, e, room))
      | no full ↦
          inr
            (inr ((a, left, e), omega (arith, full, ap length f, length-append read waiting, fits)))
    ]

-- Whether something waits to be read.
pub unread :
    {A : Type 0} {capacity : ℕ} (read entered : List A)
    → Holds capacity read entered
    → (entered ≡ read) ⊎ ((a : A) × (rest : List A) × (entered ≡ read ++ a ∷ rest))
unread read entered ([], e, fits) = inl (e ∙ append-nil read)
unread read entered (a ∷ rest, e, fits) = inr (a, rest, e)

-- If its sender chokes, something does.
pub unread-Chokes :
    {A : Type 0} {capacity : ℕ} (read entered sent : List A)
    → 0 < capacity
    → Holds capacity read entered
    → Chokes capacity read entered sent
    → (a : A) × (rest : List A) × (entered ≡ read ++ a ∷ rest)
unread-Chokes read entered sent some_room h (left, full) = elim (unread read entered h) [
  | inl none_left ↦ absurd (omega (arith, ap length none_left, full, some_room))
  | inr found ↦ found
]

-- A sender with something left to send is not done.
pub not-done :
    {A : Type 0} (a : A) (entered sent left : List A)
    → sent ≡ entered ++ a ∷ left
    → ¬ (sent ≡ entered)
not-done a entered sent left e h =
    omega (arith, ap length e, ap length h, length-append entered (a ∷ left))
