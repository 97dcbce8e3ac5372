-- ===== src/Prelude/Channel.antt =====
-- The sending half of a bounded tokio channel, as the program uses it: `send` is awaited until there
-- is room, so it fails only when the receiver is gone.
use Prim.Native.Nat.{ℕ, zero, suc}
use mathlib.Core.Bool.{Bool, true, false}
use mathlib.Core.Option.{Option, none, some}
use mathlib.Core.List.{List, [], ◌∷◌, ◌++◌, append-nil, append_assoc}
use mathlib.Core.Path.{◌≡◌, refl, sym, ◌∙◌}

-- `sent` is what the receiver was handed so far. `room` is how many more messages it takes before it
-- goes away; `none` means that it stays.
pub record Channel {ℓ} (A : Type ℓ) : Type ℓ where
  pub sent : List A
  pub room : Option ℕ

-- The room left after a message that was taken.
abbrev pub less_room : Option ℕ → Option ℕ
less_room none = none
less_room (some zero) = some zero
less_room (some (suc n)) = some n

abbrev pub is_open : Option ℕ → Bool
is_open none = true
is_open (some zero) = false
is_open (some (suc n)) = true

module _ {ℓ} {A : Type ℓ} where
  abbrev put : Bool → A → Channel A → Channel A
  put true a c = record { sent = c.sent ++ (a ∷ []); room = less_room c.room }
  put false a c = c

  -- The channel after `send(a)`; whether it succeeded is `is_open c.room`.
  unfoldable pub send : A → Channel A → Channel A
  send a c = put (is_open c.room) a c

-- A fresh channel, with nothing sent.
abbrev pub channel {ℓ} : {A : Type ℓ} → Option ℕ → Channel A
channel room = record { sent = []; room = room }

-- At most the first messages, as many as there is room for.
abbrev pub take_room {ℓ} : {A : Type ℓ} → Option ℕ → List A → List A
take_room none xs = xs
take_room (some zero) xs = []
take_room (some (suc n)) [] = []
take_room (some (suc n)) (x ∷ xs) = x ∷ take_room (some n) xs

pub take_room-nil {ℓ} : {A : Type ℓ} (r : Option ℕ) → take_room {A = A} r [] ≡ []
take_room-nil none = refl
take_room-nil (some zero) = refl
take_room-nil (some (suc n)) = refl

-- Several messages in a row, whether or not they are taken.
abbrev pub send_each {ℓ} : {A : Type ℓ} → List A → Channel A → Channel A
send_each [] c = c
send_each (a ∷ ms) c = send_each ms (send a c)

-- The receiver gets the first of them, ms many ms it still takes.
pub sent-send_each {ℓ} :
    {A : Type ℓ} (ms : List A) (xs : List A) (r : Option ℕ)
    → (send_each ms (record { sent = xs; room = r })).sent ≡ xs ++ take_room r ms
unfolding send
sent-send_each [] xs r = rw (take_room-nil r) (sym (append-nil xs))
sent-send_each (a ∷ ms) xs none =
    sent-send_each ms (xs ++ a ∷ []) none ∙ append_assoc xs (a ∷ []) ms
sent-send_each (a ∷ ms) xs (some zero) = sent-send_each ms xs (some zero)
sent-send_each (a ∷ ms) xs (some (suc n)) =
    sent-send_each ms (xs ++ a ∷ []) (some n) ∙ append_assoc xs (a ∷ []) (take_room (some n) ms)
