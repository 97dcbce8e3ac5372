-- ===== src/Manager/Registering.antt =====
-- What the manager (src/lgtv_manager.rs) asks of a WebSocket handler first.
pub mod Kept
pub mod Connects
pub mod Orders
pub mod Calls
pub mod Socket
pub mod Handled
use lgtv_manager.Prelude.{
  ℕ, zero, suc, ◌≡◌, refl, sym, ap, ◌∙◌, subst, Bool, true, inl, inr, ◌⊎◌, Option, none, some,
  is_some, List, [], ◌∷◌, ◌++◌, String, ok, arith,
}
use lgtv_manager.Prelude.Channel.{Channel, send, is_open, less_room}
use lgtv_manager.Environment.{Env}
use lgtv_manager.Helpers.{generate_register_request}
use lgtv_manager.Ssap.{LgTvRequest}
use lgtv_manager.TvCommand.{TvCommand}
use lgtv_manager.TvCommand.Request.{command_string}
use lgtv_manager.Manager.Messages.{WsMessage, payload, shut_down}
use lgtv_manager.Manager.Reset.{order_shut_down}

-- The first message to a handler other than a connection test.
abbrev pub first_order : List WsMessage → Option WsMessage
first_order [] = none
first_order (WsMessage.test_connection ∷ ws) = first_order ws
first_order (payload p ∷ ws) = some (payload p)
first_order (shut_down ∷ ws) = some shut_down

-- The text is a register request of the program.
abbrev pub IsRegister : (E : Env) → String → Type 0
IsRegister E p =
    (id : String) × (client_key : Option String) × (force_pairing : Bool) × (request : LgTvRequest
      E.Value)
    × (generate_register_request E id client_key force_pairing ≡ ok request)
    × (E.request_to_string request ≡ ok p)

-- A handler may begin with a register request or a shut down.
abbrev pub Proper : (E : Env) → Option WsMessage → Type 0
Proper E none = Unit {0}
Proper E (some (payload p)) = IsRegister E p
Proper E (some _) = Unit {0}

-- The text is a register request or the request of a command.
abbrev pub IsRequest : (E : Env) → String → Type 0
IsRequest E p = IsRegister E p ⊎ ((c : TvCommand) × (id : String) × (p ≡ command_string E id c))

abbrev pub IsOrder : (E : Env) → WsMessage → Type 0
IsOrder E (payload p) = IsRequest E p
IsOrder E _ = Unit {0}

abbrev pub EachOrder : (E : Env) → List WsMessage → Type 0
EachOrder E [] = Unit {0}
EachOrder E (w ∷ ws) = IsOrder E w × EachOrder E ws

EachOrder-append :
    (E : Env) (ws : List WsMessage) (w : WsMessage)
    → EachOrder E ws
    → IsOrder E w
    → EachOrder E (ws ++ w ∷ [])
EachOrder-append E [] w h o = (o, tt)
EachOrder-append E (v ∷ ws) w h o = (h.0, EachOrder-append E ws w h.1 o)

-- The messages to a handler. `asked`: one that still listens was asked something.
pub record Opening (E : Env) (asked : Bool) (tx : Channel WsMessage) : Type 0 where
  pub begins : Proper E (first_order tx.sent)
  pub each : EachOrder E tx.sent
  pub begun : asked ≡ true → is_open tx.room ≡ true → is_some (first_order tx.sent) ≡ true

abbrev pub Opens : (E : Env) → Bool → Option (Channel WsMessage) → Type 0
Opens E asked none = Unit {0}
Opens E asked (some tx) = Opening E asked tx

first-cases :
    (xs ys : List WsMessage)
    → ((is_some (first_order xs) ≡ true) × (first_order (xs ++ ys) ≡ first_order xs))
      ⊎ ((first_order xs ≡ none) × (first_order (xs ++ ys) ≡ first_order ys))
first-cases [] ys = inr (refl, refl)
first-cases (WsMessage.test_connection ∷ xs) ys = first-cases xs ys
first-cases (payload p ∷ xs) ys = inl (refl, refl)
first-cases (shut_down ∷ xs) ys = inl (refl, refl)

still_open : (r : Option ℕ) → is_open (less_room r) ≡ true → is_open r ≡ true
still_open r o = ground (arith, o)

asked-put :
    (w : WsMessage) (xs : List WsMessage)
    → is_some (first_order (w ∷ [])) ≡ true
    → is_some (first_order (xs ++ w ∷ [])) ≡ true
asked-put w xs some_order = elim (first-cases xs (w ∷ [])) [
  | inl (have, same) ↦ ap is_some same ∙ have
  | inr (empty, fresh) ↦ ap is_some fresh ∙ some_order
]

asked-send :
    (w : WsMessage) (xs : List WsMessage) (r : Option ℕ)
    → is_some (first_order (w ∷ [])) ≡ true
    → is_open (send w (record { sent = xs; room = r })).room ≡ true
    → is_some (first_order (send w (record { sent = xs; room = r })).sent) ≡ true
unfolding send
asked-send w xs none some_order o = asked-put w xs some_order
asked-send w xs (some zero) some_order o = cc
asked-send w xs (some (suc n)) some_order o = asked-put w xs some_order

module _ (E : Env) where
  -- One message more, which may be the first.
  put-Opening :
      (asked : Bool) (w : WsMessage) (tx : Channel WsMessage)
      → Opening E asked tx
      → IsOrder E w
      → (first_order tx.sent ≡ none → Proper E (first_order (w ∷ [])))
      → Opening E asked (record { sent = tx.sent ++ w ∷ []; room = less_room tx.room })
  put-Opening asked w tx h o proper = elim (first-cases tx.sent (w ∷ [])) [
    | inl (have, same) ↦ record {
      begins = subst (Proper E) (sym same) h.begins;
      each = EachOrder-append E tx.sent w h.each o;
      begun = λ _ _. ap is_some same ∙ have;
    }
    | inr (empty, fresh) ↦ record {
      begins = subst (Proper E) (sym fresh) (proper empty);
      each = EachOrder-append E tx.sent w h.each o;
      begun = λ a o. ground (arith, h.begun a (still_open tx.room o), empty);
    }
  ]

  pub send-Opening :
      (asked : Bool) (w : WsMessage) (xs : List WsMessage) (r : Option ℕ)
      → Opening E asked (record { sent = xs; room = r })
      → IsOrder E w
      → (first_order xs ≡ none → is_open r ≡ true → Proper E (first_order (w ∷ [])))
      → Opening E asked (send w (record { sent = xs; room = r }))
  unfolding send
  send-Opening asked w xs none h o proper = put-Opening asked w _ h o (λ e. proper e refl)
  send-Opening asked w xs (some zero) h o proper = h
  send-Opening asked w xs (some (suc n)) h o proper = put-Opening asked w _ h o (λ e. proper e refl)

  -- After a proper order the handler was asked something.
  pub order-Opening :
      (asked : Bool) (w : WsMessage) (tx : Channel WsMessage)
      → Opening E asked tx
      → IsOrder E w
      → Proper E (first_order (w ∷ []))
      → is_some (first_order (w ∷ [])) ≡ true
      → Opening E true (send w tx)
  order-Opening asked w tx h o proper some_order =
      let sent = send-Opening asked w tx.sent tx.room h o (λ _ _. proper) in
      record {
        begins = sent.begins;
        each = sent.each;
        begun = λ _ opened. asked-send w tx.sent tx.room some_order opened;
      }

  -- What was asked for counts also where nothing is asked for.
  pub Opens-weaken :
      (asked : Bool) (tx : Option (Channel WsMessage)) → Opens E true tx → Opens E asked tx
  Opens-weaken asked none h = h
  Opens-weaken asked (some tx) h = record {
    begins = h.begins;
    each = h.each;
    begun = λ _ o. h.begun refl o;
  }

  pub shut_down-Opens :
      (asked : Bool) (tx : Option (Channel WsMessage))
      → Opens E asked tx
      → Opens E true (order_shut_down tx)
  unfolding order_shut_down
  shut_down-Opens asked none h = h
  shut_down-Opens asked (some tx) h = order-Opening asked shut_down tx h tt tt refl
