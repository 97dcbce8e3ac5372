-- ===== src/Helpers/Urls.antt =====
-- The URL that a WebSocket is opened at (`generate_possible_websocket_url` of src/helpers.rs).
use lgtv_manager.Prelude.{
  ℕ, ◌≡◌, refl, ◌↔◌, Bool, true, false, if◌then◌else◌, Option, none, some, String, ◌<>◌, Result, ok,
  err, str_eq, contains, eq_iff, arith,
}
use lgtv_manager.Environment.{Env, Failure}
use lgtv_manager.Helpers.{with_port, check_scheme, with_scheme, generate_possible_websocket_url}

abbrev pub scheme_of : Bool → String
scheme_of is_tls = if is_tls then "wss" else "ws"

abbrev pub port_of : Bool → ℕ
port_of is_tls = if is_tls then 3001 else 3000

-- The text of a URL, with the given port put in if it has none.
pub data Ported (E : Env) (port : ℕ) (url : E.Url) (text : String) : Type 0 where
  own : (p : ℕ) → E.url_port url ≡ some p → text ≡ E.url_to_string url → Ported E port url text
  put :
      (u : E.Url)
      → E.url_port url ≡ none
      → E.url_set_port port url ≡ some u
      → text ≡ E.url_to_string u
      → Ported E port url text

module _ (E : Env) where
  Ported-of :
      (port : ℕ) (refusal text : String) (url : E.Url)
      → with_port E port refusal url ≡ ok text
      → Ported E port url text
  unfolding with_port
  Ported-of port refusal text url h = given (E.url_port url) (E.url_set_port port url) refl refl
    where
      given :
          (p : Option ℕ) (q : Option E.Url)
          → E.url_port url ≡ p
          → E.url_set_port port url ≡ q
          → Ported E port url text
      given (some p) q e f = own p e (ground arith)
      given none (some u) e f = put u e f (ground arith)
      given none none e f = ground arith

  of_Ported :
      (port : ℕ) (refusal text : String) (url : E.Url)
      → Ported E port url text
      → with_port E port refusal url ≡ ok text
  unfolding with_port
  of_Ported port refusal text url (own p e t) = ground arith
  of_Ported port refusal text url (put u e q t) = ground arith

  check_scheme-ok :
      (is_tls : Bool) (text : String) (url : E.Url)
      → check_scheme E is_tls url ≡ ok text
      → (E.url_scheme url ≡ scheme_of is_tls) × Ported E (port_of is_tls) url text
  unfolding check_scheme
  check_scheme-ok is_tls text url h =
      given is_tls (str_eq (E.url_scheme url) "ws") (str_eq (E.url_scheme url) "wss") refl refl h
    where
      given :
          (is_tls a b : Bool)
          → str_eq (E.url_scheme url) "ws" ≡ a
          → str_eq (E.url_scheme url) "wss" ≡ b
          → check_scheme E is_tls url ≡ ok text
          → (E.url_scheme url ≡ scheme_of is_tls) × Ported E (port_of is_tls) url text
      given true true b e f k = ground arith
      given true false true e f k = (
        (eq_iff (E.url_scheme url) "wss").0 f,
        Ported-of 3001 "Could not set URL to port 3001" text url (ground arith),
      )
      given true false false e f k = ground arith
      given false true b e f k = (
        (eq_iff (E.url_scheme url) "ws").0 e,
        Ported-of 3000 "Could not set URL to port 3000" text url (ground arith),
      )
      given false false true e f k = ground arith
      given false false false e f k = ground arith

  ok-check_scheme :
      (is_tls : Bool) (text : String) (url : E.Url)
      → E.url_scheme url ≡ scheme_of is_tls
      → Ported E (port_of is_tls) url text
      → check_scheme E is_tls url ≡ ok text
  unfolding check_scheme
  ok-check_scheme true text url e p =
      rw e (of_Ported 3001 "Could not set URL to port 3001" text url p)
  ok-check_scheme false text url e p =
      rw e (of_Ported 3000 "Could not set URL to port 3000" text url p)

  -- A host gives the text of a URL exactly when it is not empty and, with the scheme put before it if
  -- it has none, is a URL of the scheme that the TLS setting asks for; the text is that URL with its
  -- own port, or with 3001 for TLS and 3000 without, if it has none.
  pub generate_possible_websocket_url_iff :
      (in_str text : String) (is_tls : Bool)
      → (generate_possible_websocket_url E in_str is_tls ≡ ok text) ↔ (
          (str_eq in_str "" ≡ false)
          × ((url : E.Url) × (E.url_parse
                  (if contains in_str "://" then in_str else scheme_of is_tls <> "://" <> in_str)
                ≡ ok url)
              × (E.url_scheme url ≡ scheme_of is_tls)
              × Ported E (port_of is_tls) url text))
  unfolding generate_possible_websocket_url with_scheme
  generate_possible_websocket_url_iff in_str text is_tls = (
    λ h. given (str_eq in_str "") (E.url_parse full) refl refl h,
    λ h. let (n, (url, e, s, p)) = h in ground (arith, ok-check_scheme is_tls text url s p),
  )
    where
      full : String
      full = if contains in_str "://" then in_str else scheme_of is_tls <> "://" <> in_str

      given :
          (empty : Bool) (parsed : Result E.Url Failure)
          → str_eq in_str "" ≡ empty
          → E.url_parse full ≡ parsed
          → generate_possible_websocket_url E in_str is_tls ≡ ok text
          → (str_eq in_str "" ≡ false)
            × ((url : E.Url) × (E.url_parse full ≡ ok url)
                × (E.url_scheme url ≡ scheme_of is_tls)
                × Ported E (port_of is_tls) url text)
      given true parsed n e h = ground arith
      given false (err f) n e h = ground arith
      given false (ok url) n e h =
          let (s, p) = check_scheme-ok is_tls text url (ground arith) in (n, (url, e, s, p))
