-- ===== src/Helpers.antt =====
-- The helper functions of src/helpers.rs: the register request, the URL of a connection and the
-- delay between reconnects.
pub mod Falloff
pub mod Urls
use lgtv_manager.Prelude.{
  ℕ, zero, suc, ◌+◌, ◌*◌, ◌/◌, ◌%◌, ◌==◌, ◌&&◌, ◌||◌, ltb, ◌^◌, min, max, Bool, true, false,
  if◌then◌else◌, Option, none, some, String, ◌<>◌, Result, ok, err, str_eq, contains, u64_mod,
}
use lgtv_manager.Connection.{LgTvDevice, Connection, host, device, settings}
use lgtv_manager.Environment.{Env, IpAddr, v4, v6, Host, domain, ipv4, ipv6, Failure}
use lgtv_manager.Ssap.{LgTvRequest, register}

module _ (E : Env) where
  -- `fn url_ip_addr`.
  unfoldable pub url_ip_addr : String → Option IpAddr
  url_ip_addr url = elim (E.url_parse url) [
    | ok parsed ↦ elim (E.url_host parsed) [
      | some (ipv4 a) ↦ some (v4 a)
      | some (ipv6 a) ↦ some (v6 a)
      | some (domain _) ↦ none
      | none ↦ none
    ]
    | err _ ↦ none
  ]

  -- `fn generate_register_request`; `id` is the message identifier that it generates.
  register_request_from :
      String → Option String → Bool → Option E.Map → Result (LgTvRequest E.Value) String
  register_request_from id client_key force_pairing none = err "Could not create register payload"
  register_request_from id client_key force_pairing (some payload) =
      let key : E.Value = elim client_key [ none ↦ E.value_null | some k ↦ E.value_string k ] in
      ok (record {
        type = register;
        id = id;
        uri = none;
        payload = some (
            E.value_object (
              E.map_insert "forcePairing" (E.value_bool force_pairing)
                (E.map_insert "client-key" key payload)));
      })

  unfoldable pub generate_register_request :
      String → Option String → Bool → Result (LgTvRequest E.Value) String
  unfolding register_request_from
  generate_register_request id client_key force_pairing =
      elim (E.value_from_str E.register_payload) [
        | ok json_data ↦ register_request_from id client_key force_pairing (E.as_object json_data)
        | err e ↦ err ("Could not create register payload: " <> e.debug)
      ]

  -- The URL with its own port, or with the given one.
  unfoldable pub with_port : ℕ → String → E.Url → Result String String
  with_port port refusal url = elim (E.url_port url) [
    | some _ ↦ ok (E.url_to_string url)
    | none ↦ elim (E.url_set_port port url) [ some u ↦ ok (E.url_to_string u) | none ↦ err refusal ]
  ]

  -- The `match` on the scheme of the parsed URL.
  unfoldable pub check_scheme : Bool → E.Url → Result String String
  unfolding with_port
  check_scheme is_tls url =
      if str_eq (E.url_scheme url) "ws"
      then (if is_tls
          then err "Cannot use 'ws' scheme with TLS (must be wss)"
          else with_port 3000 "Could not set URL to port 3000" url)
      else if str_eq (E.url_scheme url) "wss"
      then (if is_tls
          then with_port 3001 "Could not set URL to port 3001" url
          else err "Cannot use 'wss' scheme without TLS (must be ws)")
      else err ("Invalid scheme: " <> E.url_scheme url <> " (must be 'wss' or 'ws')")

  -- The input, with a scheme put before it if it has none.
  unfoldable pub with_scheme : String → Bool → String
  with_scheme in_str is_tls =
      if contains in_str "://" then in_str else (if is_tls then "wss" else "ws") <> "://" <> in_str

  -- `fn generate_possible_websocket_url`.
  unfoldable pub generate_possible_websocket_url : String → Bool → Result String String
  unfolding check_scheme with_scheme
  generate_possible_websocket_url in_str is_tls =
      if str_eq in_str ""
      then err "No host specified"
      else elim (E.url_parse (with_scheme in_str is_tls)) [
        | ok parsed_url ↦ check_scheme is_tls parsed_url
        | err e ↦ err ("Could not parse host: " <> e.debug)
      ]

  -- `fn device_host`.
  unfoldable pub device_host : LgTvDevice → Result String String
  device_host d = elim (E.url_parse d.url) [
    | ok url ↦ elim (E.url_host_str url) [
      | some h ↦ ok h
      | none ↦ err ("Could not determine hostname for UPnP device '" <> d.friendly_name <> "'")
    ]
    | err e ↦
        err (
          "Could not determine hostname for UPnP device '" <> d.friendly_name <> "': " <> e.display)
  ]

  -- `tv_url` of `websocket_url_for_connection`.
  tv_url : Connection → Result String String
  unfolding device_host
  tv_url (host h _) = ok h
  tv_url (device d _) = device_host d

  -- `fn websocket_url_for_connection`.
  unfoldable pub websocket_url_for_connection : Connection → Result String String
  unfolding tv_url generate_possible_websocket_url
  websocket_url_for_connection connection = elim (tv_url connection) [
    | ok h ↦ generate_possible_websocket_url h (settings connection).is_tls
    | err e ↦ err e
  ]

-- By how many binary digits a `u64` is longer than the 53 that an `f64` holds: at most 11.
unfoldable pub extra_digits : ℕ → ℕ → ℕ
extra_digits zero n = 0
extra_digits (suc k) n = if ltb n (2 ^ (53 + k)) then extra_digits k n else suc k

-- The nearest multiple of a power of two; between two, the one with an even factor.
unfoldable pub round_to : ℕ → ℕ → ℕ
round_to zero n = n
round_to (suc k) n =
    let unit = 2 ^ suc k in
    let factor = n / unit in
    let rest = n % unit in
    let up = ltb (2 ^ k) rest || (rest == 2 ^ k && (factor % 2 == 1)) in
    (if up then factor + 1 else factor) * unit

-- `n as f64` of a `u64`.
unfoldable pub as_f64 : ℕ → ℕ
unfolding extra_digits round_to
as_f64 n = round_to (extra_digits 11 n) n

-- `fn reconnect_falloff`. The sum of two `u64` wraps. The power is exact up to 2^1023 and infinite
-- above, where the minimum takes the upper bound; so it does at an attempt that is not exact as an
-- `f64`, which is at least 2^53.
unfoldable pub reconnect_falloff : ℕ → ℕ → ℕ → ℕ
unfolding as_f64
reconnect_falloff attempt min_delay max_delay =
    max (min (2 ^ ((attempt + 6) % u64_mod)) (as_f64 max_delay)) (as_f64 min_delay)
