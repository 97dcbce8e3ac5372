-- ===== src/Discovery/Found.antt =====
-- Which devices a discovery gives (`discover_lgtv_devices` of src/discovery.rs).
use lgtv_manager.Prelude.{
  ◌≡◌, refl, sym, ap, ◌∙◌, Bool, true, not, if◌then◌else◌, Bool-cases, inl, inr, List, [], ◌∷◌,
  ◌++◌, map, append-nil, append_assoc, String, ◌<>◌, str_eq, eq_iff, Result, ok, err, arith,
}
use lgtv_manager.Connection.{LgTvDevice}
use lgtv_manager.Environment.{Env, Failure}
use lgtv_manager.Discovery.{
  DeviceSpec, Neighbours, Search, is_in, is_lg_tv, lgtv_device, visit, scan, discover_lgtv_devices,
}

abbrev pub filter {ℓ} : {A : Type ℓ} → (A → Bool) → List A → List A
filter p [] = []
filter p (x ∷ xs) = let rest = filter p xs in if p x then x ∷ rest else rest

-- Those with another UDN.
abbrev pub others : String → List DeviceSpec → List DeviceSpec
others udn ds = filter (λ d. not (str_eq d.udn udn)) ds

-- Of each UDN, the device that comes first.
abbrev pub firsts : List DeviceSpec → List DeviceSpec
firsts [] = []
firsts (d ∷ ds) = d ∷ others d.udn (firsts ds)

-- All devices of a stream, or its first error.
abbrev prepend : DeviceSpec → Result (List DeviceSpec) Failure → Result (List DeviceSpec) Failure
prepend d (ok ds) = ok (d ∷ ds)
prepend d (err e) = err e

abbrev pub all_devices : List (Result DeviceSpec Failure) → Result (List DeviceSpec) Failure
all_devices [] = ok []
all_devices (ok d ∷ rest) = prepend d (all_devices rest)
all_devices (err e ∷ rest) = err e

-- Those whose UDN is not among the given ones.
abbrev unseen : List String → List DeviceSpec → List DeviceSpec
unseen udns ds = filter (λ d. not (is_in d.udn udns)) ds

unseen-others :
    (u : String) (udns : List String) (ds : List DeviceSpec)
    → unseen udns (others u ds) ≡ unseen (u ∷ udns) ds
unseen-others u udns [] = refl
unseen-others u udns (d ∷ ds) = ground (arith, unseen-others u udns ds)

is_in-same :
    (u v : String) (udns : List String)
    → str_eq u v ≡ true
    → is_in v udns ≡ true
    → is_in u udns ≡ true
is_in-same u v udns e h = ap (λ w. is_in w udns) ((eq_iff u v).0 e) ∙ h

unseen-again :
    (u : String) (udns : List String) (ds : List DeviceSpec)
    → is_in u udns ≡ true
    → unseen (u ∷ udns) ds ≡ unseen udns ds
unseen-again u udns [] h = refl
unseen-again u udns (d ∷ ds) h = ground (arith, unseen-again u udns ds h, is_in-same d.udn u udns)

unseen-none : (ds : List DeviceSpec) → unseen [] ds ≡ ds
unseen-none [] = refl
unseen-none (d ∷ ds) = ap (λ es. d ∷ es) (unseen-none ds)

module _ (E : Env) (net : Neighbours) where
  -- What the caller is given of the devices of a stream, or of its error.
  abbrev pub given : Result (List DeviceSpec) Failure → Result (List LgTvDevice) String
  given (ok ds) = ok (map (lgtv_device E net) (filter is_lg_tv (firsts ds)))
  given (err e) = err ("UPnP discovery error: " <> E.debug_str e.display)

  -- The same from the middle of a search.
  abbrev rest_given : Search → Result (List DeviceSpec) Failure → Result (List LgTvDevice) String
  rest_given s (ok ds) = ok (
      s.discovered_lgtv_devices
      ++ map (lgtv_device E net) (filter is_lg_tv (unseen s.seen_udns (firsts ds))))
  rest_given s (err e) = err ("UPnP discovery error: " <> E.debug_str e.display)

  visit-given :
      (d : DeviceSpec) (s : Search) (rs : Result (List DeviceSpec) Failure)
      → rest_given (visit E net d s) rs ≡ rest_given s (prepend d rs)
  unfolding visit
  visit-given d s (err e) = refl
  visit-given d s (ok ds) = elim (Bool-cases (is_in d.udn s.seen_udns)) [
    | inl old ↦ ground (
      arith,
      old,
      unseen-others d.udn s.seen_udns (firsts ds),
      unseen-again d.udn s.seen_udns (firsts ds) old,
    )
    | inr fresh ↦ ground (
      arith,
      fresh,
      unseen-others d.udn s.seen_udns (firsts ds),
      append_assoc s.discovered_lgtv_devices (lgtv_device E net d ∷ [])
          (map (lgtv_device E net) (filter is_lg_tv (unseen (d.udn ∷ s.seen_udns) (firsts ds)))),
    )
  ]

  scan-given :
      (stream : List (Result DeviceSpec Failure)) (s : Search)
      → scan E net stream s ≡ rest_given s (all_devices stream)
  unfolding scan
  scan-given [] s = ap ok (sym (append-nil _))
  scan-given (ok d ∷ rest) s =
      scan-given rest (visit E net d s) ∙ visit-given d s (all_devices rest)
  scan-given (err e ∷ rest) s = refl

  given-start :
      (rs : Result (List DeviceSpec) Failure)
      → rest_given (record { seen_udns = []; discovered_lgtv_devices = [] }) rs ≡ given rs
  given-start (ok ds) =
      ap (λ es. ok (map (lgtv_device E net) (filter is_lg_tv es))) (unseen-none (firsts ds))
  given-start (err e) = refl

  -- A discovery gives, of each UDN that is found, the device that comes first, if it is an LG TV, in
  -- the order in which they are found; a stream with an error in it gives that error alone.
  pub discover_lgtv_devices_lem :
      (stream : List (Result DeviceSpec Failure))
      → discover_lgtv_devices E net (ok stream) ≡ given (all_devices stream)
  unfolding discover_lgtv_devices
  discover_lgtv_devices_lem stream = scan-given stream _ ∙ given-start (all_devices stream)
