-- ===== src/Discovery/Macs.antt =====
-- Which MAC address is read from the output of the tool arp (`mac_address_for_ip` of
-- src/discovery.rs).
use lgtv_manager.Prelude.{
  ◌≡◌, ap, ◌∙◌, ◌↔◌, Bool, Option-cases, Result-cases, true, false, Bool-cases, inl, inr, is_some,
  some, List, [], ◌∷◌, String, contains, ok, arith,
}
use lgtv_manager.Prelude.Strings.{lines, trim, split_whitespace}
use lgtv_manager.Environment.{Env, IpAddr}
use lgtv_manager.Discovery.{Neighbours, mac_in_words, mac_in_lines, mac_address_for_ip}

-- The first entry of a list that passes a test.
pub data First {A : Type 0} (p : A → Bool) : List A → A → Type 0 where
  now : {x : A} {xs : List A} → p x ≡ true → First p (x ∷ xs) x
  later : {x y : A} {xs : List A} → p x ≡ false → First p xs y → First p (x ∷ xs) y

module _ (E : Env) (net : Neighbours) where
  abbrev pub is_mac : String → Bool
  is_mac word = is_some (E.mac_from_str word)

  abbrev pub has_ip : IpAddr → String → Bool
  has_ip ip line = contains line (net.ip_to_string ip)

  -- The words hold an address, the first one of them that is one.
  abbrev pub MacIn : List String → E.MacAddr → Type 0
  MacIn words mac = (word : String) × First is_mac words word × (E.mac_from_str word ≡ some mac)

  words-read :
      (words : List String) (mac : E.MacAddr)
      → mac_in_words E net words ≡ some mac
      → MacIn words mac
  unfolding mac_in_words
  words-read [] mac h = cc
  words-read (w ∷ ws) mac h = elim (Option-cases (E.mac_from_str w)) [
    | inl isnt ↦
        let (word, f, e) = words-read ws mac (rw (isnt, mac_in_words) at h) in
        (word, later (ap is_some isnt) f, e)
    | inr (m, is) ↦ (w, now (ap is_some is), is ∙ (rw (is, mac_in_words) at h))
  ]

  words-found :
      (words : List String) (word : String) (mac : E.MacAddr)
      → First is_mac words word
      → E.mac_from_str word ≡ some mac
      → mac_in_words E net words ≡ some mac
  unfolding mac_in_words
  words-found _ _ mac (now {x = w} p) h = rw (h, mac_in_words)
  words-found _ word mac (later {x = w} {xs = ws} p f) h = elim (Option-cases (E.mac_from_str w)) [
    | inl isnt ↦ rw (isnt, mac_in_words) (words-found ws word mac f h)
    | inr (m, is) ↦ ground (arith, p, is)
  ]

  lines-read :
      (ip : IpAddr) (ls : List String) (mac : E.MacAddr)
      → mac_in_lines E net (net.ip_to_string ip) ls ≡ some mac
      → (line : String) × First (has_ip ip) ls line × MacIn (split_whitespace (trim line)) mac
  unfolding mac_in_lines
  lines-read ip [] mac h = cc
  lines-read ip (l ∷ ls) mac h = elim (Bool-cases (has_ip ip l)) [
    | inl has ↦ (l, now has, words-read (split_whitespace (trim l)) mac (ground (arith, has, h)))
    | inr not_has ↦
        let (line, f, m) = lines-read ip ls mac (ground (arith, not_has, h)) in
        (line, later not_has f, m)
  ]

  lines-found :
      (ip : IpAddr) (ls : List String) (line : String) (mac : E.MacAddr)
      → First (has_ip ip) ls line
      → MacIn (split_whitespace (trim line)) mac
      → mac_in_lines E net (net.ip_to_string ip) ls ≡ some mac
  unfolding mac_in_lines
  lines-found ip _ _ mac (now {x = l} has) (word, f, e) =
      ground (arith, has, words-found (split_whitespace (trim l)) word mac f e)
  lines-found ip _ line mac (later {x = l} {xs = ls} not_has g) m =
      ground (arith, not_has, lines-found ip ls line mac g m)

  -- The address that is read for an IP is given by the first line of the output with that IP's text in
  -- it, and is the first word of that line that is a MAC address.
  pub mac_address_for_ip_iff :
      (ip : IpAddr) (mac : E.MacAddr)
      → (mac_address_for_ip E net ip ≡ some mac) ↔ (
          (output_str : String) × (line : String) × (net.arp_output (net.ip_to_string ip)
            ≡ ok output_str)
          × First (has_ip ip) (lines output_str) line
          × MacIn (split_whitespace (trim line)) mac)
  unfolding mac_address_for_ip
  mac_address_for_ip_iff ip mac = (
    λ h. elim (Result-cases (net.arp_output (net.ip_to_string ip))) [
      | inl (text, e) ↦
          let (line, f, m) = lines-read ip (lines text) mac (rw (e, mac_address_for_ip) at h) in
          (text, line, e, f, m)
      | inr (failure, e) ↦ ground (arith, e, h)
    ],
    λ (text, line, e, f, m). rw (e, mac_address_for_ip) (lines-found ip (lines text) line mac f m),
  )
