-- ===== src/Manager/Waking.antt =====
-- Wake-on-LAN (`wake_last_seen_tv` of src/lgtv_manager/network_utils.rs).
use lgtv_manager.Prelude.{
  ◌≡◌, refl, Bool, true, false, if◌then◌else◌, Option, none, some, Option-cases, inl, inr, List, [],
  ◌∷◌, ◌++◌, append-nil, String, ◌<>◌, Result, ok, err, arith,
}
use lgtv_manager.Prelude.Channel.{send}
use lgtv_manager.Environment.{Env, IpAddr, PersistedState}
use lgtv_manager.Helpers.{url_ip_addr}
use lgtv_manager.Manager.Messages.{error, action}
use lgtv_manager.Manager.State.{Manager}
use lgtv_manager.Manager.Senders.{send_out}
use lgtv_manager.Manager.Persisted.{read_persisted_state}
use lgtv_manager.Manager.Network.{
  wake, wake_at, wake_persisted, wake_read, report_wake, wake_last_seen_tv,
}

module _ (E : Env) where
  abbrev both : Option IpAddr → Option E.WolMacAddr → List (E.WolMacAddr × IpAddr)
  both (some ip) (some mac) = (mac, ip) ∷ []
  both _ _ = []

  -- Whom the persisted state says to wake: at most one TV.
  abbrev target : Option String → Option String → List (E.WolMacAddr × IpAddr)
  target (some ws_url) (some mac_addr) = both (url_ip_addr E ws_url) (E.wol_mac_from_str mac_addr)
  target _ _ = []

  abbrev pub targets : Result PersistedState String → List (E.WolMacAddr × IpAddr)
  targets (ok s) = target s.ws_url s.mac_addr
  targets (err e) = []

  -- There is one, and sending to it succeeds.
  abbrev pub woken : List (E.WolMacAddr × IpAddr) → Bool
  woken [] = false
  woken ((mac, ip) ∷ _) = elim (E.send_wol mac ip) [ none ↦ true | some e ↦ false ]

module _ {E : Env} where
  -- A manager after an attempt for each target, and a message unless one has succeeded.
  abbrev pub after_waking : List (E.WolMacAddr × IpAddr) → String → Manager E → Manager E
  after_waking ts text m = record m {
    wol_sent = m.wol_sent ++ ts;
    output_tx =
        if woken E ts
        then m.output_tx
        else send (error (action ("Cannot send Wake-on-LAN: " <> text))) m.output_tx;
  }

  -- A report of a failure to wake nobody.
  nobody :
      (reason : String) (m : Manager E)
      → (text : String) × (report_wake (some reason, m) ≡ after_waking [] text m)
  unfolding report_wake send_out
  nobody reason m = (reason, rw (append-nil m.wol_sent) refl)

  woken-at :
      (ws_url mac_addr : String) (ip : Option IpAddr) (mac : Option E.WolMacAddr) (m : Manager E)
      → (text : String) × (report_wake (wake_at ws_url mac_addr ip mac m)
          ≡ after_waking (both E ip mac) text m)
  unfolding wake_at wake report_wake send_out
  woken-at u a (some ip) (some mac) m = elim (Option-cases (E.send_wol mac ip)) [
    | inl sent ↦ ("", ground (arith, sent))
    | inr (e, failed) ↦ ("Send error: " <> e.display, ground (arith, failed))
  ]
  woken-at u a none mac m =
      nobody ("Cannot determine host IP and MAC from URL: " <> u <> " MAC: " <> a) m
  woken-at u a (some ip) none m =
      nobody ("Cannot determine host IP and MAC from URL: " <> u <> " MAC: " <> a) m

  woken-persisted :
      (ws_url mac_addr : Option String) (m : Manager E)
      → (text : String) × (report_wake (wake_persisted ws_url mac_addr m)
          ≡ after_waking (target E ws_url mac_addr) text m)
  unfolding wake_persisted
  woken-persisted (some u) (some a) m = woken-at u a (url_ip_addr E u) (E.wol_mac_from_str a) m
  woken-persisted none a m = nobody "Missing WebSocket URL or MAC address" m
  woken-persisted (some u) none m = nobody "Missing WebSocket URL or MAC address" m

  woken-read :
      (read : Result PersistedState String) (m : Manager E)
      → (text : String) × (report_wake (wake_read read m) ≡ after_waking (targets E read) text m)
  unfolding wake_read
  woken-read (err e) m = nobody ("Cannot read persisted data: " <> e) m
  woken-read (ok s) m = woken-persisted s.ws_url s.mac_addr m

  -- A request to wake the TV makes one attempt to send a packet, to the MAC address and the IP that
  -- the persisted state gives, or none if that cannot be read or does not give both. The caller is sent
  -- nothing if the attempt succeeds, and else exactly one error. Nothing else changes but the disk, as
  -- reading the state leaves it.
  pub wake_outcome :
      (m : Manager E)
      → (let (read, disk) = read_persisted_state E m.data_dir m.disk in
          (text : String) × (wake_last_seen_tv m
            ≡ after_waking (targets E read) text (record m { disk = disk })))
  unfolding wake_last_seen_tv
  wake_outcome m =
      let (read, disk) = read_persisted_state E m.data_dir m.disk in
      woken-read read (record m { disk = disk })
