-- ===== src/NetworkCheck/Pinging.antt =====
-- Which address the task of src/tv_network_check.rs pings, and when.
use lgtv_manager.Prelude.{
  ℕ, ◌+◌, ◌≤◌, ◌≡◌, ◌⊎◌, inl, inr, refl, Bool, Bool-cases, true, false, not, ◌&&◌, if◌then◌else◌,
  some, is_some, List, [], ◌∷◌, ◌++◌, length, arith,
}
use lgtv_manager.Environment.{IpAddr}
use lgtv_manager.Manager.Orchestration.Connect.{set_tv_ip}
use lgtv_manager.NetworkCheck.{
  CheckerTask, CheckerEvent, tv_ip_notified, check_notified, ping_ended, tv_ip_set, checker_step,
  start_checker, run_checker,
}

-- The flag for a ping is on exactly while one is awaited, and unless the task was notified of a new
-- address, its target is the manager's.
pub record PingInv (t : CheckerTask) : Type 0 where
  pub flag_exact : t.is_pinging ≡ is_some t.awaited
  pub target_current : t.checker.tv_ip_notify ≡ false → t.ping_target_ip ≡ t.checker.tv_ip

step-PingInv : (e : CheckerEvent) (t : CheckerTask) → PingInv t → PingInv (checker_step e t)
unfolding checker_step set_tv_ip
step-PingInv e t h = ground arith

run-PingInv : (es : List CheckerEvent) (t : CheckerTask) → PingInv t → PingInv (run_checker es t)
unfolding run_checker
run-PingInv [] t h = h
run-PingInv (e ∷ es) t h = run-PingInv es (checker_step e t) (step-PingInv e t h)

-- From its start, whatever the timer, the pings and the manager do and in whatever order, the task's
-- flag for a ping under way is on exactly while it awaits one, so that a check which is due is never
-- refused as already in progress; and unless a notification of a new address is still to be taken,
-- the address that it pings is the one that the manager set last.
pub run_checker-PingInv : (es : List CheckerEvent) → PingInv (run_checker es start_checker)
run_checker-PingInv es = run-PingInv es start_checker (ground arith)

-- A turn that the task can make by itself: it takes a permit that is there, or hears of its ping.
abbrev pub own : CheckerEvent → CheckerTask → Bool
own tv_ip_notified t = not (is_some t.awaited) && t.checker.tv_ip_notify
own check_notified t = not (is_some t.awaited) && t.checker.check
own (ping_ended responded) t = is_some t.awaited
own _ t = false

abbrev pub all_own : List CheckerEvent → CheckerTask → Bool
all_own [] t = true
all_own (e ∷ es) t = own e t && all_own es (checker_step e t)

abbrev pub sets_ip : List CheckerEvent → Bool
sets_ip [] = false
sets_ip (tv_ip_set ip ∷ es) = true
sets_ip (_ ∷ es) = sets_ip es

-- The address is pinged at some time during the events.
abbrev pub Pinged : IpAddr → List CheckerEvent → CheckerTask → Type 0
Pinged ip [] t = t.awaited ≡ some ip
Pinged ip (e ∷ es) t = (t.awaited ≡ some ip) ⊎ Pinged ip es (checker_step e t)

-- The task has still to ping the address: it has to take it over, or to check it.
record Owes (ip : IpAddr) (t : CheckerTask) : Type 0 where
  exact : PingInv t
  known : t.checker.tv_ip ≡ some ip
  owed : (t.checker.tv_ip_notify ≡ true) ⊎ ((t.ping_target_ip ≡ some ip) × (t.checker.check ≡ true))

set-Owes : (ip : IpAddr) (t : CheckerTask) → PingInv t → Owes ip (checker_step (tv_ip_set ip) t)
unfolding checker_step set_tv_ip
set-Owes ip t h = record {
  exact = record { flag_exact = h.flag_exact; target_current = λ off. cc };
  known = refl;
  owed = inl refl;
}

-- What an event leaves of it.
owed-step :
    (e : CheckerEvent) (ip : IpAddr) (t : CheckerTask)
    → sets_ip (e ∷ []) ≡ false
    → Owes ip t
    → let u = checker_step e t in
      (u.checker.tv_ip ≡ some ip)
      × ((u.awaited ≡ some ip)
          ⊎ ((u.checker.tv_ip_notify ≡ true)
              ⊎ ((u.ping_target_ip ≡ some ip) × (u.checker.check ≡ true))))
unfolding checker_step
owed-step e ip t n h = ground (arith, n, h.known, h.owed, h.exact.flag_exact)

Pinged-now :
    (ip : IpAddr) (es : List CheckerEvent) (t : CheckerTask) → t.awaited ≡ some ip → Pinged ip es t
Pinged-now ip [] t h = h
Pinged-now ip (e ∷ es) t h = inl h

-- Unless the address is pinged, the task still owes it.
run-Owes :
    (es : List CheckerEvent) (ip : IpAddr) (t : CheckerTask)
    → sets_ip es ≡ false
    → Owes ip t
    → Pinged ip es t ⊎ Owes ip (run_checker es t)
unfolding run_checker
run-Owes [] ip t n h = inr h
run-Owes (e ∷ es) ip t n h =
    let u = checker_step e t in
    let (known, owed) = owed-step e ip t (ground (arith, n)) h in
    elim owed [
      | inl pinged ↦ inl (inr (Pinged-now ip es u pinged))
      | inr still ↦
          elim (run-Owes es ip u (ground (arith, n))
            (record { exact = step-PingInv e t h.exact; known = known; owed = still })) [
              | inl pinged ↦ inl (inr pinged)
              | inr left ↦ inr left
            ]
    ]

-- A task that owes a ping has a turn to make.
Owes-own : (ip : IpAddr) (t : CheckerTask) → Owes ip t → (e : CheckerEvent) × (own e t ≡ true)
Owes-own ip t h = elim (Bool-cases (is_some t.awaited)) [
  | inl busy ↦ (ping_ended true, busy)
  | inr idle ↦ elim h.owed [
    | inl told ↦ (tv_ip_notified, ground (arith, idle, told))
    | inr (_, due) ↦ (check_notified, ground (arith, idle, due))
  ]
]

-- What the task has still to do by itself.
abbrev due : CheckerTask → ℕ
due t =
    (if t.checker.tv_ip_notify then 4 else 0)
    + (if t.checker.check then 2 else 0)
    + (if is_some t.awaited then 1 else 0)

own-due : (e : CheckerEvent) (t : CheckerTask) → own e t ≡ true → due (checker_step e t) + 1 ≤ due t
unfolding checker_step
own-due e t o = ground (arith, o)

all_own-due : (es : List CheckerEvent) (t : CheckerTask) → all_own es t ≡ true → length es ≤ due t
all_own-due [] t o = omega arith
all_own-due (e ∷ es) t o =
    let first : own e t ≡ true = ground (arith, o) in
    omega (arith, own-due e t first, all_own-due es (checker_step e t) (ground (arith, o)))

due-bound : (t : CheckerTask) → due t ≤ 7
due-bound t = ground arith

own-sets : (es : List CheckerEvent) (t : CheckerTask) → all_own es t ≡ true → sets_ip es ≡ false
own-sets [] t o = refl
own-sets (e ∷ es) t o = ground (arith, o, own-sets es (checker_step e t))

sets-append :
    (es fs : List CheckerEvent)
    → sets_ip es ≡ false
    → sets_ip fs ≡ false
    → sets_ip (es ++ fs) ≡ false
sets-append [] fs n k = k
sets-append (e ∷ es) fs n k = ground (arith, n, sets-append es fs)

-- Wherever the task is when the manager sets a new address, and in whatever order it then takes its
-- permits, the timer ticks, pings end and the manager asks for checks, also if a check of the old
-- address comes first: as long as no other address is set, the new one has been pinged or the task
-- has still a turn to make by itself; and it makes at most seven such turns in a row, so that with
-- nothing but its own turns it comes to the ping.
pub set_ip-Pinged :
    (es : List CheckerEvent) (ip : IpAddr) (later turns : List CheckerEvent)
    → sets_ip later ≡ false
    → all_own turns (run_checker later (checker_step (tv_ip_set ip) (run_checker es start_checker)))
      ≡ true
    → let asked = checker_step (tv_ip_set ip) (run_checker es start_checker) in
      (Pinged ip (later ++ turns) asked
        ⊎ ((e : CheckerEvent) × (own e (run_checker (later ++ turns) asked) ≡ true)))
      × (length turns ≤ 7)
set_ip-Pinged es ip later turns n o =
    let asked = checker_step (tv_ip_set ip) (run_checker es start_checker) in
    let now = run_checker later asked in
    (
      elim (run-Owes (later ++ turns) ip asked (sets-append later turns n (own-sets turns now o))
          (set-Owes ip (run_checker es start_checker) (run_checker-PingInv es))) [
            | inl pinged ↦ inl pinged
            | inr owes ↦ inr (Owes-own ip (run_checker (later ++ turns) asked) owes)
          ],
      omega (arith, all_own-due turns now o, due-bound now),
    )
