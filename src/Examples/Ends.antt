-- ===== src/Examples/Ends.antt =====
-- When the example programs (examples/control.rs and examples/discover.rs) end.
use lgtv_manager.Prelude.{
  ℕ, ◌≡◌, refl, sym, ap, ◌∙◌, subst, Bool, true, false, not, ◌||◌, Bool-cases, inl, inr, Option,
  none, some, List, [], ◌∷◌, ◌++◌, String, str_eq, eq_iff, Result, ok, err, arith,
}
use lgtv_manager.Prelude.Channel.{Channel, channel, send}
use lgtv_manager.Prelude.Strings.{trim}
use lgtv_manager.Connection.{LgTvDevice}
use lgtv_manager.Environment.{Env, Failure}
use lgtv_manager.Discovery.{DeviceSpec, Neighbours, discover_lgtv_devices, discover_task, outcome}
use lgtv_manager.Discovery.Found.{all_devices, given}
use lgtv_manager.Discovery.Told.{sent-discover_lgtv_devices}
use lgtv_manager.Manager.Messages.{
  ManagerMessage, shut_down, ManagerOutputMessage, discovered_devices, is_discovering, discover,
}
use lgtv_manager.Manager.MainLoop.{Event, from_caller, new, start, run}
use lgtv_manager.Manager.Ending.{has_shut_down, run-running}
use lgtv_manager.Examples.{console_message, typed, console, await_devices, discover_example}

-- The messages of the caller among the events.
abbrev pub caller_messages : List Event → List ManagerMessage
caller_messages [] = []
caller_messages (from_caller message ∷ es) = message ∷ caller_messages es
caller_messages (_ ∷ es) = caller_messages es

abbrev is_request : ManagerMessage → Bool
is_request shut_down = true
is_request _ = false

abbrev has_request : List ManagerMessage → Bool
has_request [] = false
has_request (m ∷ ms) = is_request m || has_request ms

has_request-append :
    (ms ns : List ManagerMessage) → has_request (ms ++ ns) ≡ (has_request ms || has_request ns)
has_request-append [] ns = refl
has_request-append (m ∷ ms) ns = ground (arith, has_request-append ms ns)

has_request-caller_messages :
    (es : List Event) → has_request (caller_messages es) ≡ has_shut_down es
has_request-caller_messages [] = refl
has_request-caller_messages (e ∷ es) = ground (arith, has_request-caller_messages es)

-- Whether one of the lines is an s.
abbrev pub has_stop : List String → Bool
has_stop [] = false
has_stop (line ∷ lines) = str_eq (trim line) "s" || has_stop lines

abbrev stops : Option ManagerMessage → Bool
stops none = false
stops (some m) = is_request m

stops-console_message : (t : String) → stops (console_message t) ≡ str_eq t "s"
stops-console_message t = elim (Bool-cases (str_eq t "s")) [
  | inl same ↦
      subst (λ u. stops (console_message u) ≡ str_eq u "s") (sym ((eq_iff t "s").0 same)) refl
  | inr other ↦ ground (arith, other)
]

abbrev at : List ManagerMessage → Channel ManagerMessage
at xs = record { sent = xs; room = none }

request-typed :
    (m : Option ManagerMessage) (rest : Channel ManagerMessage → Bool × Channel ManagerMessage)
    (b : Bool) (xs : List ManagerMessage)
    → ((ys : List ManagerMessage)
        → ((rest (at ys)).0 ≡ true) × (has_request (rest (at ys)).1.sent ≡ (has_request ys || b)))
    → ((typed m rest (at xs)).0 ≡ true)
      × (has_request (typed m rest (at xs)).1.sent ≡ (has_request xs || (stops m || b)))
unfolding typed send
request-typed none rest b xs h = h xs
request-typed (some m) rest b xs h =
    ground (arith, h (xs ++ m ∷ []), has_request-append xs (m ∷ []))

request-console :
    (lines : List String) (xs : List ManagerMessage)
    → ((console lines (at xs)).0 ≡ true)
      × (has_request (console lines (at xs)).1.sent ≡ (has_request xs || has_stop lines))
unfolding console
request-console [] xs = (refl, ground arith)
request-console (line ∷ lines) xs =
    let (well, sent) =
      request-typed (console_message (trim line)) (console lines) (has_stop lines) xs
        (request-console lines) in
    (
      well,
      sent ∙ ap (λ q. has_request xs || (q || has_stop lines)) (stops-console_message (trim line)),
    )

-- control.rs: whatever the caller's lines are up to the end of its input, the console's task ends well,
-- and the manager, over any events with the caller's messages among them, ends exactly if one of the
-- lines is an s: the end of the input alone does not end it.
pub control_ends :
    (E : Env) (out_room : Option ℕ) (disk : E.Disk) (checker : Bool) (lines : List String)
    (es : List Event)
    → caller_messages es ≡ (console lines (channel none)).1.sent
    → ((console lines (channel none)).0 ≡ true)
      × ((run es (start none checker (new E out_room disk))).running ≡ not (has_stop lines))
unfolding start
control_ends E out_room disk checker lines es h =
    let (well, sent) = request-console lines [] in
    (
      well,
      run-running es (start none checker (new E out_room disk)) refl
          ∙ ap not (sym (has_request-caller_messages es) ∙ ap has_request h ∙ sent),
    )

abbrev is_told : List (List LgTvDevice) → Bool
is_told [] = false
is_told (_ ∷ _) = true

module _ {M : Type 0} where
  -- The devices that are told among the messages to a caller.
  abbrev pub devices_in : List (ManagerOutputMessage M) → List (List LgTvDevice)
  devices_in [] = []
  devices_in (discovered_devices devices ∷ rest) = devices ∷ devices_in rest
  devices_in (_ ∷ rest) = devices_in rest

  request-await_devices :
      (ms : List (ManagerOutputMessage M)) (xs : List ManagerMessage)
      → has_request (await_devices ms (at xs)).sent ≡ (has_request xs || is_told (devices_in ms))
  unfolding await_devices send
  request-await_devices [] xs = ground arith
  request-await_devices (m ∷ ms) xs =
      ground (arith, request-await_devices ms xs, has_request-append xs (shut_down ∷ []))

abbrev pub is_ok {ℓ κ} : {A : Type ℓ} {B : Type κ} → Result A B → Bool
is_ok (ok a) = true
is_ok (err b) = false

told_devices :
    (E : Env) (net : Neighbours) (rs : Result (List DeviceSpec) Failure)
    → is_told (
        devices_in {M = E.MacAddr}
          (is_discovering true ∷ outcome (given E net rs) ∷ is_discovering false ∷ []))
      ≡ is_ok rs
told_devices E net (ok ds) = refl
told_devices E net (err e) = refl

request-discover_example :
    {M : Type 0} (ms : List (ManagerOutputMessage M))
    → has_request (discover_example ms (channel none)).sent ≡ is_told (devices_in ms)
unfolding discover_example send
request-discover_example ms = request-await_devices ms (discover ∷ [])

-- discover.rs, with the messages of one discovery in any order among others of the manager: the
-- manager, over any events with the program's messages among them, ends exactly if the stream of
-- devices has no error in it, so that a failed discovery leaves the program running.
pub discover_ends :
    (E : Env) (net : Neighbours) (out_room : Option ℕ) (disk : E.Disk) (checker : Bool)
    (stream : List (Result DeviceSpec Failure)) (ms : List (ManagerOutputMessage E.MacAddr))
    (es : List Event)
    → devices_in {M = E.MacAddr} ms
      ≡ devices_in {M = E.MacAddr}
          (discover_task (discover_lgtv_devices E net (ok stream)) (channel none)).sent
    → caller_messages es ≡ (discover_example ms (channel none)).sent
    → (run es (start none checker (new E out_room disk))).running ≡ not (is_ok (all_devices stream))
unfolding start
discover_ends E net out_room disk checker stream ms es told asked =
    run-running es (start none checker (new E out_room disk)) refl
    ∙ ap not (
        sym (has_request-caller_messages es)
        ∙ ap has_request asked
        ∙ request-discover_example ms
        ∙ ap is_told told
        ∙ ap (λ out. is_told (devices_in {M = E.MacAddr} out))
            (sent-discover_lgtv_devices E net stream (channel none))
        ∙ told_devices E net (all_devices stream))
