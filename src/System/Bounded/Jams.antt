-- ===== src/System/Bounded/Jams.antt =====
-- How the manager (src/lgtv_manager.rs) and its state machine (src/state_machine.rs) come to wait for
-- each other: the caller sends commands while the TV is not connected, each of which the state machine
-- refuses with a message, and the manager takes them before it reads those messages.
use lgtv_manager.Prelude.{
  ℕ, zero, suc, ◌+◌, ◌*◌, ◌≤◌, ◌<◌, ◌≡◌, refl, ap, Bool, true, false, Option, [], arith,
}
use lgtv_manager.Environment.{Env}
use lgtv_manager.StateMachine.Task.{RustFsm, IsRustFsm}
use lgtv_manager.TvCommand.{TvCommand}
use lgtv_manager.Manager.Messages.{send_tv_command}
use lgtv_manager.Manager.MainLoop.{from_caller}
use lgtv_manager.System.{inputs}
use lgtv_manager.System.Turns.{first-tx}
use lgtv_manager.System.Bounded.{
  Bounded, takes, asks_end, input_enters, update_enters, machine_reads, opened, BoundedReach, here,
  next,
}
use lgtv_manager.System.Bounded.Progress.{Blocks, Hangs}
use lgtv_manager.System.Bounded.Commands.{
  again, snoc, length-again, asks, commanded, commanded-tx, first, refuses, refusing, refusing-sent,
}

module _ (E : Env) (lib : RustFsm) (law : IsRustFsm lib) (c : TvCommand) (out_room : Option ℕ)
    (disk : E.Disk) (checker : Bool) where
  -- So many commands taken, so many read and answered, and so many of both in their channels.
  abbrev after : ℕ → ℕ → ℕ → ℕ → Bounded E
  after taken entered answered told = record {
    system = record {
      loop = commanded c taken (first E out_room disk checker);
      fsm = refusing lib law c answered;
      inputs_read = again answered (snoc (asks c)) [];
      updates_read = [];
    };
    inputs_in = again entered (snoc (asks c)) [];
    updates_in = again told (snoc (refuses lib law c)) [];
    closing = false;
  }

  runs : (n : ℕ) → (commanded c n (first E out_room disk checker)).running ≡ true
  runs n =
      let (r, e) = first-tx E out_room disk checker in
      (commanded-tx c n (first E out_room disk checker) [] r e).0

  sends :
      (n : ℕ)
      → inputs (commanded c n (first E out_room disk checker)).manager.to_fsm_tx
        ≡ again n (snoc (asks c)) []
  sends n =
      let (r, e) = first-tx E out_room disk checker in
      ap inputs (commanded-tx c n (first E out_room disk checker) [] r e).1

module _ (E : Env) (lib : RustFsm) (law : IsRustFsm lib) (capacity : ℕ) (c : TvCommand)
    (out_room : Option ℕ) (disk : E.Disk) (checker : Bool) where
  -- A state of `after` that can be reached.
  abbrev Reached : ℕ → ℕ → ℕ → ℕ → Type 0
  Reached taken entered answered told =
      BoundedReach lib capacity (opened E out_room disk checker)
        (after E lib law c out_room disk checker taken entered answered told)

  abbrev there : ℕ → ℕ → ℕ → ℕ → Bounded E
  there taken entered answered told =
      after E lib law c out_room disk checker taken entered answered told

  take : (n a t : ℕ) → Reached n n a t → Reached (suc n) n a t
  take n a t r = next r (
      takes (from_caller (send_tv_command c)) refl refl (runs E lib law c out_room disk checker n)
        refl (sends E lib law c out_room disk checker n))

  enter : (n a t : ℕ) → n < a + capacity → Reached (suc n) n a t → Reached (suc n) (suc n) a t
  enter n a t room r = next r (
      input_enters (asks c) [] (sends E lib law c out_room disk checker (suc n))
        (omega (arith, length-again (asks c) [] n, length-again (asks c) [] a, room)))

  answer : (n a : ℕ) → Reached n (suc a) a a → Reached n (suc a) (suc a) a
  answer n a r = next r (
      machine_reads (asks c) [] (runs E lib law c out_room disk checker n)
        (refusing-sent lib law c a) refl)

  tell : (n a : ℕ) → a < capacity → Reached n n (suc a) a → Reached n n (suc a) (suc a)
  tell n a room r = next r (
      update_enters (refuses lib law c) [] (refusing-sent lib law c (suc a))
        (omega (arith, length-again (refuses lib law c) [] a, room)))

  -- One more command, taken, read and answered.
  handled : (n : ℕ) → 0 < capacity → Reached n n n n → Reached (suc n) (suc n) (suc n) n
  handled n z r = answer (suc n) n (enter n n n (omega arith) (take n n n r))

  all_told : (n : ℕ) → 0 < capacity → n ≤ capacity → Reached n n n n
  all_told zero z h = here
  all_told (suc n) z h = tell (suc n) n (omega arith) (handled n z (all_told n z (omega arith)))

  -- The first answer that does not enter, and more commands, which are not read.
  untold : 0 < capacity → Reached (suc capacity) (suc capacity) (suc capacity) capacity
  untold z = handled capacity z (all_told capacity z (omega arith))

  abbrev more : ℕ → ℕ
  more n = again n suc (suc capacity)

  more_lem : (n : ℕ) → more n ≡ suc capacity + n
  more_lem zero = omega arith
  more_lem (suc n) = omega (arith, more_lem n)

  filled : (n : ℕ) → 0 < capacity → n ≤ capacity → Reached (more n) (more n) (suc capacity) capacity
  filled zero z h = untold z
  filled (suc n) z h =
      enter (more n) (suc capacity) capacity (omega (arith, more_lem n, h))
        (take (more n) (suc capacity) capacity (filled n z (omega arith)))

  commands-Blocks :
      0 < capacity
      → (s : Bounded E) × (n : ℕ) × BoundedReach lib capacity (opened E out_room disk checker) s
        × (s.system.loop ≡ commanded c n (first E out_room disk checker))
        × (n ≡ 2 * capacity + 2)
        × Blocks capacity s
  commands-Blocks z =
      let n = more capacity in
      (
        there (suc n) n (suc capacity) capacity,
        suc n,
        take n (suc capacity) capacity (filled capacity z (omega arith)),
        refl,
        omega (arith, more_lem capacity),
        (
          refl,
          (
            (asks c, [], sends E lib law c out_room disk checker (suc n)),
            omega (
              arith,
              more_lem capacity,
              length-again (asks c) [] n,
              length-again (asks c) [] (suc capacity),
            ),
          ),
          (
            (refuses lib law c, [], refusing-sent lib law c (suc capacity)),
            length-again (refuses lib law c) [] capacity,
          ),
        ),
      )

  shut_down-Hangs :
      0 < capacity
      → (s : Bounded E) × BoundedReach lib capacity (opened E out_room disk checker) s
        × (s.system.loop ≡ commanded c (suc capacity) (first E out_room disk checker))
        × Hangs capacity s
  shut_down-Hangs z = (
    record (there (suc capacity) (suc capacity) (suc capacity) capacity) { closing = true },
    next (untold z) (
        asks_end (runs E lib law c out_room disk checker (suc capacity)) refl
          (sends E lib law c out_room disk checker (suc capacity))),
    refl,
    (
      refl,
      sends E lib law c out_room disk checker (suc capacity),
      (
        (refuses lib law c, [], refusing-sent lib law c (suc capacity)),
        length-again (refuses lib law c) [] capacity,
      ),
    ),
  )

  -- With channels of any capacity but 0, a caller that sends any command while no TV is connected can
  -- bring the tasks to wait for each other's room, with twice as many commands as a channel takes and
  -- two more, and can have a request to shut down hang, with one command more than a channel takes:
  -- namely if the manager takes all of that before it reads any message of the state machine.
  pub commands_jam :
      0 < capacity
      → ((s : Bounded E) × (n : ℕ) × BoundedReach lib capacity (opened E out_room disk checker) s
          × (s.system.loop ≡ commanded c n (first E out_room disk checker))
          × (n ≡ 2 * capacity + 2)
          × Blocks capacity s)
        × ((s : Bounded E) × BoundedReach lib capacity (opened E out_room disk checker) s
            × (s.system.loop ≡ commanded c (suc capacity) (first E out_room disk checker))
            × Hangs capacity s)
  commands_jam z = (commands-Blocks z, shut_down-Hangs z)
