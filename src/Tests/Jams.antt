-- ===== src/Tests/Jams.antt =====
-- The theorems on the manager and its state machine with channels of a capacity (src/lgtv_manager.rs
-- and src/state_machine.rs) at concrete runs.
use lgtv_manager.Prelude.{
  ◌↔◌, ◌≤◌, length, false, ℕ, ◌*◌, ◌+◌, ◌≡◌, refl, ap, [], inl, suc, true, none, arith,
}
use lgtv_manager.TvCommand.{volume_up}
use lgtv_manager.Manager.Messages.{send_tv_command}
use lgtv_manager.Manager.MainLoop.{from_caller, step}
use lgtv_manager.System.{inputs, Reach, started}
use lgtv_manager.System.Turns.{first-tx}
use lgtv_manager.System.Bounded.{
  Bounded, BoundedStep, takes, asks_end, updates_sent, BoundedReach, here, next, opened,
  channel_capacity,
}
use lgtv_manager.System.Bounded.Commands.{commanded, commanded-tx, first}
use lgtv_manager.System.Bounded.Refines.{Holds, bounded_run}
use lgtv_manager.System.Bounded.Progress.{Blocks, Hangs, stuck_forever}
use lgtv_manager.System.Bounded.Closing.{shut_down_ends_iff}
use mathlib.Core.WellFounded.{Acc}
use lgtv_manager.System.Bounded.Settling.{Goes}
use lgtv_manager.System.Bounded.Ends.{Arrives, comes_to_rest}
use lgtv_manager.System.Bounded.Jams.{commands_jam}
use lgtv_manager.Tests.Demo.{demo, demo_fsm, demo_fsm-IsRustFsm}

abbrev Jam : Type 0
Jam =
    (s : Bounded demo) × (n : ℕ) × BoundedReach demo_fsm channel_capacity
      (opened demo none none true) s
    × (s.system.loop ≡ commanded volume_up n (first demo none none true))
    × (n ≡ 2 * channel_capacity + 2)
    × Blocks channel_capacity s

commands_jam_example :
    Jam
    × ((s : Bounded demo) × BoundedReach demo_fsm channel_capacity (opened demo none none true) s
        × (s.system.loop ≡ commanded volume_up (suc channel_capacity) (first demo none none true))
        × Hangs channel_capacity s)
commands_jam_example =
    commands_jam demo demo_fsm demo_fsm-IsRustFsm channel_capacity volume_up none none true
      (omega arith)

-- One command taken.
abbrev taken : Bounded demo
taken = record (opened demo none none true) {
  system = record (started demo none none true) {
    loop = step (from_caller (send_tv_command volume_up)) (first demo none none true);
  };
}

taken-reach : BoundedReach demo_fsm channel_capacity (opened demo none none true) taken
taken-reach =
    let (runs, tx) = first-tx demo none none true in
    next here (takes (from_caller (send_tv_command volume_up)) refl refl runs refl (ap inputs tx))

taken-runs : taken.system.loop.running ≡ true
taken-runs =
    let (runs, tx) = first-tx demo none none true in
    (commanded-tx volume_up 1 (first demo none none true) [] runs tx).0

jam : Jam
jam =
    (commands_jam demo demo_fsm demo_fsm-IsRustFsm channel_capacity volume_up none none true
      (omega arith)).0

bounded_run_example :
    Reach demo_fsm (started demo none none true) taken.system
    × Holds channel_capacity taken.system.inputs_read taken.inputs_in
    × Holds channel_capacity taken.system.updates_read taken.updates_in
bounded_run_example =
    bounded_run demo_fsm demo_fsm-IsRustFsm channel_capacity none none true taken-reach

stuck_forever_example : ¬ BoundedStep demo_fsm channel_capacity jam.0 taken
stuck_forever_example = stuck_forever demo_fsm demo_fsm-IsRustFsm channel_capacity (inl jam.5)

-- A request to shut down at once.
abbrev ending : Bounded demo
ending = record (opened demo none none true) { closing = true }

ending-reach : BoundedReach demo_fsm channel_capacity (opened demo none none true) ending
ending-reach =
    let (runs, tx) = first-tx demo none none true in next here (asks_end runs refl (ap inputs tx))

shut_down_ends_iff_example :
    ((t : Bounded demo) × BoundedReach demo_fsm channel_capacity ending t
      × (t.system.loop.running ≡ false))
    ↔ (length (updates_sent ending) ≤ length ending.system.updates_read + channel_capacity)
shut_down_ends_iff_example =
    shut_down_ends_iff demo_fsm demo_fsm-IsRustFsm channel_capacity none none true ending-reach
      (first-tx demo none none true).0 refl

comes_to_rest_example :
    Acc (Goes demo_fsm channel_capacity) taken × Arrives demo_fsm channel_capacity taken
comes_to_rest_example =
    comes_to_rest demo_fsm demo_fsm-IsRustFsm channel_capacity none none true (omega arith)
      taken-reach taken-runs
