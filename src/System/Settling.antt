-- ===== src/System/Settling.antt =====
-- The turns of the manager (src/lgtv_manager.rs) and its state machine (src/state_machine.rs) that take
-- nothing from outside.
pub mod Lower
pub mod Weights
use lgtv_manager.Prelude.{◌≡◌, Bool, true, false}
use lgtv_manager.Environment.{Env}
use lgtv_manager.StateMachine.Task.{RustFsm}
use lgtv_manager.System.{System, SystemStep, outside, machine_turn, manager_turn}

module _ {E : Env} (lib : RustFsm) where
  -- A turn that takes nothing from outside.
  abbrev pub is_inner : {s t : System E} → SystemStep lib s t → Bool
  is_inner (outside e o) = false
  is_inner (machine_turn i rest runs queued) = true
  is_inner (manager_turn u ticks rest runs queued) = true

  abbrev pub Inner : System E → System E → Type 0
  Inner t s = (st : SystemStep lib s t) × (is_inner st ≡ true)
