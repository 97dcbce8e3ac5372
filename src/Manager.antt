-- ===== src/Manager.antt =====
-- The manager (src/lgtv_manager.rs and the files under src/lgtv_manager/), an object that its methods
-- change: a method returns the new manager.
pub mod Messages
pub mod State
pub mod Senders
pub mod Persisted
pub mod Reset
pub mod Network
pub mod Orchestration
pub mod Handlers
pub mod MainLoop
pub mod Builder
pub mod Invariant
pub mod Equality
pub mod Inputs
pub mod Resetting
pub mod Connecting
pub mod Retrying
pub mod Starting
pub mod Failing
pub mod Persistence
pub mod Disconnecting
pub mod Cancelling
pub mod Ending
pub mod Waking
pub mod Listening
pub mod Registering
pub mod Refusing
