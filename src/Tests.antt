-- ===== src/Tests.antt =====
-- The theorems at concrete inputs.
pub mod Demo
pub mod Discovering
pub mod Displaying
pub mod Ending
pub mod Jams
pub mod Machine
pub mod Managers
pub mod Managing
pub mod Systems
pub mod Registering
pub mod Retrying
pub mod Tasks
pub mod Programs
pub mod Waking
