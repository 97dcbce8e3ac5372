-- ===== src/Manager/Handlers.antt =====
-- The arms of `select!` in `LgTvManager::run` (src/lgtv_manager.rs), one child for each sender of
-- messages.
pub mod Caller
pub mod Machine
pub mod Socket
pub mod Network
