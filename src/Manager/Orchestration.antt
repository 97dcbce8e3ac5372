-- ===== src/Manager/Orchestration.antt =====
-- The flows of src/lgtv_manager/orchestration.rs.
pub mod Connect
pub mod Reconnect
pub mod Responses
