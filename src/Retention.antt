-- ===== src/Retention.antt =====
-- Retention of logs (api/src/deployment_retention.rs).
pub mod Log
mod Examples
