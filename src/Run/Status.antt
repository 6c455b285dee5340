-- ===== src/Run/Status.antt =====
-- The status tests of the WHERE clauses, a module for each table
-- (api/src/deployment_orchestrator.rs).
pub mod Runs
pub mod Units
pub mod Tasks
pub mod Steps
