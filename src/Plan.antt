-- ===== src/Plan.antt =====
-- The deployment planner and the executor of its plans.
pub mod Types
pub mod Classify
pub mod Build
pub mod Waves
pub mod Fixtures
mod Examples
