-- ===== src/Run.antt =====
-- Deployment runs in the database.
pub mod Types
pub mod Status
pub mod Claim
pub mod Outcome
pub mod Counts
pub mod Cancel
pub mod Finalize
pub mod Recover
pub mod Close
pub mod Wave
pub mod Execute
pub mod Catalog
pub mod Create
pub mod History
pub mod Fixtures
mod Examples
