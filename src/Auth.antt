-- ===== src/Auth.antt =====
-- Accounts and their sessions (api/src/auth).
pub mod Types
pub mod Store
pub mod Names
pub mod Service
pub mod Sessions
pub mod Accounts
pub mod ApiTokens
pub mod Changes
pub mod History
pub mod Fixtures
mod Examples
