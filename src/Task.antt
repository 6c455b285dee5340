-- ===== src/Task.antt =====
-- Operation tasks (api/src/tasks.rs).
pub mod Types
pub mod Names
pub mod Service
pub mod Finish
pub mod Phases
pub mod Steps
pub mod Queue
pub mod Lifecycle
pub mod Cancellation
pub mod Endings
pub mod Shrinks
pub mod Exclusive
pub mod Current
mod Examples
