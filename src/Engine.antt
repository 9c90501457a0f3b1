-- ===== src/Engine.antt =====
-- The monitoring core, crates/engine/src: one module for each of its files, and for the parts of the
-- scheduler that stand by themselves.
pub mod Flap
pub mod Assignments
pub mod Deadline
pub mod Target
pub mod Alerts
pub mod Scheduler
pub mod Watchdog
pub mod Writer
pub mod Pruner
pub mod Shutdown
