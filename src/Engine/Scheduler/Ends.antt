-- ===== src/Engine/Scheduler/Ends.antt =====
-- The coordinator loop of core/engine/scheduler.go ends.
pub mod Work
pub mod Handled
pub mod Bound
pub mod Runs
