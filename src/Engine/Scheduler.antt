-- ===== src/Engine/Scheduler.antt =====
-- core/engine/scheduler.go: the coordinator of a run.
pub mod Graph
pub mod Coordinator
pub mod Completion
pub mod Loop
pub mod Shapes
pub mod Outstanding
pub mod Settling
pub mod Reachable
pub mod Torn
pub mod Teardown
pub mod Fed
pub mod Feeding
pub mod Verdict
pub mod Success
pub mod Dispatch
pub mod Drains
pub mod Ends
