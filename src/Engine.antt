-- ===== src/Engine.antt =====
-- core/engine: the workflow runtime.
pub mod Types
pub mod Conditional
pub mod Retry
pub mod Budget
pub mod Inputs
pub mod Scheduler
pub mod Resume
pub mod Approval
pub mod ToolInput
pub mod Node
pub mod ToolCall
pub mod ToolExecutor
pub mod WorkerExecutor
