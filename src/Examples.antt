-- ===== src/Examples.antt =====
-- Small runs of the code, and the theorems of the library at concrete inputs.
pub mod Samples
pub mod Runs
pub mod Parts
pub mod Logs
pub mod Stores
pub mod Graphs
pub mod Tools
pub mod Audits
pub mod Workers
