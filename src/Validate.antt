-- ===== src/Validate.antt =====
-- core/validate: the checks on a workflow's graph. The validation against JSON Schemas is a
-- library's.
pub mod Problem
pub mod Cycle
pub mod Nodes
pub mod Graph
pub mod Linked
pub mod Accepted
