-- ===== src/Domain.antt =====
-- The data of a workflow and of a run: core/domain, and the JSON values and errors that the engine
-- handles. Go's string-typed enumerations hold any text, so each has a constructor for the rest.
pub mod Value
pub mod Workflow
pub mod Event
pub mod Error
pub mod Diagnostic
