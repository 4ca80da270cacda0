-- ===== src/Workflow.antt =====
-- src/workflow: the status ladder, and the scope of a run.
pub mod Status
pub mod Scope
pub mod Ladder
pub mod Compile
pub mod Facade
