-- ===== src/Run.antt =====
-- crates/run: the execution of plans.
pub mod Errors
pub mod Inputs
pub mod InputsLaws
pub mod Executor
pub mod Policy
pub mod StepDag
