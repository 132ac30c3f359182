-- ===== src/Graph.antt =====
-- crates/graph: the workflow graph, its validation, its operations, its plans and its proposals.
pub mod Types
pub mod Lineage
pub mod LineageLaws
pub mod Validation
pub mod Operations
pub mod Topology
pub mod Proposal
pub mod Plan
pub mod PlanLaws
pub mod Semantics
pub mod SemanticsLaws
pub mod Migration
