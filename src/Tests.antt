-- ===== src/Tests.antt =====
-- Runs of the modelled functions at small inputs, and the theorems at those inputs.
mod Samples
mod Registries
mod Executions
mod Graphs
mod Operations
mod Proposals
mod Resolutions
mod Migrations
mod Runs
mod Catalogs
mod Compilations
mod CanvasEdits
