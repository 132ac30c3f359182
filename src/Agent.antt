-- ===== src/Agent.antt =====
-- crates/agent: the edits of the canvas that an agent asks for.
pub mod Types
pub mod Bindings
pub mod CanvasEdit
