-- ===== src/Agent/Types.antt =====
-- crates/agent/src/canvas_edit.rs: plans of edits, and their errors.
use helixflow.Base.{ℕ, String, Bool, true, false, ◌||◌, Option, List, if◌then◌else◌, same}
use helixflow.Json.{Value}
use helixflow.Registry.Types.{RegistryError}
use helixflow.Graph.Types.{WorkflowGraph, ProposalOp, GraphError, Pair}

pub data CanvasEditOp : Type 0 where
  add_node :
      (id node_type : String) (title : Option String) (position : Option Pair)
      (model : Option String) (params : Value)
      → CanvasEditOp
  update_node : (id : String) (params : Option Value) → CanvasEditOp
  move_node : (id : String) (position : Pair) → CanvasEditOp
  remove_node : (id : String) → CanvasEditOp
  connect : (source source_handle target target_handle : String) → CanvasEditOp
  disconnect : (source source_handle target target_handle : String) → CanvasEditOp

pub record CanvasEditPlan : Type 0 where
  pub operations : List CanvasEditOp
  pub summary : Option String

-- What stands in `Graph` as a message.
pub data EditFault : Type 0 where
  refused : (cause : GraphError) → EditFault
  unlisted_params : (cause : RegistryError) → EditFault
  no_edge : (source source_handle target target_handle : String) → EditFault

pub data CanvasEditError : Type 0 where
  empty : CanvasEditError
  too_many_operations : (count : ℕ) → CanvasEditError
  invalid_id : (id : String) → CanvasEditError
  unknown_node_type : (node_type : String) → CanvasEditError
  unknown_node : (id : String) → CanvasEditError
  params_not_object : (id : String) → CanvasEditError
  missing_param : (node_id param : String) → CanvasEditError
  port_mismatch : (from to : String) → CanvasEditError
  missing_port : (node_id port : String) → CanvasEditError
  resolve : (node_id code reason : String) → CanvasEditError
  graph : (fault : EditFault) → CanvasEditError

-- The codes of a resolution that the user can settle.
abbrev asks_user : String → Bool
asks_user code =
    same code "BINDING_NOT_FOUND"
    || same code "MODEL_NOT_FOUND"
    || same code "MODEL_AMBIGUOUS"
    || same code "BINDING_AMBIGUOUS"
    || same code "BINDING_UNAVAILABLE"

-- `CanvasEditError::code`
unfoldable pub edit_code : CanvasEditError → String
unfolding same
edit_code (missing_param node_id param) = "REQUIRED_INPUT_MISSING"
edit_code (resolve node_id code reason) =
    if asks_user code || same code "CAPABILITY_NOT_FOUND" then code else "CANVAS_EDIT_INVALID"
edit_code _ = "CANVAS_EDIT_INVALID"

unfoldable pub is_clarify : CanvasEditError → Bool
unfolding same
is_clarify (missing_param node_id param) = true
is_clarify (resolve node_id code reason) = asks_user code
is_clarify _ = false

pub record CompiledCanvasEdit : Type 0 where
  pub ops : List ProposalOp
  pub preview : WorkflowGraph
