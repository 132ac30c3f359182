-- ===== src/Agent/CanvasEdit.antt =====
-- crates/agent/src/canvas_edit.rs: edits of the canvas compiled into operations on the graph. The
-- catalog, which the source builds once, is an argument.
pub mod Translated
pub mod Bounds
pub mod Sound
use helixflow.Base.{
  ℕ, String, Bool, true, false, not, ◌&&◌, ◌||◌, Option, none, some, List, [], ◌∷◌, ◌++◌, map,
  Result, ok, err, ok_or, map_err, ensure, for_each, ◌>>=◌, ◌>>◌, if◌then◌else◌, ltb, leb, ◌==◌,
  length, all, find, same, is_some, concat, byte_len,
}
use Prim.Native.Char.{Char, code}
use helixflow.Base.Assoc
use helixflow.Base.Assoc.{BTreeMap}
use helixflow.Json.{Value, finite, pos, as_object, as_str, of_map, is_null}
use helixflow.Registry.{NodeRegistry, definition, validate_node_params}
use helixflow.Registry.Types.{
  NodeDefinition, PortDefinition, RegistryError, missing_required_param, same_port_type,
}
use helixflow.Registry.Names.{CharTables, Text, codes}
use helixflow.Registry.Params.{is_empty}
use helixflow.Registry.Catalog.{CatalogSnapshot, CapabilityBinding, ConnectorDefinition, binding}
use helixflow.Registry.Resolver
use helixflow.Registry.Resolver.{
  ResolveRequest, ResolvedImplementation, ResolveError, ConnectorAvailability, error_code,
}
use helixflow.Registry.Resolver.Display.{display}
use helixflow.Graph.Types.{
  WorkflowGraph, GraphNode, GraphEdge, ProposalOp, NodeSemanticsEntry, Pair, pinned,
  port_type_label,
}
use helixflow.Graph.Operations.{apply_ops}
use helixflow.Agent.Types.{
  CanvasEditOp, CanvasEditPlan, CanvasEditError, CompiledCanvasEdit, connect, disconnect,
  update_node, empty, too_many_operations, invalid_id, unknown_node_type, unknown_node,
  params_not_object, missing_param, port_mismatch, missing_port, refused, unlisted_params, no_edge,
}
use helixflow.Agent.Bindings.{
  Edited, max_operations, ensure_id, params_object, trim, title_of, resolve_semantics,
}

-- `registry.definition(...)`, with an error of the edit.
abbrev pub known_type : NodeRegistry → String → Edited NodeDefinition
known_type reg node_type =
    map_err (λ (e : RegistryError). unknown_node_type node_type) (definition reg node_type)

abbrev handle : String → String → String
handle node port = concat (node ∷ "." ∷ port ∷ [])

unfoldable pub typed_edge :
    NodeRegistry → WorkflowGraph → String → String → String → String → Edited GraphEdge
unfolding Assoc.lookup definition same_port_type port_type_label same
typed_edge reg graph source source_handle target target_handle = do
  source_node ← ok_or (Assoc.lookup source graph.nodes) (unknown_node source)
  target_node ← ok_or (Assoc.lookup target graph.nodes) (unknown_node target)
  source_def ← known_type reg source_node.node_type
  target_def ← known_type reg target_node.node_type
  output ←
      ok_or (find (λ (p : PortDefinition). same p.name source_handle) source_def.outputs)
        (missing_port source source_handle)
  input ←
      ok_or (find (λ (p : PortDefinition). same p.name target_handle) target_def.inputs)
        (missing_port target target_handle)
  ensure (same_port_type output.port_type input.port_type)
      (port_mismatch (handle source source_handle) (handle target target_handle))
  ok (record {
    from = (source, source_handle);
    to = (target, target_handle);
    edge_type = port_type_label output.port_type;
  })

abbrev pub set_params : String → BTreeMap Value → List ProposalOp
set_params id [] = []
set_params id ((key, value) ∷ object) =
    ProposalOp.set_param id key none value ∷ set_params id object

-- The test that a node is there.
abbrev pub ensure_node : WorkflowGraph → String → Edited (Unit {0})
ensure_node graph id = ensure (Assoc.contains_key id graph.nodes) (unknown_node id)

abbrev pub update_ops : String → Option Value → Edited (List ProposalOp)
update_ops id none = ok []
update_ops id (some params) = do object ← params_object id params; ok (set_params id object)

abbrev position_of : Option Pair → Pair
position_of none = (finite (pos 0), finite (pos 0))
position_of (some p) = p

abbrev pub joins : String → String → String → String → GraphEdge → Bool
joins source source_handle target target_handle e =
    same e.from.0 source
    && same e.from.1 source_handle
    && same e.to.0 target
    && same e.to.1 target_handle

module _ (tables : CharTables) (reg : NodeRegistry) (catalog : CatalogSnapshot)
    (availability : ConnectorAvailability) (connector_preference : Option String) where
  unfoldable pub translate_add :
      String
      → String
      → Option String
      → Option Pair
      → Option String
      → Value
      → Edited (List ProposalOp)
  unfolding ensure_id definition params_object resolve_semantics trim of_map
  translate_add id node_type title position model params = do
    ensure_id id
    def ← known_type reg node_type
    object ← params_object id params
    bound ←
        resolve_semantics tables catalog availability connector_preference id def.capability model
          object
    ok (
        ProposalOp.add_node id (record {
          node_type = node_type;
          title = title_of tables title def.title;
          params = Value.object (of_map bound.0);
          pos = position_of position;
          size = none;
          semantics = bound.1;
        })
        ∷ [])

  unfoldable pub translate_op : CanvasEditOp → WorkflowGraph → Edited (List ProposalOp)
  unfolding translate_add ensure_id params_object typed_edge Assoc.lookup same
  translate_op (CanvasEditOp.add_node id node_type title position model params) graph =
      translate_add id node_type title position model params
  translate_op (update_node id params) graph = do
    ensure_id id
    ensure_node graph id
    update_ops id params
  translate_op (CanvasEditOp.move_node id position) graph = do
    ensure_id id
    ensure_node graph id
    ok (ProposalOp.move_node id position ∷ [])
  translate_op (CanvasEditOp.remove_node id) graph = do
    ensure_id id
    ensure_node graph id
    ok (ProposalOp.remove_node id ∷ [])
  translate_op (connect source source_handle target target_handle) graph = do
    ensure_id source
    ensure_id target
    edge ← typed_edge reg graph source source_handle target target_handle
    ok (ProposalOp.add_edge edge ∷ [])
  translate_op (disconnect source source_handle target target_handle) graph = do
    ensure_id source
    ensure_id target
    edge ←
        ok_or (find (joins source source_handle target target_handle) graph.edges)
          (CanvasEditError.graph (no_edge source source_handle target target_handle))
    ok (ProposalOp.remove_edge edge ∷ [])

  -- The loop over the operations, each translated for the graph that the ones before have made.
  unfoldable pub edit_loop :
      List CanvasEditOp → WorkflowGraph → Edited (List ProposalOp × WorkflowGraph)
  unfolding translate_op apply_ops
  edit_loop [] graph = ok ([], graph)
  edit_loop (operation ∷ operations) graph = do
    next ← translate_op operation graph
    graph' ← map_err (λ e. CanvasEditError.graph (refused e)) (apply_ops reg graph next)
    rest ← edit_loop operations graph'
    ok (next ++ rest.0, rest.1)

  -- `validate_node_params`, with an error of the edit.
  abbrev params_error : String → RegistryError → CanvasEditError
  params_error node_id (missing_required_param node_type param) = missing_param node_id param
  params_error node_id (RegistryError.params_not_object node_type) = params_not_object node_id
  params_error node_id e = CanvasEditError.graph (unlisted_params e)

  abbrev pub check_params : String × GraphNode → Edited (Unit {0})
  check_params (node_id, node) =
      map_err (params_error node_id) (validate_node_params reg node.node_type node.params)

  unfoldable pub compile_canvas_edit_with :
      CanvasEditPlan → WorkflowGraph → Edited CompiledCanvasEdit
  unfolding edit_loop validate_node_params
  compile_canvas_edit_with plan base = do
    ensure (not (is_empty plan.operations)) empty
    ensure (leb (length plan.operations) max_operations)
        (too_many_operations (length plan.operations))
    done ← edit_loop plan.operations base
    for_each check_params done.1.nodes
    ok (record { ops = done.0; preview = done.1 })

-- Every connector of the catalog, available.
abbrev pub all_connectors : List ConnectorDefinition → ConnectorAvailability → ConnectorAvailability
all_connectors [] available = available
all_connectors (c ∷ cs) available = all_connectors cs (Assoc.insert c.connector_id true available)

unfoldable pub compile_canvas_edit :
    CharTables
    → NodeRegistry
    → CatalogSnapshot
    → CanvasEditPlan
    → WorkflowGraph
    → Edited CompiledCanvasEdit
unfolding compile_canvas_edit_with Assoc.insert
compile_canvas_edit tables reg catalog plan base =
    compile_canvas_edit_with tables reg catalog (all_connectors catalog.connectors []) none plan
      base
