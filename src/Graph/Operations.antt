-- ===== src/Graph/Operations.antt =====
-- crates/graph/src/lib.rs: `apply_op_in_place` and `apply_ops`, and `spawn_derived` of
-- semantics.rs. The graph that an operation mutates is returned; where the operation fails the
-- source's callers discard it.
pub mod Frame
pub mod Effects
pub mod SetParam
use helixflow.Base.{
  ℕ, String, Bool, true, false, not, ◌&&◌, ◌||◌, Option, none, some, List, [], ◌∷◌, ◌++◌, Result,
  ok, err, ok_or, map_err, ensure, ◌>>=◌, ◌>>◌, if◌then◌else◌, ◌==◌, length, same, retain,
}
use helixflow.Base.Assoc
use helixflow.Base.Assoc.{BTreeMap}
use helixflow.Json.{Value, as_object, of_map, same_value}
use helixflow.Registry.{NodeRegistry, definition}
use helixflow.Graph.Lineage.{LineagePorts, matching_connection_ports}
use helixflow.Graph.Types.{
  WorkflowGraph, GraphNode, GraphEdge, GraphResult, ProposalOp, add_node, remove_node, set_param,
  add_edge, remove_edge, move_node, resize_node, set_semantics, spawn_node, same_edge, registry,
  duplicate_node, missing_node, missing_edge, params_not_object, set_param_conflict,
  no_lineage_connection,
}

-- `nodes.get_mut(id)`, a write to the node, and the error where there is none.
unfoldable pub write_node :
    String → (GraphNode → GraphNode) → WorkflowGraph → GraphResult WorkflowGraph
unfolding Assoc.lookup Assoc.adjust
write_node id f graph = do
  node ← ok_or (Assoc.lookup id graph.nodes) (missing_node id)
  ok (record graph { nodes = Assoc.adjust id f graph.nodes })

-- `current.as_ref() != Some(expected)`
abbrev pub is_current : Option Value → Value → Bool
is_current none expected = false
is_current (some v) expected = same_value v expected

-- The optimistic check of `set_param`.
abbrev pub agrees : Option Value → Option Value → Bool
agrees none current = true
agrees (some expected) current = is_current current expected

unfoldable pub apply_set_param :
    WorkflowGraph → String → String → Option Value → Value → GraphResult WorkflowGraph
unfolding Assoc.lookup Assoc.insert Assoc.adjust as_object of_map same_value
apply_set_param graph id key prev value = do
  node ← ok_or (Assoc.lookup id graph.nodes) (missing_node id)
  params ← ok_or (as_object node.params) (params_not_object id)
  ensure (agrees prev (Assoc.lookup key params)) (set_param_conflict id key)
  ok (record graph {
    nodes =
        Assoc.adjust id
          (λ n. record n { params = Value.object (of_map (Assoc.insert key value params)) })
          graph.nodes;
  })

abbrev pub touches : String → GraphEdge → Bool
touches id e = same e.from.0 id || same e.to.0 id

abbrev pub lineage_edge : String → String → LineagePorts → GraphEdge
lineage_edge from id ports = record {
  from = (from, ports.source_port);
  to = (id, ports.target_port);
  edge_type = ports.edge_type;
}

unfoldable pub spawn_derived :
    NodeRegistry → WorkflowGraph → String → GraphNode → String → GraphResult WorkflowGraph
unfolding Assoc.lookup Assoc.insert definition matching_connection_ports same
spawn_derived reg graph id node from = do
  ensure (not (same from id)) (no_lineage_connection from id)
  source ← ok_or (Assoc.lookup from graph.nodes) (missing_node from)
  ensure (not (Assoc.contains_key id graph.nodes)) (duplicate_node id)
  source_def ← map_err registry (definition reg source.node_type)
  target_def ← map_err registry (definition reg node.node_type)
  ports ← ok_or (matching_connection_ports source_def target_def) (no_lineage_connection from id)
  ok (record graph {
    nodes = Assoc.insert id node graph.nodes;
    edges = graph.edges ++ lineage_edge from id ports ∷ [];
  })

unfoldable pub apply_op : NodeRegistry → WorkflowGraph → ProposalOp → GraphResult WorkflowGraph
unfolding Assoc.lookup Assoc.insert Assoc.remove write_node apply_set_param spawn_derived same
    same_edge
apply_op reg graph (add_node id node) =
    if Assoc.contains_key id graph.nodes
    then err (duplicate_node id)
    else ok (record graph { nodes = Assoc.insert id node graph.nodes })
apply_op reg graph (remove_node id) = do
  node ← ok_or (Assoc.lookup id graph.nodes) (missing_node id)
  ok (record graph {
    nodes = Assoc.remove id graph.nodes;
    edges = retain (λ e. not (touches id e)) graph.edges;
  })
apply_op reg graph (set_param id key prev value) = apply_set_param graph id key prev value
apply_op reg graph (add_edge e) = ok (record graph { edges = graph.edges ++ e ∷ [] })
apply_op reg graph (remove_edge e) =
    let kept = retain (λ c. not (same_edge c e)) graph.edges in
    if length kept == length graph.edges
    then err (missing_edge e)
    else ok (record graph { edges = kept })
apply_op reg graph (move_node id pos) = write_node id (λ n. record n { pos = pos }) graph
apply_op reg graph (resize_node id size) = write_node id (λ n. record n { size = some size }) graph
apply_op reg graph (set_semantics id semantics) =
    write_node id (λ n. record n { semantics = semantics }) graph
apply_op reg graph (spawn_node id node from) = spawn_derived reg graph id node from

unfoldable pub apply_ops :
    NodeRegistry → WorkflowGraph → List ProposalOp → GraphResult WorkflowGraph
unfolding apply_op
apply_ops reg graph [] = ok graph
apply_ops reg graph (op ∷ ops) = do graph' ← apply_op reg graph op; apply_ops reg graph' ops
