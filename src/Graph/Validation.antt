-- ===== src/Graph/Validation.antt =====
-- crates/graph/src/lib.rs: `validate_graph`, `validate_graph_for_migration` and the tests on edges.
pub mod Sound
pub mod Complete
use helixflow.Base.{
  ℕ, String, Bool, true, false, not, ◌&&◌, ◌||◌, Option, none, some, List, [], ◌∷◌, Result, ok, err,
  ok_or, map_err, ensure, for_each, ◌>>=◌, ◌>>◌, if◌then◌else◌, ◌==◌, same, find, any, retain,
  is_some,
}
use helixflow.Base.Assoc
use helixflow.Base.Assoc.{BTreeMap}
use helixflow.Json.{Value, F64, ℤ, is_finite, leb_F64, get, is_null}
use helixflow.Registry
use helixflow.Registry.{NodeRegistry, definition, validate_node_params}
use helixflow.Registry.Types.{
  PortType, PortDefinition, PortCardinality, NodeDefinition, allows_fan_in, same_port_type,
}
use helixflow.Graph.Topology.{has_cycle}
use helixflow.Graph.Types.{
  WorkflowGraph, GraphNode, GraphEdge, GraphResult, GraphError, Endpoint, Pair, same_endpoint,
  port_type_label, registry, unsupported_schema, missing_required_input, missing_endpoint,
  missing_port, duplicate_input_connection, port_type_mismatch, cycle_detected, invalid_node_size,
}

-- Zero, as a float.
abbrev pub zero_f64 : F64
zero_f64 = F64.finite (ℤ.pos 0)

unfoldable pub valid_size : Option Pair → Bool
unfolding is_finite leb_F64
valid_size none = true
valid_size (some (w, h)) =
    not (not (is_finite w) || not (is_finite h) || leb_F64 w zero_f64 || leb_F64 h zero_f64)

unfoldable pub is_reference_input : PortDefinition → Bool
unfolding same allows_fan_in
is_reference_input port = same port.name "in" && not port.required && allows_fan_in port.cardinality

unfoldable pub edge_type_matches : PortType → PortType → String → Bool
unfolding same same_port_type port_type_label
edge_type_matches from to edge_type =
    if same edge_type "artifact"
    then same_port_type to PortType.json
    else same_port_type from to && same edge_type (port_type_label from)

-- The definition of a node's type; `none` where the node is passed over.
unfoldable pub known_definition : NodeRegistry → Bool → String → GraphResult (Option NodeDefinition)
unfolding definition
known_definition reg allow_unknown node_type = elim (definition reg node_type) [
  | ok d ↦ ok (some d)
  | err e ↦ if allow_unknown then ok none else err (registry e)
]

-- `value` is given and is not null.
abbrev pub is_given : Option Value → Bool
is_given none = false
is_given (some v) = not (is_null v)

-- A required input of a node is connected, or given as a parameter.
unfoldable pub is_supplied : List GraphEdge → String → Value → String → Bool
unfolding same get is_null
is_supplied edges node_id params name =
    any (λ e. same e.to.0 node_id && same e.to.1 name) edges || is_given (get name params)

unfoldable pub check_inputs :
    List GraphEdge → String → Value → List PortDefinition → GraphResult (Unit {0})
unfolding is_supplied
check_inputs edges node_id params = for_each λ input.
    ensure (not input.required || is_supplied edges node_id params input.name)
      (missing_required_input node_id input.name)

-- The checks on a node whose definition is known.
unfoldable pub check_defined :
    NodeRegistry
    → List GraphEdge
    → String
    → GraphNode
    → Option NodeDefinition
    → GraphResult (Unit {0})
unfolding validate_node_params check_inputs
check_defined reg edges node_id node none = ok tt
check_defined reg edges node_id node (some d) = do
  map_err registry (validate_node_params reg node.node_type node.params)
  check_inputs edges node_id node.params d.inputs

-- The body of the loop over the nodes.
unfoldable pub check_node :
    NodeRegistry → Bool → List GraphEdge → String × GraphNode → GraphResult (Unit {0})
unfolding valid_size known_definition check_defined
check_node reg allow_unknown edges (node_id, node) = do
  ensure (valid_size node.size) (invalid_node_size node_id)
  d ← known_definition reg allow_unknown node.node_type
  check_defined reg edges node_id node d

-- The type test on an edge between two ports.
unfoldable pub types_agree : PortDefinition → PortDefinition → String → Bool
unfolding is_reference_input edge_type_matches same port_type_label
types_agree from_port to_port edge_type =
    if is_reference_input to_port
    then same edge_type (port_type_label from_port.port_type)
    else edge_type_matches from_port.port_type to_port.port_type edge_type

abbrev pub contains_endpoint : Endpoint → List Endpoint → Bool
contains_endpoint a = any (same_endpoint a)

-- The set of inputs that have an edge, after one more edge to `to_port`.
unfoldable pub connect : PortDefinition → GraphEdge → List Endpoint → GraphResult (List Endpoint)
unfolding allows_fan_in same_endpoint
connect to_port e seen =
    if allows_fan_in to_port.cardinality
    then ok seen
    else if contains_endpoint e.to seen
    then err (duplicate_input_connection e.to.0 e.to.1)
    else ok (e.to ∷ seen)

-- The checks on an edge between nodes whose definitions are known.
unfoldable pub check_ports :
    GraphEdge
    → Option NodeDefinition
    → Option NodeDefinition
    → List Endpoint
    → GraphResult (List Endpoint)
unfolding connect types_agree same
check_ports e (some from_def) (some to_def) seen = do
  from_port ←
      ok_or (find (λ p. same p.name e.from.1) from_def.outputs) (missing_port e.from.0 e.from.1)
  to_port ← ok_or (find (λ p. same p.name e.to.1) to_def.inputs) (missing_port e.to.0 e.to.1)
  seen' ← connect to_port e seen
  ensure (types_agree from_port to_port e.edge_type) (port_type_mismatch e.from e.to)
  ok seen'
check_ports e none to_def seen = ok seen
check_ports e (some from_def) none seen = ok seen

-- `to_def` is looked up only if `from_def` was found.
unfoldable pub target_definition :
    NodeRegistry → Bool → GraphNode → Option NodeDefinition → GraphResult (Option NodeDefinition)
unfolding known_definition
target_definition reg allow_unknown to_node none = ok none
target_definition reg allow_unknown to_node (some d) =
    known_definition reg allow_unknown to_node.node_type

-- The body of the loop over the edges.
unfoldable pub check_edge :
    NodeRegistry
    → Bool
    → BTreeMap GraphNode
    → GraphEdge
    → List Endpoint
    → GraphResult (List Endpoint)
unfolding Assoc.lookup known_definition target_definition check_ports
check_edge reg allow_unknown nodes e seen = do
  from_node ← ok_or (Assoc.lookup e.from.0 nodes) (missing_endpoint e.from.0)
  to_node ← ok_or (Assoc.lookup e.to.0 nodes) (missing_endpoint e.to.0)
  from_def ← known_definition reg allow_unknown from_node.node_type
  to_def ← target_definition reg allow_unknown to_node from_def
  check_ports e from_def to_def seen

unfoldable pub check_edges :
    NodeRegistry
    → Bool
    → BTreeMap GraphNode
    → List GraphEdge
    → List Endpoint
    → GraphResult (Unit {0})
unfolding check_edge
check_edges reg allow_unknown nodes [] seen = ok tt
check_edges reg allow_unknown nodes (e ∷ es) seen = do
  seen' ← check_edge reg allow_unknown nodes e seen
  check_edges reg allow_unknown nodes es seen'

unfoldable pub validate_graph_inner : NodeRegistry → WorkflowGraph → Bool → GraphResult (Unit {0})
unfolding check_node check_edges has_cycle
validate_graph_inner reg graph allow_unknown = do
  ensure (graph.schema_version == 1) (unsupported_schema graph.schema_version)
  for_each (check_node reg allow_unknown graph.edges) graph.nodes
  check_edges reg allow_unknown graph.nodes graph.edges []
  ensure (not (has_cycle graph)) cycle_detected

unfoldable pub validate_graph : NodeRegistry → WorkflowGraph → GraphResult (Unit {0})
unfolding validate_graph_inner
validate_graph reg graph = validate_graph_inner reg graph false

unfoldable pub validate_graph_for_migration : NodeRegistry → WorkflowGraph → GraphResult (Unit {0})
unfolding validate_graph_inner
validate_graph_for_migration reg graph = validate_graph_inner reg graph true
