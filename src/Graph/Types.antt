-- ===== src/Graph/Types.antt =====
-- crates/graph/src/lib.rs: the graph's data, its operations as values, and its errors. The
-- semantic layer of a node is that of semantics.rs and of crates/registry/src/catalog.rs.
use helixflow.Base.{
  ℕ, String, Bool, true, ◌&&◌, Option, List, ◌↔◌, ◌≡◌, same, same_iff, Result, arith,
}
use helixflow.Base.Assoc.{BTreeMap}
use helixflow.Json.{Value, F64}
use helixflow.Registry.Types.{RegistryError, PortType}

-- `ImplementationSelection`
pub data ImplementationSelection : Type 0 where
  pinned : (requested_model_id binding_id : String) → ImplementationSelection
  policy : (policy_id : String) (constraints : Value) → ImplementationSelection

pub record NodeSemanticsEntry : Type 0 where
  pub capability_id : String
  pub mode : String
  pub implementation : ImplementationSelection

-- `[f32; 2]`
abbrev pub Pair : Type 0
Pair = F64 × F64

pub record GraphNode : Type 0 where
  pub node_type : String
  pub title : String
  pub params : Value
  pub pos : Pair
  pub size : Option Pair
  pub semantics : Option NodeSemanticsEntry

-- `[String; 2]`: a node and one of its ports.
abbrev pub Endpoint : Type 0
Endpoint = String × String

pub record GraphEdge : Type 0 where
  pub from : Endpoint
  pub to : Endpoint
  pub edge_type : String

pub record WorkflowGraph : Type 0 where
  pub schema_version : ℕ
  pub catalog_revision : Option String
  pub nodes : BTreeMap GraphNode
  pub edges : List GraphEdge

unfoldable pub same_endpoint : Endpoint → Endpoint → Bool
same_endpoint a b = same a.0 b.0 && same a.1 b.1

-- `==` of edges.
unfoldable pub same_edge : GraphEdge → GraphEdge → Bool
unfolding same_endpoint
same_edge a b =
    same_endpoint a.from b.from && same_endpoint a.to b.to && same a.edge_type b.edge_type

pub same_endpoint_iff : (a b : Endpoint) → (same_endpoint a b ≡ true) ↔ (a ≡ b)
unfolding same_endpoint
same_endpoint_iff a b = (
  λ h. ground (arith, (same_iff a.0 b.0).0, (same_iff a.1 b.1).0),
  λ e. ground (arith, (same_iff a.0 b.0).1, (same_iff a.1 b.1).1),
)

pub same_edge_iff : (a b : GraphEdge) → (same_edge a b ≡ true) ↔ (a ≡ b)
unfolding same_edge
same_edge_iff a b = (
  λ h. ground (
    arith,
    (same_endpoint_iff a.from b.from).0,
    (same_endpoint_iff a.to b.to).0,
    (same_iff a.edge_type b.edge_type).0,
  ),
  λ e. ground (
    arith,
    (same_endpoint_iff a.from b.from).1,
    (same_endpoint_iff a.to b.to).1,
    (same_iff a.edge_type b.edge_type).1,
  ),
)

pub data ProposalOp : Type 0 where
  add_node : (id : String) (node : GraphNode) → ProposalOp
  remove_node : (id : String) → ProposalOp
  set_param : (id key : String) (prev : Option Value) (value : Value) → ProposalOp
  add_edge : (edge : GraphEdge) → ProposalOp
  remove_edge : (edge : GraphEdge) → ProposalOp
  move_node : (id : String) (pos : Pair) → ProposalOp
  resize_node : (id : String) (size : Pair) → ProposalOp
  set_semantics : (id : String) (semantics : Option NodeSemanticsEntry) → ProposalOp
  spawn_node : (id : String) (node : GraphNode) (from : String) → ProposalOp

pub data GraphError : Type 0 where
  registry : RegistryError → GraphError
  unsupported_schema : (version : ℕ) → GraphError
  missing_required_input : (node_id port : String) → GraphError
  missing_endpoint : (node_id : String) → GraphError
  missing_port : (node_id port : String) → GraphError
  duplicate_input_connection : (node_id port : String) → GraphError
  port_type_mismatch : (from to : Endpoint) → GraphError
  cycle_detected : GraphError
  duplicate_node : (node_id : String) → GraphError
  missing_node : (node_id : String) → GraphError
  missing_edge : (edge : GraphEdge) → GraphError
  invalid_node_size : (node_id : String) → GraphError
  params_not_object : (node_id : String) → GraphError
  set_param_conflict : (node_id key : String) → GraphError
  proposal_superseded : (base_version_id current_version_id : String) → GraphError
  proposal_not_pending : GraphError
  diff_summary : (message : String) → GraphError
  store : (message : String) → GraphError
  no_lineage_connection : (from to : String) → GraphError

abbrev pub GraphResult : Type 0 → Type 0
GraphResult A = Result A GraphError

unfoldable pub port_type_label : PortType → String
port_type_label PortType.text = "text"
port_type_label PortType.image = "image"
port_type_label PortType.video = "video"
port_type_label PortType.audio = "audio"
port_type_label PortType.mask = "mask"
port_type_label PortType.json = "json"
