-- ===== src/Compiler/Diff.antt =====
-- crates/compiler/src/proposal_diff.rs: the operations that turn the current graph into a compiled
-- one.
pub mod Edges
pub mod Removals
pub mod Nodes
pub mod Kept
pub mod Loop
pub mod Converges
use helixflow.Base.{
  String, Bool, true, false, not, ◌&&◌, ◌||◌, Option, none, some, List, [], ◌∷◌, ◌++◌, map,
  if◌then◌else◌, any, retain, same, before, is_some,
}
use helixflow.Base.Assoc
use helixflow.Base.Assoc.{BTreeMap}
use helixflow.Json.{Value, F64, finite, infinite, nan, eqb_ℤ, as_object, same_value}
use helixflow.Graph.Types.{
  WorkflowGraph, GraphNode, GraphEdge, Endpoint, Pair, NodeSemanticsEntry, ImplementationSelection,
  pinned, policy, ProposalOp, add_node, remove_node, set_param, add_edge, remove_edge, move_node,
  set_semantics, same_endpoint, same_edge,
}
use helixflow.Graph.Operations.{is_current}

-- `==` of numbers: NaN is not equal to itself.
abbrev pub eqb_F64 : F64 → F64 → Bool
eqb_F64 (finite a) (finite b) = eqb_ℤ a b
eqb_F64 (infinite true) (infinite true) = true
eqb_F64 (infinite false) (infinite false) = true
eqb_F64 _ _ = false

unfoldable pub same_pos : Pair → Pair → Bool
same_pos a b = eqb_F64 a.0 b.0 && eqb_F64 a.1 b.1

-- `==` of selections, of entries, and of options of entries.
abbrev pub same_selection : ImplementationSelection → ImplementationSelection → Bool
same_selection (pinned m b) (pinned m' b') = same m m' && same b b'
same_selection (policy p c) (policy p' c') = same p p' && same_value c c'
same_selection _ _ = false

unfoldable pub same_entry : NodeSemanticsEntry → NodeSemanticsEntry → Bool
unfolding same same_value
same_entry a b =
    same a.capability_id b.capability_id
    && same a.mode b.mode
    && same_selection a.implementation b.implementation

unfoldable pub same_semantics : Option NodeSemanticsEntry → Option NodeSemanticsEntry → Bool
unfolding same_entry
same_semantics none none = true
same_semantics (some a) (some b) = same_entry a b
same_semantics _ _ = false

-- `(&a.from, &a.to).cmp(&(&b.from, &b.to))` is `Less`.
abbrev pub endpoint_before : Endpoint → Endpoint → Bool
endpoint_before a b = before a.0 b.0 || same a.0 b.0 && before a.1 b.1

unfoldable pub edge_before : GraphEdge → GraphEdge → Bool
unfolding before same same_endpoint
edge_before a b =
    endpoint_before a.from b.from || same_endpoint a.from b.from && endpoint_before a.to b.to

-- The stable sort by the ends of an edge.
unfoldable pub insert_edge : GraphEdge → List GraphEdge → List GraphEdge
insert_edge e [] = e ∷ []
insert_edge e (f ∷ fs) = if edge_before f e then f ∷ insert_edge e fs else e ∷ f ∷ fs

unfoldable pub sort_edges : List GraphEdge → List GraphEdge
unfolding insert_edge
sort_edges [] = []
sort_edges (e ∷ es) = insert_edge e (sort_edges es)

-- `edges.contains(edge)`
unfoldable pub has_edge : GraphEdge → List GraphEdge → Bool
unfolding same_edge
has_edge e [] = false
has_edge e (f ∷ fs) = same_edge e f || has_edge e fs

-- The edges of the first list that the second has not, in order.
abbrev pub edges_without : List GraphEdge → List GraphEdge → List GraphEdge
edges_without es other = sort_edges (retain (λ e. not (has_edge e other)) es)

-- The writes to the parameters that differ.
unfoldable pub param_ops : String → BTreeMap Value → BTreeMap Value → List ProposalOp
unfolding same_value Assoc.lookup
param_ops id current [] = []
param_ops id current ((key, value) ∷ target) =
    let rest = param_ops id current target in
    if is_current (Assoc.lookup key current) value
    then rest
    else set_param id key (Assoc.lookup key current) value ∷ rest

abbrev pub both_params :
    String → Option (BTreeMap Value) → Option (BTreeMap Value) → List ProposalOp
both_params id (some target) (some current) = param_ops id current target
both_params id _ _ = []

abbrev pub pos_ops : String → Pair → Pair → List ProposalOp
pos_ops id current target = if same_pos current target then [] else move_node id target ∷ []

abbrev pub semantics_ops :
    String → Option NodeSemanticsEntry → Option NodeSemanticsEntry → List ProposalOp
semantics_ops id current target =
    if same_semantics current target then [] else set_semantics id target ∷ []

-- The operations for a node that stays, which has the same type in both graphs.
unfoldable pub kept_ops : String → GraphNode → GraphNode → List ProposalOp
unfolding as_object param_ops same_pos same_semantics
kept_ops id existing node =
    both_params id (as_object node.params) (as_object existing.params)
    ++ (pos_ops id existing.pos node.pos ++ semantics_ops id existing.semantics node.semantics)

abbrev pub existing_ops : String → GraphNode → Option GraphNode → List ProposalOp
existing_ops id node none = add_node id node ∷ []
existing_ops id node (some existing) =
    if same existing.node_type node.node_type
    then kept_ops id existing node
    else remove_node id ∷ add_node id node ∷ []

-- The loop over the nodes of the target.
unfoldable pub node_ops : BTreeMap GraphNode → BTreeMap GraphNode → List ProposalOp
unfolding kept_ops Assoc.lookup same
node_ops current [] = []
node_ops current ((id, node) ∷ target) =
    existing_ops id node (Assoc.lookup id current) ++ node_ops current target

-- The nodes of the current graph that the target has not.
abbrev pub removed_nodes : BTreeMap GraphNode → BTreeMap GraphNode → List String
removed_nodes current target =
    retain (λ id. not (Assoc.contains_key id target)) (Assoc.keys current)

unfoldable pub diff : WorkflowGraph → WorkflowGraph → List ProposalOp
unfolding sort_edges has_edge node_ops Assoc.lookup
diff current target =
    map remove_edge (edges_without current.edges target.edges)
    ++ (map remove_node (removed_nodes current.nodes target.nodes)
        ++ (node_ops current.nodes target.nodes
            ++ map add_edge (edges_without target.edges current.edges)))
