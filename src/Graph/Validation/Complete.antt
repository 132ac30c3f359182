-- ===== src/Graph/Validation/Complete.antt =====
-- Every well-formed graph passes `validate_graph` of crates/graph/src/lib.rs.
use helixflow.Base.{
  String, Bool, true, false, not, ◌||◌, some, List, [], ◌∷◌, ok, ensure, ◌≡◌, ◌↔◌, refl, sym, ap,
  ◌∙◌, subst, arith, ◌==◌, All, map-All, for_each_of_All, Bool-cases, inl, inr,
}
use helixflow.Base.Assoc
use helixflow.Base.Assoc.{BTreeMap, lookup, keys}
use helixflow.Registry.{NodeRegistry, definition}
use helixflow.Registry.Types.{NodeDefinition, PortDefinition, allows_fan_in}
use helixflow.Graph.Types.{
  WorkflowGraph, GraphNode, GraphEdge, Endpoint, same_endpoint, missing_required_input,
}
use helixflow.Graph.Topology.Correct.{HasSortedNodes, has_cycle_iff}
use helixflow.Graph.Validation.{
  known_definition, is_supplied, check_inputs, check_node, connect, contains_endpoint, check_edge,
  check_edges, target_definition, check_ports, validate_graph,
}
use helixflow.Graph.Validation.Sound.{
  NodeFits, EdgeFits, Exclusive, IsWellFormed, takes_one, added, endpoints_of_fit,
  validate_graph-IsWellFormed,
}

known_definition_of_known :
    (reg : NodeRegistry) (t : String) (d : NodeDefinition)
    → definition reg t ≡ ok d
    → known_definition reg false t ≡ ok (some d)
unfolding known_definition
known_definition_of_known reg t d h = rw (h, known_definition) refl

check_node_of_fit :
    (reg : NodeRegistry) (edges : List GraphEdge) (id : String) (node : GraphNode)
    → NodeFits reg edges id node
    → check_node reg false edges (id, node) ≡ ok tt
unfolding check_node check_inputs
check_node_of_fit reg edges id node f =
    rw (f.sized, known_definition_of_known reg node.node_type f.def f.known, f.params_valid)
      (for_each_of_All
        (λ i.
          ensure (not i.required || is_supplied edges id node.params i.name)
            (missing_required_input id i.name))
        f.def.inputs (map-All (λ i s. rw s refl) f.def.inputs f.supplied))

connect_of_new :
    (p : PortDefinition) (e : GraphEdge) (seen : List Endpoint)
    → (not (allows_fan_in p.cardinality) ≡ true → contains_endpoint e.to seen ≡ false)
    → connect p e seen ≡ ok (added (not (allows_fan_in p.cardinality)) e.to seen)
unfolding connect
connect_of_new p e seen h = elim (Bool-cases (allows_fan_in p.cardinality)) [
  | inl many ↦ rw many refl
  | inr one ↦ rw (one, h (ap not one)) refl
]

check_edge_of_fit :
    (reg : NodeRegistry) (nodes : BTreeMap GraphNode) (e : GraphEdge) (seen : List Endpoint)
    → EdgeFits reg nodes e
    → (takes_one reg nodes e.to ≡ true → contains_endpoint e.to seen ≡ false)
    → check_edge reg false nodes e seen ≡ ok (added (takes_one reg nodes e.to) e.to seen)
unfolding check_edge target_definition check_ports
check_edge_of_fit reg nodes e seen f new =
    let single : takes_one reg nodes e.to ≡ not (allows_fan_in f.to_port.cardinality) =
      rw (f.to_found, f.to_known, f.input) refl in
    subst (λ b. check_edge reg false nodes e seen ≡ ok (added b e.to seen)) (sym single)
      (rw
        (
          f.from_found,
          f.to_found,
          known_definition_of_known reg f.from_node.node_type f.from_def f.from_known,
          known_definition_of_known reg f.to_node.node_type f.to_def f.to_known,
          f.output,
          f.input,
          connect_of_new f.to_port e seen (λ s. new (single ∙ s)),
          f.agree,
        )
        refl)

-- What a passed edge leaves free for a later one.
free_after :
    (single : Bool) (d e : Endpoint) (seen : List Endpoint)
    → (single ≡ true → same_endpoint d e ≡ false)
    → contains_endpoint d seen ≡ false
    → contains_endpoint d (added single e seen) ≡ false
free_after true d e seen apart free = ground (arith, apart refl, free)
free_after false d e seen apart free = free

check_edges_of_fit :
    (reg : NodeRegistry) (nodes : BTreeMap GraphNode) (es : List GraphEdge) (seen : List Endpoint)
    → All (EdgeFits reg nodes) es
    → Exclusive reg nodes es
    → All (λ d. takes_one reg nodes d.to ≡ true → contains_endpoint d.to seen ≡ false) es
    → check_edges reg false nodes es seen ≡ ok tt
unfolding check_edges
check_edges_of_fit reg nodes [] seen fits apart free = refl
check_edges_of_fit reg nodes (e ∷ es) seen fits apart free =
    rw (check_edge_of_fit reg nodes e seen fits.0 free.0) (
      check_edges_of_fit reg nodes es (added (takes_one reg nodes e.to) e.to seen) fits.1 apart.1
        (still_free es apart.0 free.1))
  where
    still_free :
        (ds : List GraphEdge)
        → (takes_one reg nodes e.to ≡ true → All (λ d. same_endpoint d.to e.to ≡ false) ds)
        → All (λ d. takes_one reg nodes d.to ≡ true → contains_endpoint d.to seen ≡ false) ds
        → All
            (λ d.
              takes_one reg nodes d.to ≡ true
              → contains_endpoint d.to (added (takes_one reg nodes e.to) e.to seen) ≡ false)
            ds
    still_free [] a f = tt
    still_free (d ∷ ds) a f = (
      λ t. free_after (takes_one reg nodes e.to) d.to e.to seen (λ s. (a s).0) (f.0 t),
      still_free ds (λ s. (a s).1) f.1,
    )

-- Of the graphs whose nodes are held in the order of their names, `validate_graph` accepts
-- exactly the well-formed ones: those of version 1 in which every node has a known type, a usable
-- size, valid parameters and its required inputs, every edge joins existing ports of agreeing
-- types, no input that takes one edge has two, and there is no cycle.
pub validate_graph_iff :
    (reg : NodeRegistry) (g : WorkflowGraph)
    → HasSortedNodes g
    → (validate_graph reg g ≡ ok tt) ↔ IsWellFormed reg g
unfolding validate_graph
validate_graph_iff reg g s = (
  validate_graph-IsWellFormed reg g s,
  λ w.
      let one : (g.schema_version == 1) ≡ true = ground (arith, w.version) in
      let nodes_pass = for_each_of_All (check_node reg false g.edges) g.nodes (
        Assoc.All-of_lookup (λ x. check_node reg false g.edges x ≡ ok tt) g.nodes s
          λ id node found. check_node_of_fit reg g.edges id node (w.nodes_fit id node found)) in
      let edges_pass =
        check_edges_of_fit reg g.nodes g.edges [] w.edges_fit w.exclusive (all_free g.edges) in
      let no_cycle = (has_cycle_iff g s (endpoints_of_fit reg g w.edges_fit)).1 w.acyclic in
      rw (one, nodes_pass, edges_pass, no_cycle) refl,
)
  where
    all_free :
        (es : List GraphEdge)
        → All (λ d. takes_one reg g.nodes d.to ≡ true → contains_endpoint d.to [] ≡ false) es
    all_free [] = tt
    all_free (e ∷ es) = (λ t. refl, all_free es)
