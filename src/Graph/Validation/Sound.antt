-- ===== src/Graph/Validation/Sound.antt =====
-- What `validate_graph` of crates/graph/src/lib.rs establishes.
use helixflow.Base.{
  String, Bool, true, false, not, ◌||◌, Option, none, some, List, [], ◌∷◌, Result, ok, err, ok_or,
  map_err, ensure, for_each, if◌then◌else◌, ◌==◌, same, find, All, >>=-eq-ok, >>-eq-ok,
  ensure-eq-ok, ok_or-eq-ok, map_err-eq-ok, for_each-eq-ok, arith, ◌≡◌, sym, ◌∙◌, ok-injective,
  Bool-cases, inl, inr, map-All,
}
use helixflow.Base.Assoc.{BTreeMap, lookup, lookup_of_All, is_some-lookup}
use helixflow.Registry.{NodeRegistry, definition, validate_node_params}
use helixflow.Registry.Types.{PortDefinition, NodeDefinition, allows_fan_in}
use helixflow.Graph.Types.{
  WorkflowGraph, GraphNode, GraphEdge, Endpoint, same_endpoint, same_endpoint_iff, registry,
  missing_required_input,
}
use helixflow.Graph.Topology.Correct.{HasSortedNodes, HasEndpoints, IsAcyclic, has_cycle_iff}
use helixflow.Graph.Validation.{
  valid_size, known_definition, is_supplied, check_inputs, check_node, types_agree,
  contains_endpoint, connect, check_ports, target_definition, check_edge, check_edges,
  validate_graph,
}

-- A node that fits the registry: a usable size, a known type, parameters that its schema accepts,
-- and each required input connected or given.
pub record NodeFits (reg : NodeRegistry) (edges : List GraphEdge) (id : String) (node : GraphNode)
    : Type 0 where
  pub sized : valid_size node.size ≡ true
  pub def : NodeDefinition
  pub known : definition reg node.node_type ≡ ok def
  pub params_valid : validate_node_params reg node.node_type node.params ≡ ok tt
  pub supplied :
      All
        (λ input. (not input.required || is_supplied edges id node.params input.name) ≡ true)
        def.inputs

-- An edge that fits: its ends are nodes of known types that have the ports, and the types agree.
pub record EdgeFits (reg : NodeRegistry) (nodes : BTreeMap GraphNode) (e : GraphEdge) : Type 0 where
  pub from_node : GraphNode
  pub to_node : GraphNode
  pub from_def : NodeDefinition
  pub to_def : NodeDefinition
  pub from_port : PortDefinition
  pub to_port : PortDefinition
  pub from_found : lookup e.from.0 nodes ≡ some from_node
  pub to_found : lookup e.to.0 nodes ≡ some to_node
  pub from_known : definition reg from_node.node_type ≡ ok from_def
  pub to_known : definition reg to_node.node_type ≡ ok to_def
  pub output : find (λ p. same p.name e.from.1) from_def.outputs ≡ some from_port
  pub input : find (λ p. same p.name e.to.1) to_def.inputs ≡ some to_port
  pub agree : types_agree from_port to_port e.edge_type ≡ true

-- The input port at the end of an edge takes one edge only.
abbrev pub takes_one_port : Option PortDefinition → Bool
takes_one_port none = false
takes_one_port (some p) = not (allows_fan_in p.cardinality)

abbrev pub takes_one_input {μ} : {E : Type μ} → String → Result NodeDefinition E → Bool
takes_one_input name (err e) = false
takes_one_input name (ok d) = takes_one_port (find (λ p. same p.name name) d.inputs)

abbrev pub takes_one_node : NodeRegistry → String → Option GraphNode → Bool
takes_one_node reg name none = false
takes_one_node reg name (some n) = takes_one_input name (definition reg n.node_type)

abbrev pub takes_one : NodeRegistry → BTreeMap GraphNode → Endpoint → Bool
takes_one reg nodes end = takes_one_node reg end.1 (lookup end.0 nodes)

-- No two edges end in an input that takes one.
abbrev pub Exclusive : NodeRegistry → BTreeMap GraphNode → List GraphEdge → Type 0
Exclusive reg nodes [] = Unit
Exclusive reg nodes (e ∷ es) =
    (takes_one reg nodes e.to ≡ true → All (λ d. same_endpoint d.to e.to ≡ false) es)
    × Exclusive reg nodes es

known_definition-strict :
    (reg : NodeRegistry) (node_type : String) {o : Option NodeDefinition}
    → known_definition reg false node_type ≡ ok o
    → (d : NodeDefinition) × (o ≡ some d) × (definition reg node_type ≡ ok d)
unfolding known_definition
known_definition-strict reg node_type h = ground arith

check_node-NodeFits :
    (reg : NodeRegistry) (edges : List GraphEdge) (id : String) (node : GraphNode)
    → check_node reg false edges (id, node) ≡ ok tt
    → NodeFits reg edges id node
unfolding check_node check_inputs
check_node-NodeFits reg edges id node h =
    let (size_ok, rest) = >>-eq-ok (ensure (valid_size node.size) _) _ h in
    let (o, found, rest2) = >>=-eq-ok (known_definition reg false node.node_type) _ rest in
    let (d, is_d, known) = known_definition-strict reg node.node_type found in
    let (params_ok, inputs_ok) =
      >>-eq-ok (map_err registry (validate_node_params reg node.node_type node.params)) _
        (rw is_d at rest2) in
    record {
      sized = ensure-eq-ok _ _ size_ok;
      def = d;
      known = known;
      params_valid = map_err-eq-ok registry _ params_ok;
      supplied =
          map-All (λ i. ensure-eq-ok _ _) d.inputs
            (for_each-eq-ok
              (λ i.
                ensure (not i.required || is_supplied edges id node.params i.name)
                  (missing_required_input id i.name))
              d.inputs inputs_ok);
    }

-- What a passed edge adds to the inputs that have one.
abbrev pub added : Bool → Endpoint → List Endpoint → List Endpoint
added single end seen = if single then end ∷ seen else seen

connect_ok :
    (p : PortDefinition) (e : GraphEdge) (seen seen' : List Endpoint)
    → connect p e seen ≡ ok seen'
    → (seen' ≡ added (not (allows_fan_in p.cardinality)) e.to seen)
      × (not (allows_fan_in p.cardinality) ≡ true → contains_endpoint e.to seen ≡ false)
unfolding connect
connect_ok p e seen seen' h = ground arith

check_edge-EdgeFits :
    (reg : NodeRegistry) (nodes : BTreeMap GraphNode) (e : GraphEdge) (seen seen' : List Endpoint)
    → check_edge reg false nodes e seen ≡ ok seen'
    → EdgeFits reg nodes e
      × (seen' ≡ added (takes_one reg nodes e.to) e.to seen)
      × (takes_one reg nodes e.to ≡ true → contains_endpoint e.to seen ≡ false)
unfolding check_edge target_definition check_ports
check_edge-EdgeFits reg nodes e seen seen' h =
    let (n, n_ok, h1) = >>=-eq-ok (ok_or (lookup e.from.0 nodes) _) _ h in
    let (m, m_ok, h2) = >>=-eq-ok (ok_or (lookup e.to.0 nodes) _) _ h1 in
    let (o, o_ok, h3) = >>=-eq-ok (known_definition reg false n.node_type) _ h2 in
    let (d, is_d, d_known) = known_definition-strict reg n.node_type o_ok in
    let (o', o'_ok, h4) = >>=-eq-ok (known_definition reg false m.node_type) _ (rw is_d at h3) in
    let (d', is_d', d'_known) = known_definition-strict reg m.node_type o'_ok in
    let (p, p_ok, h5) =
      >>=-eq-ok (ok_or (find (λ x. same x.name e.from.1) d.outputs) _) _ (rw is_d' at h4) in
    let (q, q_ok, h6) = >>=-eq-ok (ok_or (find (λ x. same x.name e.to.1) d'.inputs) _) _ h5 in
    let (s, s_ok, h7) = >>=-eq-ok (connect q e seen) _ h6 in
    let (t_ok, last) = >>-eq-ok (ensure (types_agree p q e.edge_type) _) _ h7 in
    let m_found = ok_or-eq-ok (lookup e.to.0 nodes) _ m_ok in
    let q_found = ok_or-eq-ok _ _ q_ok in
    let (s_is, s_new) = connect_ok q e seen s s_ok in
    (
      record {
        from_node = n;
        to_node = m;
        from_def = d;
        to_def = d';
        from_port = p;
        to_port = q;
        from_found = ok_or-eq-ok (lookup e.from.0 nodes) _ n_ok;
        to_found = m_found;
        from_known = d_known;
        to_known = d'_known;
        output = ok_or-eq-ok _ _ p_ok;
        input = q_found;
        agree = ensure-eq-ok _ _ t_ok;
      },
      rw (m_found, d'_known, q_found) (sym (ok-injective last) ∙ s_is),
      rw (m_found, d'_known, q_found) s_new,
    )

apart_of_new :
    (reg : NodeRegistry) (nodes : BTreeMap GraphNode) (d e : Endpoint) (seen : List Endpoint)
    → takes_one reg nodes e ≡ true
    → (takes_one reg nodes d ≡ true
        → contains_endpoint d (added (takes_one reg nodes e) e seen) ≡ false)
    → same_endpoint d e ≡ false
apart_of_new reg nodes d e seen single new = elim (Bool-cases (same_endpoint d e)) [
  | inr s ↦ s
  | inl s ↦
      let also : takes_one reg nodes d ≡ true = rw ((same_endpoint_iff d e).0 s) single in
      ground (arith, rw single at (new also))
]

unseen_before :
    (single : Bool) (d e : Endpoint) (seen : List Endpoint)
    → contains_endpoint d (added single e seen) ≡ false
    → contains_endpoint d seen ≡ false
unseen_before true d e seen h = ground arith
unseen_before false d e seen h = h

-- The loop over the edges: each fits, and none meets an input that is taken.
check_edges-fit :
    (reg : NodeRegistry) (nodes : BTreeMap GraphNode) (es : List GraphEdge) (seen : List Endpoint)
    → check_edges reg false nodes es seen ≡ ok tt
    → All (EdgeFits reg nodes) es
      × Exclusive reg nodes es
      × All (λ d. takes_one reg nodes d.to ≡ true → contains_endpoint d.to seen ≡ false) es
unfolding check_edges
check_edges-fit reg nodes [] seen h = (tt, tt, tt)
check_edges-fit reg nodes (e ∷ es) seen h =
    let (seen', here, rest) = >>=-eq-ok (check_edge reg false nodes e seen) _ h in
    let (fits, grown, new) = check_edge-EdgeFits reg nodes e seen seen' here in
    let (all_fit, apart, unseen) = check_edges-fit reg nodes es seen' rest in
    (
      (fits, all_fit),
      (
        λ single.
            map-All (λ d f. apart_of_new reg nodes d.to e.to seen single (rw grown at f)) es unseen,
        apart,
      ),
      (
        new,
        map-All
            (λ d f single.
              unseen_before (takes_one reg nodes e.to) d.to e.to seen (rw grown at (f single)))
            es unseen,
      ),
    )

-- A graph that fits its registry.
pub record IsWellFormed (reg : NodeRegistry) (g : WorkflowGraph) : Type 0 where
  pub version : g.schema_version ≡ 1
  pub nodes_fit :
      (id : String) (node : GraphNode)
      → lookup id g.nodes ≡ some node
      → NodeFits reg g.edges id node
  pub edges_fit : All (EdgeFits reg g.nodes) g.edges
  pub exclusive : Exclusive reg g.nodes g.edges
  pub acyclic : IsAcyclic g

-- The edges of a graph that was checked stand between its nodes.
pub endpoints_of_fit :
    (reg : NodeRegistry) (g : WorkflowGraph) → All (EdgeFits reg g.nodes) g.edges → HasEndpoints g
endpoints_of_fit reg g =
    map-All
      (λ e f. (
        ground (arith, is_some-lookup e.from.0 g.nodes, f.from_found),
        ground (arith, is_some-lookup e.to.0 g.nodes, f.to_found),
      ))
      g.edges

-- A graph that `validate_graph` accepts is well formed: its version is 1, every node has a known
-- type, a usable size, valid parameters and its required inputs, every edge joins existing ports
-- of agreeing types, no input that takes one edge has two, and there is no cycle.
pub validate_graph-IsWellFormed :
    (reg : NodeRegistry) (g : WorkflowGraph)
    → HasSortedNodes g
    → validate_graph reg g ≡ ok tt
    → IsWellFormed reg g
unfolding validate_graph
validate_graph-IsWellFormed reg g s h =
    let (v, h1) = >>-eq-ok (ensure (g.schema_version == 1) _) _ h in
    let (nodes_ok, h2) = >>-eq-ok (for_each (check_node reg false g.edges) g.nodes) _ h1 in
    let (edges_ok, acyclic) = >>-eq-ok (check_edges reg false g.nodes g.edges []) _ h2 in
    let (fit, apart, _) = check_edges-fit reg g.nodes g.edges [] edges_ok in
    let no_cycle = ensure-eq-ok _ _ acyclic in
    let one = ensure-eq-ok _ _ v in
    record {
      version = ground arith;
      nodes_fit = λ id node found. check_node-NodeFits reg g.edges id node (
          lookup_of_All (λ x. check_node reg false g.edges x ≡ ok tt) id g.nodes
            (for_each-eq-ok (check_node reg false g.edges) g.nodes nodes_ok) found);
      edges_fit = fit;
      exclusive = apart;
      acyclic = (has_cycle_iff g s (endpoints_of_fit reg g fit)).0 (ground arith);
    }
