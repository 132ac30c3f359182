-- ===== src/Graph/Operations/Frame.antt =====
-- What the operations of crates/graph/src/lib.rs keep: the order of the nodes, the other nodes, and
-- the ends of the edges.
use helixflow.Base.{
  String, Bool, true, false, not, Option, some, List, [], ◌∷◌, ◌++◌, ok, ok_or, ensure, ◌≡◌, ◌≢◌,
  ◌∙◌, subst, map_err, refl, sym, arith, ◌==◌, length, same, retain, >>=-eq-ok, >>-eq-ok,
  ok-injective, ensure-eq-ok, ok_or-eq-ok, map_err-eq-ok, inl, inr, Bool-cases,
}
use helixflow.Base.Assoc
use helixflow.Base.Assoc.{BTreeMap, lookup, keys}
use helixflow.Json.{Value, as_object, of_map}
use helixflow.Registry.{NodeRegistry, definition}
use helixflow.Registry.Types.{NodeDefinition}
use helixflow.Graph.Lineage.{LineagePorts, matching_connection_ports}
use helixflow.Graph.Types.{
  WorkflowGraph, GraphNode, GraphEdge, ProposalOp, add_node, remove_node, set_param, add_edge,
  remove_edge, move_node, resize_node, set_semantics, spawn_node, missing_node, same_edge, registry,
}
use helixflow.Graph.Topology.Correct.{HasSortedNodes}
use helixflow.Graph.Operations.{
  write_node, apply_set_param, spawn_derived, apply_op, lineage_edge, agrees,
}

-- The node that an operation adds, removes or writes; an operation on an edge has none.
abbrev pub names_node : String → ProposalOp → Bool
names_node j (add_node id node) = same j id
names_node j (remove_node id) = same j id
names_node j (set_param id key prev value) = same j id
names_node j (add_edge e) = false
names_node j (remove_edge e) = false
names_node j (move_node id pos) = same j id
names_node j (resize_node id size) = same j id
names_node j (set_semantics id semantics) = same j id
names_node j (spawn_node id node from) = same j id

-- What every operation keeps.
pub record Keeps (g g' : WorkflowGraph) (op : ProposalOp) : Type 0 where
  pub in_order : HasSortedNodes g → HasSortedNodes g'
  pub others : (j : String) → names_node j op ≡ false → lookup j g'.nodes ≡ lookup j g.nodes
  pub version : g'.schema_version ≡ g.schema_version
  pub revision : g'.catalog_revision ≡ g.catalog_revision

module _ (id : String) (g : WorkflowGraph) (op : ProposalOp)
    (named : (j : String) → names_node j op ≡ same j id) where
  Keeps-adjust :
      (f : GraphNode → GraphNode) → Keeps g (record g { nodes = Assoc.adjust id f g.nodes }) op
  Keeps-adjust f = record {
    in_order = λ s. Assoc.adjust-keys-sorted id f g.nodes s;
    others = λ j n. Assoc.lookup-adjust_ne j id f g.nodes (sym (named j) ∙ n);
    version = refl;
    revision = refl;
  }

  Keeps-insert :
      (n : GraphNode) (es : List GraphEdge)
      → Keeps g (record g { nodes = Assoc.insert id n g.nodes; edges = es }) op
  Keeps-insert n es = record {
    in_order = λ s. Assoc.insert-keys-sorted id n g.nodes s;
    others = λ j m. rw (Assoc.lookup-insert j id n g.nodes, sym (named j) ∙ m);
    version = refl;
    revision = refl;
  }

  Keeps-remove :
      (es : List GraphEdge) → Keeps g (record g { nodes = Assoc.remove id g.nodes; edges = es }) op
  Keeps-remove es = record {
    in_order = λ s. Assoc.remove-sorted id g.nodes s;
    others = λ j m. Assoc.lookup-remove_ne j id g.nodes (sym (named j) ∙ m);
    version = refl;
    revision = refl;
  }

Keeps-edges :
    (g : WorkflowGraph) (es : List GraphEdge) (op : ProposalOp)
    → Keeps g (record g { edges = es }) op
Keeps-edges g es op = record {
  in_order = λ s. s;
  others = λ j m. refl;
  version = refl;
  revision = refl;
}

-- How a successful operation ends, one lemma for each form that its result can have.
pub write_node_ok :
    (id : String) (f : GraphNode → GraphNode) (g g' : WorkflowGraph)
    → write_node id f g ≡ ok g'
    → (n : GraphNode) × (lookup id g.nodes ≡ some n)
      × (g' ≡ record g { nodes = Assoc.adjust id f g.nodes })
unfolding write_node
write_node_ok id f g g' h =
    let (n, found, rest) = >>=-eq-ok (ok_or (lookup id g.nodes) (missing_node id)) _ h in
    (n, ok_or-eq-ok _ _ found, sym (ok-injective rest))

pub set_param_ok :
    (id key : String) (prev : Option Value) (value : Value) (g g' : WorkflowGraph)
    → apply_set_param g id key prev value ≡ ok g'
    → (n : GraphNode) × (params : BTreeMap Value) × (lookup id g.nodes ≡ some n)
      × (as_object n.params ≡ some params)
      × (agrees prev (lookup key params) ≡ true)
      × (g' ≡ record g {
        nodes =
            Assoc.adjust id
              (λ m. record m { params = Value.object (of_map (Assoc.insert key value params)) })
              g.nodes;
      })
unfolding apply_set_param
set_param_ok id key prev value g g' h =
    let (n, found, h1) = >>=-eq-ok (ok_or (lookup id g.nodes) (missing_node id)) _ h in
    let (params, is_object, h2) = >>=-eq-ok (ok_or (as_object n.params) _) _ h1 in
    let (checked, last) = >>-eq-ok (ensure (agrees prev (lookup key params)) _) _ h2 in
    (
      n,
      params,
      ok_or-eq-ok _ _ found,
      ok_or-eq-ok _ _ is_object,
      ensure-eq-ok _ _ checked,
      sym (ok-injective last),
    )

pub spawn_ok :
    (reg : NodeRegistry) (id from : String) (node : GraphNode) (g g' : WorkflowGraph)
    → spawn_derived reg g id node from ≡ ok g'
    → (source : GraphNode) × (source_def : NodeDefinition) × (target_def : NodeDefinition)
      × (ports : LineagePorts) × (same from id ≡ false)
      × (lookup from g.nodes ≡ some source)
      × (Assoc.contains_key id g.nodes ≡ false)
      × (definition reg source.node_type ≡ ok source_def)
      × (definition reg node.node_type ≡ ok target_def)
      × (matching_connection_ports source_def target_def ≡ some ports)
      × (g' ≡ record g {
        nodes = Assoc.insert id node g.nodes;
        edges = g.edges ++ lineage_edge from id ports ∷ [];
      })
unfolding spawn_derived
spawn_ok reg id from node g g' h =
    let (other, h1) = >>-eq-ok (ensure (not (same from id)) _) _ h in
    let (source, found, h2) = >>=-eq-ok (ok_or (lookup from g.nodes) _) _ h1 in
    let (fresh, h3) = >>-eq-ok (ensure (not (Assoc.contains_key id g.nodes)) _) _ h2 in
    let (source_def, sd, h4) =
      >>=-eq-ok (map_err registry (definition reg source.node_type)) _ h3 in
    let (target_def, td, h5) = >>=-eq-ok (map_err registry (definition reg node.node_type)) _ h4 in
    let (ports, matched, last) =
      >>=-eq-ok (ok_or (matching_connection_ports source_def target_def) _) _ h5 in
    let is_other = ensure-eq-ok _ _ other in
    let is_fresh = ensure-eq-ok _ _ fresh in
    (
      source,
      source_def,
      target_def,
      ports,
      ground arith,
      ok_or-eq-ok _ _ found,
      ground arith,
      map_err-eq-ok registry _ sd,
      map_err-eq-ok registry _ td,
      ok_or-eq-ok _ _ matched,
      sym (ok-injective last),
    )

Keeps-write :
    (id : String) (f : GraphNode → GraphNode) (g g' : WorkflowGraph) (op : ProposalOp)
    → ((j : String) → names_node j op ≡ same j id)
    → write_node id f g ≡ ok g'
    → Keeps g g' op
Keeps-write id f g g' op named h =
    let (n, found, e) = write_node_ok id f g g' h in
    subst (λ x. Keeps g x op) (sym e) (Keeps-adjust id g op named f)

-- A removal succeeds only if it takes an edge away.
pub remove_edge_ok :
    (reg : NodeRegistry) (g g' : WorkflowGraph) (e : GraphEdge)
    → apply_op reg g (remove_edge e) ≡ ok g'
    → let kept = retain (λ c. not (same_edge c e)) g.edges in
      (length kept ≢ length g.edges) × (g' ≡ record g { edges = kept })
unfolding apply_op
remove_edge_ok reg g g' e h =
    elim (Bool-cases (length (retain (λ c. not (same_edge c e)) g.edges) == length g.edges)) [
      | inl all_kept ↦ cc (rw (all_kept, apply_op) at h)
      | inr fewer ↦ (ground arith, sym (ok-injective (rw (fewer, apply_op) at h)))
    ]

-- Every operation that succeeds keeps the order of the nodes, the nodes that it does not name, the
-- schema version and the catalog revision.
pub apply_op-Keeps :
    (reg : NodeRegistry) (g g' : WorkflowGraph) (op : ProposalOp)
    → apply_op reg g op ≡ ok g'
    → Keeps g g' op
unfolding apply_op
apply_op-Keeps reg g g' (add_node id node) h = elim (Bool-cases (Assoc.contains_key id g.nodes)) [
  | inl old ↦ cc (rw (old, apply_op) at h)
  | inr new ↦
      subst (λ x. Keeps g x (add_node id node)) (ok-injective (rw (new, apply_op) at h))
        (Keeps-insert id g (add_node id node) (λ j. refl) node g.edges)
]
apply_op-Keeps reg g g' (remove_node id) h =
    let (n, found, rest) = >>=-eq-ok (ok_or (lookup id g.nodes) (missing_node id)) _ h in
    subst (λ x. Keeps g x (remove_node id)) (ok-injective rest)
      (Keeps-remove id g (remove_node id) (λ j. refl) _)
apply_op-Keeps reg g g' (set_param id key prev value) h =
    let (n, params, found, o, a, e) = set_param_ok id key prev value g g' h in
    subst (λ x. Keeps g x (set_param id key prev value)) (sym e)
      (Keeps-adjust id g (set_param id key prev value) (λ j. refl) _)
apply_op-Keeps reg g g' (add_edge e) h =
    subst (λ x. Keeps g x (add_edge e)) (ok-injective h) (Keeps-edges g _ (add_edge e))
apply_op-Keeps reg g g' (remove_edge e) h =
    let (kept, is_kept) = remove_edge_ok reg g g' e h in
    subst (λ x. Keeps g x (remove_edge e)) (sym is_kept) (Keeps-edges g _ (remove_edge e))
apply_op-Keeps reg g g' (move_node id pos) h =
    Keeps-write id _ g g' (move_node id pos) (λ j. refl) h
apply_op-Keeps reg g g' (resize_node id size) h =
    Keeps-write id _ g g' (resize_node id size) (λ j. refl) h
apply_op-Keeps reg g g' (set_semantics id semantics) h =
    Keeps-write id _ g g' (set_semantics id semantics) (λ j. refl) h
apply_op-Keeps reg g g' (spawn_node id node from) h =
    let (source, sd, td, ports, o, f, n, ks, kt, m, e) = spawn_ok reg id from node g g' h in
    subst (λ x. Keeps g x (spawn_node id node from)) (sym e)
      (Keeps-insert id g (spawn_node id node from) (λ j. refl) node _)
