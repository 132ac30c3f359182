-- ===== src/Graph/Operations/Effects.antt =====
-- What the operations of crates/graph/src/lib.rs do to the nodes and edges that they name.
use helixflow.Base.{
  String, Bool, true, false, not, List, [], ◌∷◌, ◌++◌, ok, ok_or, ◌≡◌, ◌⊎◌, ◌∙◌, subst, refl, sym,
  ap₂, arith, same, same_refl, retain, retain-append, retain-eq_self, all, All, map-All, >>=-eq-ok,
  ok-injective, inl, inr, Bool-cases,
}
use helixflow.Base.Assoc
use helixflow.Base.Assoc.{BTreeMap, lookup, keys}
use helixflow.Base.Keys.{member, member-same}
use helixflow.Registry.{NodeRegistry}
use helixflow.Graph.Lineage.{LineagePorts}
use mathlib.Core.List.{append-nil}
use helixflow.Graph.Types.{
  WorkflowGraph, GraphNode, GraphEdge, ProposalOp, add_node, remove_node, set_param, add_edge,
  remove_edge, move_node, resize_node, set_semantics, spawn_node, missing_node,
}
use helixflow.Graph.Topology.Correct.{HasEndpoints}
use helixflow.Graph.Operations.{apply_op, touches, lineage_edge}
use helixflow.Graph.Operations.Frame.{write_node_ok, set_param_ok, spawn_ok, remove_edge_ok}

-- An edge between nodes of a map.
abbrev Joins : BTreeMap GraphNode → GraphEdge → Type 0
Joins nodes e = (member e.from.0 (keys nodes) ≡ true) × (member e.to.0 (keys nodes) ≡ true)

-- An operation that adds an edge names two nodes of the graph.
abbrev pub AddsKnownEdge : WorkflowGraph → ProposalOp → Type 0
AddsKnownEdge g (add_edge e) = Joins g.nodes e
AddsKnownEdge g _ = Unit

Joins-insert :
    (id : String) (n : GraphNode) (nodes : BTreeMap GraphNode) (e : GraphEdge)
    → Joins nodes e
    → Joins (Assoc.insert id n nodes) e
Joins-insert id n nodes e j = ground (
  arith,
  Assoc.member-keys-insert e.from.0 id n nodes,
  Assoc.member-keys-insert e.to.0 id n nodes,
)

Joins-adjust :
    (id : String) (f : GraphNode → GraphNode) (nodes : BTreeMap GraphNode) (e : GraphEdge)
    → Joins nodes e
    → Joins (Assoc.adjust id f nodes) e
Joins-adjust id f nodes e j = rw (Assoc.keys-adjust id f nodes) j

Joins-remove :
    (id : String) (nodes : BTreeMap GraphNode) (es : List GraphEdge)
    → All (Joins nodes) es
    → All (Joins (Assoc.remove id nodes)) (retain (λ e. not (touches id e)) es)
Joins-remove id nodes [] h = tt
Joins-remove id nodes (e ∷ es) h = elim (Bool-cases (touches id e)) [
  | inl t ↦ rw t (Joins-remove id nodes es h.1)
  | inr t ↦ rw t (
    ground (
      arith,
      h.0,
      Assoc.member-keys-remove e.from.0 id nodes,
      Assoc.member-keys-remove e.to.0 id nodes,
    ),
    Joins-remove id nodes es h.1,
  )
]

All-retain {ℓ κ} :
    {A : Type ℓ} (P : A → Type κ) (p : A → Bool) (xs : List A) → All P xs → All P (retain p xs)
All-retain P p [] h = tt
All-retain P p (x ∷ xs) h = elim (Bool-cases (p x)) [
  | inl e ↦ rw e (h.0, All-retain P p xs h.1)
  | inr e ↦ rw e (All-retain P p xs h.1)
]

All-append {ℓ κ} :
    {A : Type ℓ} (P : A → Type κ) (xs ys : List A) → All P xs → All P ys → All P (xs ++ ys)
All-append P [] ys h k = k
All-append P (x ∷ xs) ys h k = (h.0, All-append P xs ys h.1 k)

adjust_endpoints :
    (id : String) (f : GraphNode → GraphNode) (g g' : WorkflowGraph)
    → HasEndpoints g
    → g' ≡ record g { nodes = Assoc.adjust id f g.nodes }
    → HasEndpoints g'
adjust_endpoints id f g g' h e =
    subst HasEndpoints (sym e) (map-All (λ d j. Joins-adjust id f g.nodes d j) g.edges h)

-- Where every edge stands between nodes of the graph, an operation that succeeds leaves it so,
-- unless it adds an edge whose ends are not both nodes. Removing a node takes its edges along.
pub apply_op-HasEndpoints :
    (reg : NodeRegistry) (g g' : WorkflowGraph) (op : ProposalOp)
    → HasEndpoints g
    → AddsKnownEdge g op
    → apply_op reg g op ≡ ok g'
    → HasEndpoints g'
unfolding apply_op
apply_op-HasEndpoints reg g g' (add_node id node) h k r =
    elim (Bool-cases (Assoc.contains_key id g.nodes)) [
      | inl old ↦ cc (rw (old, apply_op) at r)
      | inr new ↦
          subst HasEndpoints (ok-injective (rw (new, apply_op) at r))
            (map-All (λ d j. Joins-insert id node g.nodes d j) g.edges h)
    ]
apply_op-HasEndpoints reg g g' (remove_node id) h k r =
    let (n, found, rest) = >>=-eq-ok (ok_or (lookup id g.nodes) (missing_node id)) _ r in
    subst HasEndpoints (ok-injective rest) (Joins-remove id g.nodes g.edges h)
apply_op-HasEndpoints reg g g' (set_param id key prev value) h k r =
    let (n, params, found, o, a, e) = set_param_ok id key prev value g g' r in
    adjust_endpoints id _ g g' h e
apply_op-HasEndpoints reg g g' (add_edge e) h k r =
    subst HasEndpoints (ok-injective r) (All-append (Joins g.nodes) g.edges (e ∷ []) h (k, tt))
apply_op-HasEndpoints reg g g' (remove_edge e) h k r =
    let (fewer, is_kept) = remove_edge_ok reg g g' e r in
    subst HasEndpoints (sym is_kept) (All-retain (Joins g.nodes) _ g.edges h)
apply_op-HasEndpoints reg g g' (move_node id pos) h k r =
    let (n, found, e) = write_node_ok id _ g g' r in adjust_endpoints id _ g g' h e
apply_op-HasEndpoints reg g g' (resize_node id size) h k r =
    let (n, found, e) = write_node_ok id _ g g' r in adjust_endpoints id _ g g' h e
apply_op-HasEndpoints reg g g' (set_semantics id semantics) h k r =
    let (n, found, e) = write_node_ok id _ g g' r in adjust_endpoints id _ g g' h e
apply_op-HasEndpoints reg g g' (spawn_node id node from) h k r =
    let (source, sd, td, ports, o, f, n, ks, kt, m, e) = spawn_ok reg id from node g g' r in
    subst HasEndpoints (sym e) (
      All-append (Joins (Assoc.insert id node g.nodes)) g.edges (lineage_edge from id ports ∷ [])
        (map-All (λ d j. Joins-insert id node g.nodes d j) g.edges h)
        (
          (
            ground (
              arith,
              Assoc.member-keys-insert from id node g.nodes,
              Assoc.is_some-lookup from g.nodes,
            ),
            ground (arith, Assoc.member-keys-insert id id node g.nodes, same_refl id),
          ),
          tt,
        ))

untouched :
    (id : String) (nodes : BTreeMap GraphNode) (es : List GraphEdge)
    → member id (keys nodes) ≡ false
    → All (Joins nodes) es
    → all (λ e. not (touches id e)) es ≡ true
untouched id nodes [] n h = refl
untouched id nodes (e ∷ es) n h = ground (
  arith,
  h.0,
  untouched id nodes es n h.1,
  member-same e.from.0 id (keys nodes),
  member-same e.to.0 id (keys nodes),
)

fresh_name :
    (id : String) (nodes : BTreeMap GraphNode)
    → Assoc.contains_key id nodes ≡ false
    → member id (keys nodes) ≡ false
fresh_name id nodes new = sym (Assoc.is_some-lookup id nodes) ∙ new

remove_inserted :
    (reg : NodeRegistry) (g : WorkflowGraph) (id : String) (node : GraphNode) (es : List GraphEdge)
    → Assoc.contains_key id g.nodes ≡ false
    → retain (λ e. not (touches id e)) es ≡ g.edges
    → apply_op reg (record g { nodes = Assoc.insert id node g.nodes; edges = es }) (remove_node id)
      ≡ ok g
unfolding apply_op
remove_inserted reg g id node es new e = rw (
  Assoc.lookup-insert id id node g.nodes,
  same_refl id,
  Assoc.remove-insert id node g.nodes new,
  e,
)

-- A node that is added and removed again, or spawned and removed again, leaves the graph as it
-- was, where every edge of the graph stands between its nodes.
pub remove_node-undoes :
    (reg : NodeRegistry) (g g' : WorkflowGraph) (id : String) (node : GraphNode) (op : ProposalOp)
    → HasEndpoints g
    → (op ≡ add_node id node) ⊎ ((from : String) × (op ≡ spawn_node id node from))
    → apply_op reg g op ≡ ok g'
    → apply_op reg g' (remove_node id) ≡ ok g
unfolding apply_op
remove_node-undoes reg g g' id node op h (inl is_add) r =
    let r' : apply_op reg g (add_node id node) ≡ ok g' = rw is_add at r in
    elim (Bool-cases (Assoc.contains_key id g.nodes)) [
      | inl old ↦ cc (rw (old, apply_op) at r')
      | inr new ↦
          subst (λ x. apply_op reg x (remove_node id) ≡ ok g)
            (ok-injective (rw (new, apply_op) at r'))
            (remove_inserted reg g id node g.edges new (
              retain-eq_self _ g.edges
                (untouched id g.nodes g.edges (fresh_name id g.nodes new) h)))
    ]
remove_node-undoes reg g g' id node op h (inr (from, is_spawn)) r =
    let (source, sd, td, ports, o, f, new, ks, kt, m, e) =
      spawn_ok reg id from node g g' (rw is_spawn at r) in
    subst (λ x. apply_op reg x (remove_node id) ≡ ok g) (sym e)
      (remove_inserted reg g id node _ new (
        retain-append _ g.edges (lineage_edge from id ports ∷ [])
        ∙ ap₂ ◌++◌
            (retain-eq_self _ g.edges (untouched id g.nodes g.edges (fresh_name id g.nodes new) h))
            (dropped ports o)
        ∙ append-nil g.edges))
  where
    dropped :
        (ports : LineagePorts)
        → same from id ≡ false
        → retain (λ e. not (touches id e)) (lineage_edge from id ports ∷ []) ≡ []
    dropped ports o = rw (o, same_refl id)
