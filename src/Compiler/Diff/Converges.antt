-- ===== src/Compiler/Diff/Converges.antt =====
-- The operations of crates/compiler/src/proposal_diff.rs applied to the graph that they are for.
use helixflow.Base.{
  String, Bool, true, false, not, ◌&&◌, ◌||◌, none, List, [], ◌∷◌, ◌++◌, ok, ◌≡◌, sym, ap, ap₂,
  subst, ◌∙◌, arith, if◌then◌else◌, Bool-cases, inl, inr, Option-cases, All, map,
}
use helixflow.Base.Assoc
use helixflow.Base.Assoc.{BTreeMap, lookup, keys}
use helixflow.Base.Keys.{member, sorted, distinct_of_sorted}
use helixflow.Registry.{NodeRegistry}
use helixflow.Graph.Types.{
  WorkflowGraph, GraphNode, GraphEdge, same_edge, same_edge_iff, remove_edge, remove_node, add_edge,
}
use helixflow.Graph.Operations.{apply_ops}
use helixflow.Graph.Topology.Correct.{HasEndpoints}
use helixflow.Compiler.Intent.Accepts.{member-retain, distinct-retain}
use helixflow.Compiler.Diff.{has_edge, edges_without, removed_nodes, node_ops, diff}
use helixflow.Compiler.Diff.Edges.{
  has_edge-edges_without, distinct_edges, distinct_edges-edges_without, has_edge-append,
}
use helixflow.Compiler.Diff.Removals.{
  apply_ops-append, apply_ops-remove_edge, apply_ops-remove_node, apply_ops-add_edge, touches_any,
}
use helixflow.Compiler.Diff.Loop.{Settles, HasParams, touches_replaced, loop}

-- What an accepted graph offers: its nodes in order, each edge between nodes, and parameters that
-- are maps.
pub record IsTarget (target : WorkflowGraph) : Type 0 where
  pub in_order : sorted (keys target.nodes) ≡ true
  pub endpoints : HasEndpoints target
  pub params : All (λ (entry : String × GraphNode). HasParams entry.1) target.nodes

-- What the current graph becomes.
pub record Converged (current target g : WorkflowGraph) : Type 0 where
  pub nodes :
      (id : String) → Settles (lookup id current.nodes) (lookup id target.nodes) (lookup id g.nodes)
  pub edges :
      (e : GraphEdge)
      → has_edge e g.edges ≡ (
          has_edge e target.edges
          && not (has_edge e current.edges && touches_replaced current.nodes target.nodes e))

has_edge-All {κ} :
    (P : GraphEdge → Type κ) (e : GraphEdge) (es : List GraphEdge)
    → All P es
    → has_edge e es ≡ true
    → P e
unfolding has_edge
has_edge-All P e [] h m = cc
has_edge-All P e (f ∷ es) h m = elim (Bool-cases (same_edge e f)) [
  | inl d ↦ subst P (sym ((same_edge_iff e f).0 d)) h.0
  | inr d ↦ has_edge-All P e es h.1 (rw d at m)
]

-- An edge of the target touches no node that the target has not.
touches-removed_nodes :
    (current target : WorkflowGraph) (e : GraphEdge)
    → HasEndpoints target
    → has_edge e target.edges ≡ true
    → touches_any (removed_nodes current.nodes target.nodes) e ≡ false
touches-removed_nodes current target e h m =
    let (from, to) = has_edge-All _ e target.edges h m in
    both_absent _ _ (not_removed e.from.0 from) (not_removed e.to.0 to)
  where
    both_absent : (a b : Bool) → a ≡ false → b ≡ false → a || b ≡ false
    both_absent a b p q = ground arith

    not_removed :
        (id : String)
        → member id (keys target.nodes) ≡ true
        → member id (removed_nodes current.nodes target.nodes) ≡ false
    not_removed id k = ground (
      arith,
      member-retain id (λ j. not (Assoc.contains_key j target.nodes)) (keys current.nodes),
      Assoc.is_some-lookup id target.nodes,
    )

-- The edges of the result, from what each of the four phases does to them.
combine :
    (in_target in_current t r : Bool)
    → (in_target ≡ true → t ≡ false)
    → (((in_current && not (in_current && not in_target)) && not t) && not r
        || in_target && not in_current)
      ≡ (in_target && not (in_current && r))
combine in_target in_current t r h = ground arith

pub diff-Converged :
    (reg : NodeRegistry) (current target : WorkflowGraph)
    → sorted (keys current.nodes) ≡ true
    → distinct_edges current.edges ≡ true
    → IsTarget target
    → (g : WorkflowGraph) × (apply_ops reg current (diff current target) ≡ ok g)
      × Converged current target g
unfolding diff
diff-Converged reg current target s d t =
    let gone = edges_without current.edges target.edges in
    let new = edges_without target.edges current.edges in
    let ids = removed_nodes current.nodes target.nodes in
    let (left, ran1, edges1) =
      apply_ops-remove_edge reg current gone
        (distinct_edges-edges_without current.edges target.edges d) (λ e m. only_current e m) in
    let g1 : WorkflowGraph = record current { edges = left } in
    let (g2, ran2, s2, nodes2, edges2) =
      apply_ops-remove_node reg g1 ids s
        (distinct-retain _ (keys current.nodes) (distinct_of_sorted _ s))
        (λ id m. of_current id m) in
    let (g3, rest) =
      loop reg current.nodes target.nodes g2 s2 (distinct_of_sorted _ t.in_order) t.params
        (λ id m. nodes2 id ∙ kept_there id m) in
    let g4 : WorkflowGraph = record g3 { edges = g3.edges ++ new } in
    let ran4 = apply_ops-add_edge reg g3 new in
    (
      g4,
      apply_ops-append reg current g1 g4 (map remove_edge gone) _ ran1 (
          apply_ops-append reg g1 g2 g4 (map remove_node ids) _ ran2 (
            apply_ops-append reg g2 g3 g4 (node_ops current.nodes target.nodes) (map add_edge new)
              rest.ran ran4)),
      record {
        nodes = λ id. elim (Option-cases (lookup id target.nodes)) [
          | inl no_target ↦
              subst (λ n. Settles (lookup id current.nodes) n (lookup id g3.nodes)) (sym no_target)
                (rest.others id (absent id no_target) ∙ nodes2 id ∙ dropped id no_target)
          | inr (n, is_target) ↦
              subst (λ m. Settles (lookup id current.nodes) m (lookup id g3.nodes)) (sym is_target)
                (rest.settled id n is_target)
        ];
        edges = λ e.
            has_edge-append e g3.edges new
            ∙ ap₂ (λ a b. a || b)
                (rest.edges e
                  ∙ ap (λ b. b && not (touches_replaced current.nodes target.nodes e))
                      (edges2 e
                        ∙ ap (λ b. b && not (touches_any ids e))
                            (edges1 e
                              ∙ ap (λ b. has_edge e current.edges && not b)
                                  (has_edge-edges_without e current.edges target.edges))))
                (has_edge-edges_without e target.edges current.edges)
            ∙ combine (has_edge e target.edges) (has_edge e current.edges) (touches_any ids e)
                (touches_replaced current.nodes target.nodes e)
                (touches-removed_nodes current target e t.endpoints);
      },
    )
  where
    removed_iff :
        (id : String)
        → member id (removed_nodes current.nodes target.nodes)
          ≡ (member id (keys current.nodes) && not (Assoc.contains_key id target.nodes))
    removed_iff id =
        member-retain id (λ j. not (Assoc.contains_key j target.nodes)) (keys current.nodes)

    only_current :
        (e : GraphEdge)
        → has_edge e (edges_without current.edges target.edges) ≡ true
        → has_edge e current.edges ≡ true
    only_current e m = ground (arith, has_edge-edges_without e current.edges target.edges)

    of_current :
        (id : String)
        → member id (removed_nodes current.nodes target.nodes) ≡ true
        → Assoc.contains_key id current.nodes ≡ true
    of_current id m = ground (arith, removed_iff id, Assoc.is_some-lookup id current.nodes)

    kept_there :
        (id : String)
        → member id (keys target.nodes) ≡ true
        → (if member id (removed_nodes current.nodes target.nodes)
            then none
            else lookup id current.nodes)
          ≡ lookup id current.nodes
    kept_there id m = ground (arith, removed_iff id, Assoc.is_some-lookup id target.nodes)

    absent : (id : String) → lookup id target.nodes ≡ none → member id (keys target.nodes) ≡ false
    absent id h = ground (arith, Assoc.is_some-lookup id target.nodes)

    dropped :
        (id : String)
        → lookup id target.nodes ≡ none
        → (if member id (removed_nodes current.nodes target.nodes)
            then none
            else lookup id current.nodes)
          ≡ none
    dropped id h = ground (arith, removed_iff id, Assoc.is_some-lookup id current.nodes)
