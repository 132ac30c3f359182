-- ===== src/Compiler/Diff/Loop.antt =====
-- The loop over the target's nodes in crates/compiler/src/proposal_diff.rs: which nodes and edges a
-- graph has once its operations are applied.
use helixflow.Base.{
  String, Bool, true, false, not, ◌&&◌, ◌||◌, Option, none, some, [], ◌∷◌, ok, ◌≡◌, refl, sym, ap,
  subst, ◌∙◌, arith, if◌then◌else◌, same, same_iff, same_refl, Bool-cases, inl, inr, is_some, All,
}
use helixflow.Base.Assoc
use helixflow.Base.Assoc.{BTreeMap, lookup, keys}
use helixflow.Base.Keys.{member, distinct, sorted}
use helixflow.Json.{Value, as_object}
use helixflow.Registry.{NodeRegistry}
use helixflow.Graph.Types.{WorkflowGraph, GraphNode, GraphEdge, add_node}
use helixflow.Graph.Operations.{apply_op, apply_ops, touches}
use helixflow.Compiler.Diff.{has_edge, existing_ops, node_ops}
use helixflow.Compiler.Diff.Edges.{has_edge-retain}
use helixflow.Compiler.Diff.Removals.{apply_ops-append, removed_node, without, or_right, and_not}
use helixflow.Compiler.Diff.Nodes.{rest_distinct, first_fresh, not_head}
use helixflow.Compiler.Diff.Kept.{Converges, apply_ops-kept_ops}

-- What the node under an id becomes, from what the current graph and the target have there.
abbrev pub Settles : Option GraphNode → Option GraphNode → Option GraphNode → Type 0
Settles current none result = result ≡ none
Settles none (some target) result = result ≡ some target
Settles (some existing) (some target) result =
    (same existing.node_type target.node_type ≡ true
      → (n : GraphNode) × (result ≡ some n) × Converges existing target n)
    × (same existing.node_type target.node_type ≡ false → result ≡ some target)

-- A node that has another type in the current graph.
abbrev pub is_replaced : Option GraphNode → GraphNode → Bool
is_replaced none target = false
is_replaced (some existing) target = not (same existing.node_type target.node_type)

-- An edge at a node that is replaced.
abbrev pub touches_replaced : BTreeMap GraphNode → BTreeMap GraphNode → GraphEdge → Bool
touches_replaced current [] e = false
touches_replaced current ((id, node) ∷ target) e =
    is_replaced (lookup id current) node && touches id e || touches_replaced current target e

-- The parameters of a node are a map.
abbrev pub HasParams : GraphNode → Type 0
HasParams n = (qs : BTreeMap Value) → as_object n.params ≡ some qs → distinct (keys qs) ≡ true

both_false : (a b : Bool) → a || b ≡ false → (a ≡ false) × (b ≡ false)
both_false a b h = ground arith

module _ (reg : NodeRegistry) where
  -- What the operations for one node of the target do, given what the current graph has there.
  record Step (id : String) (target : GraphNode) (current : Option GraphNode) (g g' : WorkflowGraph)
      : Type 0 where
    ran : apply_ops reg g (existing_ops id target current) ≡ ok g'
    in_order : sorted (keys g'.nodes) ≡ true
    settled : Settles current (some target) (lookup id g'.nodes)
    others : (j : String) → same j id ≡ false → lookup j g'.nodes ≡ lookup j g.nodes
    edges :
        (e : GraphEdge)
        → has_edge e g'.edges
          ≡ (has_edge e g.edges && not (is_replaced current target && touches id e))

  insert_others :
      (id : String) (n : GraphNode) (nodes : BTreeMap GraphNode) (j : String)
      → same j id ≡ false
      → lookup j (Assoc.insert id n nodes) ≡ lookup j nodes
  insert_others id n nodes j d = rw (Assoc.lookup-insert j id n nodes, d) refl

  insert_self :
      (id : String) (n : GraphNode) (nodes : BTreeMap GraphNode)
      → lookup id (Assoc.insert id n nodes) ≡ some n
  insert_self id n nodes = rw (Assoc.lookup-insert id id n nodes, same_refl id) refl

  and_true : (b : Bool) → b ≡ (b && true)
  and_true b = ground arith

  added :
      (id : String) (n : GraphNode) (g : WorkflowGraph)
      → lookup id g.nodes ≡ none
      → apply_ops reg g (add_node id n ∷ []) ≡ ok (record g { nodes = Assoc.insert id n g.nodes })
  unfolding apply_ops apply_op
  added id n g free = rw free refl

  step_new :
      (id : String) (target : GraphNode) (g : WorkflowGraph)
      → sorted (keys g.nodes) ≡ true
      → lookup id g.nodes ≡ none
      → (g' : WorkflowGraph) × Step id target none g g'
  step_new id target g s free = (
    record g { nodes = Assoc.insert id target g.nodes },
    record {
      ran = added id target g free;
      in_order = Assoc.insert-keys-sorted id target g.nodes s;
      settled = insert_self id target g.nodes;
      others = insert_others id target g.nodes;
      edges = λ e. and_true (has_edge e g.edges);
    },
  )

  step_kept :
      (id : String) (target existing : GraphNode) (g : WorkflowGraph)
      → sorted (keys g.nodes) ≡ true
      → lookup id g.nodes ≡ some existing
      → HasParams target
      → same existing.node_type target.node_type ≡ true
      → (g' : WorkflowGraph) × Step id target (some existing) g g'
  step_kept id target existing g s found d t =
      let (g', n, ran, w, c) = apply_ops-kept_ops reg id existing target g found d in
      (
        g',
        record {
          ran = rw t ran;
          in_order = w.in_order s;
          settled = (λ h. (n, w.written, c), λ h. cc);
          others = w.others;
          edges = λ e. rw t (ap (has_edge e) w.edges ∙ and_true (has_edge e g.edges));
        },
      )

  step_replaced :
      (id : String) (target existing : GraphNode) (g : WorkflowGraph)
      → sorted (keys g.nodes) ≡ true
      → lookup id g.nodes ≡ some existing
      → same existing.node_type target.node_type ≡ false
      → (g' : WorkflowGraph) × Step id target (some existing) g g'
  unfolding apply_ops
  step_replaced id target existing g s found t =
      let g1 = without id g in
      (
        record g1 { nodes = Assoc.insert id target g1.nodes },
        record {
          ran =
              rw (t, removed_node reg g id (ap is_some found))
                (added id target g1 (Assoc.lookup-remove_self id g.nodes s));
          in_order = Assoc.insert-keys-sorted id target g1.nodes (Assoc.remove-sorted id g.nodes s);
          settled = (λ h. cc, λ h. insert_self id target g1.nodes);
          others =
              λ j d. insert_others id target g1.nodes j d ∙ Assoc.lookup-remove_ne j id g.nodes d;
          edges = λ e. rw t (has_edge-retain e (λ c. not (touches id c)) g.edges);
        },
      )

  step :
      (id : String) (target : GraphNode) (current : Option GraphNode) (g : WorkflowGraph)
      → sorted (keys g.nodes) ≡ true
      → lookup id g.nodes ≡ current
      → HasParams target
      → (g' : WorkflowGraph) × Step id target current g g'
  step id target none g s found d = step_new id target g s found
  step id target (some existing) g s found d =
      elim (Bool-cases (same existing.node_type target.node_type)) [
        | inl t ↦ step_kept id target existing g s found d t
        | inr t ↦ step_replaced id target existing g s found t
      ]

  -- What the whole loop does.
  pub record Loop (current target : BTreeMap GraphNode) (g g' : WorkflowGraph) : Type 0 where
    pub ran : apply_ops reg g (node_ops current target) ≡ ok g'
    pub settled :
        (id : String) (n : GraphNode)
        → lookup id target ≡ some n
        → Settles (lookup id current) (some n) (lookup id g'.nodes)
    pub others :
        (j : String) → member j (keys target) ≡ false → lookup j g'.nodes ≡ lookup j g.nodes
    pub edges :
        (e : GraphEdge)
        → has_edge e g'.edges ≡ (has_edge e g.edges && not (touches_replaced current target e))

  pub loop :
      (current target : BTreeMap GraphNode) (g : WorkflowGraph)
      → sorted (keys g.nodes) ≡ true
      → distinct (keys target) ≡ true
      → All (λ (entry : String × GraphNode). HasParams entry.1) target
      → ((id : String) → member id (keys target) ≡ true → lookup id g.nodes ≡ lookup id current)
      → (g' : WorkflowGraph) × Loop current target g g'
  unfolding node_ops apply_ops lookup
  loop current [] g s d h same_there = (
    g,
    record {
      ran = refl;
      settled = λ id n e. cc;
      others = λ j m. refl;
      edges = λ e. and_true (has_edge e g.edges);
    },
  )
  loop current ((id, node) ∷ target) g s d h same_there =
      let (g1, first) =
        step id node (lookup id current) g s (same_there id (rw (same_refl id))) h.0 in
      let (g2, rest) =
        loop current target g1 first.in_order (rest_distinct id (keys target) d) h.1 (λ j m.
          first.others j (not_head id j (keys target) d m) ∙ same_there j (or_right _ _ m)) in
      (
        g2,
        record {
          ran =
              apply_ops-append reg g g1 g2 (existing_ops id node (lookup id current))
                (node_ops current target) first.ran rest.ran;
          settled = λ j n e. join_settled j n g1 g2 first rest e;
          others = λ j m.
              let (not_id, not_rest) = both_false _ _ m in
              rest.others j not_rest ∙ first.others j not_id;
          edges = λ e.
              rest.edges e
              ∙ ap (λ b. b && not (touches_replaced current target e)) (first.edges e)
              ∙ and_not (has_edge e g.edges) _ (touches_replaced current target e);
        },
      )
    where
      join_settled :
          (j : String) (n : GraphNode) (g1 g2 : WorkflowGraph)
          → Step id node (lookup id current) g g1
          → Loop current target g1 g2
          → (if same j id then some node else lookup j target) ≡ some n
          → Settles (lookup j current) (some n) (lookup j g2.nodes)
      join_settled j n g1 g2 first rest e = elim (Bool-cases (same j id)) [
        | inl is_id ↦
            let untouched = rest.others id (first_fresh id (keys target) d) in
            let here =
              subst (λ r. Settles (lookup id current) (some node) r) (sym untouched)
                first.settled in
            let there =
              subst (λ x. Settles (lookup x current) (some node) (lookup x g2.nodes))
                (sym ((same_iff j id).0 is_id)) here in
            subst (λ t. Settles (lookup j current) t (lookup j g2.nodes)) (rw is_id at e) there
        | inr other ↦ rest.settled j n (rw other at e)
      ]
