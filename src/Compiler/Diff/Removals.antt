-- ===== src/Compiler/Diff/Removals.antt =====
-- What becomes of a graph when the removals of edges and nodes that
-- crates/compiler/src/proposal_diff.rs makes, and its additions of edges, are applied.
use helixflow.Base.{
  String, Bool, true, false, not, ◌&&◌, ◌||◌, none, List, [], ◌∷◌, ◌++◌, map, ok, ◌≡◌, ◌<◌, refl,
  sym, ap, subst, ◌∙◌, arith, if◌then◌else◌, length, retain, same, same_iff, same_refl, Bool-cases,
  inl, inr, retain-length_le, >>=-eq-ok, Option-cases, is_some,
}
use mathlib.Core.List.{append-nil, append_assoc}
use helixflow.Base.Assoc
use helixflow.Base.Assoc.{BTreeMap, lookup, keys}
use helixflow.Base.Keys.{member, member-same, distinct, sorted}
use helixflow.Registry.{NodeRegistry}
use helixflow.Graph.Types.{
  WorkflowGraph, GraphEdge, ProposalOp, add_edge, remove_edge, remove_node, same_edge,
}
use helixflow.Graph.Operations.{apply_op, apply_ops, touches}
use helixflow.Compiler.Diff.{has_edge}
use helixflow.Compiler.Diff.Edges.{
  same_edge_sym, same_edge_refl, has_edge-retain, has_edge-same, distinct_edges,
}

-- Dropping an edge that is there makes the list shorter.
dropped-length_lt :
    (e : GraphEdge) (es : List GraphEdge)
    → has_edge e es ≡ true
    → length (retain (λ c. not (same_edge c e)) es) < length es
unfolding has_edge
dropped-length_lt e [] h = cc
dropped-length_lt e (x ∷ es) h = ground (
  arith,
  dropped-length_lt e es,
  retain-length_le (λ c. not (same_edge c e)) es,
  same_edge_sym e x,
)

pub or_right : (a b : Bool) → b ≡ true → (a || b) ≡ true
or_right a b h = ground arith

both : (a b : Bool) → a ≡ true → b ≡ false → (a && not b) ≡ true
both a b h k = ground arith

pub and_not : (a b c : Bool) → (a && not b && not c) ≡ (a && not (b || c))
and_not a b c = ground arith

other_edge :
    (e x : GraphEdge) (es : List GraphEdge)
    → has_edge x es ≡ false
    → has_edge e es ≡ true
    → same_edge e x ≡ false
other_edge e x es h m = elim (Bool-cases (same_edge e x)) [
  | inl d ↦ cc (has_edge-same e x es d)
  | inr d ↦ d
]

pair_or : (h a b c d : Bool) → (h && not ((a || b) || (c || d))) ≡ (h && not ((a || c) || (b || d)))
pair_or h a b c d = ground arith

pub other_name :
    (id x : String) (ids : List String)
    → member x ids ≡ false
    → member id ids ≡ true
    → same id x ≡ false
other_name id x ids h m = elim (Bool-cases (same id x)) [
  | inl d ↦ cc (member-same id x ids d)
  | inr d ↦ d
]

not_in_tail : (x : String) (ids : List String) → distinct (x ∷ ids) ≡ true → member x ids ≡ false
not_in_tail x ids d = ground arith

abbrev pub touches_any : List String → GraphEdge → Bool
touches_any ids e = member e.from.0 ids || member e.to.0 ids

-- The graph without a node.
abbrev pub without : String → WorkflowGraph → WorkflowGraph
without x g = record g {
  nodes = Assoc.remove x g.nodes;
  edges = retain (λ e. not (touches x e)) g.edges;
}

module _ (reg : NodeRegistry) where
  pub removed_node :
      (g : WorkflowGraph) (x : String)
      → Assoc.contains_key x g.nodes ≡ true
      → apply_op reg g (remove_node x) ≡ ok (without x g)
  unfolding apply_op
  removed_node g x h = elim (Option-cases (lookup x g.nodes)) [
    | inl e ↦ cc (ap is_some e)
    | inr (n, e) ↦ rw e refl
  ]

  pub apply_ops-append :
      (g g' g'' : WorkflowGraph) (before behind : List ProposalOp)
      → apply_ops reg g before ≡ ok g'
      → apply_ops reg g' behind ≡ ok g''
      → apply_ops reg g (before ++ behind) ≡ ok g''
  unfolding apply_ops
  apply_ops-append g g' g'' [] behind h k = subst (λ x. apply_ops reg x behind ≡ ok g'') (cc h) k
  apply_ops-append g g' g'' (op ∷ before) behind h k =
      let (middle, first, rest) = >>=-eq-ok (apply_op reg g op) _ h in
      rw first (apply_ops-append middle g' g'' before behind rest k)

  removed_first :
      (g : WorkflowGraph) (x : GraphEdge)
      → has_edge x g.edges ≡ true
      → apply_op reg g (remove_edge x)
        ≡ ok (record g { edges = retain (λ c. not (same_edge c x)) g.edges })
  unfolding apply_op
  removed_first g x h = ground (arith, dropped-length_lt x g.edges h)

  -- The removal of edges that are all there and all different.
  pub apply_ops-remove_edge :
      (g : WorkflowGraph) (es : List GraphEdge)
      → distinct_edges es ≡ true
      → ((e : GraphEdge) → has_edge e es ≡ true → has_edge e g.edges ≡ true)
      → (left : List GraphEdge) × (apply_ops reg g (map remove_edge es)
          ≡ ok (record g { edges = left }))
        × ((e : GraphEdge) → has_edge e left ≡ (has_edge e g.edges && not (has_edge e es)))
  unfolding apply_ops has_edge
  apply_ops-remove_edge g [] d known = (g.edges, refl, λ e. ground arith)
  apply_ops-remove_edge g (x ∷ es) d known =
      let kept = retain (λ c. not (same_edge c x)) g.edges in
      let gone = λ (e : GraphEdge). has_edge-retain e (λ c. not (same_edge c x)) g.edges in
      let (left, ran, has) =
        apply_ops-remove_edge (record g { edges = kept }) es (ground arith)
          (λ e m.
            gone e ∙ both _ _ (known e (or_right _ _ m)) (other_edge e x es (ground arith) m)) in
      (
        left,
        rw (removed_first g x (known x (ground (arith, same_edge_refl x)))) ran,
        λ e. has e ∙ ap (λ b. b && not (has_edge e es)) (gone e) ∙ and_not _ _ _,
      )

  pub apply_ops-add_edge :
      (g : WorkflowGraph) (es : List GraphEdge)
      → apply_ops reg g (map add_edge es) ≡ ok (record g { edges = g.edges ++ es })
  unfolding apply_ops apply_op
  apply_ops-add_edge g [] = ap (λ es. ok (record g { edges = es })) (sym (append-nil g.edges))
  apply_ops-add_edge g (x ∷ es) =
      apply_ops-add_edge (record g { edges = g.edges ++ x ∷ [] }) es
      ∙ ap (λ fs. ok (record g { edges = fs })) (append_assoc g.edges (x ∷ []) es)

  -- The removal of nodes that are all there and all different.
  pub apply_ops-remove_node :
      (g : WorkflowGraph) (ids : List String)
      → sorted (keys g.nodes) ≡ true
      → distinct ids ≡ true
      → ((id : String) → member id ids ≡ true → Assoc.contains_key id g.nodes ≡ true)
      → (g' : WorkflowGraph) × (apply_ops reg g (map remove_node ids) ≡ ok g')
        × (sorted (keys g'.nodes) ≡ true)
        × ((id : String) → lookup id g'.nodes ≡ (if member id ids then none else lookup id g.nodes))
        × ((e : GraphEdge) → has_edge e g'.edges ≡ (has_edge e g.edges && not (touches_any ids e)))
  unfolding apply_ops
  apply_ops-remove_node g [] s d known = (g, refl, s, λ id. refl, λ e. ground arith)
  apply_ops-remove_node g (x ∷ ids) s d known =
      let gone = λ (e : GraphEdge). has_edge-retain e (λ c. not (touches x c)) g.edges in
      let (g', ran, s', found, has) =
        apply_ops-remove_node (without x g) ids (Assoc.remove-sorted x g.nodes s) (ground arith)
          (λ id m.
            ap is_some
              (Assoc.lookup-remove_ne id x g.nodes (other_name id x ids (not_in_tail x ids d) m))
            ∙ known id (or_right _ _ m)) in
      (
        g',
        rw (removed_node g x (known x (rw (same_refl x)))) ran,
        s',
        λ id. found id ∙ without_found id,
        λ e.
            has e
            ∙ ap (λ b. b && not (touches_any ids e)) (gone e)
            ∙ and_not _ _ _
            ∙ pair_or (has_edge e g.edges) (same e.from.0 x) (same e.to.0 x) (member e.from.0 ids)
                (member e.to.0 ids),
      )
    where
      without_found :
          (id : String)
          → (if member id ids then none else lookup id (Assoc.remove x g.nodes))
            ≡ (if same id x || member id ids then none else lookup id g.nodes)
      without_found id = elim (Bool-cases (same id x)) [
        | inl e ↦
            rw (e, (same_iff id x).0 e, Assoc.lookup-remove_self x g.nodes s)
              (elim (Bool-cases (member x ids)) [ inl m ↦ rw m refl | inr m ↦ rw m refl ])
        | inr e ↦ rw (e, Assoc.lookup-remove_ne id x g.nodes e) refl
      ]
