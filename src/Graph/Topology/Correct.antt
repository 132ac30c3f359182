-- ===== src/Graph/Topology/Correct.antt =====
-- What `topological_order` and `has_cycle` of crates/graph/src/lib.rs answer.
use helixflow.Base.{
  ℕ, zero, suc, ◌<◌, String, true, false, none, some, List, [], ◌∷◌, ◌≡◌, ◌↔◌, ◌⊎◌, refl, subst,
  ◌∙◌, ap, arith, if◌then◌else◌, ◌==◌, same, same_refl, same_iff, Bool-cases, >>=-eq-ok, inl, inr,
  ok, err, length, All, map-All,
}
use helixflow.Base.Assoc
use helixflow.Base.Assoc.{BTreeMap, lookup, items, keys}
use helixflow.Base.Keys.{
  length-le_of_distinct, BTreeSet, member, sorted, distinct, member-same, distinct_of_sorted,
}
use helixflow.Graph.Types.{GraphEdge, WorkflowGraph, GraphError, cycle_detected}
use helixflow.Graph.Topology.{
  Maps, count_edges, no_incoming, initially_ready, topological_order, has_cycle, is_err,
}
use helixflow.Graph.Topology.Setup.{
  EndsIn, IsTallied, count_edges-IsTallied, count_edges_ends, initially_ready-sorted,
  member-initially_ready, lookup-no_incoming, keys-no_incoming,
}
use helixflow.Graph.Topology.Drain.{IsRunning, InOrder, drain-IsRunning}
use helixflow.Graph.Topology.Counting.{pending, precedes, occurrences}

pending_zero :
    (es : List GraphEdge) (done : List String) (v : String)
    → All (λ e. same v e.to.0 ≡ true → member e.from.0 done ≡ true) es
    → pending es done v ≡ 0
unfolding pending
pending_zero [] done v h = refl
pending_zero (e ∷ es) done v h = ground (arith, pending_zero es done v h.1, h.0)

length-keys : {V : Type 0} (m : BTreeMap V) → length (keys m) ≡ length m
length-keys [] = refl
length-keys ((k, v) ∷ m) = ap suc (length-keys m)

-- A graph as `BTreeMap` holds it.
abbrev pub HasSortedNodes : WorkflowGraph → Type 0
HasSortedNodes g = sorted (keys g.nodes) ≡ true

module _ (g : WorkflowGraph) (s : HasSortedNodes g) where
  abbrev names : List String
  names = keys g.nodes

  tally_counts :
      (maps : Maps) (v : String)
      → IsTallied names g.edges (no_incoming g.nodes, []) maps
      → lookup v maps.0 ≡ (if member v names then some (pending g.edges [] v) else none)
  tally_counts maps v t = ground (arith, t.counts v 0, t.same_keys v, lookup-no_incoming v g.nodes)

  started :
      (maps : Maps)
      → EndsIn names g.edges
      → IsTallied names g.edges (no_incoming g.nodes, []) maps
      → IsRunning names g.edges maps.0 (initially_ready maps.0) []
  unfolding occurrences
  started maps ends t =
      let in_order = t.in_order (rw (keys-no_incoming g.nodes) s) in
      record {
        counted = record {
          counts = λ v. ground (arith, tally_counts maps v t);
          opens =
              λ v. ground (arith, tally_counts maps v t, member-initially_ready v maps.0 in_order);
          fresh = λ v m. cc;
          in_order = initially_ready-sorted maps.0 in_order;
        };
        inside = λ v m. cc;
        once = refl;
        in_order = map-All (λ e h m. cc) g.edges ends;
      }

  -- When every node is ordered none is ready.
  none_ready :
      (incoming : BTreeMap ℕ) (ready : BTreeSet) (ordered : List String)
      → IsRunning names g.edges incoming ready ordered
      → (ready ≡ []) ⊎ (length ordered ≡ length g.nodes)
      → ready ≡ []
  none_ready incoming [] ordered r stop = refl
  none_ready incoming (id ∷ ready) ordered r (inl e) = cc
  none_ready incoming (id ∷ ready) ordered r (inr e) =
      let known = r.counted.opens id in
      let more =
        length-le_of_distinct (id ∷ ordered) names (ground (arith, r.once, same_refl id))
          (λ v m. ground (arith, r.inside v, member-same v id names, same_refl id)) in
      absurd (omega (arith, more, length-keys g.nodes, e))

  -- The loop is left with no node ready.
  run_to_end :
      EndsIn names g.edges
      → (incoming : BTreeMap ℕ) × (ordered : List String) × IsRunning names g.edges incoming []
          ordered
        × (topological_order g
            ≡ (if length ordered == length g.nodes then ok ordered else err cycle_detected))
  unfolding topological_order Assoc.lookup
  run_to_end ends =
      let (maps, tally, t) =
        count_edges-IsTallied names g.edges (no_incoming g.nodes) []
          (λ v m. (0, rw (lookup-no_incoming v g.nodes, m))) ends in
      let (incoming, ready, ordered, run, r, stop) =
        drain-IsRunning names g.edges ends (length g.nodes) maps.1 maps.0 (initially_ready maps.0)
          [] t.out (started maps ends t) in
      let empty : ready ≡ [] =
        none_ready incoming ready ordered r
          (elim stop [ inl e ↦ inl e | inr e ↦ inr (omega (arith, e)) ]) in
      (incoming, ordered, rw empty at r, rw (tally, run))

-- The order of a graph's nodes: each node once, and each edge from a node to a later one.
pub record IsOrdering (g : WorkflowGraph) (order : List String) : Type 0 where
  pub once : distinct order ≡ true
  pub complete : (v : String) → member v order ≡ member v (keys g.nodes)
  pub forward : All (λ e. precedes e.from.0 e.to.0 order ≡ true) g.edges

-- The successful branch of the function ran through its loops.
topological_order_ends :
    (g : WorkflowGraph) {order : List String}
    → topological_order g ≡ ok order
    → EndsIn (keys g.nodes) g.edges
unfolding topological_order
topological_order_ends g h =
    let (maps, counted, rest) = >>=-eq-ok (count_edges g.edges (no_incoming g.nodes) []) _ h in
    rw (keys-no_incoming g.nodes) at (count_edges_ends g.edges (no_incoming g.nodes) [] counted)

module _ (g : WorkflowGraph) (incoming : BTreeMap ℕ) (ordered : List String)
    (r : IsRunning (keys g.nodes) g.edges incoming [] ordered) where
  covers :
      length ordered ≡ length g.nodes → (v : String) → member v ordered ≡ member v (keys g.nodes)
  covers full v = elim (Bool-cases (member v ordered)) [
    | inl m ↦ ground (arith, r.inside v)
    | inr m ↦ elim (Bool-cases (member v (keys g.nodes))) [
      | inl k ↦
          let more =
            length-le_of_distinct (v ∷ ordered) (keys g.nodes) (ground (arith, r.once))
              (λ u i. ground (arith, r.inside u, member-same u v (keys g.nodes))) in
          absurd (omega (arith, more, length-keys g.nodes, full))
      | inr k ↦ ground arith
    ]
  ]

  forward_of :
      (es : List GraphEdge)
      → InOrder es ordered
      → EndsIn ordered es
      → All (λ e. precedes e.from.0 e.to.0 ordered ≡ true) es
  forward_of [] h ends = tt
  forward_of (e ∷ es) h ends = (h.0 ends.0, forward_of es h.1 ends.1)

  run-IsOrdering :
      EndsIn (keys g.nodes) g.edges → length ordered ≡ length g.nodes → IsOrdering g ordered
  run-IsOrdering ends full = record {
    once = r.once;
    complete = covers full;
    forward = forward_of g.edges r.in_order (map-All (λ e m. covers full e.to.0 ∙ m) g.edges ends);
  }

  -- With a rank that rises along the edges, each node of a lower rank is ordered.
  ranked_done :
      (rank : String → ℕ)
      → All (λ e. (member e.from.0 (keys g.nodes) ≡ true) × (rank e.from.0 < rank e.to.0)) g.edges
      → (n : ℕ) (v : String) → rank v < n
      → member v (keys g.nodes) ≡ true
      → member v ordered ≡ true
  unfolding occurrences
  ranked_done rank ranked zero v low m = absurd (omega arith)
  ranked_done rank ranked (suc n) v low m =
      let none_left = pending_zero g.edges ordered v (
        map-All
          (λ e known into.
            ranked_done rank ranked n e.from.0
              (omega (arith, known.1, ap rank ((same_iff v e.to.0).0 into), low)) known.0)
          g.edges ranked) in
      ground (arith, r.counted.opens v, none_left)

-- An order that is returned for a graph whose nodes are held in the order of their names has each
-- node once, and each edge's source before its target.
pub topological_order-IsOrdering :
    (g : WorkflowGraph) (order : List String)
    → HasSortedNodes g
    → topological_order g ≡ ok order
    → IsOrdering g order
topological_order-IsOrdering g order s h =
    let ends = topological_order_ends g h in
    let (incoming, ordered, r, e) = run_to_end g s ends in
    let full : (length ordered ≡ length g.nodes) × (ordered ≡ order) = ground arith in
    subst (IsOrdering g) full.1 (run-IsOrdering g incoming ordered r ends full.0)

-- Every edge stands between nodes of the graph.
abbrev pub HasEndpoints : WorkflowGraph → Type 0
HasEndpoints g =
    All (λ e. (member e.from.0 (keys g.nodes) ≡ true) × (member e.to.0 (keys g.nodes) ≡ true))
      g.edges

-- A rank for the nodes that rises along each edge, so that no path returns to its start.
pub record IsAcyclic (g : WorkflowGraph) : Type 0 where
  pub rank : String → ℕ
  pub rises : All (λ e. rank e.from.0 < rank e.to.0) g.edges

-- The place of a string in a list.
position : String → List String → ℕ
position v [] = 0
position v (x ∷ xs) = if same v x then 0 else suc (position v xs)

precedes-position :
    (u v : String) (xs : List String)
    → distinct xs ≡ true
    → precedes u v xs ≡ true
    → position u xs < position v xs
unfolding precedes position
precedes-position u v [] d h = cc
precedes-position u v (x ∷ xs) d h = ground (arith, precedes-position u v xs, member-same v x xs)

both_All {ℓ κ μ} :
    {A : Type ℓ} (P : A → Type κ) (Q : A → Type μ) (xs : List A)
    → All P xs
    → All Q xs
    → All (λ x. P x × Q x) xs
both_All P Q [] p q = tt
both_All P Q (x ∷ xs) p q = ((p.0, q.0), both_All P Q xs p.1 q.1)

-- The last test of the function: are all nodes ordered?
has_cycle_test :
    (g : WorkflowGraph) (ordered : List String)
    → topological_order g
      ≡ (if length ordered == length g.nodes then ok ordered else err cycle_detected)
    → (has_cycle g ≡ false) ↔ (length ordered ≡ length g.nodes)
unfolding has_cycle
has_cycle_test g ordered e = rw e (answer (length ordered) (length g.nodes))
  where
    answer :
        (m n : ℕ)
        → (is_err {E = GraphError} (if m == n then ok ordered else err cycle_detected) ≡ false)
          ↔ (m ≡ n)
    answer m n = (λ h. ground arith, λ h. ground arith)

-- Of a graph whose nodes are held in the order of their names and whose edges stand between its
-- nodes, `has_cycle` is false exactly if the graph has no cycle.
pub has_cycle_iff :
    (g : WorkflowGraph) → HasSortedNodes g → HasEndpoints g → (has_cycle g ≡ false) ↔ IsAcyclic g
has_cycle_iff g s known =
    let ends = map-All (λ e k. k.1) g.edges known in
    let (incoming, ordered, r, e) = run_to_end g s ends in
    (
      λ h.
          let full = (has_cycle_test g ordered e).0 h in
          let o = run-IsOrdering g incoming ordered r ends full in
          record {
            rank = λ v. position v ordered;
            rises =
                map-All (λ d p. precedes-position d.from.0 d.to.0 ordered o.once p) g.edges
                  o.forward;
          },
      λ a.
          let ranked = both_All _ _ g.edges (map-All (λ d k. k.0) g.edges known) a.rises in
          let enough =
            length-le_of_distinct (keys g.nodes) ordered (distinct_of_sorted (keys g.nodes) s)
              (λ v m.
                ranked_done g incoming ordered r a.rank ranked (suc (a.rank v)) v (omega arith)
                  m) in
          let not_more = length-le_of_distinct ordered (keys g.nodes) r.once r.inside in
          let full : length ordered ≡ length g.nodes =
            omega (arith, enough, not_more, length-keys g.nodes) in
          (has_cycle_test g ordered e).1 full,
    )
