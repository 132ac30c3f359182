-- ===== src/Compiler/Diff/Edges.antt =====
-- The edges that crates/compiler/src/proposal_diff.rs removes and adds.
use helixflow.Base.{
  Bool, true, false, not, ◌&&◌, ◌||◌, List, [], ◌∷◌, ◌++◌, ◌≡◌, refl, sym, ap, ◌∙◌, arith, retain,
  Bool-cases, inl, inr, Bool-ext,
}
use helixflow.Graph.Types.{GraphEdge, same_edge, same_edge_iff}
use helixflow.Compiler.Diff.{insert_edge, sort_edges, has_edge, edges_without, edge_before}

pub same_edge_sym : (e f : GraphEdge) → same_edge e f ≡ same_edge f e
same_edge_sym e f =
    Bool-ext _ _ (λ h. (same_edge_iff f e).1 (sym ((same_edge_iff e f).0 h)))
      (λ h. (same_edge_iff e f).1 (sym ((same_edge_iff f e).0 h)))

pub same_edge_refl : (e : GraphEdge) → same_edge e e ≡ true
same_edge_refl e = (same_edge_iff e e).1 refl

or_left : (a b c : Bool) → (a || (b || c)) ≡ (b || (a || c))
or_left a b c = ground arith

pub has_edge-insert_edge :
    (e x : GraphEdge) (es : List GraphEdge)
    → has_edge e (insert_edge x es) ≡ (same_edge e x || has_edge e es)
unfolding has_edge insert_edge
has_edge-insert_edge e x [] = refl
has_edge-insert_edge e x (f ∷ es) = elim (Bool-cases (edge_before f x)) [
  | inl b ↦ rw b (
      ap (λ r. same_edge e f || r) (has_edge-insert_edge e x es)
      ∙ or_left (same_edge e f) (same_edge e x) (has_edge e es))
  | inr b ↦ rw b refl
]

has_edge-sort_edges :
    (e : GraphEdge) (es : List GraphEdge) → has_edge e (sort_edges es) ≡ has_edge e es
unfolding has_edge sort_edges
has_edge-sort_edges e [] = refl
has_edge-sort_edges e (x ∷ es) =
    has_edge-insert_edge e x (sort_edges es)
    ∙ ap (λ b. same_edge e x || b) (has_edge-sort_edges e es)

-- A test that does not tell equal edges apart.
pub has_edge-retain :
    (e : GraphEdge) (p : GraphEdge → Bool) (es : List GraphEdge)
    → has_edge e (retain p es) ≡ (has_edge e es && p e)
unfolding has_edge
has_edge-retain e p [] = refl
has_edge-retain e p (x ∷ es) = elim (Bool-cases (same_edge e x)) [
  | inl d ↦
      let agree : p e ≡ p x = ap p ((same_edge_iff e x).0 d) in
      ground (arith, has_edge-retain e p es, agree)
  | inr d ↦ ground (arith, has_edge-retain e p es)
]

pub has_edge-edges_without :
    (e : GraphEdge) (es other : List GraphEdge)
    → has_edge e (edges_without es other) ≡ (has_edge e es && not (has_edge e other))
has_edge-edges_without e es other =
    has_edge-sort_edges e (retain (λ f. not (has_edge f other)) es)
    ∙ has_edge-retain e (λ f. not (has_edge f other)) es

pub has_edge-same :
    (e x : GraphEdge) (es : List GraphEdge) → same_edge e x ≡ true → has_edge e es ≡ has_edge x es
has_edge-same e x es h = ap (λ y. has_edge y es) ((same_edge_iff e x).0 h)

-- No edge twice.
abbrev pub distinct_edges : List GraphEdge → Bool
distinct_edges [] = true
distinct_edges (e ∷ es) = not (has_edge e es) && distinct_edges es

distinct_edges-insert_edge :
    (x : GraphEdge) (es : List GraphEdge)
    → has_edge x es ≡ false
    → distinct_edges es ≡ true
    → distinct_edges (insert_edge x es) ≡ true
unfolding has_edge insert_edge
distinct_edges-insert_edge x [] h d = refl
distinct_edges-insert_edge x (f ∷ es) h d =
    ground (arith, distinct_edges-insert_edge x es, has_edge-insert_edge f x es, same_edge_sym x f)

distinct_edges-sort_edges :
    (es : List GraphEdge) → distinct_edges es ≡ true → distinct_edges (sort_edges es) ≡ true
unfolding sort_edges
distinct_edges-sort_edges [] d = refl
distinct_edges-sort_edges (e ∷ es) d =
    distinct_edges-insert_edge e (sort_edges es) (ground (arith, has_edge-sort_edges e es))
      (distinct_edges-sort_edges es (ground arith))

distinct_edges-retain :
    (p : GraphEdge → Bool) (es : List GraphEdge)
    → distinct_edges es ≡ true
    → distinct_edges (retain p es) ≡ true
distinct_edges-retain p [] d = refl
distinct_edges-retain p (e ∷ es) d =
    ground (arith, distinct_edges-retain p es, has_edge-retain e p es)

pub distinct_edges-edges_without :
    (es other : List GraphEdge)
    → distinct_edges es ≡ true
    → distinct_edges (edges_without es other) ≡ true
distinct_edges-edges_without es other d =
    distinct_edges-sort_edges _ (distinct_edges-retain (λ e. not (has_edge e other)) es d)

pub has_edge-append :
    (e : GraphEdge) (es fs : List GraphEdge)
    → has_edge e (es ++ fs) ≡ (has_edge e es || has_edge e fs)
unfolding has_edge
has_edge-append e [] fs = refl
has_edge-append e (x ∷ es) fs = ground (arith, has_edge-append e es fs)
