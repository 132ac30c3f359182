-- ===== src/Compiler/Diff/Kept.antt =====
-- What crates/compiler/src/proposal_diff.rs makes of a node that stays: its parameters, position
-- and semantics become the target's.
use helixflow.Base.{
  String, Bool, true, false, ◌&&◌, Option, none, some, [], ok, ◌≡◌, refl, sym, ap, ap₂, subst, ◌∙◌,
  arith, same_iff, Bool-cases, inl, inr, is_some, Option-cases,
}
use helixflow.Base.Assoc
use helixflow.Base.Assoc.{BTreeMap, lookup, keys}
use helixflow.Base.Keys.{distinct}
use helixflow.Json.{
  Value, F64, ℤ, pos, negsuc, finite, infinite, nan, eqb_ℤ, as_object, of_map, get, same_value_iff,
  to_map-of_map,
}
use helixflow.Registry.{NodeRegistry}
use helixflow.Graph.Types.{
  WorkflowGraph, GraphNode, Pair, NodeSemanticsEntry, ImplementationSelection, pinned, policy,
}
use helixflow.Graph.Operations.{apply_op, apply_ops}
use helixflow.Compiler.Diff.{
  eqb_F64, same_pos, same_selection, same_entry, same_semantics, both_params, pos_ops,
  semantics_ops, kept_ops,
}
use helixflow.Compiler.Diff.Removals.{apply_ops-append}
use helixflow.Compiler.Diff.Nodes.{
  Writes, Writes-refl, Writes-trans, Writes-adjust, write_node-Writes, overlay, or_else,
  lookup-overlay, apply_ops-param_ops,
}

eqb_ℤ-eq : (a b : ℤ) → eqb_ℤ a b ≡ true → a ≡ b
eqb_ℤ-eq (pos m) (pos n) h = ground arith
eqb_ℤ-eq (pos m) (negsuc n) h = cc
eqb_ℤ-eq (negsuc m) (pos n) h = cc
eqb_ℤ-eq (negsuc m) (negsuc n) h = ground arith

eqb_F64-eq : (a b : F64) → eqb_F64 a b ≡ true → a ≡ b
eqb_F64-eq (finite a) (finite b) h = ap finite (eqb_ℤ-eq a b h)
eqb_F64-eq (finite a) (infinite q) h = cc
eqb_F64-eq (finite a) nan h = cc
eqb_F64-eq (infinite p) (infinite q) h = ground arith
eqb_F64-eq (infinite p) (finite b) h = ground arith
eqb_F64-eq (infinite p) nan h = ground arith
eqb_F64-eq nan b h = cc

same_pos-eq : (a b : Pair) → same_pos a b ≡ true → a ≡ b
unfolding same_pos
same_pos-eq a b h =
    let (x, y) = both_true _ _ h in
    ap₂ (λ p q. (p, q)) (eqb_F64-eq a.0 b.0 x) (eqb_F64-eq a.1 b.1 y)
  where
    both_true : (p q : Bool) → p && q ≡ true → (p ≡ true) × (q ≡ true)
    both_true p q h = ground arith

same_selection-eq : (a b : ImplementationSelection) → same_selection a b ≡ true → a ≡ b
same_selection-eq (pinned m b) (pinned m' b') h =
    ground (arith, (same_iff m m').0, (same_iff b b').0)
same_selection-eq (policy p c) (policy p' c') h =
    ground (arith, (same_iff p p').0, (same_value_iff c c').0)
same_selection-eq (pinned m b) (policy p c) h = cc
same_selection-eq (policy p c) (pinned m b) h = cc

same_entry-eq : (a b : NodeSemanticsEntry) → same_entry a b ≡ true → a ≡ b
unfolding same_entry
same_entry-eq a b h = ground (
  arith,
  (same_iff a.capability_id b.capability_id).0,
  (same_iff a.mode b.mode).0,
  same_selection-eq a.implementation b.implementation,
)

same_semantics-eq : (a b : Option NodeSemanticsEntry) → same_semantics a b ≡ true → a ≡ b
unfolding same_semantics
same_semantics-eq none none h = refl
same_semantics-eq none (some b) h = cc
same_semantics-eq (some a) none h = cc
same_semantics-eq (some a) (some b) h = ap some (same_entry-eq a b h)

get-as_object :
    (v : Value) {m : BTreeMap Value} (key : String)
    → as_object v ≡ some m
    → get key v ≡ lookup key m
unfolding get as_object
get-as_object (Value.object fs) key h = ap (lookup key) (cc h)
get-as_object Value.null key h = cc
get-as_object (Value.boolean b) key h = cc
get-as_object (Value.number n) key h = cc
get-as_object (Value.string s) key h = cc
get-as_object (Value.array xs) key h = cc

-- The parameters `c` are `a` with `b` written over them, if both are objects, and else `a`.
pub record IsMerged (a b c : Value) : Type 0 where
  pub merged :
      (ps qs : BTreeMap Value)
      → as_object a ≡ some ps
      → as_object b ≡ some qs
      → (key : String) → get key c ≡ or_else (get key b) (get key a)
  pub alone : is_some (as_object a) && is_some (as_object b) ≡ false → c ≡ a

-- What becomes of an existing node that stays.
pub record Converges (existing target n : GraphNode) : Type 0 where
  pub node_type : n.node_type ≡ existing.node_type
  pub title : n.title ≡ existing.title
  pub size : n.size ≡ existing.size
  pub pos : n.pos ≡ target.pos
  pub semantics : n.semantics ≡ target.semantics
  pub params : IsMerged existing.params target.params n.params

and_false : (a : Bool) → a && false ≡ false
and_false a = ground arith

get-object : (key : String) (m : BTreeMap Value) → get key (Value.object (of_map m)) ≡ lookup key m
unfolding get
get-object key m = ap (lookup key) (to_map-of_map m)

overlay-IsMerged :
    (a b : Value) (ps qs : BTreeMap Value)
    → as_object a ≡ some ps
    → as_object b ≡ some qs
    → distinct (keys qs) ≡ true
    → IsMerged a b (Value.object (of_map (overlay ps qs ps)))
overlay-IsMerged a b ps qs is_a is_b d = record {
  merged = λ ps' qs' is_a' is_b' key.
      get-object key (overlay ps qs ps)
      ∙ lookup-overlay ps qs ps d (λ k m. refl) key
      ∙ ap₂ or_else (sym (get-as_object b key is_b)) (sym (get-as_object a key is_a));
  alone = λ h. cc (ap is_some is_a, ap is_some is_b);
}

IsMerged-refl :
    (a b : Value) → is_some (as_object a) && is_some (as_object b) ≡ false → IsMerged a b a
IsMerged-refl a b h = record {
  merged = λ ps qs is_a is_b key. cc (ap is_some is_a, ap is_some is_b);
  alone = λ h'. refl;
}

module _ (reg : NodeRegistry) (id : String) where
  -- A node after the writes to its parameters.
  abbrev Rewritten : GraphNode → GraphNode → WorkflowGraph → Type 0
  Rewritten existing target g =
      (g' : WorkflowGraph) × (params : Value) × (apply_ops reg g
          (both_params id (as_object target.params) (as_object existing.params))
        ≡ ok g')
      × Writes id (record existing { params = params }) g g'
      × IsMerged existing.params target.params params

  untouched :
      (existing target : GraphNode) (g : WorkflowGraph)
      → lookup id g.nodes ≡ some existing
      → is_some (as_object existing.params) && is_some (as_object target.params) ≡ false
      → (g' : WorkflowGraph) × (params : Value) × (apply_ops reg g [] ≡ ok g')
        × Writes id (record existing { params = params }) g g'
        × IsMerged existing.params target.params params
  unfolding apply_ops
  untouched existing target g found h = (
    g,
    existing.params,
    refl,
    Writes-refl id existing g found,
    IsMerged-refl existing.params target.params h,
  )

  params-Rewritten :
      (existing target : GraphNode) (g : WorkflowGraph)
      → lookup id g.nodes ≡ some existing
      → ((qs : BTreeMap Value) → as_object target.params ≡ some qs → distinct (keys qs) ≡ true)
      → Rewritten existing target g
  params-Rewritten existing target g found d = elim (Option-cases (as_object target.params)) [
    | inl no_target ↦ rw no_target (untouched existing target g found (rw no_target (and_false _)))
    | inr (qs, is_target) ↦ elim (Option-cases (as_object existing.params)) [
      | inl no_object ↦
          rw (is_target, no_object) (untouched existing target g found (rw no_object refl))
      | inr (ps, is_object) ↦
          let (g', ran, w) =
            apply_ops-param_ops reg id ps qs ps existing g found is_object (d qs is_target)
              (λ k m. refl) in
          rw (is_target, is_object)
            (
              g',
              Value.object (of_map (overlay ps qs ps)),
              ran,
              w,
              overlay-IsMerged existing.params target.params ps qs is_object is_target
                  (d qs is_target),
            )
    ]
  ]

  moved :
      (e : Pair) (target : Pair) (n : GraphNode) (g : WorkflowGraph)
      → lookup id g.nodes ≡ some n
      → n.pos ≡ e
      → (g' : WorkflowGraph) × (apply_ops reg g (pos_ops id e target) ≡ ok g')
        × Writes id (record n { pos = target }) g g'
  unfolding apply_ops apply_op
  moved e target n g found at_e = elim (Bool-cases (same_pos e target)) [
    | inl h ↦ rw h (
      g,
      refl,
      subst (λ p. Writes id (record n { pos = p }) g g) (at_e ∙ same_pos-eq e target h)
          (Writes-refl id n g found),
    )
    | inr h ↦
        let write = λ (m : GraphNode). record m { pos = target } in
        rw h (
          record g { nodes = Assoc.adjust id write g.nodes },
          rw (write_node-Writes id write n g found) refl,
          Writes-adjust id write n g found,
        )
  ]

  bound :
      (e target : Option NodeSemanticsEntry) (n : GraphNode) (g : WorkflowGraph)
      → lookup id g.nodes ≡ some n
      → n.semantics ≡ e
      → (g' : WorkflowGraph) × (apply_ops reg g (semantics_ops id e target) ≡ ok g')
        × Writes id (record n { semantics = target }) g g'
  unfolding apply_ops apply_op
  bound e target n g found at_e = elim (Bool-cases (same_semantics e target)) [
    | inl h ↦ rw h (
      g,
      refl,
      subst (λ s. Writes id (record n { semantics = s }) g g) (at_e ∙ same_semantics-eq e target h)
          (Writes-refl id n g found),
    )
    | inr h ↦
        let write = λ (m : GraphNode). record m { semantics = target } in
        rw h (
          record g { nodes = Assoc.adjust id write g.nodes },
          rw (write_node-Writes id write n g found) refl,
          Writes-adjust id write n g found,
        )
  ]

  pub apply_ops-kept_ops :
      (existing target : GraphNode) (g : WorkflowGraph)
      → lookup id g.nodes ≡ some existing
      → ((qs : BTreeMap Value) → as_object target.params ≡ some qs → distinct (keys qs) ≡ true)
      → (g' : WorkflowGraph) × (n : GraphNode) × (apply_ops reg g (kept_ops id existing target)
          ≡ ok g')
        × Writes id n g g'
        × Converges existing target n
  unfolding kept_ops
  apply_ops-kept_ops existing target g found d =
      let (g1, params, ran1, w1, m) = params-Rewritten existing target g found d in
      let n1 : GraphNode = record existing { params = params } in
      let (g2, ran2, w2) = moved existing.pos target.pos n1 g1 w1.written refl in
      let n2 : GraphNode = record n1 { pos = target.pos } in
      let (g3, ran3, w3) = bound existing.semantics target.semantics n2 g2 w2.written refl in
      (
        g3,
        record n2 { semantics = target.semantics },
        apply_ops-append reg g g1 g3 _ _ ran1 (apply_ops-append reg g1 g2 g3 _ _ ran2 ran3),
        Writes-trans w1 (Writes-trans w2 w3),
        record {
          node_type = refl;
          title = refl;
          size = refl;
          pos = refl;
          semantics = refl;
          params = m;
        },
      )
