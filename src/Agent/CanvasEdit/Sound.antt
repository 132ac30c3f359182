-- ===== src/Agent/CanvasEdit/Sound.antt =====
-- What an edit that crates/agent/src/canvas_edit.rs compiles does to the graph.
use helixflow.Base.{
  ℕ, ◌≤◌, String, true, not, Option, List, [], ◌∷◌, ◌++◌, ok, map_err, ensure, for_each,
  for_each-eq-ok, ◌≡◌, ◌⊎◌, refl, sym, subst, ◌∙◌, arith, leb, length, All, map-All, >>=-eq-ok,
  >>-eq-ok, map_err-eq-ok, ok-injective, ensure-eq-ok, inl, inr,
}
use helixflow.Base.Assoc.{BTreeMap}
use helixflow.Json.{Value}
use helixflow.Registry.{NodeRegistry, validate_node_params}
use helixflow.Registry.Names.{CharTables}
use helixflow.Registry.Params.{is_empty}
use helixflow.Registry.Catalog.{CatalogSnapshot}
use helixflow.Registry.Resolver.{ConnectorAvailability}
use helixflow.Graph.Types.{WorkflowGraph, GraphNode, GraphEdge, ProposalOp}
use helixflow.Graph.Topology.Correct.{HasEndpoints}
use helixflow.Graph.Operations.{apply_op, apply_ops}
use helixflow.Graph.Operations.Effects.{AddsKnownEdge, apply_op-HasEndpoints}
use helixflow.Compiler.Diff.Removals.{apply_ops-append}
use helixflow.Agent.Types.{
  CanvasEditOp, CanvasEditPlan, CanvasEditError, CompiledCanvasEdit, connect, disconnect,
  update_node, refused,
}
use helixflow.Agent.CanvasEdit.Translated.{HasNode, Translated, translate_op-Translated}
use helixflow.Agent.CanvasEdit.{
  set_params, translate_op, edit_loop, check_params, compile_canvas_edit_with,
}
use helixflow.Agent.Bindings.{max_operations}

pub All-append {ℓ κ} :
    {A : Type ℓ} (P : A → Type κ) (xs ys : List A) → All P xs → All P ys → All P (xs ++ ys)
All-append P [] ys h k = k
All-append P (x ∷ xs) ys h k = (h.0, All-append P xs ys h.1 k)

-- An operation that adds no edge.
abbrev AddsNoEdge : ProposalOp → Type 0
AddsNoEdge (ProposalOp.add_edge e) = ⊥
AddsNoEdge _ = Unit

AddsNoEdge-known : (g : WorkflowGraph) (op : ProposalOp) → AddsNoEdge op → AddsKnownEdge g op
AddsNoEdge-known g (ProposalOp.add_node id node) n = tt
AddsNoEdge-known g (ProposalOp.remove_node id) n = tt
AddsNoEdge-known g (ProposalOp.set_param id key prev value) n = tt
AddsNoEdge-known g (ProposalOp.add_edge e) n = absurd n
AddsNoEdge-known g (ProposalOp.remove_edge e) n = tt
AddsNoEdge-known g (ProposalOp.move_node id pos) n = tt
AddsNoEdge-known g (ProposalOp.resize_node id size) n = tt
AddsNoEdge-known g (ProposalOp.set_semantics id semantics) n = tt
AddsNoEdge-known g (ProposalOp.spawn_node id node from) n = tt

-- The operations of one translation: none adds an edge, or the only one adds an edge between nodes.
abbrev Joined : WorkflowGraph → List ProposalOp → Type 0
Joined g ops =
    All AddsNoEdge ops
    ⊎ ((e : GraphEdge) × (ops ≡ ProposalOp.add_edge e ∷ []) × HasNode g e.from.0 × HasNode g e.to.0)

module _ (reg : NodeRegistry) where
  apply_ops-HasEndpoints :
      (g g' : WorkflowGraph) (ops : List ProposalOp)
      → HasEndpoints g
      → All AddsNoEdge ops
      → apply_ops reg g ops ≡ ok g'
      → HasEndpoints g'
  unfolding apply_ops
  apply_ops-HasEndpoints g g' [] h n r = subst HasEndpoints (ok-injective r) h
  apply_ops-HasEndpoints g g' (op ∷ ops) h n r =
      let (middle, first, rest) = >>=-eq-ok (apply_op reg g op) _ r in
      apply_ops-HasEndpoints middle g' ops
        (apply_op-HasEndpoints reg g middle op h (AddsNoEdge-known g op n.0) first) n.1 rest

  apply_ops-one :
      (g g' : WorkflowGraph) (op : ProposalOp)
      → apply_ops reg g (op ∷ []) ≡ ok g'
      → apply_op reg g op ≡ ok g'
  unfolding apply_ops
  apply_ops-one g g' op h =
      let (middle, first, last) = >>=-eq-ok (apply_op reg g op) (λ (x : WorkflowGraph). ok x) h in
      first ∙ last

  Joined-HasEndpoints :
      (g g' : WorkflowGraph) (ops : List ProposalOp)
      → HasEndpoints g
      → Joined g ops
      → apply_ops reg g ops ≡ ok g'
      → HasEndpoints g'
  Joined-HasEndpoints g g' ops h (inl n) r = apply_ops-HasEndpoints g g' ops h n r
  Joined-HasEndpoints g g' ops h (inr (e, is_e, has_from, has_to)) r =
      apply_op-HasEndpoints reg g g' (ProposalOp.add_edge e) h (has_from, has_to)
        (apply_ops-one g g' (ProposalOp.add_edge e)
          (subst (λ os. apply_ops reg g os ≡ ok g') is_e r))

no_edge_in :
    {ops : List ProposalOp} (os : List ProposalOp)
    → All AddsNoEdge os
    → ops ≡ os
    → All AddsNoEdge ops
no_edge_in os n e = subst (All AddsNoEdge) (sym e) n

set_params-AddsNoEdge : (id : String) (m : BTreeMap Value) → All AddsNoEdge (set_params id m)
set_params-AddsNoEdge id [] = tt
set_params-AddsNoEdge id ((key, value) ∷ m) = (tt, set_params-AddsNoEdge id m)

module _ (tables : CharTables) (reg : NodeRegistry) (catalog : CatalogSnapshot)
    (availability : ConnectorAvailability) (preference : Option String) where
  -- What holds of the operations of each translation holds of those of the whole loop.
  pub edit_loop-All {κ} :
      (P : ProposalOp → Type κ)
      → ((o : CanvasEditOp) (g : WorkflowGraph) (ops : List ProposalOp)
          → translate_op tables reg catalog availability preference o g ≡ ok ops
          → All P ops)
      → (os : List CanvasEditOp) (g : WorkflowGraph) (r : List ProposalOp × WorkflowGraph)
      → edit_loop tables reg catalog availability preference os g ≡ ok r
      → All P r.0
  unfolding edit_loop
  edit_loop-All P step [] g r h =
      subst (λ (x : List ProposalOp × WorkflowGraph). All P x.0) (ok-injective h) tt
  edit_loop-All P step (o ∷ os) g r h =
      let (next, translated, h1) =
        >>=-eq-ok (translate_op tables reg catalog availability preference o g) _ h in
      let (g1, applied, h2) =
        >>=-eq-ok (map_err (λ e. CanvasEditError.graph (refused e)) (apply_ops reg g next)) _ h1 in
      let (rest, looped, last) =
        >>=-eq-ok (edit_loop tables reg catalog availability preference os g1) _ h2 in
      subst (λ (x : List ProposalOp × WorkflowGraph). All P x.0) (ok-injective last)
        (All-append P next rest.0 (step o g next translated)
          (edit_loop-All P step os g1 rest looped))

  edit_loop-apply_ops :
      (os : List CanvasEditOp) (g : WorkflowGraph) (r : List ProposalOp × WorkflowGraph)
      → edit_loop tables reg catalog availability preference os g ≡ ok r
      → apply_ops reg g r.0 ≡ ok r.1
  unfolding edit_loop apply_ops
  edit_loop-apply_ops [] g r h =
      subst (λ (x : List ProposalOp × WorkflowGraph). apply_ops reg g x.0 ≡ ok x.1) (ok-injective h)
        refl
  edit_loop-apply_ops (o ∷ os) g r h =
      let (next, translated, h1) =
        >>=-eq-ok (translate_op tables reg catalog availability preference o g) _ h in
      let (g1, applied, h2) =
        >>=-eq-ok (map_err (λ e. CanvasEditError.graph (refused e)) (apply_ops reg g next)) _ h1 in
      let (rest, looped, last) =
        >>=-eq-ok (edit_loop tables reg catalog availability preference os g1) _ h2 in
      subst (λ (x : List ProposalOp × WorkflowGraph). apply_ops reg g x.0 ≡ ok x.1)
        (ok-injective last)
        (apply_ops-append reg g g1 rest.1 next rest.0
          (map_err-eq-ok _ (apply_ops reg g next) applied) (edit_loop-apply_ops os g1 rest looped))

  Translated-Joined :
      (o : CanvasEditOp) (g : WorkflowGraph) (ops : List ProposalOp)
      → Translated tables reg catalog availability preference o g ops
      → Joined g ops
  Translated-Joined (CanvasEditOp.add_node id t title position model params) g ops (n, i, r, e) =
      inl (no_edge_in _ (tt, tt) e)
  Translated-Joined (update_node id params) g ops (object, i, e) =
      inl (no_edge_in (set_params id object) (set_params-AddsNoEdge id object) e)
  Translated-Joined (CanvasEditOp.move_node id position) g ops (i, e) =
      inl (no_edge_in _ (tt, tt) e)
  Translated-Joined (CanvasEditOp.remove_node id) g ops (i, e) = inl (no_edge_in _ (tt, tt) e)
  Translated-Joined (connect s sh t th) g ops (edge, i, j, has_s, has_t, from, to, e) =
      inr (edge, e, subst (HasNode g) (sym from) has_s, subst (HasNode g) (sym to) has_t)
  Translated-Joined (disconnect s sh t th) g ops (edge, i, j, from, to, e) =
      inl (no_edge_in _ (tt, tt) e)

  edit_loop-HasEndpoints :
      (os : List CanvasEditOp) (g : WorkflowGraph) (r : List ProposalOp × WorkflowGraph)
      → HasEndpoints g
      → edit_loop tables reg catalog availability preference os g ≡ ok r
      → HasEndpoints r.1
  unfolding edit_loop
  edit_loop-HasEndpoints [] g r k h =
      subst (λ (x : List ProposalOp × WorkflowGraph). HasEndpoints x.1) (ok-injective h) k
  edit_loop-HasEndpoints (o ∷ os) g r k h =
      let (next, translated, h1) =
        >>=-eq-ok (translate_op tables reg catalog availability preference o g) _ h in
      let (g1, applied, h2) =
        >>=-eq-ok (map_err (λ e. CanvasEditError.graph (refused e)) (apply_ops reg g next)) _ h1 in
      let (rest, looped, last) =
        >>=-eq-ok (edit_loop tables reg catalog availability preference os g1) _ h2 in
      subst (λ (x : List ProposalOp × WorkflowGraph). HasEndpoints x.1) (ok-injective last)
        (edit_loop-HasEndpoints os g1 rest
          (Joined-HasEndpoints reg g g1 next k
            (Translated-Joined o g next (
              translate_op-Translated tables reg catalog availability preference o g next
                translated))
            (map_err-eq-ok _ (apply_ops reg g next) applied))
          looped)

  -- A compiled edit has between one and 64 operations of the agent. The preview is what its
  -- operations make of the base graph, the parameters of all of its nodes are valid for their types,
  -- and if the base's edges stood between its nodes, so do the preview's.
  pub compile_canvas_edit_with_lem :
      (plan : CanvasEditPlan) (base : WorkflowGraph) (r : CompiledCanvasEdit)
      → compile_canvas_edit_with tables reg catalog availability preference plan base ≡ ok r
      → (1 ≤ length plan.operations)
        × (length plan.operations ≤ 64)
        × (apply_ops reg base r.ops ≡ ok r.preview)
        × All
            (λ (entry : String × GraphNode).
              validate_node_params reg entry.1.node_type entry.1.params ≡ ok tt)
            r.preview.nodes
        × (HasEndpoints base → HasEndpoints r.preview)
  unfolding compile_canvas_edit_with
  compile_canvas_edit_with_lem plan base r h =
      let (some_op, h1) = >>-eq-ok (ensure (not (is_empty plan.operations)) _) _ h in
      let (few, h2) = >>-eq-ok (ensure (leb (length plan.operations) max_operations) _) _ h1 in
      let (done, looped, h3) =
        >>=-eq-ok (edit_loop tables reg catalog availability preference plan.operations base) _
          h2 in
      let (checked, last) =
        >>-eq-ok (for_each (check_params tables reg catalog availability preference) done.1.nodes) _
          h3 in
      let all_valid =
        map-All (λ entry e. map_err-eq-ok _ _ e) done.1.nodes
          (for_each-eq-ok _ done.1.nodes checked) in
      (
        not-empty-length plan.operations (ensure-eq-ok _ _ some_op),
        leb→le _ _ (ensure-eq-ok _ _ few),
        subst (λ (c : CompiledCanvasEdit). apply_ops reg base c.ops ≡ ok c.preview)
            (ok-injective last) (edit_loop-apply_ops plan.operations base done looped),
        subst (λ (c : CompiledCanvasEdit). ParamsValid c.preview) (ok-injective last) all_valid,
        λ k.
            subst (λ (c : CompiledCanvasEdit). HasEndpoints c.preview) (ok-injective last)
              (edit_loop-HasEndpoints plan.operations base done k looped),
      )
    where
      ParamsValid : WorkflowGraph → Type 0
      ParamsValid g =
          All
            (λ (entry : String × GraphNode).
              validate_node_params reg entry.1.node_type entry.1.params ≡ ok tt)
            g.nodes

      leb→le : (a b : ℕ) → leb a b ≡ true → a ≤ b
      leb→le a b e = ground arith

      not-empty-length : (os : List CanvasEditOp) → not (is_empty os) ≡ true → 1 ≤ length os
      not-empty-length [] e = cc
      not-empty-length (o ∷ os) e = omega arith
