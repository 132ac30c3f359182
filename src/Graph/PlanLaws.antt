-- ===== src/Graph/PlanLaws.antt =====
-- What a plan that `compile_plan` of crates/graph/src/lib.rs returns looks like.
use helixflow.Base.{
  String, Bool, true, false, ◌&&◌, ◌||◌, arith, any, any-append, before, some, List, [], ◌∷◌, ◌++◌,
  map, ok, ok_or, map_err, same, retain, ◌≡◌, refl, sym, ap, ap₂, ◌∙◌, subst, All, >>=-eq-ok,
  >>-eq-ok, ok-injective, ok_or-eq-ok, map_err-eq-ok, if◌then◌else◌, Bool-cases, inl, inr,
}
use mathlib.Core.List.{append_assoc, append-nil}
use helixflow.Base.Assoc
use helixflow.Base.Assoc.{BTreeMap, lookup, items, keys}
use helixflow.Base.Keys.{sorted, not-member_of_before, all-before_trans}
use helixflow.Registry.{NodeRegistry, definition}
use helixflow.Registry.Types.{NodeDefinition}
use helixflow.Graph.Topology.{topological_order}
use helixflow.Graph.Topology.Correct.{HasSortedNodes, IsOrdering, topological_order-IsOrdering}
use helixflow.Graph.Validation.{validate_graph}
use helixflow.Graph.Types.{WorkflowGraph, GraphNode, GraphEdge, Endpoint, missing_node, registry}
use helixflow.Graph.Plan.{
  ExecutionStep, ExecutionPlan, group_inputs, compile_step, compile_steps, compile_plan,
  provider_of,
}

-- The sources of a node's edges into one of its ports, in the order of the edges.
unfoldable pub sources_into : String → String → List GraphEdge → List Endpoint
sources_into node port [] = []
sources_into node port (e ∷ es) =
    (if same e.to.0 node && same port e.to.1 then e.from ∷ [] else []) ++ sources_into node port es

group_inputs-lookup :
    (node port : String) (es : List GraphEdge) (inputs : BTreeMap (List Endpoint))
    → items (lookup port (group_inputs (retain (λ e. same e.to.0 node) es) inputs))
      ≡ items (lookup port inputs) ++ sources_into node port es
unfolding group_inputs sources_into
group_inputs-lookup node port [] inputs = sym (append-nil (items (lookup port inputs)))
group_inputs-lookup node port (e ∷ es) inputs = elim (Bool-cases (same e.to.0 node)) [
  | inl s ↦ rw s (
      group_inputs-lookup node port es (Assoc.push e.to.1 e.from inputs)
      ∙ ap (λ r. r ++ sources_into node port es) (Assoc.lookup-push port e.to.1 e.from inputs)
      ∙ append_assoc (items (lookup port inputs)) _ (sources_into node port es))
  | inr s ↦ rw s (group_inputs-lookup node port es inputs)
]

-- Whether a source of some input satisfies a test.
abbrev pub any_sources : (Endpoint → Bool) → BTreeMap (List Endpoint) → Bool
any_sources p [] = false
any_sources p ((port, sources) ∷ inputs) = any p sources || any_sources p inputs

any_sources-insert :
    (p : Endpoint → Bool) (port : String) (source : Endpoint) (xs : List Endpoint)
    (inputs : BTreeMap (List Endpoint))
    → sorted (keys inputs) ≡ true
    → xs ≡ items (lookup port inputs) ++ source ∷ []
    → any_sources p (Assoc.insert port xs inputs) ≡ (p source || any_sources p inputs)
unfolding Assoc.insert lookup
any_sources-insert p port source xs [] s e = rw e (ground arith)
any_sources-insert p port source xs ((k, sources) ∷ inputs) s e = elim (Bool-cases (same port k)) [
  | inl here ↦
      let is_xs : xs ≡ sources ++ source ∷ [] = rw here at e in
      rw (here, is_xs) (ground (arith, any-append p sources (source ∷ [])))
  | inr later ↦
      let is_xs : xs ≡ items (lookup port inputs) ++ source ∷ [] = rw later at e in
      elim (Bool-cases (before port k)) [
        | inl first ↦
            let alone = Assoc.none_of_not-member port inputs (
              not-member_of_before port (keys inputs)
                (all-before_trans port k (keys inputs) first (ground arith))) in
            rw (later, first, is_xs, alone) (ground arith)
        | inr after ↦
            rw (later, after)
              (ground (arith, any_sources-insert p port source xs inputs (ground arith) is_xs))
      ]
]

any_sources-push :
    (p : Endpoint → Bool) (port : String) (source : Endpoint) (inputs : BTreeMap (List Endpoint))
    → sorted (keys inputs) ≡ true
    → any_sources p (Assoc.push port source inputs) ≡ (p source || any_sources p inputs)
unfolding Assoc.push
any_sources-push p port source inputs s = any_sources-insert p port source _ inputs s refl

-- The inputs are a map, whose sources are those of the edges into the node.
group_inputs-sources :
    (p : Endpoint → Bool) (node : String) (es : List GraphEdge) (inputs : BTreeMap (List Endpoint))
    → sorted (keys inputs) ≡ true
    → any_sources p (group_inputs (retain (λ e. same e.to.0 node) es) inputs)
      ≡ (any (λ e. same e.to.0 node && p e.from) es || any_sources p inputs)
unfolding group_inputs
group_inputs-sources p node [] inputs s = refl
group_inputs-sources p node (e ∷ es) inputs s = elim (Bool-cases (same e.to.0 node)) [
  | inl i ↦ rw i (
      group_inputs-sources p node es (Assoc.push e.to.1 e.from inputs)
        (Assoc.insert-keys-sorted e.to.1 _ inputs s)
      ∙ ground (arith, any_sources-push p e.to.1 e.from inputs s))
  | inr i ↦ rw i (group_inputs-sources p node es inputs s)
]

-- A step carries its node's type, parameters and capability, and the sources of each of its ports.
pub record StepFits (reg : NodeRegistry) (g : WorkflowGraph) (provider_id : String)
    (step : ExecutionStep) : Type 0 where
  pub node : GraphNode
  pub def : NodeDefinition
  pub found : lookup step.node_id g.nodes ≡ some node
  pub known : definition reg node.node_type ≡ ok def
  pub typed : step.node_type ≡ node.node_type
  pub params : step.params ≡ node.params
  pub capable : step.capability ≡ def.capability
  pub provided : step.provider ≡ provider_of def.capability provider_id
  pub wired :
      (port : String) → items (lookup port step.inputs) ≡ sources_into step.node_id port g.edges
  pub fed :
      (p : Endpoint → Bool)
      → any_sources p step.inputs ≡ any (λ e. same e.to.0 step.node_id && p e.from) g.edges

compile_step-StepFits :
    (reg : NodeRegistry) (g : WorkflowGraph) (provider_id id : String) (step : ExecutionStep)
    → compile_step reg g provider_id id ≡ ok step
    → StepFits reg g provider_id step × (step.node_id ≡ id)
unfolding compile_step Assoc.lookup
compile_step-StepFits reg g provider_id id step h =
    let (n, n_ok, h1) = >>=-eq-ok (ok_or (lookup id g.nodes) (missing_node id)) _ h in
    let (d, d_ok, last) = >>=-eq-ok (map_err registry (definition reg n.node_type)) _ h1 in
    subst (λ x. StepFits reg g provider_id x × (x.node_id ≡ id)) (ok-injective last)
      (
        record {
          node = n;
          def = d;
          found = ok_or-eq-ok _ _ n_ok;
          known = map_err-eq-ok registry _ d_ok;
          typed = refl;
          params = refl;
          capable = refl;
          provided = refl;
          wired = λ port. group_inputs-lookup id port g.edges [];
          fed = λ p. group_inputs-sources p id g.edges [] refl ∙ ground arith;
        },
        refl,
      )

compile_steps-fit :
    (reg : NodeRegistry) (g : WorkflowGraph) (provider_id : String) (ids : List String)
    (steps : List ExecutionStep)
    → compile_steps reg g provider_id ids ≡ ok steps
    → All (StepFits reg g provider_id) steps × (map (λ s. s.node_id) steps ≡ ids)
unfolding compile_steps
compile_steps-fit reg g provider_id [] steps h =
    subst (λ x. All (StepFits reg g provider_id) x × (map (λ s. s.node_id) x ≡ [])) (ok-injective h)
      (tt, refl)
compile_steps-fit reg g provider_id (id ∷ ids) steps h =
    let (step, step_ok, h1) = >>=-eq-ok (compile_step reg g provider_id id) _ h in
    let (rest, rest_ok, last) = >>=-eq-ok (compile_steps reg g provider_id ids) _ h1 in
    let (fits, named) = compile_step-StepFits reg g provider_id id step step_ok in
    let (fit, names) = compile_steps-fit reg g provider_id ids rest rest_ok in
    subst (λ x. All (StepFits reg g provider_id) x × (map (λ s. s.node_id) x ≡ id ∷ ids))
      (ok-injective last) ((fits, fit), ap₂ ◌∷◌ named names)

-- A plan for a graph whose nodes are held in the order of their names has one step for each node,
-- in an order in which every edge goes forward. Each step carries its node's type, parameters and
-- capability, and the sources of each input port in the order of the edges. The plan has the
-- version that was given, and the graph is valid.
pub compile_plan-fits :
    (reg : NodeRegistry) (g : WorkflowGraph) (version_id provider_id : String)
    (plan : ExecutionPlan)
    → HasSortedNodes g
    → compile_plan reg g version_id provider_id ≡ ok plan
    → IsOrdering g (map (λ s. s.node_id) plan.steps)
      × All (StepFits reg g provider_id) plan.steps
      × (plan.version_id ≡ version_id)
      × (validate_graph reg g ≡ ok tt)
unfolding compile_plan
compile_plan-fits reg g version_id provider_id plan s h =
    let (valid, h1) = >>-eq-ok (validate_graph reg g) _ h in
    let (order, order_ok, h2) = >>=-eq-ok (topological_order g) _ h1 in
    let (steps, steps_ok, last) = >>=-eq-ok (compile_steps reg g provider_id order) _ h2 in
    let (fit, names) = compile_steps-fit reg g provider_id order steps steps_ok in
    let same_plan = ok-injective last in
    (
      subst (λ p. IsOrdering g (map (λ x. x.node_id) p.steps)) same_plan
          (subst (IsOrdering g) (sym names) (topological_order-IsOrdering g order s order_ok)),
      subst (λ p. All (StepFits reg g provider_id) p.steps) same_plan fit,
      ap (λ p. p.version_id) (sym same_plan),
      valid,
    )
