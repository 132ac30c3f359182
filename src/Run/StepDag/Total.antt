-- ===== src/Run/StepDag/Total.antt =====
-- The dependencies of a compiled plan: crates/run/src/step_dag.rs on what crates/graph compiles.
use helixflow.Base.{
  ℕ, zero, suc, ◌+◌, ◌<◌, String, Bool, true, false, not, ◌&&◌, ◌||◌, some, List, [], ◌∷◌, map, ok,
  ◌≡◌, refl, sym, ap, ap₂, ◌∙◌, subst, arith, ◌==◌, if◌then◌else◌, length, get_elem?, any, All,
  map-All, same, same_refl, Bool-cases, inl, inr,
}
use helixflow.Base.Assoc
use helixflow.Base.Assoc.{BTreeMap, lookup, keys}
use helixflow.Base.Keys.{member, member-same, distinct}
use helixflow.Registry.{NodeRegistry}
use helixflow.Graph.Types.{WorkflowGraph, GraphEdge}
use helixflow.Graph.Plan.{ExecutionPlan, ExecutionStep, compile_plan}
use helixflow.Graph.PlanLaws.{StepFits, compile_plan-fits}
use helixflow.Graph.Topology.Counting.{precedes}
use helixflow.Graph.Topology.Correct.{HasSortedNodes}
use helixflow.Run.StepDag.{StepDag, Sets, empty_sets, index_nodes, from_plan}
use helixflow.Run.StepDag.Indexes.{IndexSet, is_linked}
use helixflow.Run.StepDag.Ascends.{AllAscend, AllAscend-empty_sets, link_steps-BothAscend}
use helixflow.Run.StepDag.Links.{
  is_at, is_node, missing, needs, all_known, link_steps-Extends, needs-step,
}

abbrev pub ids : List ExecutionStep → List String
ids steps = map (λ s. s.node_id) steps

-- The first position of a string.
abbrev index_of : String → List String → ℕ
index_of k [] = 0
index_of k (j ∷ js) = if same k j then 0 else suc (index_of k js)

index_nodes-lookup :
    (k : String) (base : ℕ) (steps : List ExecutionStep) (acc : BTreeMap ℕ)
    → distinct (ids steps) ≡ true
    → lookup k (index_nodes base steps acc)
      ≡ (if member k (ids steps) then some (base + index_of k (ids steps)) else lookup k acc)
unfolding index_nodes
index_nodes-lookup k base [] acc d = refl
index_nodes-lookup k base (step ∷ steps) acc d = elim (Bool-cases (same k step.node_id)) [
  | inl here ↦
      let absent : member k (ids steps) ≡ false =
        member-same k step.node_id (ids steps) here ∙ ground arith in
      index_nodes-lookup k (suc base) steps (Assoc.insert step.node_id base acc) (ground arith)
      ∙ rw (here, absent)
          (Assoc.lookup-insert k step.node_id base acc ∙ rw here (ap some (omega arith)))
  | inr other ↦
      index_nodes-lookup k (suc base) steps (Assoc.insert step.node_id base acc) (ground arith)
      ∙ elim (Bool-cases (member k (ids steps))) [
        | inl later ↦ rw (other, later) (ap some (omega arith))
        | inr absent ↦
            rw (other, absent) (Assoc.lookup-insert k step.node_id base acc ∙ rw other refl)
      ]
]

index_of-bound : (k : String) (ks : List String) → member k ks ≡ true → index_of k ks < length ks
index_of-bound k [] h = cc
index_of-bound k (j ∷ js) h = ground (arith, index_of-bound k js)

pub some-injective {ℓ} : {A : Type ℓ} {a b : A} → some a ≡ some b → a ≡ b
some-injective e = cc

pub member-get_elem? :
    (steps : List ExecutionStep) (j : ℕ) {step : ExecutionStep}
    → get_elem? steps j ≡ some step
    → member step.node_id (ids steps) ≡ true
member-get_elem? [] j e = cc
member-get_elem? (s ∷ steps) zero e =
    subst (λ x. member x.node_id (ids (s ∷ steps)) ≡ true) (some-injective e)
      (ground (arith, same_refl s.node_id))
member-get_elem? (s ∷ steps) (suc j) e = ground (arith, member-get_elem? steps j e)

-- With distinct ids, the position of an id is the one at which it stands.
index_of-get_elem? :
    (k : String) (steps : List ExecutionStep) (j : ℕ) {step : ExecutionStep}
    → distinct (ids steps) ≡ true
    → get_elem? steps j ≡ some step
    → (member k (ids steps) && index_of k (ids steps) == j) ≡ same k step.node_id
index_of-get_elem? k [] j d e = cc
index_of-get_elem? k (s ∷ steps) zero d e =
    subst
      (λ x. (member k (ids (s ∷ steps)) && index_of k (ids (s ∷ steps)) == 0) ≡ same k x.node_id)
      (some-injective e) (ground arith)
index_of-get_elem? k (s ∷ steps) (suc j) {step = step} d e = elim (Bool-cases (same k s.node_id)) [
  | inl here ↦
      let there = member-get_elem? steps j e in
      ground (
        arith,
        here,
        there,
        member-same k s.node_id (ids steps) here,
        member-same k step.node_id (ids steps),
      )
  | inr other ↦ ground (arith, other, index_of-get_elem? k steps j (ground arith) e)
]

length-ids : (steps : List ExecutionStep) → length (ids steps) ≡ length steps
length-ids [] = refl
length-ids (s ∷ steps) = ap suc (length-ids steps)

-- The first loop of `from_plan`, for the steps of a plan with distinct ids.
module _ (steps : List ExecutionStep) (d : distinct (ids steps) ≡ true) where
  abbrev by_node : BTreeMap ℕ
  by_node = index_nodes 0 steps []

  by_node-bound : (id : String) (j : ℕ) → lookup id by_node ≡ some j → j < length steps
  unfolding lookup
  by_node-bound id j e =
      let value = sym (index_nodes-lookup id 0 steps [] d) ∙ e in
      elim (Bool-cases (member id (ids steps))) [
        | inl m ↦
            let found : some (0 + index_of id (ids steps)) ≡ some j = rw m at value in
            let is_j : 0 + index_of id (ids steps) ≡ j = cc in
            omega (arith, is_j, index_of-bound id (ids steps) m, length-ids steps)
        | inr absent ↦ cc (rw absent at value)
      ]

  by_node-member :
      (id : String) → member id (ids steps) ≡ true → Assoc.contains_key id by_node ≡ true
  by_node-member id m = rw (index_nodes-lookup id 0 steps [] d, m) refl

  by_node-is_at :
      (id : String) (j : ℕ) {step : ExecutionStep}
      → get_elem? steps j ≡ some step
      → is_at (lookup id by_node) j ≡ same id step.node_id
  unfolding lookup
  by_node-is_at id j {step = step} e =
      rw (index_nodes-lookup id 0 steps [] d) (elim (Bool-cases (member id (ids steps))) [
        | inl m ↦ rw m (ground (arith, m, index_of-get_elem? id steps j d e))
        | inr absent ↦ rw absent (ground (arith, absent, index_of-get_elem? id steps j d e))
      ])

  -- Where each edge's source has a step, no source of a step is missing.
  edges_known :
      (id : String) (es : List GraphEdge)
      → All (λ e. member e.from.0 (ids steps) ≡ true) es
      → any (λ e. same e.to.0 id && not (Assoc.contains_key e.from.0 by_node)) es ≡ false
  edges_known id [] h = refl
  edges_known id (e ∷ es) h =
      rw (by_node-member e.from.0 h.0) (ground (arith, edges_known id es h.1))

  sources_at :
      (id : String) (j : ℕ) (es : List GraphEdge) {step : ExecutionStep}
      → get_elem? steps j ≡ some step
      → any (λ e. same e.to.0 id && is_at (lookup e.from.0 by_node) j) es
        ≡ any (λ e. same e.to.0 id && same e.from.0 step.node_id) es
  sources_at id j [] e = refl
  sources_at id j (edge ∷ es) e =
      ap₂ (λ a b. (same edge.to.0 id && a) || b) (by_node-is_at edge.from.0 j e)
        (sources_at id j es e)

is_linked-empty_sets : {A : Type 0} (xs : List A) (j i : ℕ) → is_linked (empty_sets xs) j i ≡ false
is_linked-empty_sets [] j i = refl
is_linked-empty_sets (x ∷ xs) zero i = refl
is_linked-empty_sets (x ∷ xs) (suc j) i = is_linked-empty_sets xs j i

length-empty_sets : {A : Type 0} (xs : List A) → length (empty_sets xs) ≡ length xs
length-empty_sets [] = refl
length-empty_sets (x ∷ xs) = ap suc (length-empty_sets xs)

All-get_elem? {ℓ κ} :
    {A : Type ℓ} (P : A → Type κ) (xs : List A) (i : ℕ) {x : A}
    → All P xs
    → get_elem? xs i ≡ some x
    → P x
All-get_elem? P [] i h e = cc
All-get_elem? P (y ∷ ys) zero h e = subst P (some-injective e) h.0
All-get_elem? P (y ∷ ys) (suc i) h e = All-get_elem? P ys i h.1 e

precedes-member : (u v : String) (xs : List String) → precedes u v xs ≡ true → member u xs ≡ true
unfolding precedes
precedes-member u v [] h = cc
precedes-member u v (x ∷ xs) h = ground (arith, precedes-member u v xs)

zero_start : (i : ℕ) → i ≡ 0 + i
zero_start i = omega arith

right_false : (a : Bool) {b : Bool} → b ≡ false → (a || b) ≡ a
right_false a e = ground (arith, e)

steps_known :
    (reg : NodeRegistry) (g : WorkflowGraph) (provider_id : String) (by : BTreeMap ℕ)
    (steps : List ExecutionStep)
    → ((id : String)
        → any (λ e. same e.to.0 id && not (Assoc.contains_key e.from.0 by)) g.edges ≡ false)
    → All (StepFits reg g provider_id) steps
    → all_known by steps ≡ true
steps_known reg g provider_id by [] known h = refl
steps_known reg g provider_id by (s ∷ steps) known (fit, fits) = ground (
  arith,
  fit.fed (missing by),
  known s.node_id,
  steps_known reg g provider_id by steps known fits,
)

-- The dependencies of a plan are those of its graph: a step is downstream of another exactly if an
-- edge runs from the other's node to its own, and the numbers of upstream steps are the sizes of
-- ascending sets that hold the same links.
pub record IsDagOf (g : WorkflowGraph) (plan : ExecutionPlan) (dag : StepDag) : Type 0 where
  pub upstream : List IndexSet
  pub counts : dag.upstream_counts ≡ map length upstream
  pub converse : (j i : ℕ) → is_linked upstream i j ≡ is_linked dag.downstream j i
  pub size : length upstream ≡ length plan.steps
  pub down_size : length dag.downstream ≡ length plan.steps
  pub ascending : AllAscend upstream × AllAscend dag.downstream
  pub links :
      (i j : ℕ) (s u : ExecutionStep)
      → get_elem? plan.steps i ≡ some s
      → get_elem? plan.steps j ≡ some u
      → is_linked dag.downstream j i
        ≡ any (λ e. same e.to.0 s.node_id && same e.from.0 u.node_id) g.edges

-- `StepDag::from_plan` succeeds on every plan that `compile_plan` returns for a graph whose nodes
-- are held in the order of their names: a step is downstream of another exactly if an edge runs
-- from the other's node to its own, and the counts are the sizes of sets that hold the same
-- links, read the other way. There is one of each for every step, and the sets ascend.
pub from_plan-IsDagOf :
    (reg : NodeRegistry) (g : WorkflowGraph) (version_id provider_id : String)
    (plan : ExecutionPlan)
    → HasSortedNodes g
    → compile_plan reg g version_id provider_id ≡ ok plan
    → (dag : StepDag) × (from_plan plan ≡ ok dag) × IsDagOf g plan dag
unfolding from_plan
from_plan-IsDagOf reg g version_id provider_id plan s h =
    let (order, fits, _, _) = compile_plan-fits reg g version_id provider_id plan s h in
    let steps = plan.steps in
    let d = order.once in
    let by = by_node steps d in
    let sources =
      map-All (λ e p. precedes-member e.from.0 e.to.0 (ids steps) p) g.edges order.forward in
    let known =
      steps_known reg g provider_id by steps (λ id. edges_known steps d id g.edges sources) fits in
    let start : Sets = record { upstream = empty_sets steps; downstream = empty_sets steps } in
    let (t, runs, x) =
      link_steps-Extends by (length steps) (by_node-bound steps d) 0 steps start (omega arith)
        (length-empty_sets steps, length-empty_sets steps) known in
    (
      record { upstream_counts = map length t.upstream; downstream = t.downstream },
      rw runs refl,
      record {
        upstream = t.upstream;
        counts = refl;
        size = x.up_size ∙ length-empty_sets steps;
        down_size = x.down_size ∙ length-empty_sets steps;
        ascending =
            link_steps-BothAscend by 0 steps start t runs
              (AllAscend-empty_sets steps, AllAscend-empty_sets steps);
        converse = λ j i. ground (
          arith,
          x.up j i,
          x.down j i,
          is_linked-empty_sets steps i j,
          is_linked-empty_sets steps j i,
        );
        links = λ i j a u at_i at_j.
            let fit = All-get_elem? (StepFits reg g provider_id) steps i fits at_i in
            x.down j i
            ∙ right_false (needs by 0 steps j i) (is_linked-empty_sets steps j i)
            ∙ ap (needs by 0 steps j) (zero_start i)
            ∙ needs-step by 0 steps j i at_i
            ∙ fit.fed (is_node by j)
            ∙ sources_at steps d a.node_id j g.edges at_j;
      },
    )
