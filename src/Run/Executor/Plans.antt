-- ===== src/Run/Executor/Plans.antt =====
-- The dependencies of a compiled plan are such as the loop of crates/run/src/executor.rs needs.
use helixflow.Base.{
  ℕ, zero, suc, ◌<◌, true, ◌&&◌, String, none, some, List, [], ◌∷◌, ok, ◌≡◌, refl, sym, ap, ◌∙◌,
  arith, length, get_elem?, any, All, same, same_iff, Bool-cases, inl, inr,
}
use helixflow.Base.Keys.{member-same, distinct}
use helixflow.Registry.{NodeRegistry}
use helixflow.Graph.Types.{WorkflowGraph, GraphEdge}
use helixflow.Graph.Plan.{ExecutionPlan, ExecutionStep, compile_plan}
use helixflow.Graph.PlanLaws.{compile_plan-fits}
use helixflow.Graph.Topology.Counting.{precedes}
use helixflow.Graph.Topology.Correct.{HasSortedNodes}
use helixflow.Run.StepDag.{StepDag, from_plan}
use helixflow.Run.StepDag.Indexes.{IndexSet, has_index, is_linked}
use helixflow.Run.StepDag.Ascends.{ascends, ascends-has_index, AllAscend}
use helixflow.Run.StepDag.Total.{ids, from_plan-IsDagOf, member-get_elem?, some-injective}
use helixflow.Run.Executor.Counts.{once}
use helixflow.Run.Executor.Invariant.{set_at, IsDag}

once_of_ascends : (s : IndexSet) → ascends s ≡ true → once s ≡ true
once_of_ascends [] h = refl
once_of_ascends (i ∷ s) h = ground (arith, once_of_ascends s, ascends-has_index i s)

once-set_at : (ss : List IndexSet) (i : ℕ) → AllAscend ss → once (set_at ss i) ≡ true
once-set_at [] i h = refl
once-set_at (s ∷ ss) zero h = once_of_ascends s h.0
once-set_at (s ∷ ss) (suc i) h = once-set_at ss i h.1

is_linked-set_at : (ss : List IndexSet) (i j : ℕ) → is_linked ss i j ≡ has_index j (set_at ss i)
is_linked-set_at [] i j = refl
is_linked-set_at (s ∷ ss) zero j = refl
is_linked-set_at (s ∷ ss) (suc i) j = is_linked-set_at ss i j

is_linked-bound : (ss : List IndexSet) (i j : ℕ) → is_linked ss i j ≡ true → i < length ss
is_linked-bound [] i j h = ground arith
is_linked-bound (s ∷ ss) zero j h = omega arith
is_linked-bound (s ∷ ss) (suc i) j h = omega (arith, is_linked-bound ss i j h)

abbrev at_or_empty : List IndexSet → ℕ → IndexSet
at_or_empty ss i = elim (get_elem? ss i) [ some nexts ↦ nexts | none ↦ [] ]

at_or_empty-set_at : (ss : List IndexSet) (i : ℕ) → at_or_empty ss i ≡ set_at ss i
at_or_empty-set_at [] i = refl
at_or_empty-set_at (s ∷ ss) zero = refl
at_or_empty-set_at (s ∷ ss) (suc i) = at_or_empty-set_at ss i

elem_at :
    (steps : List ExecutionStep) (i : ℕ)
    → i < length steps
    → (s : ExecutionStep) × (get_elem? steps i ≡ some s)
elem_at [] i h = absurd (omega (arith, h))
elem_at (s ∷ steps) zero h = (s, refl)
elem_at (s ∷ steps) (suc i) h = elem_at steps i (omega (arith, h))

-- An edge between two nodes goes forward in the order of the plan.
precedes-edge :
    (u v : String) (order : List String) (es : List GraphEdge)
    → All (λ e. precedes e.from.0 e.to.0 order ≡ true) es
    → any (λ e. same e.to.0 v && same e.from.0 u) es ≡ true
    → precedes u v order ≡ true
precedes-edge u v order [] h m = ground arith
precedes-edge u v order (e ∷ es) h m = elim (Bool-cases (same e.to.0 v && same e.from.0 u)) [
  | inl here ↦
      let is_v = (same_iff e.to.0 v).0 (ground (arith, here)) in
      let is_u = (same_iff e.from.0 u).0 (ground (arith, here)) in rw (is_v, is_u) at h.0
  | inr other ↦ precedes-edge u v order es h.1 (ground (arith, m, other))
]

precedes-position :
    (steps : List ExecutionStep) (i j : ℕ) {s u : ExecutionStep}
    → distinct (ids steps) ≡ true
    → get_elem? steps i ≡ some s
    → get_elem? steps j ≡ some u
    → precedes u.node_id s.node_id (ids steps) ≡ true
    → j < i
unfolding precedes
precedes-position [] i j d at_i at_j p = cc
precedes-position (x ∷ steps) zero zero {s = s} {u = u} d at_i at_j p =
    let is_s = ap (λ (y : ExecutionStep). y.node_id) (some-injective at_i) in
    let is_u = ap (λ (y : ExecutionStep). y.node_id) (some-injective at_j) in
    let s_is_x = (same_iff s.node_id x.node_id).1 (sym is_s) in
    let u_is_x = (same_iff u.node_id x.node_id).1 (sym is_u) in
    let unlike = member-same s.node_id x.node_id (ids steps) s_is_x in
    ground (arith, d, p, s_is_x, u_is_x, unlike)
precedes-position (x ∷ steps) (suc i) zero d at_i at_j p = omega arith
precedes-position (x ∷ steps) zero (suc j) {s = s} {u = u} d at_i at_j p =
    let is_s = ap (λ (y : ExecutionStep). y.node_id) (some-injective at_i) in
    let s_is_x = (same_iff s.node_id x.node_id).1 (sym is_s) in
    let there = member-get_elem? steps j at_j in
    ground (arith, d, p, s_is_x, there, member-same u.node_id x.node_id (ids steps))
precedes-position (x ∷ steps) (suc i) (suc j) {s = s} {u = u} d at_i at_j p =
    let there = member-get_elem? steps j at_j in
    let rest = precedes-position steps i j {s = s} {u = u} (ground (arith, d)) at_i at_j in
    ground (arith, d, p, there, rest, member-same u.node_id x.node_id (ids steps))

-- The dependencies of a plan that `compile_plan` returns, for a graph whose nodes are held in the
-- order of their names: `from_plan` succeeds, the counts are the sizes of sets of positions, one for
-- each step, the lists of the steps downstream are their converse, no position stands twice in a set
-- or a list, and a step depends on earlier steps only.
pub from_plan-IsDag :
    (reg : NodeRegistry) (g : WorkflowGraph) (version_id provider_id : String)
    (plan : ExecutionPlan)
    → HasSortedNodes g
    → compile_plan reg g version_id provider_id ≡ ok plan
    → (dag : StepDag) × (from_plan plan ≡ ok dag)
      × (up : List IndexSet) × IsDag (length plan.steps) up dag
from_plan-IsDag reg g version_id provider_id plan s h =
    let (order, _, _, _) = compile_plan-fits reg g version_id provider_id plan s h in
    let (dag, runs, x) = from_plan-IsDagOf reg g version_id provider_id plan s h in
    let down = λ (j : ℕ). at_or_empty-set_at dag.downstream j in
    let opposite = λ (j i : ℕ).
      ap (has_index i) (down j)
      ∙ sym (is_linked-set_at dag.downstream j i)
      ∙ sym (x.converse j i)
      ∙ is_linked-set_at x.upstream i j in
    (
      dag,
      runs,
      x.upstream,
      record {
        counts = x.counts;
        size = x.size;
        up_once = λ i. once-set_at x.upstream i x.ascending.0;
        down_once = λ j. ap once (down j) ∙ once-set_at dag.downstream j x.ascending.1;
        converse = opposite;
        forward = λ i j m.
            let linked = is_linked-set_at x.upstream i j ∙ m in
            let back = sym (x.converse j i) ∙ linked in
            let (a, at_i) =
              elem_at plan.steps i (omega (arith, x.size, is_linked-bound x.upstream i j linked)) in
            let (b, at_j) =
              elem_at plan.steps j
                (omega (arith, x.down_size, is_linked-bound dag.downstream j i back)) in
            precedes-position plan.steps i j order.once at_i at_j (
              precedes-edge b.node_id a.node_id (ids plan.steps) g.edges order.forward
                (sym (x.links i j a b at_i at_j) ∙ back));
      },
    )
