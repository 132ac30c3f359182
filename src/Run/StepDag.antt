-- ===== src/Run/StepDag.antt =====
-- crates/run/src/step_dag.rs: the dependencies between the steps of a plan, by position.
pub mod Indexes
pub mod Links
pub mod Ascends
pub mod Total
use helixflow.Base.{
  ℕ, zero, suc, ◌+◌, String, Bool, true, false, Option, none, some, List, [], ◌∷◌, map, ok, err,
  ok_or, ◌>>=◌, length,
}
use helixflow.Base.Assoc
use helixflow.Base.Assoc.{BTreeMap}
use helixflow.Graph.Types.{Endpoint}
use helixflow.Graph.Plan.{ExecutionPlan, ExecutionStep}
use helixflow.Run.Errors.{RunResult, missing_input}
use helixflow.Run.StepDag.Indexes.{IndexSet, insert_index, update}

pub record StepDag : Type 0 where
  pub upstream_counts : List ℕ
  pub downstream : List (List ℕ)

-- The first loop: the position of each node's step, the last where a node has two.
unfoldable pub index_nodes : ℕ → List ExecutionStep → BTreeMap ℕ → BTreeMap ℕ
unfolding Assoc.insert
index_nodes index [] by_node = by_node
index_nodes index (step ∷ steps) by_node =
    index_nodes (suc index) steps (Assoc.insert step.node_id index by_node)

-- The vectors `upstream` and `downstream`.
pub record Sets : Type 0 where
  pub upstream : List IndexSet
  pub downstream : List IndexSet

-- `vec![BTreeSet::new(); n]`
abbrev pub empty_sets : {A : Type 0} → List A → List IndexSet
empty_sets [] = []
empty_sets (x ∷ xs) = [] ∷ empty_sets xs

-- The two insertions.
abbrev pub join_steps : ℕ → ℕ → Sets → Sets
join_steps index source_index sets = record {
  upstream = update index (insert_index source_index) sets.upstream;
  downstream = update source_index (insert_index index) sets.downstream;
}

-- The loop over the sources of an input.
unfoldable pub link_sources : BTreeMap ℕ → ℕ → List Endpoint → Sets → RunResult Sets
unfolding Assoc.lookup insert_index update
link_sources by_node index [] sets = ok sets
link_sources by_node index (source ∷ sources) sets = do
  source_index ← ok_or (Assoc.lookup source.0 by_node) (missing_input source.0 source.1)
  link_sources by_node index sources (join_steps index source_index sets)

-- The loop over a step's inputs.
unfoldable pub link_inputs : BTreeMap ℕ → ℕ → BTreeMap (List Endpoint) → Sets → RunResult Sets
unfolding link_sources
link_inputs by_node index [] sets = ok sets
link_inputs by_node index ((port, sources) ∷ inputs) sets = do
  sets' ← link_sources by_node index sources sets
  link_inputs by_node index inputs sets'

-- The loop over the steps.
unfoldable pub link_steps : BTreeMap ℕ → ℕ → List ExecutionStep → Sets → RunResult Sets
unfolding link_inputs
link_steps by_node index [] sets = ok sets
link_steps by_node index (step ∷ steps) sets = do
  sets' ← link_inputs by_node index step.inputs sets
  link_steps by_node (suc index) steps sets'

unfoldable pub from_plan : ExecutionPlan → RunResult StepDag
unfolding index_nodes link_steps
from_plan plan = do
  sets ←
      link_steps (index_nodes 0 plan.steps []) 0 plan.steps
        (record { upstream = empty_sets plan.steps; downstream = empty_sets plan.steps })
  ok (record { upstream_counts = map length sets.upstream; downstream = sets.downstream })
