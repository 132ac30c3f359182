-- ===== src/Tests/Executions.antt =====
-- The loop of crates/run/src/executor.rs on the sample plan, whose second step needs the first.
use helixflow.Base.{
  ℕ, zero, suc, ◌+◌, ◌≤◌, ◌<◌, true, false, List, [], ◌∷◌, ok, err, ◌≡◌, refl, arith, length, same,
  before,
}
use helixflow.Base.{find, none, some}
use helixflow.Base.Assoc.{BTreeMap}
use helixflow.Graph.Types.{Endpoint, same_endpoint}
use helixflow.Run.Inputs.{OutputMap}
use helixflow.Run.InputsLaws.{lacks_output, sources_of, resolve_inputs_lem}
use helixflow.Run.Errors.{RunError, RunResult, missing_input}
use helixflow.Run.StepDag.{StepDag, from_plan}
use helixflow.Run.StepDag.Indexes.{IndexSet, has_index}
use helixflow.Run.Executor.{
  succeeded, interrupted, Joined, finished, panicked, RunEvent, RunState, flag, start_steps,
  on_joined, is_over, downstream_of,
}
use helixflow.Run.Inputs.{ArtifactRef, resolve_inputs, show}
use helixflow.Run.Executor.Counts.{once}
use helixflow.Run.Executor.Invariant.{IsDag, set_at}
use helixflow.Run.Executor.Lifecycle.{RunStepRecord, resume, settle, RunEnd}
use helixflow.Run.Executor.Restore.{Consistent}
use helixflow.Run.Executor.Runs.{Reaches, begin, join}
use helixflow.Run.Executor.Correct.{start_steps-running, start_steps-upstream, settle-succeeded}
use helixflow.Run.Executor.Plans.{from_plan-IsDag}
use helixflow.Tests.Graphs.{sorted_names}
use helixflow.Tests.Proposals.{plan, plan_runs}
use helixflow.Tests.Samples.{reg, graph}

abbrev dag : StepDag
dag = record { upstream_counts = 0 ∷ 1 ∷ []; downstream = (1 ∷ []) ∷ [] ∷ [] }

abbrev up : List IndexSet
up = [] ∷ (0 ∷ []) ∷ []

up_once : (i : ℕ) → once (set_at up i) ≡ true
up_once zero = refl
up_once (suc zero) = refl
up_once (suc (suc i)) = refl

down_once : (j : ℕ) → once (downstream_of dag j) ≡ true
down_once zero = refl
down_once (suc zero) = refl
down_once (suc (suc j)) = refl

converse : (j i : ℕ) → has_index i (downstream_of dag j) ≡ has_index j (set_at up i)
converse zero zero = refl
converse zero (suc zero) = refl
converse zero (suc (suc i)) = ground arith
converse (suc zero) zero = refl
converse (suc zero) (suc zero) = refl
converse (suc zero) (suc (suc i)) = refl
converse (suc (suc j)) zero = refl
converse (suc (suc j)) (suc zero) = ground arith
converse (suc (suc j)) (suc (suc i)) = refl

forward : (i j : ℕ) → has_index j (set_at up i) ≡ true → j < i
forward zero j h = ground arith
forward (suc zero) j h = ground arith
forward (suc (suc i)) j h = ground arith

is_dag : IsDag 2 up dag
is_dag = record {
  counts = refl;
  size = refl;
  up_once = up_once;
  down_once = down_once;
  converse = converse;
  forward = forward;
}

abbrev value : {A : Type 0} → A → RunResult A → A
value default (ok a) = a
value default (err e) = default

abbrev records : List RunStepRecord
records =
    record { id = "r0"; node_id = "b"; state = "queued" }
    ∷ record { id = "r1"; node_id = "a"; state = "queued" }
    ∷ []

abbrev start : RunState
start = resume dag plan.steps records []

abbrev turn : RunState → RunState
turn s = value s (start_steps 4 plan.steps s)

abbrev text : ArtifactRef
text = record { artifact_id = "t1"; storage_uri = "t1.txt" }

abbrev first_ends : Joined
first_ends = finished 0 (ok (succeeded (record { port = "text"; artifact = text } ∷ [])))

abbrev second_ends : Joined
second_ends = finished 1 (ok (succeeded []))

abbrev after_first : RunState
after_first = on_joined dag plan.steps first_ends (turn start)

abbrev after_second : RunState
after_second = on_joined dag plan.steps second_ends (turn after_first)

run_runs :
    ((turn start).running ≡ 0 ∷ [])
    × ((turn after_first).running ≡ 1 ∷ [])
    × (is_over (turn after_first) ≡ false)
    × (is_over (turn after_second) ≡ true)
    × (settle (ok tt) (turn after_second) ≡ RunEnd.succeeded)
    × ((turn after_second).events
        ≡ RunEvent.spawned 0 [] ∷ RunEvent.spawned 1 (("prompt", text) ∷ []) ∷ [])
unfolding resume start_steps on_joined settle same
run_runs = (refl, refl, refl, refl, refl, refl)

-- A step that fails, one that is interrupted and one that panics.
faults_run :
    ((turn (
        on_joined dag plan.steps
          (finished 0 (err RunError.no_executable_steps))
          (turn start))).skipped
      ≡ false ∷ true ∷ [])
    × ((turn (on_joined dag plan.steps (finished 0 (ok interrupted)) (turn start))).skipped
        ≡ true ∷ true ∷ [])
    × ((turn (on_joined dag plan.steps (panicked 0 "lost") (turn start))).skipped
        ≡ true ∷ true ∷ [])
    × ((turn (record start { requested = true })).skipped ≡ true ∷ true ∷ [])
unfolding resume start_steps on_joined same
faults_run = (refl, refl, refl, refl)

inputs_run :
    (resolve_inputs (("in", ("b", "text") ∷ ("b", "text") ∷ []) ∷ []) ((("b", "text"), text) ∷ [])
      ≡ ok (("in", text) ∷ ("in#1", text) ∷ []))
    × (resolve_inputs (("in", ("c", "text") ∷ []) ∷ []) [] ≡ err (missing_input "c" "text"))
    × (show 12 120 ≡ "120")
unfolding resolve_inputs same show before
inputs_run = (refl, refl, refl)

none-started : (i : ℕ) → flag start.started i ≡ false
unfolding resume same
none-started zero = refl
none-started (suc zero) = refl
none-started (suc (suc i)) = refl

none-finished : (i : ℕ) → flag start.finished i ≡ false
unfolding resume same
none-finished zero = refl
none-finished (suc zero) = refl
none-finished (suc (suc i)) = refl

consistent : Consistent dag start
consistent = record {
  outputs_done = λ i h. ground (arith, h, none-started i);
  upstream_done = λ i j h m. ground (arith, h, none-finished i);
}

path1 : Reaches dag plan.steps 4 start 1 after_first
unfolding resume start_steps on_joined same
path1 = join first_ends begin refl refl refl

path2 : Reaches dag plan.steps 4 start 2 after_second
unfolding resume start_steps on_joined same
path2 = join second_ends path1 refl refl refl

turn1 : start_steps 4 plan.steps after_first ≡ ok (turn after_first)
unfolding resume start_steps on_joined same
turn1 = refl

turn2 : start_steps 4 plan.steps after_second ≡ ok (turn after_second)
unfolding resume start_steps on_joined same
turn2 = refl

start_steps-running_example :
    (length (turn after_first).running ≤ 4)
    × (once (turn after_first).running ≡ true)
    × (1 + length (turn after_first).running ≤ 2)
start_steps-running_example =
    start_steps-running up dag plan.steps is_dag records [] (omega arith) consistent 4 1 after_first
      (turn after_first) path1 turn1

second_started : flag (turn after_first).started 1 ≡ true
unfolding resume start_steps on_joined same
second_started = refl

start_steps-upstream_example : flag (turn after_first).finished 0 ≡ true
start_steps-upstream_example =
    start_steps-upstream up dag plan.steps is_dag records [] (omega arith) consistent 4 1
      after_first (turn after_first) path1 turn1 1 0 second_started refl

settle-succeeded_example :
    (flag (turn after_second).finished 1 ≡ true) × (flag (turn after_second).skipped 1 ≡ false)
settle-succeeded_example =
    settle-succeeded up dag plan.steps is_dag records [] (omega arith) consistent 4 2 after_second
      (turn after_second) path2 turn2 (ok tt) (omega arith) run_runs.3 run_runs.4 1 (omega arith)

from_plan-IsDag_example :
    (dag' : StepDag) × (from_plan plan ≡ ok dag')
    × (up' : List IndexSet) × IsDag (length plan.steps) up' dag'
from_plan-IsDag_example = from_plan-IsDag reg graph "v1" "fal" plan sorted_names plan_runs

abbrev two_sources : BTreeMap (List Endpoint)
two_sources = ("in", ("b", "text") ∷ ("c", "text") ∷ []) ∷ []

abbrev one_output : OutputMap
one_output = (("b", "text"), text) ∷ []

resolve_inputs_lem_example :
    (find (lacks_output one_output) (sources_of two_sources) ≡ none
      → (inputs : BTreeMap ArtifactRef) × (resolve_inputs two_sources one_output ≡ ok inputs))
    × ((source : Endpoint)
        → find (lacks_output one_output) (sources_of two_sources) ≡ some source
        → resolve_inputs two_sources one_output ≡ err (missing_input source.0 source.1))
resolve_inputs_lem_example = resolve_inputs_lem one_output two_sources

first_missing : find (lacks_output one_output) (sources_of two_sources) ≡ some ("c", "text")
unfolding same same_endpoint
first_missing = refl

missing_source : resolve_inputs two_sources one_output ≡ err (missing_input "c" "text")
missing_source = resolve_inputs_lem_example.1 ("c", "text") first_missing
