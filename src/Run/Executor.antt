-- ===== src/Run/Executor.antt =====
-- crates/run/src/executor.rs: the loop that executes a plan's steps as their dependencies finish. A
-- step's task is a position until it is joined, and then a result; what the loop writes to the store
-- and emits is held as a list of events. A write that fails, which ends the loop, is left out. Each step
-- of the plan has one record, so the loops over the records are over the positions of the steps.
pub mod Counts
pub mod Invariant
pub mod Turns
pub mod Joins
pub mod Lifecycle
pub mod Restore
pub mod Runs
pub mod Correct
pub mod Plans
use helixflow.Base.{
  ℕ, zero, suc, ◌+◌, ◌-◌, ◌/◌, ◌%◌, String, Bool, true, false, not, ◌&&◌, ◌||◌, Option, none, some,
  List, [], ◌∷◌, ◌++◌, map, ok, err, ok_or, ◌>>=◌, ltb, ◌==◌, if◌then◌else◌, length, get_elem?,
  same, find, concat, is_some, retain,
}
use helixflow.Base.Assoc
use helixflow.Base.Assoc.{BTreeMap}
use helixflow.Graph.Types.{Endpoint, same_endpoint}
use helixflow.Graph.Plan.{ExecutionStep}
use helixflow.Run.Errors.{RunError, RunResult, missing_input, task_join}
use helixflow.Run.StepDag.{StepDag}
use helixflow.Run.StepDag.Indexes.{update}
use helixflow.Run.StepDag.Links.{is_at}
use helixflow.Run.Inputs.{ArtifactRef, StepOutput, OutputMap, resolve_inputs}

pub data StepExecution : Type 0 where
  succeeded : List StepOutput → StepExecution
  interrupted : StepExecution

-- What `join_next` returns: a step's result, or the error of a task that panicked.
pub data Joined : Type 0 where
  finished : ℕ → RunResult StepExecution → Joined
  panicked : ℕ → (message : String) → Joined

-- What the loop does to the world: it spawns a step's task, and writes that a step is skipped or has
-- failed.
pub data RunEvent : Type 0 where
  spawned : ℕ → BTreeMap ArtifactRef → RunEvent
  skipped_step : ℕ → RunEvent
  failed_step : ℕ → RunError → RunEvent

-- The variables of the loop, and the flag of the `RunInterrupt`.
pub record RunState : Type 0 where
  pub remaining : List ℕ
  pub started : List Bool
  pub finished : List Bool
  pub skipped : List Bool
  pub ready : List ℕ
  pub running : List ℕ
  pub outputs : OutputMap
  pub first_error : Option RunError
  pub interrupted : Bool
  pub requested : Bool
  pub events : List RunEvent

-- `v[i]`; the loop only reads positions of its steps.
abbrev pub flag : List Bool → ℕ → Bool
flag [] i = false
flag (b ∷ bs) zero = b
flag (b ∷ bs) (suc i) = flag bs i

abbrev pub set_flag : ℕ → List Bool → List Bool
set_flag i bs = update i (λ b. true) bs

-- The positions of a vector.
abbrev pub positions {ℓ} : {A : Type ℓ} → ℕ → List A → List ℕ
positions i [] = []
positions i (x ∷ xs) = i ∷ positions (suc i) xs

-- `skip_step`, and the mark of the step.
unfoldable pub skip_step : ℕ → RunState → RunState
unfolding update
skip_step index s = record s {
  skipped = set_flag index s.skipped;
  events = s.events ++ skipped_step index ∷ [];
}

abbrev pub skip_loop : List Bool → List ℕ → RunState → RunState
skip_loop kept [] s = s
skip_loop kept (index ∷ indexes) s = skip_loop kept indexes (
    if not (flag kept index) && not (flag s.finished index) && not (flag s.skipped index)
    then skip_step index s
    else s)

unfoldable pub skip_unstarted_steps : RunState → RunState
unfolding skip_step
skip_unstarted_steps s = skip_loop s.started (positions 0 s.started) s

unfoldable pub skip_unfinished_steps : RunState → RunState
unfolding skip_step
skip_unfinished_steps s = skip_loop s.finished (positions 0 s.started) s

-- The loop is calm while it starts steps.
abbrev pub is_calm : RunState → Bool
is_calm s = not (is_some s.first_error) && not s.interrupted

abbrev pub inputs_at : Option ExecutionStep → BTreeMap (List Endpoint)
inputs_at none = []
inputs_at (some step) = step.inputs

abbrev pub spawn_step : ℕ → BTreeMap ArtifactRef → RunState → RunState
spawn_step index inputs s = record s {
  started = set_flag index s.started;
  running = s.running ++ index ∷ [];
  events = s.events ++ spawned index inputs ∷ [];
}

-- One step of the queue.
unfoldable pub admit : List ExecutionStep → ℕ → RunState → RunResult RunState
unfolding resolve_inputs update
admit steps index s =
    if flag s.started index || flag s.skipped index
    then ok s
    else resolve_inputs (inputs_at (get_elem? steps index)) s.outputs >>= λ inputs.
        ok (spawn_step index inputs s)

-- The inner loop, over the queue.
unfoldable pub fill : ℕ → List ExecutionStep → List ℕ → RunState → RunResult RunState
unfolding admit
fill max_parallel_steps steps [] s = ok (record s { ready = [] })
fill max_parallel_steps steps (index ∷ queue) s =
    if ltb (length s.running) max_parallel_steps
    then (admit steps index s >>= λ s'. fill max_parallel_steps steps queue s')
    else ok (record s { ready = index ∷ queue })

-- The loop's start reads the interrupt.
abbrev pub observe : RunState → RunState
observe s =
    if s.requested && not (is_some s.first_error) then record s { interrupted = true } else s

-- A turn of the loop, up to where it waits for a task.
unfoldable pub start_steps : ℕ → List ExecutionStep → RunState → RunResult RunState
unfolding skip_unstarted_steps fill
start_steps max_parallel_steps steps s =
    let s' = observe s in
    if is_calm s' then fill max_parallel_steps steps s'.ready s' else ok (skip_unstarted_steps s')

abbrev pub all_settled : List Bool → List Bool → Bool
all_settled (f ∷ fs) (k ∷ ks) = (f || k) && all_settled fs ks
all_settled _ _ = true

-- Whether the loop ends there: each step is settled, or no task is running.
abbrev pub is_over : RunState → Bool
is_over s = all_settled s.finished s.skipped || length s.running == 0

abbrev pub lower : ℕ → List ℕ → List ℕ
lower next remaining = update next (λ count. count - 1) remaining

-- The loop over the steps downstream of one that has succeeded.
unfoldable pub release : List ℕ → RunState → RunState
unfolding update
release [] s = s
release (next ∷ nexts) s =
    let remaining = lower next s.remaining in
    release nexts (record s {
      remaining = remaining;
      ready = if is_at (get_elem? remaining next) 0 then s.ready ++ next ∷ [] else s.ready;
    })

-- The same loop where the steps that are ready are not collected.
unfoldable pub lower_all : List ℕ → List ℕ → List ℕ
unfolding update
lower_all [] remaining = remaining
lower_all (next ∷ nexts) remaining = lower_all nexts (lower next remaining)

abbrev pub downstream_of : StepDag → ℕ → List ℕ
downstream_of dag index = elim (get_elem? dag.downstream index) [ some nexts ↦ nexts | none ↦ [] ]

abbrev pub node_of : Option ExecutionStep → String
node_of none = ""
node_of (some step) = step.node_id

abbrev pub insert_outputs : String → List StepOutput → OutputMap → OutputMap
insert_outputs node_id [] outputs = outputs
insert_outputs node_id (output ∷ produced) outputs =
    insert_outputs node_id produced (((node_id, output.port), output.artifact) ∷ outputs)

unfoldable pub on_result :
    StepDag → List ExecutionStep → ℕ → RunResult StepExecution → RunState → RunState
unfolding release skip_step
on_result dag steps index (ok (succeeded produced)) s =
    let s' : RunState = record s {
      outputs = insert_outputs (node_of (get_elem? steps index)) produced s.outputs;
    } in
    if is_calm s' then release (downstream_of dag index) s' else s'
on_result dag steps index (ok interrupted) s =
    skip_step index (record s { interrupted = true; requested = true })
on_result dag steps index (err e) s = if is_some s.first_error then s else record s {
  first_error = some e;
  requested = true;
  events = s.events ++ failed_step index e ∷ [];
}

abbrev pub leave : ℕ → List ℕ → List ℕ
leave index running = retain (λ i. not (i == index)) running

-- A turn of the loop, from where a task has been joined.
unfoldable pub on_joined : StepDag → List ExecutionStep → Joined → RunState → RunState
unfolding on_result skip_unfinished_steps update
on_joined dag steps (finished index result) s =
    on_result dag steps index result
      (record s { running = leave index s.running; finished = set_flag index s.finished })
on_joined dag steps (panicked index message) s =
    let s' : RunState = record s { running = leave index s.running } in
    if is_some s.first_error
    then s'
    else skip_unfinished_steps
        (record s' { first_error = some (task_join message); requested = true })

-- The step of a task that has been joined.
abbrev pub task_of : Joined → ℕ
task_of (finished index result) = index
task_of (panicked index message) = index
