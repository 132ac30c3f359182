-- ===== src/Run/Executor/Lifecycle.antt =====
-- crates/run/src/executor.rs: the state in which the loop starts, from what the store holds of the
-- run, and the status that the run ends with. The run has a record for each step of its
-- plan, in the plan's order, as `ensure_run_steps` makes them; that a step without one would end the
-- program is left out.
use helixflow.Base.{
  ℕ, suc, String, Bool, false, not, ◌&&◌, ◌||◌, Option, none, some, List, [], ◌∷◌, ok, err,
  if◌then◌else◌, get_elem?, retain, same,
}
use helixflow.Graph.Plan.{ExecutionStep}
use helixflow.Run.Errors.{RunError, RunResult}
use helixflow.Run.StepDag.{StepDag}
use helixflow.Run.StepDag.Indexes.{update}
use helixflow.Run.StepDag.Links.{is_at}
use helixflow.Run.Executor.{RunState, flag, set_flag, positions, downstream_of, lower_all}
use helixflow.Run.Inputs.{ArtifactRef}

-- What the loop reads of a step's record.
pub record RunStepRecord : Type 0 where
  pub id : String
  pub node_id : String
  pub state : String

-- A record of an output, with its artifact.
pub record RunStepOutputRecord : Type 0 where
  pub run_step_id : String
  pub port : String
  pub artifact : ArtifactRef

-- `iter().enumerate().find(..)`, by the record's id.
abbrev pub record_of : String → ℕ → List RunStepRecord → Option (ℕ × RunStepRecord)
record_of id index [] = none
record_of id index (step ∷ steps) =
    if same step.id id then some (index, step) else record_of id (suc index) steps

abbrev pub restore_output : RunStepOutputRecord → Option (ℕ × RunStepRecord) → RunState → RunState
restore_output output none s = s
restore_output output (some (index, step)) s = record s {
  outputs = ((step.node_id, output.port), output.artifact) ∷ s.outputs;
  started = set_flag index s.started;
}

-- The loop over the outputs.
unfoldable pub restore_outputs : List RunStepRecord → List RunStepOutputRecord → RunState → RunState
unfolding same update
restore_outputs steps [] s = s
restore_outputs steps (output ∷ outputs) s =
    restore_outputs steps outputs (restore_output output (record_of output.run_step_id 0 steps) s)

abbrev pub restore_step : StepDag → ℕ → RunState → RunState
restore_step dag index s = record s {
  started = set_flag index s.started;
  finished = set_flag index s.finished;
  remaining = lower_all (downstream_of dag index) s.remaining;
}

-- The loop over the steps that have succeeded.
unfoldable pub restore_steps : StepDag → ℕ → List RunStepRecord → RunState → RunState
unfolding lower_all same update
restore_steps dag index [] s = s
restore_steps dag index (step ∷ steps) s =
    restore_steps dag (suc index) steps
      (if same step.state "succeeded" then restore_step dag index s else s)

-- `vec![false; n]`
abbrev pub unset_flags {ℓ} : {A : Type ℓ} → List A → List Bool
unset_flags [] = []
unset_flags (x ∷ xs) = false ∷ unset_flags xs

abbrev pub is_free : RunState → ℕ → Bool
is_free s index =
    is_at (get_elem? s.remaining index) 0
    && not (flag s.finished index)
    && not (flag s.skipped index)

-- The state before the first turn, for the outputs and the steps of the run in the store.
unfoldable pub resume :
    StepDag → List ExecutionStep → List RunStepRecord → List RunStepOutputRecord → RunState
unfolding restore_outputs restore_steps
resume dag plan_steps steps outputs =
    let blank : RunState = record {
      remaining = dag.upstream_counts;
      started = unset_flags plan_steps;
      finished = unset_flags plan_steps;
      skipped = unset_flags plan_steps;
      ready = [];
      running = [];
      outputs = [];
      first_error = none;
      interrupted = false;
      requested = false;
      events = [];
    } in
    let s = restore_steps dag 0 steps (restore_outputs steps outputs blank) in
    record s { ready = retain (is_free s) (positions 0 s.remaining) }

-- The status of a run, with the error of one that has failed.
pub data RunEnd : Type 0 where
  failed : RunError → RunEnd
  interrupted : RunEnd
  succeeded : RunEnd

-- The end of the run, after the loop; the entry of its costs in the ledger may fail.
unfoldable pub settle : RunResult (Unit {0}) → RunState → RunEnd
settle (err e) s = failed e
settle (ok tt) s = elim s.first_error [
  | some e ↦ failed e
  | none ↦ if s.interrupted || s.requested then interrupted else succeeded
]
