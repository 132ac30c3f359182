-- ===== src/Run/Executor/Correct.antt =====
-- What the loop of crates/run/src/executor.rs guarantees, however its tasks end.
use helixflow.Base.{
  ℕ, ◌+◌, ◌≤◌, ◌<◌, true, false, List, ok, ◌≡◌, ◌∙◌, sym, arith, length, Bool-cases, inl, inr,
}
use helixflow.Graph.Plan.{ExecutionStep}
use helixflow.Run.Errors.{RunResult}
use helixflow.Run.StepDag.{StepDag}
use helixflow.Run.StepDag.Indexes.{IndexSet, has_index}
use helixflow.Run.Executor.{RunState, flag, start_steps, is_over, all_settled, downstream_of}
use helixflow.Run.Executor.Counts.{once}
use helixflow.Run.Executor.Invariant.{set_at, IsDag, Invariant}
use helixflow.Run.Executor.Turns.{start_steps-Invariant}
use helixflow.Run.Executor.Lifecycle.{RunStepRecord, RunStepOutputRecord, resume, succeeded, settle}
use helixflow.Run.Executor.Restore.{Consistent, resume-Invariant}
use helixflow.Run.Executor.Runs.{
  Reaches, Reaches-Invariant, start_steps-ready, marked_of_zero, settled-flag, settle-calm,
  all-finished,
}

module _ (up : List IndexSet) (dag : StepDag) (plan_steps : List ExecutionStep)
    (d : IsDag (length plan_steps) up dag) (steps : List RunStepRecord)
    (outputs : List RunStepOutputRecord) (fits : length steps ≤ length plan_steps)
    (consistent : Consistent dag (resume dag plan_steps steps outputs)) (max joins : ℕ)
    (s t : RunState)
    (path : Reaches dag plan_steps max (resume dag plan_steps steps outputs) joins s)
    (turn : start_steps max plan_steps s ≡ ok t) where
  waiting-Invariant : Invariant (length plan_steps) up max joins t
  waiting-Invariant =
      start_steps-Invariant (length plan_steps) up dag d plan_steps max joins s t
        (Reaches-Invariant (length plan_steps) up dag d plan_steps max
          (resume dag plan_steps steps outputs)
          (resume-Invariant up dag plan_steps d max steps outputs fits consistent) path)
        turn

  -- For a plan's dependencies and consistent records of its steps, whenever the loop waits for a task
  -- there are at most `max_parallel_steps` tasks, no two of them of one step, and with the tasks
  -- joined before they are at most as many as the plan's steps, so the loop's turns are bounded.
  pub start_steps-running :
      (length t.running ≤ max)
      × (once t.running ≡ true)
      × (joins + length t.running ≤ length plan_steps)
  start_steps-running =
      let c = waiting-Invariant.core in (c.bounded, c.spawned_once, omega (arith, c.joined))

  -- For a plan's dependencies and consistent records of its steps, whenever the loop waits for a task,
  -- every step upstream of one that has been started is finished.
  pub start_steps-upstream :
      (i j : ℕ)
      → flag t.started i ≡ true
      → has_index i (downstream_of dag j) ≡ true
      → flag t.finished j ≡ true
  start_steps-upstream i j f m =
      marked_of_zero t.finished (set_at up i) j (waiting-Invariant.core.fed i f)
        (sym (d.converse j i) ∙ m)

  -- For a plan's dependencies and consistent records of its steps, and at least one parallel step, a run
  -- whose loop ends, and that is then recorded as succeeded, has finished every step and skipped none.
  pub settle-succeeded :
      (costs : RunResult (Unit {0}))
      → 1 ≤ max
      → is_over t ≡ true
      → settle costs t ≡ succeeded
      → (i : ℕ) → i < length plan_steps
      → (flag t.finished i ≡ true) × (flag t.skipped i ≡ false)
  settle-succeeded costs m over h i inside =
      let v = waiting-Invariant in
      let calm = settle-calm costs t h in
      let q = v.calm calm in
      (
        elim (Bool-cases (all_settled t.finished t.skipped)) [
          | inl settled ↦
              settled-flag t.finished t.skipped i settled
                (q.skipped_size ∙ sym v.core.finished_size)
                (omega (arith, inside, v.core.finished_size)) (q.unskipped i)
          | inr open_step ↦
              let empty : length t.running ≡ 0 = ground (arith, over, open_step) in
              all-finished (length plan_steps) up dag d max joins t v calm empty
                (start_steps-ready max plan_steps s t m turn calm empty) (length plan_steps) i
                (omega arith) inside
        ],
        q.unskipped i,
      )
