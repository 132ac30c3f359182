-- ===== src/Run/Executor/Restore.antt =====
-- The state in which the loop of crates/run/src/executor.rs starts satisfies its invariant.
use helixflow.Base.{
  ℕ, zero, suc, ◌+◌, ◌≤◌, ◌<◌, Bool, true, false, ◌&&◌, Option, none, some, List, [], ◌∷◌, ◌≡◌,
  refl, sym, ap, ◌∙◌, arith, leb, ltb, ◌==◌, length, map, retain, same, Bool-cases, inl, inr,
}
use helixflow.Graph.Plan.{ExecutionStep}
use helixflow.Run.StepDag.{StepDag}
use helixflow.Run.StepDag.Indexes.{IndexSet, has_index, length-update}
use helixflow.Run.Executor.{RunState, flag, positions, downstream_of, is_calm}
use helixflow.Run.Executor.Counts.{
  once, same_position, count_at, unmarked, unset, flag-set_flag, unmarked-set_flag,
  count_at-lower_all, length-lower_all, is_at-count_at,
}
use helixflow.Run.Executor.Invariant.{set_at, IsDag, Invariant, pending}
use helixflow.Run.Executor.Lifecycle.{
  RunStepRecord, RunStepOutputRecord, record_of, restore_output, restore_outputs, restore_step,
  restore_steps, unset_flags, is_free, resume,
}

flag-unset_flags {ℓ} : {A : Type ℓ} (xs : List A) (i : ℕ) → flag (unset_flags xs) i ≡ false
flag-unset_flags [] i = refl
flag-unset_flags (x ∷ xs) zero = refl
flag-unset_flags (x ∷ xs) (suc i) = flag-unset_flags xs i

length-unset_flags {ℓ} : {A : Type ℓ} (xs : List A) → length (unset_flags xs) ≡ length xs
length-unset_flags [] = refl
length-unset_flags (x ∷ xs) = ap suc (length-unset_flags xs)

unmarked-unset_flags {ℓ} :
    {A : Type ℓ} (xs : List A) (js : List ℕ) → unmarked (unset_flags xs) js ≡ length js
unmarked-unset_flags xs [] = refl
unmarked-unset_flags xs (j ∷ js) = ground (arith, flag-unset_flags xs j, unmarked-unset_flags xs js)

count_at-length : (up : List IndexSet) (i : ℕ) → count_at (map length up) i ≡ length (set_at up i)
count_at-length [] i = refl
count_at-length (js ∷ up) zero = refl
count_at-length (js ∷ up) (suc i) = count_at-length up i

length-map-length : (up : List IndexSet) → length (map length up) ≡ length up
length-map-length [] = refl
length-map-length (js ∷ up) = ap suc (length-map-length up)

unset_le : (bs : List Bool) → unset bs ≤ length bs
unset_le [] = omega arith
unset_le (b ∷ bs) = ground (arith, unset_le bs)

has_index-positions {ℓ} :
    {A : Type ℓ} (p : ℕ → Bool) (first i : ℕ) (xs : List A)
    → has_index i (retain p (positions first xs))
      ≡ (p i && leb first i && ltb i (first + length xs))
has_index-positions p first i [] = ground arith
has_index-positions p first i (x ∷ xs) =
    let rest = has_index-positions p (suc first) i xs in
    elim (Bool-cases (i == first)) [
      | inl here ↦
          let at_first = ap p (same_position i first here) in ground (arith, rest, here, at_first)
      | inr other ↦ ground (arith, rest, other)
    ]

-- What holds while the steps are restored, of those before a position.
pub record Restored (n : ℕ) (up : List IndexSet) (index : ℕ) (s : RunState) : Type 0 where
  pub started_size : length s.started ≡ n
  pub finished_size : length s.finished ≡ n
  pub remaining_size : length s.remaining ≡ n
  pub counted : (i : ℕ) → count_at s.remaining i ≡ pending n up s.finished i
  pub marked : (i : ℕ) → flag s.finished i ≡ true → flag s.started i ≡ true
  pub ahead : (i : ℕ) → index ≤ i → flag s.finished i ≡ false
  pub unskipped : (i : ℕ) → flag s.skipped i ≡ false
  pub skipped_size : length s.skipped ≡ n
  pub idle : s.running ≡ []
  pub calm : is_calm s ≡ true

module _ (n : ℕ) (up : List IndexSet) (dag : StepDag) (d : IsDag n up dag) where
  restore_step-Restored :
      (index : ℕ) (s : RunState)
      → index < n
      → Restored n up index s
      → Restored n up (suc index) (restore_step dag index s)
  restore_step-Restored index s inside r =
      let marks_started =
        λ (i : ℕ). flag-set_flag index i s.started (omega (arith, inside, r.started_size)) in
      let wide : index < length s.finished = omega (arith, inside, r.finished_size) in
      let marks = λ (i : ℕ). flag-set_flag index i s.finished wide in
      record {
        started_size = length-update index (λ b. true) s.started ∙ r.started_size;
        finished_size = length-update index (λ b. true) s.finished ∙ r.finished_size;
        remaining_size = length-lower_all (downstream_of dag index) s.remaining ∙ r.remaining_size;
        counted = λ i. ground (
          arith,
          count_at-lower_all (downstream_of dag index) i s.remaining (d.down_once index),
          d.converse index i,
          r.counted i,
          unmarked-set_flag index s.finished (set_at up i) wide (r.ahead index (omega arith))
              (d.up_once i),
        );
        marked = λ i f. ground (arith, marks_started i, marks i, r.marked i);
        ahead = λ i h. ground (arith, marks i, r.ahead i (omega (arith, h)));
        unskipped = r.unskipped;
        skipped_size = r.skipped_size;
        idle = r.idle;
        calm = r.calm;
      }

  pass-Restored : (index : ℕ) (s : RunState) → Restored n up index s → Restored n up (suc index) s
  pass-Restored index s r = record {
    started_size = r.started_size;
    finished_size = r.finished_size;
    remaining_size = r.remaining_size;
    counted = r.counted;
    marked = r.marked;
    ahead = λ i h. r.ahead i (omega (arith, h));
    unskipped = r.unskipped;
    skipped_size = r.skipped_size;
    idle = r.idle;
    calm = r.calm;
  }

  restore_steps-Restored :
      (index : ℕ) (steps : List RunStepRecord) (s : RunState)
      → index + length steps ≤ n
      → Restored n up index s
      → (last : ℕ) × Restored n up last (restore_steps dag index steps s)
  unfolding restore_steps
  restore_steps-Restored index [] s h r = (index, r)
  restore_steps-Restored index (step ∷ steps) s h r =
      elim (Bool-cases (same step.state "succeeded")) [
        | inl done ↦
            rw (done, restore_steps)
              (restore_steps-Restored (suc index) steps (restore_step dag index s)
                (omega (arith, h)) (restore_step-Restored index s (omega (arith, h)) r))
        | inr other ↦
            rw (other, restore_steps)
              (restore_steps-Restored (suc index) steps s (omega (arith, h))
                (pass-Restored index s r))
      ]

  restore_output-Restored :
      (output : RunStepOutputRecord) (found : Option (ℕ × RunStepRecord)) (s : RunState)
      → Restored n up 0 s
      → Restored n up 0 (restore_output output found s)
  restore_output-Restored output none s r = r
  restore_output-Restored output (some (index, step)) s r = record {
    started_size = length-update index (λ b. true) s.started ∙ r.started_size;
    finished_size = r.finished_size;
    remaining_size = r.remaining_size;
    counted = r.counted;
    marked = λ i f. ground (arith, f, r.ahead i (omega arith));
    ahead = r.ahead;
    unskipped = r.unskipped;
    skipped_size = r.skipped_size;
    idle = r.idle;
    calm = r.calm;
  }

  restore_outputs-Restored :
      (steps : List RunStepRecord) (outputs : List RunStepOutputRecord) (s : RunState)
      → Restored n up 0 s
      → Restored n up 0 (restore_outputs steps outputs s)
  unfolding restore_outputs
  restore_outputs-Restored steps [] s r = r
  restore_outputs-Restored steps (output ∷ outputs) s r =
      restore_outputs-Restored steps outputs _
        (restore_output-Restored output (record_of output.run_step_id 0 steps) s r)

pub unmarked-zero :
    (marks : List Bool) (js : List ℕ)
    → ((j : ℕ) → has_index j js ≡ true → flag marks j ≡ true)
    → unmarked marks js ≡ 0
unmarked-zero marks [] h = refl
unmarked-zero marks (j ∷ js) h =
    ground (arith, h j (ground arith), unmarked-zero marks js (λ i m. h i (ground (arith, m))))

-- What the store holds of a run fits its steps: an output is of a step that has succeeded, and such
-- a step comes after steps that have succeeded.
pub record Consistent (dag : StepDag) (s : RunState) : Type 0 where
  pub outputs_done : (i : ℕ) → flag s.started i ≡ true → flag s.finished i ≡ true
  pub upstream_done :
      (i j : ℕ)
      → flag s.finished i ≡ true
      → has_index i (downstream_of dag j) ≡ true
      → flag s.finished j ≡ true

module _ (up : List IndexSet) (dag : StepDag) (plan_steps : List ExecutionStep)
    (d : IsDag (length plan_steps) up dag) (max : ℕ) where
  collected-Invariant :
      (last : ℕ) (s : RunState)
      → Restored (length plan_steps) up last s
      → Consistent dag s
      → Invariant
          (length plan_steps)
          up
          max
          0
          (record s { ready = retain (is_free s) (positions 0 s.remaining) })
  collected-Invariant last s r k =
      let in_ready = λ (i : ℕ). has_index-positions (is_free s) 0 i s.remaining in
      let zero_at = λ (i : ℕ). is_at-count_at s.remaining i in
      let idle = λ (i : ℕ). ap (has_index i) r.idle in
      record {
        core = record {
          started_size = r.started_size;
          finished_size = r.finished_size;
          remaining_size = r.remaining_size;
          least = λ i. omega (arith, r.counted i);
          ready_free = λ i m.
              (ground (arith, in_ready i, r.remaining_size), ground (arith, in_ready i, zero_at i));
          fed = λ i f.
              unmarked-zero s.finished (set_at up i)
                (λ j m. k.upstream_done i j (k.outputs_done i f) (d.converse j i ∙ m));
          marked = r.marked;
          tasks = λ i m. ground (arith, idle i, m);
          spawned_once = ap once r.idle;
          bounded = omega (arith, ap length r.idle);
          joined = omega (arith, ap length r.idle, unset_le s.started, r.started_size);
        };
        calm = λ h. record {
          exact = λ i. omega (arith, r.counted i);
          awaited = λ i f g. ground (arith, k.outputs_done i f);
          queued = λ i b z f.
              ground (arith, in_ready i, zero_at i, r.marked i, r.unskipped i, r.remaining_size);
          unskipped = r.unskipped;
          skipped_size = r.skipped_size;
        };
      }

  -- The loop's start has the invariant, for consistent records of at most the plan's steps.
  pub resume-Invariant :
      (steps : List RunStepRecord) (outputs : List RunStepOutputRecord)
      → length steps ≤ length plan_steps
      → Consistent dag (resume dag plan_steps steps outputs)
      → Invariant (length plan_steps) up max 0 (resume dag plan_steps steps outputs)
  unfolding resume
  resume-Invariant steps outputs h k =
      let blank : RunState = record {
        remaining = dag.upstream_counts;
        started = unset_flags plan_steps;
        finished = unset_flags plan_steps;
        skipped = unset_flags plan_steps;
        ready = [];
        running = [];
        outputs = [];
        first_error = none;
        interrupted = false;
        requested = false;
        events = [];
      } in
      let first : Restored (length plan_steps) up 0 blank = record {
        started_size = length-unset_flags plan_steps;
        finished_size = length-unset_flags plan_steps;
        remaining_size = ap length d.counts ∙ length-map-length up ∙ d.size;
        counted = λ i.
            ap (λ cs. count_at cs i) d.counts
            ∙ count_at-length up i
            ∙ sym (unmarked-unset_flags plan_steps (set_at up i));
        marked = λ i f. ground (arith, f, flag-unset_flags plan_steps i);
        ahead = λ i b. flag-unset_flags plan_steps i;
        unskipped = flag-unset_flags plan_steps;
        skipped_size = length-unset_flags plan_steps;
        idle = refl;
        calm = refl;
      } in
      let after = restore_outputs steps outputs blank in
      let (last, r) =
        restore_steps-Restored (length plan_steps) up dag d 0 steps after (omega (arith, h))
          (restore_outputs-Restored (length plan_steps) up dag d steps outputs blank first) in
      collected-Invariant last (restore_steps dag 0 steps after) r
        (record { outputs_done = k.outputs_done; upstream_done = k.upstream_done })
