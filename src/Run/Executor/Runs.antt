-- ===== src/Run/Executor/Runs.antt =====
-- The runs of the loop of crates/run/src/executor.rs, over every order in which tasks end.
use helixflow.Base.{
  ℕ, zero, suc, ◌≤◌, ◌<◌, Bool, true, false, ◌||◌, List, [], ◌∷◌, ok, err, ◌≡◌, refl, sym, ap, ◌∙◌,
  arith, ltb, ◌==◌, length, is_some, ok-injective, >>=-eq-ok, Bool-cases, inl, inr, Option-cases,
}
use helixflow.Graph.Plan.{ExecutionStep}
use helixflow.Run.Errors.{RunResult}
use helixflow.Run.StepDag.{StepDag}
use helixflow.Run.StepDag.Indexes.{IndexSet, has_index}
use helixflow.Run.Executor.{
  RunState, Joined, task_of, flag, is_calm, observe, positions, skip_unstarted_steps, fill, admit,
  start_steps, on_joined, is_over, all_settled,
}
use helixflow.Run.Executor.Counts.{same_position, unmarked, count_at}
use helixflow.Run.Executor.Invariant.{
  set_at, IsDag, Invariant, pending, Core-Alike, skip_loop-is_calm,
}
use helixflow.Run.Executor.Turns.{start_steps-Invariant}
use helixflow.Run.Executor.Joins.{on_joined-Invariant}
use helixflow.Run.Executor.Lifecycle.{succeeded, settle}
use helixflow.Run.Executor.Restore.{unmarked-zero}

-- The states at the start of a turn, with the number of tasks joined so far. A request to interrupt
-- the run comes at any time: the loop reads it at the start of a turn only.
pub data Reaches (dag : StepDag) (steps : List ExecutionStep) (max_parallel_steps : ℕ)
    (start : RunState) : ℕ → RunState → Type 0 where
  begin : Reaches dag steps max_parallel_steps start 0 start
  request :
      {joins : ℕ} {s : RunState}
      → Reaches dag steps max_parallel_steps start joins s
      → Reaches dag steps max_parallel_steps start joins (record s { requested = true })
  join :
      {joins : ℕ} {s t : RunState} (event : Joined)
      → Reaches dag steps max_parallel_steps start joins s
      → start_steps max_parallel_steps steps s ≡ ok t
      → is_over t ≡ false
      → has_index (task_of event) t.running ≡ true
      → Reaches dag steps max_parallel_steps start (suc joins) (on_joined dag steps event t)

module _ (n : ℕ) (up : List IndexSet) (dag : StepDag) (d : IsDag n up dag)
    (steps : List ExecutionStep) (max : ℕ) (start : RunState) (v : Invariant n up max 0 start) where
  pub Reaches-Invariant :
      {joins : ℕ} {s : RunState} → Reaches dag steps max start joins s → Invariant n up max joins s
  Reaches-Invariant begin = v
  Reaches-Invariant {joins = joins} (request {s = s} path) =
      let w = Reaches-Invariant path in
      record {
        core =
            Core-Alike n up max joins s (record s { requested = true })
              (record {
                remaining = refl;
                started = refl;
                finished = refl;
                ready = refl;
                running = refl;
              })
              w.core;
        calm = λ h.
            let q = w.calm h in
            record {
              exact = q.exact;
              awaited = q.awaited;
              queued = q.queued;
              unskipped = q.unskipped;
              skipped_size = q.skipped_size;
            };
      }
  Reaches-Invariant (join {joins = joins} {s = s} {t = t} event path turn goes running) =
      on_joined-Invariant n up dag d steps max joins event t
        (start_steps-Invariant n up dag d steps max joins s t (Reaches-Invariant path) turn) running

pub marked_of_zero :
    (marks : List Bool) (js : List ℕ) (j : ℕ)
    → unmarked marks js ≡ 0
    → has_index j js ≡ true
    → flag marks j ≡ true
marked_of_zero marks [] j z m = ground arith
marked_of_zero marks (k ∷ js) j z m = elim (Bool-cases (j == k)) [
  | inl here ↦ ap (flag marks) (same_position j k here) ∙ ground (arith, z)
  | inr other ↦ marked_of_zero marks js j (ground (arith, z)) (ground (arith, m, other))
]

pub settled-flag :
    (finished skipped : List Bool) (i : ℕ)
    → all_settled finished skipped ≡ true
    → length skipped ≡ length finished
    → i < length finished
    → flag skipped i ≡ false
    → flag finished i ≡ true
settled-flag [] ks i a l b k = ground arith
settled-flag (f ∷ fs) [] i a l b k = ground arith
settled-flag (f ∷ fs) (x ∷ ks) zero a l b k = ground arith
settled-flag (f ∷ fs) (x ∷ ks) (suc i) a l b k =
    settled-flag fs ks i (ground (arith, a)) (omega (arith, l)) (omega (arith, b)) k

-- The queue is empty when no task is running after it has been read.
fill-ready :
    (max : ℕ) (steps : List ExecutionStep) (queue : List ℕ) (s t : RunState)
    → 1 ≤ max
    → fill max steps queue s ≡ ok t
    → length t.running ≡ 0
    → t.ready ≡ []
unfolding fill
fill-ready max steps [] s t m e z = ap (λ (x : RunState). x.ready) (sym (ok-injective e))
fill-ready max steps (index ∷ queue) s t m e z = elim (Bool-cases (ltb (length s.running) max)) [
  | inl room ↦
      let (s', _, rest) = >>=-eq-ok (admit steps index s) _ (rw room at e) in
      fill-ready max steps queue s' t m rest z
  | inr full ↦
      let same_running = ap (λ (x : RunState). length x.running) (ok-injective (rw full at e)) in
      ground (arith, full, same_running, z, m)
]

pub start_steps-ready :
    (max : ℕ) (steps : List ExecutionStep) (s t : RunState)
    → 1 ≤ max
    → start_steps max steps s ≡ ok t
    → is_calm t ≡ true
    → length t.running ≡ 0
    → t.ready ≡ []
unfolding start_steps skip_unstarted_steps
start_steps-ready max steps s t m e calm z = elim (Bool-cases (is_calm (observe s))) [
  | inl c ↦ fill-ready max steps (observe s).ready (observe s) t m (rw c at e) z
  | inr restless ↦
      let is_t = ok-injective (rw restless at e) in
      let same_calm =
        skip_loop-is_calm 0 [] (observe s).started (positions 0 (observe s).started) (observe s) in
      let t_calm = ap is_calm is_t in ground (arith, t_calm, same_calm, restless, calm)
]

none-running : (i : ℕ) (xs : List ℕ) → length xs ≡ 0 → has_index i xs ≡ false
none-running i [] z = refl
none-running i (x ∷ xs) z = ground arith

module _ (n : ℕ) (up : List IndexSet) (dag : StepDag) (d : IsDag n up dag) (max joins : ℕ)
    (t : RunState) (v : Invariant n up max joins t) (calm : is_calm t ≡ true)
    (empty : length t.running ≡ 0) (drained : t.ready ≡ []) where
  -- Nothing is left where no task is running and no step is ready.
  pub all-finished : (b i : ℕ) → b ≤ n → i < b → flag t.finished i ≡ true
  all-finished zero i h k = ground arith
  all-finished (suc b) i h k = elim (Bool-cases (i == b)) [
    | inr other ↦ all-finished b i (omega (arith, h)) (ground (arith, k, other))
    | inl here ↦
        let q = v.calm calm in
        let fed : pending n up t.finished b ≡ 0 =
          unmarked-zero t.finished (set_at up b)
            (λ j m. all-finished b j (omega (arith, h)) (d.forward b j m)) in
        let free : count_at t.remaining b ≡ 0 = omega (arith, q.exact b, fed) in
        ap (flag t.finished) (same_position i b here)
        ∙ ground (
          arith,
          q.awaited b,
          none-running b t.running empty,
          q.queued b (omega (arith, h)) free,
          ap (has_index b) drained,
        )
  ]

pub settle-calm :
    (costs : RunResult (Unit {0})) (t : RunState) → settle costs t ≡ succeeded → is_calm t ≡ true
unfolding settle
settle-calm (err e) t h = cc
settle-calm (ok tt) t h = elim (Option-cases t.first_error) [
  | inl clean ↦ elim (Bool-cases (t.interrupted || t.requested)) [
    | inl stop ↦ cc (rw (clean, stop) at h)
    | inr go ↦ ground (arith, go, ap is_some clean)
  ]
  | inr (e, failing) ↦ cc (rw failing at h)
]
