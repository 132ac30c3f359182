-- ===== src/Run/Executor/Invariant.antt =====
-- The invariant of the loop of crates/run/src/executor.rs, and what leaves it alone.
use helixflow.Base.{
  ℕ, zero, suc, ◌+◌, ◌<◌, ◌≤◌, Bool, true, false, not, ◌&&◌, List, [], ◌∷◌, ◌≡◌, refl, ap, ◌∙◌,
  arith, ◌==◌, length, length-append, map, Bool-cases, inl, inr,
}
use helixflow.Run.StepDag.{StepDag}
use helixflow.Run.StepDag.Indexes.{IndexSet, has_index, length-update}
use helixflow.Base.Assoc.{BTreeMap}
use helixflow.Run.Executor.{
  RunState, flag, is_calm, downstream_of, skip_step, skip_loop, spawn_step,
}
use helixflow.Run.Inputs.{ArtifactRef}
use helixflow.Run.Executor.Counts.{
  once, same_position, count_at, unmarked, unset, flag-set_flag, unset-set_flag, has_index-append,
  once-append,
}

abbrev pub set_at : List IndexSet → ℕ → IndexSet
set_at [] i = []
set_at (js ∷ jss) zero = js
set_at (js ∷ jss) (suc i) = set_at jss i

-- The dependencies of a plan with `n` steps: the sets of the steps upstream of each, whose sizes are
-- the counts, the lists of the steps downstream, which are the converse, and the order of the plan.
pub record IsDag (n : ℕ) (up : List IndexSet) (dag : StepDag) : Type 0 where
  pub counts : dag.upstream_counts ≡ map length up
  pub size : length up ≡ n
  pub up_once : (i : ℕ) → once (set_at up i) ≡ true
  pub down_once : (j : ℕ) → once (downstream_of dag j) ≡ true
  pub converse : (j i : ℕ) → has_index i (downstream_of dag j) ≡ has_index j (set_at up i)
  pub forward : (i j : ℕ) → has_index j (set_at up i) ≡ true → j < i

module _ (n : ℕ) (up : List IndexSet) where
  -- How many steps upstream of a step are not finished.
  abbrev pub pending : List Bool → ℕ → ℕ
  pending finished i = unmarked finished (set_at up i)

  -- What holds of every state, after a number of joined tasks.
  pub record Core (max joins : ℕ) (s : RunState) : Type 0 where
    pub started_size : length s.started ≡ n
    pub finished_size : length s.finished ≡ n
    pub remaining_size : length s.remaining ≡ n
    pub least : (i : ℕ) → pending s.finished i ≤ count_at s.remaining i
    pub ready_free : (i : ℕ) → has_index i s.ready ≡ true → (i < n) × (count_at s.remaining i ≡ 0)
    pub fed : (i : ℕ) → flag s.started i ≡ true → pending s.finished i ≡ 0
    pub marked : (i : ℕ) → flag s.finished i ≡ true → flag s.started i ≡ true
    pub tasks :
        (i : ℕ)
        → has_index i s.running ≡ true
        → (flag s.started i ≡ true) × (flag s.finished i ≡ false)
    pub spawned_once : once s.running ≡ true
    pub bounded : length s.running ≤ max
    pub joined : joins + length s.running + unset s.started ≤ n

  -- What holds while there is neither an error nor an interruption.
  pub record Calm (s : RunState) : Type 0 where
    pub exact : (i : ℕ) → count_at s.remaining i ≤ pending s.finished i
    pub awaited :
        (i : ℕ) → flag s.started i ≡ true → flag s.finished i ≡ false → has_index i s.running ≡ true
    pub queued :
        (i : ℕ)
        → i < n
        → count_at s.remaining i ≡ 0
        → flag s.started i ≡ false
        → has_index i s.ready ≡ true
    pub unskipped : (i : ℕ) → flag s.skipped i ≡ false
    pub skipped_size : length s.skipped ≡ n

  pub record Invariant (max joins : ℕ) (s : RunState) : Type 0 where
    pub core : Core max joins s
    pub calm : is_calm s ≡ true → Calm s

  -- The fields that `Core` reads.
  pub record Alike (s t : RunState) : Type 0 where
    pub remaining : t.remaining ≡ s.remaining
    pub started : t.started ≡ s.started
    pub finished : t.finished ≡ s.finished
    pub ready : t.ready ≡ s.ready
    pub running : t.running ≡ s.running

  pub Core-Alike :
      (max joins : ℕ) (s t : RunState) → Alike s t → Core max joins s → Core max joins t
  Core-Alike max joins s t a c = record {
    started_size = ap length a.started ∙ c.started_size;
    finished_size = ap length a.finished ∙ c.finished_size;
    remaining_size = ap length a.remaining ∙ c.remaining_size;
    least = rw (a.finished, a.remaining) c.least;
    ready_free = rw (a.ready, a.remaining) c.ready_free;
    fed = rw (a.started, a.finished) c.fed;
    marked = rw (a.started, a.finished) c.marked;
    tasks = rw (a.started, a.finished, a.running) c.tasks;
    spawned_once = ap once a.running ∙ c.spawned_once;
    bounded = rw a.running c.bounded;
    joined = rw (a.running, a.started) c.joined;
  }

  skip_loop-Alike : (kept : List Bool) (is : List ℕ) (s : RunState) → Alike s (skip_loop kept is s)
  unfolding skip_step
  skip_loop-Alike kept [] s = record {
    remaining = refl;
    started = refl;
    finished = refl;
    ready = refl;
    running = refl;
  }
  skip_loop-Alike kept (i ∷ is) s =
      elim (Bool-cases (not (flag kept i) && not (flag s.finished i) && not (flag s.skipped i))) [
        | inl h ↦ rw h (
            let a = skip_loop-Alike kept is (skip_step i s) in
            record {
              remaining = a.remaining;
              started = a.started;
              finished = a.finished;
              ready = a.ready;
              running = a.running;
            })
        | inr h ↦ rw h (skip_loop-Alike kept is s)
      ]

  pub skip_loop-is_calm :
      (kept : List Bool) (is : List ℕ) (s : RunState) → is_calm (skip_loop kept is s) ≡ is_calm s
  unfolding skip_step
  skip_loop-is_calm kept [] s = refl
  skip_loop-is_calm kept (i ∷ is) s =
      elim (Bool-cases (not (flag kept i) && not (flag s.finished i) && not (flag s.skipped i))) [
        | inl h ↦ rw (h, skip_loop) (skip_loop-is_calm kept is (skip_step i s))
        | inr h ↦ rw (h, skip_loop) (skip_loop-is_calm kept is s)
      ]

  -- A state with an error or an interruption keeps the invariant when steps are skipped.
  pub skip_loop-Invariant :
      (max joins : ℕ) (kept : List Bool) (is : List ℕ) (s : RunState)
      → is_calm s ≡ false
      → Core max joins s
      → Invariant max joins (skip_loop kept is s)
  skip_loop-Invariant max joins kept is s restless c = record {
    core = Core-Alike max joins s (skip_loop kept is s) (skip_loop-Alike kept is s) c;
    calm = λ h. cc (h, skip_loop-is_calm kept is s, restless);
  }

  -- A step that is ready is spawned.
  pub spawn_step-Invariant :
      (max joins index : ℕ) (queue : List ℕ) (inputs : BTreeMap ArtifactRef) (s : RunState)
      → length s.running < max
      → flag s.started index ≡ false
      → Invariant max joins (record s { ready = index ∷ queue })
      → Invariant max joins (record (spawn_step index inputs s) { ready = queue })
  spawn_step-Invariant max joins index queue inputs s room unstarted v =
      let c = v.core in
      let (inside, free) = c.ready_free index (ground arith) in
      let wide : index < length s.started = omega (arith, inside, c.started_size) in
      let done_later : flag s.finished index ≡ false = elim (Bool-cases (flag s.finished index)) [
        | inl f ↦ ground (arith, c.marked index f)
        | inr f ↦ f
      ] in
      let idle : has_index index s.running ≡ false = elim (Bool-cases (has_index index s.running)) [
        | inl r ↦ ground (arith, (c.tasks index r).0)
        | inr r ↦ r
      ] in
      record {
        core = record {
          started_size = length-update index (λ b. true) s.started ∙ c.started_size;
          finished_size = c.finished_size;
          remaining_size = c.remaining_size;
          least = c.least;
          ready_free = λ i r. c.ready_free i (ground arith);
          fed = λ i f. elim (Bool-cases (i == index)) [
            | inl here ↦
                let i_is = same_position i index here in
                omega (arith, c.least i, ap (count_at s.remaining) i_is, free)
            | inr other ↦ c.fed i (ground (arith, flag-set_flag index i s.started wide))
          ];
          marked = λ i f. ground (arith, flag-set_flag index i s.started wide, c.marked i f);
          tasks = λ i r. elim (Bool-cases (i == index)) [
            | inl here ↦ (
              ground (arith, flag-set_flag index i s.started wide),
              ap (flag s.finished) (same_position i index here) ∙ done_later,
            )
            | inr other ↦
                let (st, fi) =
                  c.tasks i (ground (arith, has_index-append i s.running (index ∷ []))) in
                (ground (arith, flag-set_flag index i s.started wide), fi)
          ];
          spawned_once = once-append index s.running c.spawned_once idle;
          bounded = omega (arith, room, length-append s.running (index ∷ []));
          joined = omega (
            arith,
            c.joined,
            length-append s.running (index ∷ []),
            unset-set_flag index s.started wide unstarted,
          );
        };
        calm = λ h.
            let q = v.calm h in
            record {
              exact = q.exact;
              awaited = λ i st fi. ground (
                arith,
                flag-set_flag index i s.started wide,
                has_index-append i s.running (index ∷ []),
                q.awaited i,
              );
              queued =
                  λ i b z st. ground (arith, flag-set_flag index i s.started wide, q.queued i b z);
              unskipped = q.unskipped;
              skipped_size = q.skipped_size;
            };
      }
