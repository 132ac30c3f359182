-- ===== src/Run/Executor/Joins.antt =====
-- A joined task keeps the invariant of the loop of crates/run/src/executor.rs.
use helixflow.Base.{
  ℕ, suc, ◌-◌, ◌<◌, true, false, ◌&&◌, ◌||◌, some, List, ◌≡◌, refl, sym, ap, ◌∙◌, subst, arith, ltb,
  ◌==◌, if◌then◌else◌, length, get_elem?, is_some, ok, err, Bool-cases, inl, inr,
}
use helixflow.Graph.Plan.{ExecutionStep}
use helixflow.Run.Errors.{task_join}
use helixflow.Run.StepDag.{StepDag}
use helixflow.Run.StepDag.Indexes.{IndexSet, has_index}
use helixflow.Run.Executor.{
  succeeded, interrupted, Joined, task_of, finished, panicked, RunState, set_flag, is_calm,
  positions, downstream_of, lower_all, release, insert_outputs, node_of, on_result, on_joined,
  leave, skip_step, skip_unfinished_steps,
}
use helixflow.Run.Inputs.{OutputMap}
use helixflow.Run.Executor.Counts.{
  count_at, flag-set_flag, flag-bound, count_at-lower_all, length-lower_all, is_at-count_at,
  has_index-leave, once-leave, leave-length_lt, release-frame, has_index-release,
}
use helixflow.Run.Executor.Invariant.{
  IsDag, Core, Calm, Invariant, Alike, Core-Alike, skip_loop-Invariant,
}
use helixflow.Run.Executor.Turns.{pending-finish, finish-Core}

module _ (n : ℕ) (up : List IndexSet) (dag : StepDag) (d : IsDag n up dag)
    (steps : List ExecutionStep) (max : ℕ) where
  restless-Invariant :
      (joins : ℕ) (s t : RunState)
      → Alike n up s t
      → is_calm t ≡ false
      → Core n up max joins s
      → Invariant n up max joins t
  restless-Invariant joins s t a restless c = record {
    core = Core-Alike n up max joins s t a c;
    calm = λ h. ground (arith, h, restless);
  }

  module _ (joins index : ℕ) (s : RunState) (c : Core n up max joins s)
      (r : has_index index s.running ≡ true) where
    abbrev ended : OutputMap → RunState
    ended outputs = record s {
      running = leave index s.running;
      finished = set_flag index s.finished;
      outputs = outputs;
    }

    wide : index < length s.finished
    wide =
        omega
          (arith, c.finished_size, c.started_size, flag-bound index s.started (c.tasks index r).0)

    -- Without a release the counts are too high at most.
    ended-Core : (outputs : OutputMap) → Core n up max (suc joins) (ended outputs)
    ended-Core outputs =
        finish-Core n up dag d steps max joins index s s.remaining s.ready outputs c r
          c.remaining_size
          (λ i. omega (arith, c.least i, pending-finish n up dag d steps max joins index s c r i))
          c.ready_free

    module _ (outputs : OutputMap) where
      abbrev nexts : List ℕ
      nexts = downstream_of dag index

      abbrev freed : RunState
      freed = release nexts (ended outputs)

      abbrev counts : List ℕ
      counts = lower_all nexts s.remaining

      counts-size : length counts ≡ n
      counts-size = length-lower_all nexts s.remaining ∙ c.remaining_size

      lowered :
          (i : ℕ)
          → count_at counts i
            ≡ (if has_index i nexts then count_at s.remaining i - 1 else count_at s.remaining i)
      lowered i = count_at-lower_all nexts i s.remaining (d.down_once index)

      freed-ready :
          (i : ℕ)
          → has_index i freed.ready
            ≡ (has_index i s.ready || has_index i nexts && (ltb i n && count_at counts i == 0))
      freed-ready i =
          has_index-release nexts (ended outputs) i (d.down_once index)
          ∙ ap (λ b. has_index i s.ready || has_index i nexts && b)
              (is_at-count_at counts i ∙ ap (λ k. ltb i k && count_at counts i == 0) counts-size)

      release-Core : Core n up max (suc joins) freed
      release-Core = subst (Core n up max (suc joins)) (sym (release-frame nexts (ended outputs))) (
          finish-Core n up dag d steps max joins index s counts freed.ready outputs c r counts-size
            (λ i. ground (
              arith,
              c.least i,
              pending-finish n up dag d steps max joins index s c r i,
              lowered i,
              d.converse index i,
            ))
            (λ i m. elim (Bool-cases (has_index i s.ready)) [
              | inl old ↦
                  let (inside, free) = c.ready_free i old in
                  (inside, ground (arith, lowered i, free))
              | inr new ↦ (ground (arith, freed-ready i, new), ground (arith, freed-ready i, new))
            ]))

      release-Calm : Calm n up s → Calm n up freed
      release-Calm q = subst (Calm n up) (sym (release-frame nexts (ended outputs))) (record {
        exact = λ i. ground (
          arith,
          q.exact i,
          pending-finish n up dag d steps max joins index s c r i,
          lowered i,
          d.converse index i,
        );
        awaited = λ i st fi. ground (
          arith,
          has_index-leave index i s.running,
          flag-set_flag index i s.finished wide,
          q.awaited i st,
        );
        queued = λ i b z st. ground (arith, freed-ready i, lowered i, q.queued i b);
        unskipped = q.unskipped;
        skipped_size = q.skipped_size;
      })

  -- A task that panics leaves, and its step does not finish.
  left-Core :
      (joins index : ℕ) (s : RunState)
      → Core n up max joins s
      → has_index index s.running ≡ true
      → Core n up max (suc joins) (record s { running = leave index s.running })
  left-Core joins index s c r = record {
    started_size = c.started_size;
    finished_size = c.finished_size;
    remaining_size = c.remaining_size;
    least = c.least;
    ready_free = c.ready_free;
    fed = c.fed;
    marked = c.marked;
    tasks = λ i m. c.tasks i (ground (arith, has_index-leave index i s.running));
    spawned_once = once-leave index s.running c.spawned_once;
    bounded = omega (arith, c.bounded, leave-length_lt index s.running r);
    joined = omega (arith, c.joined, leave-length_lt index s.running r);
  }

  -- States that differ in nothing that `Core` reads.
  abbrev alike :
      {s t : RunState}
      → t.remaining ≡ s.remaining
      → t.started ≡ s.started
      → t.finished ≡ s.finished
      → t.ready ≡ s.ready
      → t.running ≡ s.running
      → Alike n up s t
  alike a b c d e = record { remaining = a; started = b; finished = c; ready = d; running = e }

  -- A turn of the loop from a joined task on.
  pub on_joined-Invariant :
      (joins : ℕ) (event : Joined) (s : RunState)
      → Invariant n up max joins s
      → has_index (task_of event) s.running ≡ true
      → Invariant n up max (suc joins) (on_joined dag steps event s)
  unfolding on_joined on_result skip_unfinished_steps skip_step
  on_joined-Invariant joins (finished index (ok (succeeded produced))) s v r =
      let outputs = insert_outputs (node_of (get_elem? steps index)) produced s.outputs in
      elim (Bool-cases (is_calm s)) [
        | inl calm ↦ rw calm (record {
          core = release-Core joins index s v.core r outputs;
          calm = λ h. release-Calm joins index s v.core r outputs (v.calm calm);
        })
        | inr restless ↦ rw restless (
            restless-Invariant (suc joins) (ended joins index s v.core r outputs) _
              (alike refl refl refl refl refl) restless (ended-Core joins index s v.core r outputs))
      ]
  on_joined-Invariant joins (finished index (ok interrupted)) s v r =
      restless-Invariant (suc joins) (ended joins index s v.core r s.outputs) _
        (alike refl refl refl refl refl) (ground arith)
        (ended-Core joins index s v.core r s.outputs)
  on_joined-Invariant joins (finished index (err e)) s v r =
      elim (Bool-cases (is_some s.first_error)) [
        | inl failed ↦ rw failed (
            restless-Invariant (suc joins) (ended joins index s v.core r s.outputs)
              (ended joins index s v.core r s.outputs) (alike refl refl refl refl refl)
              (ground (arith, failed)) (ended-Core joins index s v.core r s.outputs))
        | inr first ↦ rw first (
            restless-Invariant (suc joins) (ended joins index s v.core r s.outputs) _
              (alike refl refl refl refl refl) refl (ended-Core joins index s v.core r s.outputs))
      ]
  on_joined-Invariant joins (panicked index message) s v r =
      let c = left-Core joins index s v.core r in
      let left : RunState = record s { running = leave index s.running } in
      elim (Bool-cases (is_some s.first_error)) [
        | inl failed ↦ rw failed (
            restless-Invariant (suc joins) left left (alike refl refl refl refl refl)
              (ground (arith, failed)) c)
        | inr first ↦ rw first (
            let failing : RunState = record left {
              first_error = some (task_join message);
              requested = true;
            } in
            skip_loop-Invariant n up max (suc joins) failing.finished (positions 0 failing.started)
              failing refl
              (Core-Alike n up max (suc joins) left failing (alike refl refl refl refl refl) c))
      ]
