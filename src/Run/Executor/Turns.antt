-- ===== src/Run/Executor/Turns.antt =====
-- Every turn of the loop of crates/run/src/executor.rs keeps the invariant.
use helixflow.Base.{
  ℕ, suc, ◌+◌, ◌<◌, ◌≤◌, true, false, not, ◌&&◌, ◌||◌, List, [], ◌∷◌, ◌≡◌, refl, sym, ap, ◌∙◌,
  subst, arith, ltb, ◌==◌, if◌then◌else◌, length, get_elem?, is_some, ok, >>=-eq-ok, ok-injective,
  Bool-cases, inl, inr,
}
use helixflow.Graph.Plan.{ExecutionStep}
use helixflow.Run.StepDag.{StepDag}
use helixflow.Run.StepDag.Indexes.{IndexSet, has_index, length-update}
use helixflow.Run.Executor.{
  RunState, flag, set_flag, is_calm, inputs_at, admit, fill, observe, start_steps, positions, leave,
  skip_unstarted_steps,
}
use helixflow.Run.Inputs.{OutputMap, resolve_inputs}
use helixflow.Run.Executor.Counts.{
  same_position, count_at, flag-set_flag, flag-bound, unmarked-set_flag, has_index-leave,
  once-leave, leave-length_lt,
}
use helixflow.Run.Executor.Invariant.{
  set_at, IsDag, Core, Invariant, pending, Core-Alike, skip_loop-Invariant, spawn_step-Invariant,
}

module _ (n : ℕ) (up : List IndexSet) (dag : StepDag) (d : IsDag n up dag)
    (steps : List ExecutionStep) (max : ℕ) where
  -- A step that has been started is dropped from the queue.
  drop-Invariant :
      (joins index : ℕ) (queue : List ℕ) (s : RunState)
      → (flag s.started index || flag s.skipped index) ≡ true
      → Invariant n up max joins (record s { ready = index ∷ queue })
      → Invariant n up max joins (record s { ready = queue })
  drop-Invariant joins index queue s seen v =
      let c = v.core in
      record {
        core = record {
          started_size = c.started_size;
          finished_size = c.finished_size;
          remaining_size = c.remaining_size;
          least = c.least;
          ready_free = λ i r. c.ready_free i (ground arith);
          fed = c.fed;
          marked = c.marked;
          tasks = c.tasks;
          spawned_once = c.spawned_once;
          bounded = c.bounded;
          joined = c.joined;
        };
        calm = λ h.
            let q = v.calm h in
            record {
              exact = q.exact;
              awaited = q.awaited;
              queued = λ i b z st. elim (Bool-cases (i == index)) [
                | inl here ↦
                    let started : flag s.started index ≡ false =
                      ap (flag s.started) (sym (same_position i index here)) ∙ st in
                    ground (arith, seen, started, q.unskipped index)
                | inr other ↦ ground (arith, q.queued i b z st)
              ];
              unskipped = q.unskipped;
              skipped_size = q.skipped_size;
            };
      }

  fill-Invariant :
      (joins : ℕ) (queue : List ℕ) (s t : RunState)
      → Invariant n up max joins (record s { ready = queue })
      → fill max steps queue s ≡ ok t
      → Invariant n up max joins t
  unfolding fill admit
  fill-Invariant joins [] s t v e = subst (Invariant n up max joins) (ok-injective e) v
  fill-Invariant joins (index ∷ queue) s t v e = elim (Bool-cases (ltb (length s.running) max)) [
    | inl room ↦
        let (s', admitted, rest) = >>=-eq-ok (admit steps index s) _ (rw room at e) in
        elim (Bool-cases (flag s.started index || flag s.skipped index)) [
          | inl seen ↦
              let is_s : s ≡ s' = ok-injective (rw seen at admitted) in
              fill-Invariant joins queue s' t
                (subst (λ x. Invariant n up max joins (record x { ready = queue })) is_s
                  (drop-Invariant joins index queue s seen v))
                rest
          | inr new ↦
              let (inputs, _, spawns) =
                >>=-eq-ok (resolve_inputs (inputs_at (get_elem? steps index)) s.outputs) _
                  (rw new at admitted) in
              fill-Invariant joins queue s' t
                (subst (λ x. Invariant n up max joins (record x { ready = queue }))
                  (ok-injective spawns)
                  (spawn_step-Invariant n up max joins index queue inputs s (ground (arith, room))
                    (ground (arith, new)) v))
                rest
        ]
    | inr full ↦ subst (Invariant n up max joins) (ok-injective (rw full at e)) v
  ]

  observe-Invariant :
      (joins : ℕ) (s : RunState) → Invariant n up max joins s → Invariant n up max joins (observe s)
  observe-Invariant joins s v = elim (Bool-cases (s.requested && not (is_some s.first_error))) [
    | inl h ↦ rw h (record {
      core =
          Core-Alike n up max joins s (record s { interrupted = true })
            (record {
              remaining = refl;
              started = refl;
              finished = refl;
              ready = refl;
              running = refl;
            })
            v.core;
      calm = λ calm. ground (arith, calm);
    })
    | inr h ↦ rw h v
  ]

  pub start_steps-Invariant :
      (joins : ℕ) (s t : RunState)
      → Invariant n up max joins s
      → start_steps max steps s ≡ ok t
      → Invariant n up max joins t
  unfolding start_steps skip_unstarted_steps
  start_steps-Invariant joins s t v e =
      let v' = observe-Invariant joins s v in
      elim (Bool-cases (is_calm (observe s))) [
        | inl calm ↦ fill-Invariant joins (observe s).ready (observe s) t v' (rw calm at e)
        | inr restless ↦ subst (Invariant n up max joins) (ok-injective (rw restless at e)) (
            skip_loop-Invariant n up max joins (observe s).started (positions 0 (observe s).started)
              (observe s) restless v'.core)
      ]

  -- A step's end lowers the number of steps that those downstream wait for.
  pub pending-finish :
      (joins index : ℕ) (s : RunState)
      → Core n up max joins s
      → has_index index s.running ≡ true
      → (i : ℕ)
      → pending n up s.finished i
        ≡ (if has_index index (set_at up i) then 1 else 0)
          + pending n up (set_flag index s.finished) i
  pending-finish joins index s c r i =
      let (st, fi) = c.tasks index r in
      unmarked-set_flag index s.finished (set_at up i)
        (omega (arith, c.finished_size, c.started_size, flag-bound index s.started st)) fi
        (d.up_once i)

  -- A task that ends, with any counts that do not fall short.
  pub finish-Core :
      (joins index : ℕ) (s : RunState) (remaining ready : List ℕ) (outputs : OutputMap)
      → Core n up max joins s
      → has_index index s.running ≡ true
      → length remaining ≡ n
      → ((i : ℕ) → pending n up (set_flag index s.finished) i ≤ count_at remaining i)
      → ((i : ℕ) → has_index i ready ≡ true → (i < n) × (count_at remaining i ≡ 0))
      → Core n up max (suc joins) (record s {
        running = leave index s.running;
        finished = set_flag index s.finished;
        remaining = remaining;
        ready = ready;
        outputs = outputs;
      })
  finish-Core joins index s remaining ready outputs c r size least free =
      let (st, fi) = c.tasks index r in
      let wide : index < length s.finished =
        omega (arith, c.finished_size, c.started_size, flag-bound index s.started st) in
      record {
        started_size = c.started_size;
        finished_size = length-update index (λ b. true) s.finished ∙ c.finished_size;
        remaining_size = size;
        least = least;
        ready_free = free;
        fed = λ i f. omega (arith, c.fed i f, pending-finish joins index s c r i);
        marked = λ i f. elim (Bool-cases (i == index)) [
          | inl here ↦ ap (flag s.started) (same_position i index here) ∙ st
          | inr other ↦ c.marked i (ground (arith, flag-set_flag index i s.finished wide))
        ];
        tasks = λ i m.
            let left = has_index-leave index i s.running in
            let (sti, fii) = c.tasks i (ground (arith, left)) in
            (sti, ground (arith, left, flag-set_flag index i s.finished wide));
        spawned_once = once-leave index s.running c.spawned_once;
        bounded = omega (arith, c.bounded, leave-length_lt index s.running r);
        joined = omega (arith, c.joined, leave-length_lt index s.running r);
      }
