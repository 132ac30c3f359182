-- ===== src/Run/StepDag/Links.antt =====
-- What the loops of crates/run/src/step_dag.rs link.
use helixflow.Base.{
  ℕ, zero, suc, ◌+◌, ◌<◌, ◌≤◌, String, Bool, true, false, not, ◌&&◌, ◌||◌, Option, none, some, List,
  [], ◌∷◌, ok, ◌≡◌, refl, ap, ◌∙◌, arith, ◌==◌, length, any, get_elem?, Option-cases, inl, inr,
}
use helixflow.Base.Assoc
use helixflow.Base.Assoc.{BTreeMap, lookup}
use helixflow.Graph.Types.{Endpoint}
use helixflow.Graph.Plan.{ExecutionStep}
use helixflow.Graph.PlanLaws.{any_sources}
use helixflow.Run.StepDag.{Sets, join_steps, link_sources, link_inputs, link_steps}
use helixflow.Run.StepDag.Indexes.{insert_index, length-update, is_linked, is_linked-update}

-- Whether a lookup found the position `j`.
abbrev pub is_at : Option ℕ → ℕ → Bool
is_at none j = false
is_at (some i) j = i == j

-- The two families of sets have grown by the same links.
pub record Extends (needed : ℕ → ℕ → Bool) (s t : Sets) : Type 0 where
  pub up_size : length t.upstream ≡ length s.upstream
  pub down_size : length t.downstream ≡ length s.downstream
  pub up : (j i : ℕ) → is_linked t.upstream i j ≡ (needed j i || is_linked s.upstream i j)
  pub down : (j i : ℕ) → is_linked t.downstream j i ≡ (needed j i || is_linked s.downstream j i)

Extends-refl :
    (needed : ℕ → ℕ → Bool) (s : Sets) → ((j i : ℕ) → needed j i ≡ false) → Extends needed s s
Extends-refl needed s n = record {
  up_size = refl;
  down_size = refl;
  up = λ j i. ground (arith, n j i);
  down = λ j i. ground (arith, n j i);
}

Extends-trans :
    (a b c : ℕ → ℕ → Bool) (s t u : Sets)
    → ((j i : ℕ) → c j i ≡ (a j i || b j i))
    → Extends a s t
    → Extends b t u
    → Extends c s u
Extends-trans a b c s t u e x y = record {
  up_size = y.up_size ∙ x.up_size;
  down_size = y.down_size ∙ x.down_size;
  up = λ j i. ground (arith, x.up j i, y.up j i, e j i);
  down = λ j i. ground (arith, x.down j i, y.down j i, e j i);
}

join_steps-Extends :
    (index source : ℕ) (s : Sets)
    → index < length s.upstream
    → source < length s.downstream
    → Extends (λ j i. i == index && source == j) s (join_steps index source s)
join_steps-Extends index source s h k = record {
  up_size = length-update index (insert_index source) s.upstream;
  down_size = length-update source (insert_index index) s.downstream;
  up = λ j i. ground (arith, is_linked-update index j i source s.upstream h);
  down = λ j i. ground (arith, is_linked-update source i j index s.downstream k);
}

module _ (by_node : BTreeMap ℕ) where
  -- No source is missing from the map.
  abbrev pub missing : Endpoint → Bool
  missing s = not (Assoc.contains_key s.0 by_node)

  -- Whether a source is the node at the position `j`.
  abbrev pub is_node : ℕ → Endpoint → Bool
  is_node j s = is_at (lookup s.0 by_node) j

  -- The links of the steps from a position on.
  abbrev pub needs : ℕ → List ExecutionStep → ℕ → ℕ → Bool
  needs index [] j i = false
  needs index (step ∷ steps) j i =
      (i == index && any_sources (is_node j) step.inputs) || needs (suc index) steps j i

  abbrev pub all_known : List ExecutionStep → Bool
  all_known [] = true
  all_known (step ∷ steps) = not (any_sources missing step.inputs) && all_known steps

  needs-low :
      (index : ℕ) (steps : List ExecutionStep) (j i : ℕ) → i < index → needs index steps j i ≡ false
  needs-low index [] j i h = refl
  needs-low index (step ∷ steps) j i h =
      ground (arith, needs-low (suc index) steps j i (omega arith))

  -- The links of one step are those of its inputs.
  pub needs-step :
      (index : ℕ) (steps : List ExecutionStep) (j k : ℕ) {step : ExecutionStep}
      → get_elem? steps k ≡ some step
      → needs index steps j (index + k) ≡ any_sources (is_node j) step.inputs
  needs-step index [] j k h = cc
  needs-step index (s ∷ steps) j zero {step = step} h = ground (
    arith,
    needs-low (suc index) steps j (index + 0) (omega arith),
    ap (λ x. x.inputs) (the_step h),
  )
    where
      the_step : {a b : ExecutionStep} → some a ≡ some b → a ≡ b
      the_step e = cc
  needs-step index (s ∷ steps) j (suc k) h =
      ground
        (arith, needs-step (suc index) steps j k h, ap (needs (suc index) steps j) (shift index k))
    where
      shift : (index k : ℕ) → index + suc k ≡ suc index + k
      shift index k = omega arith

module _ (by_node : BTreeMap ℕ) (n : ℕ)
    (bounded : (id : String) (j : ℕ) → lookup id by_node ≡ some j → j < n) where
  abbrev Sized : Sets → Type 0
  Sized s = (length s.upstream ≡ n) × (length s.downstream ≡ n)

  resized : (needed : ℕ → ℕ → Bool) (s t : Sets) → Sized s → Extends needed s t → Sized t
  resized needed s t z x = (x.up_size ∙ z.0, x.down_size ∙ z.1)

  link_sources-Extends :
      (index : ℕ) (sources : List Endpoint) (s : Sets)
      → index < n
      → Sized s
      → any (missing by_node) sources ≡ false
      → (t : Sets) × (link_sources by_node index sources s ≡ ok t)
        × Extends (λ j i. i == index && any (is_node by_node j) sources) s t
  unfolding link_sources
  link_sources-Extends index [] s h z m = (s, refl, Extends-refl _ s (λ j i. ground arith))
  link_sources-Extends index (source ∷ sources) s h z m =
      elim (Option-cases (lookup source.0 by_node)) [
        | inl absent ↦ cc (rw absent at m)
        | inr (k, found) ↦
            let first =
              join_steps-Extends index k s (omega (arith, z.0))
                (omega (arith, z.1, bounded source.0 k found)) in
            let (t, runs, rest) =
              link_sources-Extends index sources (join_steps index k s) h (resized _ s _ z first)
                (ground (arith, found)) in
            (
              t,
              rw found runs,
              Extends-trans _ _ _ s (join_steps index k s) t (λ j i. ground (arith, found)) first
                  rest,
            )
      ]

  link_inputs-Extends :
      (index : ℕ) (inputs : BTreeMap (List Endpoint)) (s : Sets)
      → index < n
      → Sized s
      → any_sources (missing by_node) inputs ≡ false
      → (t : Sets) × (link_inputs by_node index inputs s ≡ ok t)
        × Extends (λ j i. i == index && any_sources (is_node by_node j) inputs) s t
  unfolding link_inputs
  link_inputs-Extends index [] s h z m = (s, refl, Extends-refl _ s (λ j i. ground arith))
  link_inputs-Extends index ((port, sources) ∷ inputs) s h z m =
      let (t, runs, first) = link_sources-Extends index sources s h z (ground arith) in
      let (u, ends, rest) =
        link_inputs-Extends index inputs t h (resized _ s t z first) (ground arith) in
      (u, rw runs ends, Extends-trans _ _ _ s t u (λ j i. ground arith) first rest)

  pub link_steps-Extends :
      (index : ℕ) (steps : List ExecutionStep) (s : Sets)
      → index + length steps ≤ n
      → Sized s
      → all_known by_node steps ≡ true
      → (t : Sets) × (link_steps by_node index steps s ≡ ok t)
        × Extends (needs by_node index steps) s t
  unfolding link_steps
  link_steps-Extends index [] s h z m = (s, refl, Extends-refl _ s (λ j i. refl))
  link_steps-Extends index (step ∷ steps) s h z m =
      let (t, runs, first) =
        link_inputs-Extends index step.inputs s (omega arith) z (ground arith) in
      let (u, ends, rest) =
        link_steps-Extends (suc index) steps t (omega arith) (resized _ s t z first)
          (ground arith) in
      (u, rw runs ends, Extends-trans _ _ _ s t u (λ j i. refl) first rest)
