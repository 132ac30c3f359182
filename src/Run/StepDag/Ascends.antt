-- ===== src/Run/StepDag/Ascends.antt =====
-- The sets of crates/run/src/step_dag.rs ascend, so that no position stands twice in one.
use helixflow.Base.{
  ℕ, zero, suc, Bool, true, false, ◌&&◌, List, [], ◌∷◌, ok, ◌≡◌, refl, arith, ltb, ok_or, all, All,
  >>=-eq-ok, ok-injective, subst,
}
use helixflow.Base.Assoc
use helixflow.Base.Assoc.{BTreeMap}
use helixflow.Graph.Types.{Endpoint}
use helixflow.Graph.Plan.{ExecutionStep}
use helixflow.Run.Errors.{missing_input}
use helixflow.Run.StepDag.{Sets, join_steps, link_sources, link_inputs, link_steps, empty_sets}
use helixflow.Run.StepDag.Indexes.{IndexSet, insert_index, update, has_index}

abbrev pub ascends : IndexSet → Bool
ascends [] = true
ascends (i ∷ s) = all (ltb i) s && ascends s

all-insert_index :
    (k i : ℕ) (s : IndexSet) → all (ltb k) (insert_index i s) ≡ (ltb k i && all (ltb k) s)
unfolding insert_index
all-insert_index k i [] = refl
all-insert_index k i (j ∷ s) = ground (arith, all-insert_index k i s)

all-ltb : (i j : ℕ) (s : IndexSet) → ltb i j ≡ true → all (ltb j) s ≡ true → all (ltb i) s ≡ true
all-ltb i j [] h a = refl
all-ltb i j (k ∷ s) h a = ground (arith, all-ltb i j s h)

ascends-insert_index : (i : ℕ) (s : IndexSet) → ascends s ≡ true → ascends (insert_index i s) ≡ true
unfolding insert_index
ascends-insert_index i [] h = refl
ascends-insert_index i (j ∷ s) h =
    ground (arith, ascends-insert_index i s, all-insert_index j i s, all-ltb i j s)

pub ascends-has_index : (i : ℕ) (s : IndexSet) → all (ltb i) s ≡ true → has_index i s ≡ false
ascends-has_index i [] h = refl
ascends-has_index i (j ∷ s) h = ground (arith, ascends-has_index i s)

abbrev pub AllAscend : List IndexSet → Type 0
AllAscend ss = All (λ s. ascends s ≡ true) ss

AllAscend-update :
    (j i : ℕ) (ss : List IndexSet) → AllAscend ss → AllAscend (update j (insert_index i) ss)
unfolding update
AllAscend-update j i [] h = tt
AllAscend-update zero i (s ∷ ss) h = (ascends-insert_index i s h.0, h.1)
AllAscend-update (suc j) i (s ∷ ss) h = (h.0, AllAscend-update j i ss h.1)

pub AllAscend-empty_sets : {A : Type 0} (xs : List A) → AllAscend (empty_sets xs)
AllAscend-empty_sets [] = tt
AllAscend-empty_sets (x ∷ xs) = (refl, AllAscend-empty_sets xs)

abbrev pub BothAscend : Sets → Type 0
BothAscend s = AllAscend s.upstream × AllAscend s.downstream

module _ (by_node : BTreeMap ℕ) where
  link_sources-BothAscend :
      (index : ℕ) (sources : List Endpoint) (s t : Sets)
      → link_sources by_node index sources s ≡ ok t
      → BothAscend s
      → BothAscend t
  unfolding link_sources
  link_sources-BothAscend index [] s t e h = subst BothAscend (ok-injective e) h
  link_sources-BothAscend index (source ∷ sources) s t e h =
      let (k, _, rest) =
        >>=-eq-ok (ok_or (Assoc.lookup source.0 by_node) (missing_input source.0 source.1)) _ e in
      link_sources-BothAscend index sources (join_steps index k s) t rest
        (AllAscend-update index k s.upstream h.0, AllAscend-update k index s.downstream h.1)

  link_inputs-BothAscend :
      (index : ℕ) (inputs : BTreeMap (List Endpoint)) (s t : Sets)
      → link_inputs by_node index inputs s ≡ ok t
      → BothAscend s
      → BothAscend t
  unfolding link_inputs
  link_inputs-BothAscend index [] s t e h = subst BothAscend (ok-injective e) h
  link_inputs-BothAscend index ((port, sources) ∷ inputs) s t e h =
      let (u, first, rest) = >>=-eq-ok (link_sources by_node index sources s) _ e in
      link_inputs-BothAscend index inputs u t rest
        (link_sources-BothAscend index sources s u first h)

  pub link_steps-BothAscend :
      (index : ℕ) (steps : List ExecutionStep) (s t : Sets)
      → link_steps by_node index steps s ≡ ok t
      → BothAscend s
      → BothAscend t
  unfolding link_steps
  link_steps-BothAscend index [] s t e h = subst BothAscend (ok-injective e) h
  link_steps-BothAscend index (step ∷ steps) s t e h =
      let (u, first, rest) = >>=-eq-ok (link_inputs by_node index step.inputs s) _ e in
      link_steps-BothAscend (suc index) steps u t rest
        (link_inputs-BothAscend index step.inputs s u first h)
