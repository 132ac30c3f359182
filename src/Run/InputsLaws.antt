-- ===== src/Run/InputsLaws.antt =====
-- When the inputs of a step resolve: crates/run/src/executor.rs.
use helixflow.Base.{
  ℕ, suc, String, Bool, not, none, some, List, [], ◌∷◌, ◌++◌, ok, err, ◌≡◌, refl, ap, sym, ◌∙◌,
  find, is_some, Bool-cases, Option-cases, inl, inr,
}
use helixflow.Base.Assoc
use helixflow.Base.Assoc.{BTreeMap}
use helixflow.Graph.Types.{Endpoint}
use helixflow.Run.Errors.{missing_input}
use helixflow.Run.Inputs.{
  ArtifactRef, OutputMap, get_output, input_key, resolve_port, resolve_ports, resolve_inputs,
}

-- The sources of a step, in the order of its inputs.
abbrev pub sources_of : BTreeMap (List Endpoint) → List Endpoint
sources_of [] = []
sources_of ((port, sources) ∷ inputs) = sources ++ sources_of inputs

module _ (outputs : OutputMap) where
  abbrev pub lacks_output : Endpoint → Bool
  lacks_output source = not (is_some (get_output source outputs))

  find-append :
      (xs ys : List Endpoint)
      → find lacks_output xs ≡ none
      → find lacks_output (xs ++ ys) ≡ find lacks_output ys
  find-append [] ys h = refl
  find-append (x ∷ xs) ys h = elim (Bool-cases (lacks_output x)) [
    | inl e ↦ cc (rw e at h)
    | inr e ↦ rw e (find-append xs ys (rw e at h))
  ]

  find-append-some :
      (xs ys : List Endpoint) {x : Endpoint}
      → find lacks_output xs ≡ some x
      → find lacks_output (xs ++ ys) ≡ some x
  find-append-some [] ys h = cc
  find-append-some (x ∷ xs) ys h = elim (Bool-cases (lacks_output x)) [
    | inl e ↦ rw e (rw e at h)
    | inr e ↦ rw e (find-append-some xs ys (rw e at h))
  ]

  resolve_port_lem :
      (port : String) (index : ℕ) (sources : List Endpoint) (inputs : BTreeMap ArtifactRef)
      → (find lacks_output sources ≡ none
          → (inputs' : BTreeMap ArtifactRef) × (resolve_port outputs port index sources inputs
              ≡ ok inputs'))
        × ((source : Endpoint)
            → find lacks_output sources ≡ some source
            → resolve_port outputs port index sources inputs
              ≡ err (missing_input source.0 source.1))
  unfolding resolve_port
  resolve_port_lem port index [] inputs = (λ h. (inputs, refl), λ source h. cc)
  resolve_port_lem port index (x ∷ sources) inputs = elim (Option-cases (get_output x outputs)) [
    | inl absent ↦ (
      λ h. cc (rw absent at h),
      λ source h.
          let found : some x ≡ some source = rw absent at h in
          let is_x : x ≡ source = cc in
          rw absent (ap (λ (y : Endpoint). err (missing_input y.0 y.1)) is_x),
    )
    | inr (artifact, found) ↦
        let (good, bad) =
          resolve_port_lem port (suc index) sources
            (Assoc.insert (input_key port index) artifact inputs) in
        (λ h. rw found (good (rw found at h)), λ source h. rw found (bad source (rw found at h)))
  ]

  resolve_ports_lem :
      (edges : BTreeMap (List Endpoint)) (inputs : BTreeMap ArtifactRef)
      → (find lacks_output (sources_of edges) ≡ none
          → (inputs' : BTreeMap ArtifactRef) × (resolve_ports outputs edges inputs ≡ ok inputs'))
        × ((source : Endpoint)
            → find lacks_output (sources_of edges) ≡ some source
            → resolve_ports outputs edges inputs ≡ err (missing_input source.0 source.1))
  unfolding resolve_ports
  resolve_ports_lem [] inputs = (λ h. (inputs, refl), λ source h. cc)
  resolve_ports_lem ((port, sources) ∷ edges) inputs =
      let (good, bad) = resolve_port_lem port 0 sources inputs in
      elim (Option-cases (find lacks_output sources)) [
        | inl none_lacks ↦
            let (inputs', ran) = good none_lacks in
            let (all_good, some_bad) = resolve_ports_lem edges inputs' in
            let later = find-append sources (sources_of edges) none_lacks in
            (λ h. rw ran (all_good (sym later ∙ h)), λ s h. rw ran (some_bad s (sym later ∙ h)))
        | inr (first, lacks) ↦
            let now = find-append-some sources (sources_of edges) lacks in
            (
              λ h. cc (sym now ∙ h),
              λ s h.
                  let same_source : some first ≡ some s = sym now ∙ h in
                  let is_s : first ≡ s = cc in
                  rw (bad first lacks) (ap (λ (y : Endpoint). err (missing_input y.0 y.1)) is_s),
            )
      ]

  -- The inputs of a step resolve if each source has an output, and otherwise fail with the first
  -- source that has none, in the order of the ports and of each port's sources.
  pub resolve_inputs_lem :
      (input_edges : BTreeMap (List Endpoint))
      → (find lacks_output (sources_of input_edges) ≡ none
          → (inputs : BTreeMap ArtifactRef) × (resolve_inputs input_edges outputs ≡ ok inputs))
        × ((source : Endpoint)
            → find lacks_output (sources_of input_edges) ≡ some source
            → resolve_inputs input_edges outputs ≡ err (missing_input source.0 source.1))
  unfolding resolve_inputs
  resolve_inputs_lem input_edges = resolve_ports_lem input_edges []
