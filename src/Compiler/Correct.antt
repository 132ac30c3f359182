-- ===== src/Compiler/Correct.antt =====
-- What `compile_for_connector` of crates/compiler/src/lib.rs promises: it always returns, and what it
-- proposes makes the compiled graph of the current one.
use helixflow.Base.{
  String, Bool, true, Option, some, List, [], ◌∷◌, ◌++◌, Result, ok, err, ok_or, ensure, map_err,
  ◌>>◌, ◌≡◌, ◌≢◌, refl, sym, subst, ◌∙◌, arith, same, All, map-All, >>=-eq-ok, >>-eq-ok,
  map_err-eq-ok, ok-injective, Result-cases, inl, inr, ◌||◌,
}
use mathlib.Core.List.{append_assoc, map-append}
use helixflow.Base.Assoc.{keys}
use helixflow.Base.Keys.{member, sorted}
use helixflow.Registry.{NodeRegistry}
use helixflow.Registry.Names.{CharTables}
use helixflow.Registry.Catalog.{CatalogSnapshot}
use helixflow.Registry.Resolver.{ConnectorAvailability}
use helixflow.Graph.Types.{WorkflowGraph}
use helixflow.Graph.Validation.{validate_graph}
use helixflow.Graph.Validation.Sound.{validate_graph-IsWellFormed, endpoints_of_fit}
use helixflow.Graph.Semantics.{SemanticsError, validate_semantics, structural_invalid}
use helixflow.Graph.Operations.{apply_ops}
use helixflow.Compiler.Types.{IntentPlan, StageIntent, StageInputRef, invalid_semantics}
use helixflow.Compiler.Types
use helixflow.Compiler.Intent.{stage_ids, validate_intent}
use helixflow.Compiler.Intent.Stages.{EarlierOnly, member-append}
use helixflow.Compiler.Intent.Accepts.{validate_intent-ok_iff}
use helixflow.Compiler.Diff.Edges.{distinct_edges}
use helixflow.Compiler.Diff.Converges.{IsTarget, Converged, diff-Converged}
use helixflow.Compiler.Builder.{BuiltGraph, empty_builder, assemble, build_graph}
use helixflow.Compiler.Builder.Clarify.{Stop, clarify, fail, panicked}
use helixflow.Compiler.Builder.Stage.{Builder, build_stages}
use helixflow.Compiler.Builder.Total.{Known, Executes, >>=-Calm, build_stages-Calm}
use helixflow.Compiler.Builder.Order.{
  IsOrdered, build_stages-IsOrdered, apply_layout-IsOrdered, place_synthesized-IsOrdered,
}
use helixflow.Compiler.{
  CompiledProposal, compiled, outcome, proposal_of, error, panic, compile_for_connector,
}

or_left_true : (a b : Bool) → a ≡ true → a || b ≡ true
or_left_true a b p = ground arith

-- Stages that refer to earlier ones refer to ones that there are.
Known-of_EarlierOnly :
    (all before rest : List StageIntent)
    → all ≡ before ++ rest
    → EarlierOnly [] all
    → All (Known all) rest
Known-of_EarlierOnly all before [] e h = tt
Known-of_EarlierOnly all before (s ∷ rest) e h = (
  map-All (λ i m. among i.stage_id m) s.input_from (h before s rest e),
  Known-of_EarlierOnly all (before ++ s ∷ []) rest (e ∙ sym (append_assoc before (s ∷ []) rest)) h,
)
  where
    among : (id : String) → member id (stage_ids before) ≡ true → member id (stage_ids all) ≡ true
    among id m =
        subst (λ ss. member id (stage_ids ss) ≡ true) (sym e)
          (subst (λ ids. member id ids ≡ true)
            (sym (map-append (λ (t : StageIntent). t.stage_id) before (s ∷ rest)))
            (member-append id (stage_ids before) (stage_ids (s ∷ rest))
              ∙ or_left_true (member id (stage_ids before)) _ m))

assemble-IsOrdered :
    (intent : IntentPlan) (catalog : CatalogSnapshot) (built : Builder)
    → IsOrdered built.nodes
    → IsOrdered (assemble intent catalog built).target.nodes
unfolding assemble
assemble-IsOrdered intent catalog built h =
    place_synthesized-IsOrdered built.synthesized_inputs _
      (apply_layout-IsOrdered intent built.nodes [] h)

assemble-catalog_revision :
    (intent : IntentPlan) (catalog : CatalogSnapshot) (built : Builder)
    → (assemble intent catalog built).target.catalog_revision ≡ some catalog.catalog_revision
unfolding assemble
assemble-catalog_revision intent catalog built = refl

-- An ordered graph that validates is a target.
validate_semantics-IsTarget :
    (reg : NodeRegistry) (catalog : CatalogSnapshot) (g : WorkflowGraph)
    → IsOrdered g.nodes
    → validate_semantics catalog reg g ≡ ok tt
    → IsTarget g
unfolding validate_semantics
validate_semantics-IsTarget reg catalog g o h =
    let (revision, _, h1) = >>=-eq-ok (ok_or g.catalog_revision _) _ h in
    let (_, h2) = >>-eq-ok (ensure (same revision catalog.catalog_revision) _) _ h1 in
    let (structural, _) = >>-eq-ok (map_err structural_invalid (validate_graph reg g)) _ h2 in
    let valid = map_err-eq-ok structural_invalid (validate_graph reg g) structural in
    let fits = validate_graph-IsWellFormed reg g o.in_order valid in
    record {
      in_order = o.in_order;
      endpoints = endpoints_of_fit reg g fits.edges_fit;
      params = o.params;
    }

abbrev invalid : SemanticsError → Stop
invalid e = fail (Types.graph_invalid (invalid_semantics e))

checked-Calm :
    (m : Result (Unit {0}) SemanticsError) (b : BuiltGraph)
    → (map_err invalid m >> ok b) ≢ err panicked
checked-Calm (ok u) b = λ q. cc
checked-Calm (err e) b = λ q. cc

outcome-panic :
    (current : WorkflowGraph) (m : Result BuiltGraph Stop) {revision : String}
    → m ≢ err panicked
    → ((built : BuiltGraph) → m ≡ ok built → built.target.catalog_revision ≡ some revision)
    → outcome current m ≢ err panic
outcome-panic current (ok built) n k = rw (k built refl) (λ q. cc)
outcome-panic current (err (clarify c)) n k = λ q. cc
outcome-panic current (err (fail e)) n k = λ q. cc
outcome-panic current (err panicked) n k = absurd (n refl)

outcome-compiled :
    (current : WorkflowGraph) (m : Result BuiltGraph Stop) (p : CompiledProposal)
    → outcome current m ≡ ok (compiled p)
    → (built : BuiltGraph) × (revision : String) × (m ≡ ok built)
      × (proposal_of current built revision ≡ p)
outcome-compiled current (ok built) p h =
    let (revision, _, last) = >>=-eq-ok (ok_or built.target.catalog_revision panic) _ h in
    (built, revision, refl, cc last)
outcome-compiled current (err (clarify c)) p h = cc
outcome-compiled current (err (fail e)) p h = cc
outcome-compiled current (err panicked) p h = cc

module _ (debug_assertions : Bool) (tables : CharTables) (reg : NodeRegistry)
    (catalog : CatalogSnapshot) (availability : ConnectorAvailability) (preference : Option String)
    (intent : IntentPlan) where
  -- What the builder returns: an ordered graph that validates.
  build_graph-IsTarget :
      (built : BuiltGraph)
      → build_graph debug_assertions tables reg catalog availability preference intent ≡ ok built
      → IsTarget built.target
        × (validate_semantics catalog reg built.target ≡ ok tt)
        × (built.target.catalog_revision ≡ some catalog.catalog_revision)
  unfolding build_graph
  build_graph-IsTarget built h =
      let (state, ran, h1) =
        >>=-eq-ok
          (build_stages debug_assertions tables reg catalog availability preference intent.stages 0
            intent.stages empty_builder)
          _ h in
      let graph = assemble intent catalog state in
      let (checked, last) =
        >>-eq-ok (map_err invalid (validate_semantics catalog reg graph.target)) (ok graph) h1 in
      let valid = map_err-eq-ok invalid (validate_semantics catalog reg graph.target) checked in
      let ordered = assemble-IsOrdered intent catalog state (
        build_stages-IsOrdered debug_assertions tables reg catalog availability preference
          intent.stages 0 intent.stages empty_builder state
          (record { in_order = refl; params = tt }) ran) in
      subst
        (λ (b : BuiltGraph).
          IsTarget b.target
          × (validate_semantics catalog reg b.target ≡ ok tt)
          × (b.target.catalog_revision ≡ some catalog.catalog_revision))
        (ok-injective last)
        (
          validate_semantics-IsTarget reg catalog graph.target ordered valid,
          valid,
          assemble-catalog_revision intent catalog state,
        )

  build_graph-Calm :
      (debug_assertions ≡ true → Executes reg catalog)
      → validate_intent intent ≡ ok tt
      → build_graph debug_assertions tables reg catalog availability preference intent
        ≢ err panicked
  unfolding build_graph
  build_graph-Calm fits accepted =
      >>=-Calm
        (build_stages debug_assertions tables reg catalog availability preference intent.stages 0
          intent.stages empty_builder)
        _
        (build_stages-Calm debug_assertions tables reg catalog availability preference intent.stages
          fits 0 intent.stages empty_builder
          (Known-of_EarlierOnly intent.stages [] intent.stages refl
            ((validate_intent-ok_iff intent).0 accepted).earlier))
        (λ state ran.
          let graph = assemble intent catalog state in
          checked-Calm (validate_semantics catalog reg graph.target) graph)

  -- Compiling does not panic: it returns a proposal, a clarification or an error, in a build without
  -- debug assertions whatever the registry and the catalog are, and in one with them if the node type
  -- of each capability of the catalog is, where it is registered, one that executes the capability.
  pub compile_for_connector-panic :
      (current : WorkflowGraph)
      → (debug_assertions ≡ true → Executes reg catalog)
      → compile_for_connector debug_assertions tables reg catalog availability preference intent
          current
        ≢ err panic
  unfolding compile_for_connector
  compile_for_connector-panic current fits h = elim (Result-cases (validate_intent intent)) [
    | inl (u, accepted) ↦
        outcome-panic current
          (build_graph debug_assertions tables reg catalog availability preference intent)
          (build_graph-Calm fits accepted) (λ built b. (build_graph-IsTarget built b).2)
          (rw accepted at h)
    | inr (e, refused) ↦ cc (rw refused at h)
  ]

  -- For a current graph with sorted nodes and distinct edges, a compiled target is valid, and the
  -- proposed operations, applied to the current graph, succeed and converge to it: the nodes are the
  -- target's, where one that keeps its type keeps its title, size and further parameters and takes over
  -- the position, the semantics and, where both are objects, each parameter of the target; and the
  -- edges are the target's, except for those of both graphs at a node of another type.
  pub compile_for_connector-Converged :
      (current : WorkflowGraph) (p : CompiledProposal)
      → sorted (keys current.nodes) ≡ true
      → distinct_edges current.edges ≡ true
      → compile_for_connector debug_assertions tables reg catalog availability preference intent
          current
        ≡ ok (compiled p)
      → (validate_semantics catalog reg p.target ≡ ok tt)
        × ((g : WorkflowGraph) × (apply_ops reg current p.ops ≡ ok g)
            × Converged current p.target g)
  unfolding compile_for_connector
  compile_for_connector-Converged current p s d h =
      let (accepted, h1) = >>-eq-ok (map_err error (validate_intent intent)) _ h in
      let (built, _, is_built, is_p) =
        outcome-compiled current
          (build_graph debug_assertions tables reg catalog availability preference intent) p h1 in
      let (target, valid, revision) = build_graph-IsTarget built is_built in
      subst
        (λ (q : CompiledProposal).
          (validate_semantics catalog reg q.target ≡ ok tt)
          × ((g : WorkflowGraph) × (apply_ops reg current q.ops ≡ ok g)
              × Converged current q.target g))
        is_p (valid, diff-Converged reg current built.target s d target)
