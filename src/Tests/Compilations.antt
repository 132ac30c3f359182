-- ===== src/Tests/Compilations.antt =====
-- The compiler of crates/compiler at small intents.
use helixflow.Base.{
  String, true, none, some, List, [], ◌∷◌, ◌≡◌, ◌≢◌, ◌↔◌, refl, subst, ok, err, same, before, map,
}
use helixflow.Base.Assoc.{keys}
use helixflow.Base.Keys.{sorted}
use helixflow.Json.{Value, end, field, object, string}
use helixflow.Registry.{NodeRegistry}
use helixflow.Registry.Types.{NodeDefinition, PortType}
use helixflow.Graph.Types.{WorkflowGraph}
use helixflow.Graph.Operations.{apply_ops}
use helixflow.Graph.Semantics.{validate_semantics}
use helixflow.Compiler.Types.{IntentPlan, StageIntent, linear}
use helixflow.Compiler.Intent.{sinks, valid_stage_id, validate_intent}
use helixflow.Compiler.Intent.Accepts.{IsWellFormed, validate_intent-ok_iff, validate_intent-sinks}
use helixflow.Compiler.Diff.{edge_before, has_edge}
use helixflow.Compiler.Diff.Converges.{Converged}
use helixflow.Compiler.{
  CompiledProposal, compiled, CompileOutcome, Failure, panic, compile_for_connector,
}
use helixflow.Compiler.Correct.{compile_for_connector-panic, compile_for_connector-Converged}
use helixflow.Registry.Types.{RegistryError}
use helixflow.Base.{Option, Result, Bool-cases, inl, inr, same_iff, ap, sym, ◌∙◌}
use helixflow.Registry.{definition}
use helixflow.Registry.Catalog.{capability, CapabilityDefinition}
use helixflow.Compiler.Builder.Total.{Executes}
use helixflow.Tests.Samples.{graph, prompt_node, render_node, render_definition, port, open_schema}
use helixflow.Tests.Resolutions.{ascii, catalog, both_available}

abbrev stage : String → List String → Value → StageIntent
stage id sources params = record {
  stage_id = id;
  capability_id = "image.generate";
  requested_model = none;
  input_from = map (λ s. record { stage_id = s; output = "image" }) sources;
  params = params;
}

abbrev chain : IntentPlan
chain = record {
  intent_version = "1";
  topology = linear;
  stages = stage "draft" [] (object end) ∷ stage "final" ("draft" ∷ []) (object end) ∷ [];
  output_stage_ids = "final" ∷ [];
  assumptions = [];
}

chain_runs : validate_intent chain ≡ ok tt
unfolding validate_intent same before valid_stage_id
chain_runs = refl

validate_intent-ok_iff_example : (validate_intent chain ≡ ok tt) ↔ IsWellFormed chain
validate_intent-ok_iff_example = validate_intent-ok_iff chain

validate_intent-sinks_example : sinks chain.stages ≡ "final" ∷ []
validate_intent-sinks_example =
    validate_intent-sinks chain (stage "draft" [] (object end))
      (stage "final" ("draft" ∷ []) (object end) ∷ []) chain_runs refl refl

-- The sample graph with another prompt, and without the edge.
abbrev other : WorkflowGraph
other = record graph {
  nodes =
      ("a", render_node)
      ∷ ("b", record prompt_node { params = object (field "text" (string "a hen") end) })
      ∷ [];
  edges = [];
}

graph_sorted : sorted (keys graph.nodes) ≡ true
unfolding before
graph_sorted = refl

-- A registry in which a renderer's prompt can be an input node.
abbrev text_definition : NodeDefinition
text_definition = record {
  node_type = "input.text";
  title = "Text";
  category = "input";
  provider = none;
  capability = none;
  description = "";
  inputs = [];
  outputs = port "text" PortType.text ∷ [];
  params_schema = open_schema;
  estimated_cost = none;
}

abbrev studio : NodeRegistry
studio = record {
  definitions = ("input.text", text_definition) ∷ ("render", render_definition) ∷ [];
}

abbrev poster : IntentPlan
poster = record chain {
  stages = stage "poster" [] (object (field "prompt" (string "a fox") end)) ∷ [];
  output_stage_ids = "poster" ∷ [];
}

abbrev proposal_in : Result CompileOutcome Failure → CompiledProposal
proposal_in (ok (compiled p)) = p
proposal_in _ = record {
  graph_schema_version = 0;
  catalog_revision = "";
  ops = [];
  resolved_stages = [];
  target = graph;
  layout_hints = [];
  diagnostics = [];
}

poster_proposal : CompiledProposal
poster_proposal =
    proposal_in (compile_for_connector true ascii studio catalog both_available none poster graph)

poster_runs :
    compile_for_connector true ascii studio catalog both_available none poster graph
    ≡ ok (compiled poster_proposal)
unfolding compile_for_connector poster_proposal same before edge_before valid_stage_id
poster_runs = refl

-- A registry whose renderer executes nothing, which an assertion of a debug build finds.
abbrev idle_studio : NodeRegistry
idle_studio = record {
  definitions =
      ("input.text", text_definition)
      ∷ ("render", record render_definition { capability = none })
      ∷ [];
}

idle_studio_panics :
    compile_for_connector true ascii idle_studio catalog both_available none poster graph
    ≡ err panic
unfolding compile_for_connector same before valid_stage_id
idle_studio_panics = refl

abbrev type_in : Option CapabilityDefinition → String
type_in none = ""
type_in (some c) = c.node_type

abbrev capability_in : Result NodeDefinition RegistryError → Option String
capability_in (ok def) = def.capability
capability_in (err e) = none

studio-Executes : Executes studio catalog
unfolding capability definition same before
studio-Executes id c def known registered = elim (Bool-cases (same "image.generate" id)) [
  | inl here ↦
      let is_render : "render" ≡ c.node_type = ap type_in (rw here at known) in
      let found : definition studio "render" ≡ ok def =
        subst (λ t. definition studio t ≡ ok def) (sym is_render) registered in
      ap capability_in (sym found) ∙ ap some ((same_iff "image.generate" id).0 here)
  | inr other ↦ cc (rw other at known)
]

compile_for_connector-panic_example :
    compile_for_connector true ascii studio catalog both_available none poster graph ≢ err panic
compile_for_connector-panic_example =
    compile_for_connector-panic true ascii studio catalog both_available none poster graph
      (λ on. studio-Executes)

compile_for_connector-Converged_example :
    (validate_semantics catalog studio poster_proposal.target ≡ ok tt)
    × ((g : WorkflowGraph) × (apply_ops studio graph poster_proposal.ops ≡ ok g)
        × Converged graph poster_proposal.target g)
unfolding has_edge
compile_for_connector-Converged_example =
    compile_for_connector-Converged true ascii studio catalog both_available none poster graph
      poster_proposal graph_sorted refl poster_runs
