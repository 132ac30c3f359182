-- ===== src/Compiler/Builder/Stage.antt =====
-- crates/compiler/src/graph_builder.rs: the node of one stage.
use helixflow.Base.{
  ℕ, ◌+◌, String, Bool, false, not, ◌&&◌, ◌||◌, Option, none, some, List, [], ◌∷◌, ◌++◌, map,
  Result, ok, ok_or, ensure, ◌>>=◌, ◌>>◌, if◌then◌else◌, retain, same, concat, quoted,
}
use helixflow.Base.Assoc
use helixflow.Base.Assoc.{BTreeMap}
use helixflow.Base.Keys.{member, sort_dedup}
use helixflow.Json
use helixflow.Json.{Value, as_object, of_map, is_null, insert_all, json_object, round_bits}
use helixflow.Registry.{NodeRegistry, definition}
use helixflow.Registry.Types.{NodeDefinition, PortDefinition, same_port_type}
use helixflow.Registry.Names.{CharTables}
use helixflow.Registry.Params.{is_empty}
use helixflow.Registry.Catalog.{CatalogSnapshot, CapabilityBinding, binding}
use helixflow.Registry.Resolver.{ResolvedImplementation, ConnectorAvailability}
use helixflow.Graph.Types.{GraphNode, GraphEdge, ImplementationSelection, pinned, policy}
use helixflow.Compiler.Types.{StageIntent, clarify_first}
use helixflow.Compiler.Builder.Clarify.{Stop, clarify, panicked, resolve_stage, node_type_of}
use helixflow.Compiler.Builder.Layout.{scaled, column_width, origin}
use helixflow.Compiler.Builder.Wiring.{definition_of, wire_inputs}
use helixflow.Compiler.Builder.Texts.{merged_params, Inputs, materialize, text_ports}

pub record ResolvedStage : Type 0 where
  pub stage_id : String
  pub node_id : String
  pub capability_id : String
  pub requested_model_id : Option String
  pub resolved_model_id : String
  pub binding_id : String
  pub binding_revision : String

-- What the loop over the stages builds up.
pub record Builder : Type 0 where
  pub nodes : BTreeMap GraphNode
  pub edges : List GraphEdge
  pub resolved_stages : List ResolvedStage
  pub diagnostics : List String
  pub synthesized_inputs : List (String × String)

-- The state in which a stage's node is made.
unfoldable pub stage_inputs :
    NodeDefinition → StageIntent → List GraphEdge → CapabilityBinding → Builder → Inputs
unfolding merged_params materialize same_port_type
stage_inputs def stage edges b state = materialize def stage (text_ports def) (record {
  nodes = state.nodes;
  edges = edges;
  params = merged_params b stage;
  synthesized_inputs = state.synthesized_inputs;
  diagnostics = state.diagnostics;
})

-- The input ports of a stage that have an edge.
abbrev pub wired_to : String → List GraphEdge → List String
wired_to stage_id edges =
    map (λ (e : GraphEdge). e.to.1) (retain (λ (e : GraphEdge). same e.to.0 stage_id) edges)

abbrev has_value : Option Value → Bool
has_value none = false
has_value (some v) = not (is_null v)

abbrev field_name : StageIntent → String → String
field_name stage name = concat (stage.stage_id ∷ "." ∷ name ∷ [])

-- The required inputs that neither an edge nor a parameter supplies.
abbrev pub missing_inputs :
    StageIntent → List String → BTreeMap Value → List PortDefinition → List String
missing_inputs stage wired params ports =
    map (λ (p : PortDefinition). field_name stage p.name)
      (retain
        (λ (p : PortDefinition).
          p.required && not (member p.name wired || has_value (Assoc.lookup p.name params)))
        ports)

-- What the loop over the required parameters changes.
pub record Filled : Type 0 where
  pub params : BTreeMap Value
  pub diagnostics : List String
  pub missing : List String

unfoldable pub fill_param : StageIntent → List String → String → Filled → Filled
unfolding Assoc.lookup Assoc.insert same
fill_param stage wired required state =
    if Assoc.contains_key required state.params
    then state
    else if member required wired
    then record state {
      params = Assoc.insert required (Value.string "") state.params;
      diagnostics =
          state.diagnostics
          ++ concat (
              stage.stage_id
              ∷ ": filled placeholder param "
              ∷ quoted required
              ∷ " (value arrives over the wire)"
              ∷ [])
            ∷ [];
    }
    else record state { missing = state.missing ++ field_name stage required ∷ [] }

unfoldable pub fill_params : StageIntent → List String → List String → Filled → Filled
unfolding fill_param
fill_params stage wired [] state = state
fill_params stage wired (required ∷ rest) state =
    fill_params stage wired rest (fill_param stage wired required state)

abbrev pub selection : StageIntent → ResolvedImplementation → ImplementationSelection
selection stage resolved = elim stage.requested_model [
  | some query ↦ pinned resolved.resolved_model_id resolved.binding_id
  | none ↦ policy "capability_default" (Value.object Json.Fields.end)
]

abbrev pub stage_node :
    ℕ
    → StageIntent
    → ResolvedImplementation
    → String
    → NodeDefinition
    → CapabilityBinding
    → BTreeMap Value
    → GraphNode
stage_node index stage resolved node_type def b params = record {
  node_type = node_type;
  title = def.title;
  params = Value.object (of_map params);
  pos = (scaled index column_width, origin.1);
  size = none;
  semantics = some (record {
    capability_id = resolved.capability_id;
    mode = b.mode;
    implementation = selection stage resolved;
  });
}

abbrev pub resolved_stage : StageIntent → ResolvedImplementation → ResolvedStage
resolved_stage stage resolved = record {
  stage_id = stage.stage_id;
  node_id = stage.stage_id;
  capability_id = resolved.capability_id;
  requested_model_id = resolved.requested_model_id;
  resolved_model_id = resolved.resolved_model_id;
  binding_id = resolved.binding_id;
  binding_revision = resolved.binding_revision;
}

-- The end of a stage: what is missing is asked for, or else its node is added.
unfoldable pub close_stage :
    ℕ
    → StageIntent
    → ResolvedImplementation
    → String
    → NodeDefinition
    → CapabilityBinding
    → List ResolvedStage
    → Inputs
    → Filled
    → Result Builder Stop
unfolding Assoc.insert sort_dedup json_object clarify_first of_map scaled
close_stage index stage resolved node_type def b done inputs filled = do
  ensure (is_empty filled.missing) (
      clarify (
        clarify_first "REQUIRED_INPUT_MISSING" (sort_dedup filled.missing)
          (json_object (("stageId", Value.string stage.stage_id) ∷ []))
          "ask the user to provide the missing input or connect an upstream stage"))
  ok (record {
    nodes =
        Assoc.insert stage.stage_id (stage_node index stage resolved node_type def b filled.params)
          inputs.nodes;
    edges = inputs.edges;
    resolved_stages = done ++ resolved_stage stage resolved ∷ [];
    diagnostics = filled.diagnostics;
    synthesized_inputs = inputs.synthesized_inputs;
  })

-- The parameters of a stage after both loops over what it requires.
unfoldable pub fill_stage : NodeDefinition → StageIntent → Inputs → Filled
unfolding Assoc.lookup fill_params is_null same
fill_stage def stage inputs =
    let wired = wired_to stage.stage_id inputs.edges in
    fill_params stage wired def.params_schema.required (record {
      params = inputs.params;
      diagnostics = inputs.diagnostics;
      missing = missing_inputs stage wired inputs.params def.inputs;
    })

-- `definition.capability.as_deref().unwrap_or_default()`
abbrev pub capability_or_empty : NodeDefinition → String
capability_or_empty def = elim def.capability [ some id ↦ id | none ↦ "" ]

-- `debug_assert_eq!`, which a build without debug assertions leaves out.
abbrev pub asserted : Bool → NodeDefinition → ResolvedImplementation → Result (Unit {0}) Stop
asserted debug_assertions def resolved =
    ensure (not debug_assertions || same (capability_or_empty def) resolved.capability_id) panicked

module _ (debug_assertions : Bool) (tables : CharTables) (reg : NodeRegistry)
    (catalog : CatalogSnapshot) (availability : ConnectorAvailability)
    (connector_preference : Option String) (stages : List StageIntent) where
  -- The body of the loop over the stages.
  unfoldable pub build_stage : ℕ → StageIntent → Builder → Result Builder Stop
  unfolding resolve_stage node_type_of definition wire_inputs binding stage_inputs fill_stage
      close_stage same
  build_stage index stage state = do
    resolved ← resolve_stage catalog tables availability connector_preference stage
    node_type ← node_type_of catalog resolved.capability_id
    def ← definition_of reg node_type
    asserted debug_assertions def resolved
    edges ← wire_inputs reg catalog stages def stage state.edges stage.input_from
    b ← ok_or (binding catalog resolved.binding_id) panicked
    let inputs = stage_inputs def stage edges b state
    close_stage index stage resolved node_type def b state.resolved_stages inputs
        (fill_stage def stage inputs)

  unfoldable pub build_stages : ℕ → List StageIntent → Builder → Result Builder Stop
  unfolding build_stage
  build_stages index [] state = ok state
  build_stages index (stage ∷ rest) state = do
    state' ← build_stage index stage state
    build_stages (index + 1) rest state'
