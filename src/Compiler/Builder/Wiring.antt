-- ===== src/Compiler/Builder/Wiring.antt =====
-- crates/compiler/src/graph_builder.rs: the edges of a stage to the stages that it consumes.
use helixflow.Base.{
  String, ◌&&◌, Option, List, [], ◌∷◌, ◌++◌, Result, ok, ok_or, map_err, ◌>>=◌, find, same, concat,
  quoted,
}
use helixflow.Registry.{NodeRegistry, definition}
use helixflow.Registry.Types.{
  NodeDefinition, PortDefinition, PortType, RegistryError, same_port_type,
}
use helixflow.Registry.Catalog.{CatalogSnapshot}
use helixflow.Graph.Types.{GraphEdge, port_type_label}
use helixflow.Compiler.Types.{
  IntentPlan, StageIntent, StageInputRef, CompileError, GraphFault, no_definition, clarify_first,
}
use helixflow.Compiler.Types
use helixflow.Compiler.Builder.Clarify.{Stop, fail, panicked, node_type_of}

-- `{:?}` of a port's type.
abbrev debug_port_type : PortType → String
debug_port_type PortType.text = "Text"
debug_port_type PortType.image = "Image"
debug_port_type PortType.video = "Video"
debug_port_type PortType.audio = "Audio"
debug_port_type PortType.mask = "Mask"
debug_port_type PortType.json = "Json"

abbrev pub definition_of : NodeRegistry → String → Result NodeDefinition Stop
definition_of reg node_type =
    map_err (λ (e : RegistryError). fail (Types.graph_invalid (no_definition e)))
      (definition reg node_type)

abbrev pub mismatch : StageIntent → StageInputRef → String → Stop
mismatch stage input reason =
    fail (Types.port_type_mismatch stage.stage_id input.stage_id input.output reason)

abbrev pub no_input_reason : StageIntent → StageInputRef → PortType → String
no_input_reason stage input t = concat (
    "no "
    ∷ quoted input.output
    ∷ " input of type "
    ∷ debug_port_type t
    ∷ " on "
    ∷ quoted stage.capability_id
    ∷ [])

unfoldable pub source_port_of :
    NodeDefinition → StageIntent → StageInputRef → Result PortDefinition Stop
unfolding same
source_port_of source_def stage input =
    ok_or (find (λ (p : PortDefinition). same p.name input.output) source_def.outputs)
      (mismatch stage input "source stage has no such output")

unfoldable pub target_port_of :
    NodeDefinition → StageIntent → StageInputRef → PortType → Result PortDefinition Stop
unfolding same same_port_type
target_port_of def stage input t =
    ok_or
      (find (λ (p : PortDefinition). same p.name input.output && same_port_type p.port_type t)
        def.inputs)
      (mismatch stage input (no_input_reason stage input t))

abbrev pub stage_named : String → List StageIntent → Option StageIntent
stage_named id stages = find (λ (s : StageIntent). same s.stage_id id) stages

module _ (reg : NodeRegistry) (catalog : CatalogSnapshot) (stages : List StageIntent) where
  -- The edge of one input.
  unfoldable pub wire_input : NodeDefinition → StageIntent → StageInputRef → Result GraphEdge Stop
  unfolding definition node_type_of source_port_of target_port_of port_type_label same
  wire_input def stage input = do
    source_stage ← ok_or (stage_named input.stage_id stages) panicked
    source_type ← node_type_of catalog source_stage.capability_id
    source_def ← definition_of reg source_type
    source_port ← source_port_of source_def stage input
    target_port ← target_port_of def stage input source_port.port_type
    ok (record {
      from = (input.stage_id, source_port.name);
      to = (stage.stage_id, target_port.name);
      edge_type = port_type_label source_port.port_type;
    })

  -- The loop over a stage's inputs, which extends the edges.
  unfoldable pub wire_inputs :
      NodeDefinition
      → StageIntent
      → List GraphEdge
      → List StageInputRef
      → Result (List GraphEdge) Stop
  unfolding wire_input
  wire_inputs def stage edges [] = ok edges
  wire_inputs def stage edges (input ∷ inputs) = do
    edge ← wire_input def stage input
    wire_inputs def stage (edges ++ edge ∷ []) inputs
