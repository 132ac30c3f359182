-- ===== src/Compiler/Builder/Texts.antt =====
-- crates/compiler/src/graph_builder.rs: a stage's parameters, and the text nodes made from them.
use helixflow.Base.{
  String, Bool, ◌&&◌, ◌||◌, none, some, List, [], ◌∷◌, ◌++◌, if◌then◌else◌, any, retain, same,
  concat, quoted,
}
use helixflow.Base.Assoc
use helixflow.Base.Assoc.{BTreeMap}
use helixflow.Json.{Value, as_object, insert_all, json_object}
use helixflow.Registry.Types.{NodeDefinition, PortDefinition, PortType, same_port_type}
use helixflow.Registry.Catalog.{CapabilityBinding}
use helixflow.Graph.Types.{GraphNode, GraphEdge}
use helixflow.Compiler.Types.{StageIntent}
use helixflow.Compiler.Builder.Layout.{origin}

abbrev pub fields_of : Value → List (String × Value)
fields_of v = elim (as_object v) [ some m ↦ m | none ↦ [] ]

-- The binding's defaults, and the stage's parameters over them.
unfoldable pub merged_params : CapabilityBinding → StageIntent → BTreeMap Value
unfolding Assoc.insert as_object
merged_params b stage = insert_all (fields_of stage.params) (insert_all (fields_of b.defaults) [])

-- What the loop that materializes text inputs changes.
pub record Inputs : Type 0 where
  pub nodes : BTreeMap GraphNode
  pub edges : List GraphEdge
  pub params : BTreeMap Value
  pub synthesized_inputs : List (String × String)
  pub diagnostics : List String

abbrev pub text_input : Value → GraphNode
text_input value = record {
  node_type = "input.text";
  title = "Text Input";
  params = json_object (("text", value) ∷ []);
  pos = origin;
  size = none;
  semantics = none;
}

abbrev input_id_of : StageIntent → String → String
input_id_of stage port = concat (stage.stage_id ∷ "-" ∷ port ∷ "-input" ∷ [])

unfoldable pub with_input : StageIntent → String → Value → Inputs → Inputs
unfolding Assoc.insert Assoc.remove json_object
with_input stage port value state =
    let input_id = input_id_of stage port in
    record {
      nodes = Assoc.insert input_id (text_input value) state.nodes;
      edges =
          state.edges
          ++ record { from = (input_id, "text"); to = (stage.stage_id, port); edge_type = "text" }
            ∷ [];
      params = Assoc.remove port state.params;
      synthesized_inputs = state.synthesized_inputs ++ (input_id, stage.stage_id) ∷ [];
      diagnostics =
          state.diagnostics
          ++ concat (
              stage.stage_id
              ∷ ": materialized `input.text` node for required "
              ∷ quoted port
              ∷ " input"
              ∷ [])
            ∷ [];
    }

abbrev pub is_wired : String → String → List GraphEdge → Bool
is_wired stage_id port edges =
    any (λ (e : GraphEdge). same e.to.0 stage_id && same e.to.1 port) edges

-- One required text input.
unfoldable pub materialize_port : NodeDefinition → StageIntent → PortDefinition → Inputs → Inputs
unfolding Assoc.lookup with_input same
materialize_port def stage port state =
    if is_wired stage.stage_id port.name state.edges
      || Assoc.contains_key port.name def.params_schema.properties
    then state
    else elim (Assoc.lookup port.name state.params) [
      | none ↦ state
      | some value ↦ with_input stage port.name value state
    ]

unfoldable pub materialize : NodeDefinition → StageIntent → List PortDefinition → Inputs → Inputs
unfolding materialize_port
materialize def stage [] state = state
materialize def stage (port ∷ ports) state =
    materialize def stage ports (materialize_port def stage port state)

abbrev pub text_ports : NodeDefinition → List PortDefinition
text_ports def =
    retain (λ (p : PortDefinition). p.required && same_port_type p.port_type PortType.text)
      def.inputs
