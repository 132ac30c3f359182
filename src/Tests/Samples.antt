-- ===== src/Tests/Samples.antt =====
-- A small registry and graphs over it.
use helixflow.Base.{String, true, false, none, some, [], ◌∷◌, List}
use helixflow.Json.{Value, F64, ℤ, end, field, object, string}
use helixflow.Registry.{NodeRegistry}
use helixflow.Registry.Types.{PortDefinition, PortType, ParamsSchema, NodeDefinition, one, many}
use helixflow.Registry.Types.{ParamValueType}
use helixflow.Graph.Types.{GraphNode, GraphEdge, WorkflowGraph}

abbrev pub port : String → PortType → PortDefinition
port name t = record { name = name; port_type = t; required = true; cardinality = one }

abbrev pub reference : PortDefinition
reference = record { name = "in"; port_type = PortType.image; required = false; cardinality = many }

abbrev pub prompt_schema : ParamsSchema
prompt_schema = record {
  required = "text" ∷ [];
  properties =
      (
        "text",
        record {
          value_type = ParamValueType.string;
          enum_values = [];
          minimum = none;
          maximum = none;
        },
      )
      ∷ [];
  allow_unknown = false;
}

abbrev pub open_schema : ParamsSchema
open_schema = record { required = []; properties = []; allow_unknown = true }

abbrev pub prompt_definition : NodeDefinition
prompt_definition = record {
  node_type = "prompt";
  title = "Prompt";
  category = "text";
  provider = none;
  capability = none;
  description = "";
  inputs = [];
  outputs = port "text" PortType.text ∷ [];
  params_schema = prompt_schema;
  estimated_cost = none;
}

abbrev pub render_definition : NodeDefinition
render_definition = record {
  node_type = "render";
  title = "Render";
  category = "image";
  provider = none;
  capability = some "image.generate";
  description = "";
  inputs = port "prompt" PortType.text ∷ reference ∷ [];
  outputs = port "image" PortType.image ∷ [];
  params_schema = open_schema;
  estimated_cost = none;
}

abbrev pub definitions : List NodeDefinition
definitions = render_definition ∷ prompt_definition ∷ []

abbrev pub reg : NodeRegistry
reg = record { definitions = ("prompt", prompt_definition) ∷ ("render", render_definition) ∷ [] }

abbrev pub origin : F64 × F64
origin = (F64.finite (ℤ.pos 0), F64.finite (ℤ.pos 0))

abbrev pub node : String → Value → GraphNode
node node_type params = record {
  node_type = node_type;
  title = node_type;
  params = params;
  pos = origin;
  size = none;
  semantics = none;
}

abbrev pub prompt_node : GraphNode
prompt_node = node "prompt" (object (field "text" (string "a fox") end))

abbrev pub render_node : GraphNode
render_node = node "render" (object end)

abbrev pub wire : String → String → GraphEdge
wire from to = record { from = (from, "text"); to = (to, "prompt"); edge_type = "text" }

-- A prompt that feeds a renderer; the renderer's id comes first.
abbrev pub graph : WorkflowGraph
graph = record {
  schema_version = 1;
  catalog_revision = none;
  nodes = ("a", render_node) ∷ ("b", prompt_node) ∷ [];
  edges = wire "b" "a" ∷ [];
}

-- Two renderers that feed one another.
abbrev pub loop : WorkflowGraph
loop = record graph {
  nodes = ("a", render_node) ∷ ("b", render_node) ∷ [];
  edges = wire "b" "a" ∷ wire "a" "b" ∷ [];
}
