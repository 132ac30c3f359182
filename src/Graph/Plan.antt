-- ===== src/Graph/Plan.antt =====
-- crates/graph/src/lib.rs: `compile_plan`, the steps of a run in the order of the graph.
use helixflow.Base.{
  ℕ, String, Option, none, some, List, [], ◌∷◌, ok, ok_or, map_err, ◌>>=◌, ◌>>◌, same, retain,
}
use helixflow.Base.Assoc
use helixflow.Base.Assoc.{BTreeMap}
use helixflow.Json.{Value}
use helixflow.Registry.{NodeRegistry, definition}
use helixflow.Graph.Topology.{topological_order}
use helixflow.Graph.Validation.{validate_graph}
use helixflow.Graph.Types.{WorkflowGraph, GraphEdge, GraphResult, Endpoint, missing_node, registry}

pub record ResolvedStepBinding : Type 0 where
  pub capability_id : String
  pub requested_model_id : Option String
  pub resolved_model_id : String
  pub binding_id : String
  pub binding_revision : String
  pub connector_id : String
  pub operation_id : String

pub record ExecutionStep : Type 0 where
  pub node_id : String
  pub node_type : String
  pub provider : Option String
  pub capability : Option String
  pub inputs : BTreeMap (List Endpoint)
  pub params : Value
  pub resolved : Option ResolvedStepBinding

pub record ExecutionPlan : Type 0 where
  pub schema_version : ℕ
  pub version_id : String
  pub catalog_revision : Option String
  pub steps : List ExecutionStep

-- `definition.capability.as_ref().map(|_| provider_id)`
abbrev pub provider_of : Option String → String → Option String
provider_of none provider_id = none
provider_of (some capability) provider_id = some provider_id

-- The loop over the edges into a node: their sources by input port.
unfoldable pub group_inputs : List GraphEdge → BTreeMap (List Endpoint) → BTreeMap (List Endpoint)
unfolding Assoc.push
group_inputs [] inputs = inputs
group_inputs (e ∷ es) inputs = group_inputs es (Assoc.push e.to.1 e.from inputs)

unfoldable pub compile_step :
    NodeRegistry → WorkflowGraph → String → String → GraphResult ExecutionStep
unfolding Assoc.lookup definition group_inputs same
compile_step reg graph provider_id node_id = do
  node ← ok_or (Assoc.lookup node_id graph.nodes) (missing_node node_id)
  d ← map_err registry (definition reg node.node_type)
  ok (record {
    node_id = node_id;
    node_type = node.node_type;
    provider = provider_of d.capability provider_id;
    capability = d.capability;
    inputs = group_inputs (retain (λ e. same e.to.0 node_id) graph.edges) [];
    params = node.params;
    resolved = none;
  })

unfoldable pub compile_steps :
    NodeRegistry → WorkflowGraph → String → List String → GraphResult (List ExecutionStep)
unfolding compile_step
compile_steps reg graph provider_id [] = ok []
compile_steps reg graph provider_id (id ∷ ids) = do
  step ← compile_step reg graph provider_id id
  steps ← compile_steps reg graph provider_id ids
  ok (step ∷ steps)

unfoldable pub compile_plan :
    NodeRegistry → WorkflowGraph → String → String → GraphResult ExecutionPlan
unfolding validate_graph topological_order compile_steps
compile_plan reg graph version_id provider_id = do
  validate_graph reg graph
  order ← topological_order graph
  steps ← compile_steps reg graph provider_id order
  ok (record {
    schema_version = 1;
    version_id = version_id;
    catalog_revision = none;
    steps = steps;
  })
