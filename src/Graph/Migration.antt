-- ===== src/Graph/Migration.antt =====
-- crates/graph/src/semantics.rs: the migration of a graph without a semantic layer.
pub mod Sound
pub mod Loop
pub mod Report
pub mod Validates
use helixflow.Base.{
  ℕ, String, Bool, true, false, ◌&&◌, Option, none, some, List, [], ◌∷◌, ◌++◌, Result, ok, err,
  ensure, ◌>>=◌, ◌>>◌, is_some, map_err,
}
use Prim.Native.String.{◌++◌ as append}
use helixflow.Base.Assoc
use helixflow.Base.Assoc.{BTreeMap}
use helixflow.Base.Keys.{sort_dedup}
use helixflow.Json.{Value, end, as_object, as_str, get, of_map}
use helixflow.Registry.{NodeRegistry, definition}
use helixflow.Registry.Types.{RegistryError}
use helixflow.Registry.Messages.{message}
use helixflow.Registry.Names.{CharTables}
use helixflow.Registry.Catalog.{CatalogSnapshot, ConnectorDefinition, capability}
use helixflow.Registry.Resolver.{
  ResolveRequest, ResolvedImplementation, ResolveError, ConnectorAvailability, resolve,
}
use helixflow.Graph.Types.{WorkflowGraph, GraphNode, NodeSemanticsEntry, pinned, policy}

pub data MigrationReasonCode : Type 0 where
  unknown_node_type : MigrationReasonCode
  capability_not_found : MigrationReasonCode
  model_not_found : MigrationReasonCode
  model_ambiguous : MigrationReasonCode
  model_capability_mismatch : MigrationReasonCode
  binding_not_found : MigrationReasonCode
  binding_ambiguous : MigrationReasonCode
  default_binding_missing : MigrationReasonCode
  workspace_connector_incompatible : MigrationReasonCode

pub data MigrationAction : Type 0 where
  structural : MigrationAction
  mapped_policy : (capability_id : String) → MigrationAction
  mapped_pinned : (capability_id model_id binding_id : String) → MigrationAction
  needs_resolution : (code : MigrationReasonCode) (reason : String) → MigrationAction
  needs_user_choice : (code : MigrationReasonCode) (candidates : List String) → MigrationAction

pub record NodeMigration : Type 0 where
  pub node_id : String
  pub action : MigrationAction

pub record MigrationReport : Type 0 where
  pub migration_version : String
  pub source_schema_version : ℕ
  pub catalog_revision : String
  pub nodes : List NodeMigration
  pub resolvable : Bool

abbrev pub migration_version : String
migration_version = "1"

-- Every connector as available.
abbrev pub all_available : List ConnectorDefinition → ConnectorAvailability
all_available [] = []
all_available (c ∷ cs) = Assoc.insert c.connector_id true (all_available cs)

abbrev pub availability_for : CatalogSnapshot → Option String → ConnectorAvailability
availability_for catalog (some connector_id) = (connector_id, true) ∷ []
availability_for catalog none = all_available catalog.connectors

-- `matches!(error, BindingNotFound | BindingUnavailable)`
abbrev pub lacks_binding : ResolveError → Bool
lacks_binding (ResolveError.binding_not_found c m) = true
lacks_binding (ResolveError.binding_unavailable c bs) = true
lacks_binding _ = false

-- The last `match` of `resolve_error_action`.
abbrev pub action_of : Bool → ResolveError → MigrationAction
action_of is_pinned (ResolveError.model_ambiguous query candidates) =
    needs_user_choice MigrationReasonCode.model_ambiguous (sort_dedup candidates)
action_of is_pinned (ResolveError.capability_not_found c) =
    needs_resolution MigrationReasonCode.capability_not_found
      "node capability is not present in the catalog"
action_of is_pinned (ResolveError.model_not_found query) =
    needs_resolution MigrationReasonCode.model_not_found
      "declared model is not present in the catalog"
action_of true (ResolveError.binding_not_found c m) =
    needs_resolution MigrationReasonCode.model_capability_mismatch
      "declared model does not implement the node capability"
action_of false (ResolveError.binding_not_found c m) =
    needs_resolution MigrationReasonCode.binding_not_found
      "no usable catalog binding implements the node capability"
action_of is_pinned (ResolveError.binding_unavailable c bs) =
    needs_resolution MigrationReasonCode.binding_not_found
      "no usable catalog binding implements the node capability"
action_of is_pinned (ResolveError.binding_ambiguous c candidates) =
    needs_resolution MigrationReasonCode.binding_ambiguous
      "multiple catalog bindings match the node capability"

abbrev is_ok {ℓ κ} : {A : Type ℓ} {E : Type κ} → Result A E → Bool
is_ok (ok a) = true
is_ok (err e) = false

abbrev pub legacy_model : Value → Option String
legacy_model params = elim (get "model" params) [ some v ↦ as_str v | none ↦ none ]

-- `params.remove("model")`, where the params are an object.
abbrev pub remove_model : Value → Value
remove_model params = elim (as_object params) [
  | some m ↦ Value.object (of_map (Assoc.remove "model" m))
  | none ↦ params
]

abbrev pub migrated_params : Option String → Value → Value
migrated_params none params = params
migrated_params (some model) params = remove_model params

-- What the loop writes to a node that is mapped.
abbrev pub write_entry : Option String → NodeSemanticsEntry → GraphNode → GraphNode
write_entry model entry node = record node {
  params = migrated_params model node.params;
  semantics = some entry;
}

abbrev pub pinned_entry : String → ResolvedImplementation → NodeSemanticsEntry
pinned_entry capability_id r = record {
  capability_id = capability_id;
  mode = capability_id;
  implementation = pinned r.resolved_model_id r.binding_id;
}

abbrev pub policy_entry : String → NodeSemanticsEntry
policy_entry capability_id = record {
  capability_id = capability_id;
  mode = capability_id;
  implementation = policy "capability_default" (Value.object end);
}

-- The loop's variables.
pub record Migrating : Type 0 where
  pub migrated : BTreeMap GraphNode
  pub nodes : List NodeMigration
  pub resolvable : Bool

abbrev pub Outcome : Type 0
Outcome = Result (NodeSemanticsEntry × MigrationAction) MigrationAction

module _ (tables : CharTables) (catalog : CatalogSnapshot)
    (workspace_connector_id : Option String) where
  unfoldable pub resolve_error_action : ResolveError → ResolveRequest → Bool → MigrationAction
  unfolding resolve sort_dedup
  resolve_error_action error request is_pinned =
      elim (is_some workspace_connector_id
        && lacks_binding error
        && is_ok (
            resolve tables catalog (record request { connector_preference = none })
              (all_available catalog.connectors))) [
                | true ↦
                    needs_resolution MigrationReasonCode.workspace_connector_incompatible
                      "no compatible binding exists for the workspace connector"
                | false ↦ action_of is_pinned error
              ]

  abbrev pub request_for : String → Option String → ResolveRequest
  request_for capability_id model = record {
    capability_id = capability_id;
    requested_model = model;
    connector_preference = workspace_connector_id;
  }

  unfoldable pub migrate_executable_node : String → Option String → ConnectorAvailability → Outcome
  unfolding capability resolve resolve_error_action Assoc.lookup
  migrate_executable_node capability_id (some model) available = do
    let request = request_for capability_id (some model)
    ensure (is_some (capability catalog capability_id)) (
        needs_resolution MigrationReasonCode.capability_not_found
          (append "capability `" (append capability_id "` is not in the catalog")))
    r ←
        map_err (λ e. resolve_error_action e request true)
          (resolve tables catalog request available)
    ok (pinned_entry capability_id r, mapped_pinned capability_id r.resolved_model_id r.binding_id)
  migrate_executable_node capability_id none available = do
    let request = request_for capability_id none
    ensure (is_some (capability catalog capability_id)) (
        needs_resolution MigrationReasonCode.capability_not_found
          (append "capability `" (append capability_id "` is not in the catalog")))
    ensure (Assoc.contains_key capability_id catalog.default_bindings) (
        needs_resolution MigrationReasonCode.default_binding_missing (
          append "no declared model and capability `"
            (append capability_id "` has no configured default binding")))
    r ←
        map_err (λ e. resolve_error_action e request false)
          (resolve tables catalog request available)
    ok (policy_entry capability_id, mapped_policy capability_id)

  abbrev pub push_action : String → MigrationAction → Migrating → Migrating
  push_action node_id action m = record m {
    nodes = m.nodes ++ record { node_id = node_id; action = action } ∷ [];
  }

  -- The outcome of an executable node.
  abbrev pub settle : String → Option String → Outcome → Migrating → Migrating
  settle node_id model (ok (entry, action)) m =
      push_action node_id action
        (record m { migrated = Assoc.adjust node_id (write_entry model entry) m.migrated })
  settle node_id model (err action) m = push_action node_id action (record m { resolvable = false })

  abbrev pub migrate_known :
      String → GraphNode → Option String → ConnectorAvailability → Migrating → Migrating
  migrate_known node_id node none available m = push_action node_id structural m
  migrate_known node_id node (some capability_id) available m =
      settle node_id (legacy_model node.params)
        (migrate_executable_node capability_id (legacy_model node.params) available) m

  -- The body of the loop over the nodes.
  unfoldable pub migrate_node :
      NodeRegistry → ConnectorAvailability → String × GraphNode → Migrating → Migrating
  unfolding definition migrate_executable_node Assoc.adjust Assoc.remove message get as_str
      as_object of_map
  migrate_node reg available (node_id, node) m = elim (definition reg node.node_type) [
    | ok d ↦ migrate_known node_id node d.capability available m
    | err e ↦
        push_action node_id
          (needs_resolution MigrationReasonCode.unknown_node_type
            (append "unknown node type: " (message e)))
          (record m { resolvable = false })
  ]

  unfoldable pub migrate_nodes :
      NodeRegistry → ConnectorAvailability → BTreeMap GraphNode → Migrating → Migrating
  unfolding migrate_node
  migrate_nodes reg available [] m = m
  migrate_nodes reg available (n ∷ ns) m =
      migrate_nodes reg available ns (migrate_node reg available n m)

  -- The report, and the graph where every executable node is resolved.
  unfoldable pub migrate_v1_with_connector :
      NodeRegistry → WorkflowGraph → Option WorkflowGraph × MigrationReport
  unfolding migrate_nodes Assoc.insert
  migrate_v1_with_connector reg graph =
      let done =
        migrate_nodes reg (availability_for catalog workspace_connector_id) graph.nodes
          (record { migrated = graph.nodes; nodes = []; resolvable = true }) in
      (
        (elim done.resolvable [
          | true ↦ some (record graph {
            catalog_revision = some catalog.catalog_revision;
            nodes = done.migrated;
          })
          | false ↦ none
        ]),
        record {
          migration_version = migration_version;
          source_schema_version = graph.schema_version;
          catalog_revision = catalog.catalog_revision;
          nodes = done.nodes;
          resolvable = done.resolvable;
        },
      )

unfoldable pub migrate_v1 :
    CharTables
    → CatalogSnapshot
    → NodeRegistry
    → WorkflowGraph
    → Option WorkflowGraph × MigrationReport
unfolding migrate_v1_with_connector
migrate_v1 tables catalog reg graph = migrate_v1_with_connector tables catalog none reg graph

unfoldable pub migrate_v1_for_connector :
    CharTables
    → CatalogSnapshot
    → String
    → NodeRegistry
    → WorkflowGraph
    → Option WorkflowGraph × MigrationReport
unfolding migrate_v1_with_connector
migrate_v1_for_connector tables catalog workspace_connector_id reg graph =
    migrate_v1_with_connector tables catalog (some workspace_connector_id) reg graph
