-- ===== src/Graph/Semantics.antt =====
-- crates/graph/src/semantics.rs: the semantic layer of a graph and its validation against a
-- catalog.
use helixflow.Base.{
  String, true, false, Option, none, some, List, [], ◌∷◌, Result, ok, err, ok_or, map_err, ensure,
  for_each, ◌>>=◌, ◌>>◌, same, is_some,
}
use Prim.Native.String.{◌++◌}
use helixflow.Base.Assoc
use helixflow.Base.Assoc.{BTreeMap}
use helixflow.Base.Keys
use helixflow.Base.Keys.{BTreeSet}
use helixflow.Json.{Value}
use helixflow.Registry.{NodeRegistry, definition}
use helixflow.Registry.Messages.{message}
use helixflow.Registry.Params.{validate_value_with_wired}
use helixflow.Registry.Catalog.{CatalogSnapshot, CapabilityBinding, capability, binding}
use helixflow.Graph.Types.{
  WorkflowGraph, GraphNode, GraphEdge, GraphError, NodeSemanticsEntry, ImplementationSelection,
  pinned, policy, registry,
}
use helixflow.Graph.Validation.{validate_graph}

-- A structural error stands for the message that it prints.
pub data SemanticsError : Type 0 where
  catalog_revision_missing : SemanticsError
  catalog_revision_stale : (graph_revision catalog_revision : String) → SemanticsError
  structural_invalid : (cause : GraphError) → SemanticsError
  missing_semantics : (node_id : String) → SemanticsError
  unexpected_semantics : (node_id : String) → SemanticsError
  capability_not_found : (node_id capability_id : String) → SemanticsError
  capability_mismatch : (node_id node_type capability_id : String) → SemanticsError
  binding_not_found : (node_id binding_id : String) → SemanticsError
  binding_mismatch : (node_id binding_id reason : String) → SemanticsError
  pinned_model_mismatch : (node_id requested_model_id binding_model_id : String) → SemanticsError
  policy_default_missing : (node_id capability_id : String) → SemanticsError
  params_invalid : (node_id message : String) → SemanticsError

unfoldable pub code : SemanticsError → String
code catalog_revision_missing = "CATALOG_REVISION_MISSING"
code (catalog_revision_stale g c) = "CATALOG_REVISION_STALE"
code (structural_invalid e) = "STRUCTURAL_INVALID"
code (missing_semantics n) = "MISSING_SEMANTICS"
code (unexpected_semantics n) = "UNEXPECTED_SEMANTICS"
code (capability_not_found n c) = "CAPABILITY_NOT_FOUND"
code (capability_mismatch n t c) = "MODEL_CAPABILITY_MISMATCH"
code (binding_not_found n b) = "BINDING_NOT_FOUND"
code (binding_mismatch n b r) = "BINDING_NOT_FOUND"
code (pinned_model_mismatch n r b) = "PINNED_MODEL_MISMATCH"
code (policy_default_missing n c) = "BINDING_AMBIGUOUS"
code (params_invalid n m) = "REQUIRED_INPUT_MISSING"

abbrev pub with_entry :
    String × GraphNode → BTreeMap NodeSemanticsEntry → BTreeMap NodeSemanticsEntry
with_entry (id, node) rest = elim node.semantics [ some entry ↦ (id, entry) ∷ rest | none ↦ rest ]

-- The nodes are in the order of their ids, so what is collected is too.
abbrev pub collect_entries : BTreeMap GraphNode → BTreeMap NodeSemanticsEntry
collect_entries [] = []
collect_entries (n ∷ ns) = with_entry n (collect_entries ns)

abbrev pub collected_semantics : WorkflowGraph → BTreeMap NodeSemanticsEntry
collected_semantics graph = collect_entries graph.nodes

-- The input ports of a node that have an edge, as a set.
unfoldable pub wired_ports : String → List GraphEdge → BTreeSet
unfolding Keys.insert same
wired_ports node_id [] = []
wired_ports node_id (e ∷ es) =
    let rest = wired_ports node_id es in
    elim (same e.to.0 node_id) [ true ↦ Keys.insert e.to.1 rest | false ↦ rest ]

abbrev implements_reason : CapabilityBinding → NodeSemanticsEntry → String
implements_reason b entry =
    "binding implements `" ++ b.capability_id ++ "`, node declares `" ++ entry.capability_id ++ "`"

abbrev mode_reason : CapabilityBinding → NodeSemanticsEntry → String
mode_reason b entry =
    "binding mode `" ++ b.mode ++ "` does not match node mode `" ++ entry.mode ++ "`"

module _ (catalog : CatalogSnapshot) where
  -- The checks on the binding that a pinned entry names.
  unfoldable pub validate_pinned :
      String
      → Value
      → BTreeSet
      → NodeSemanticsEntry
      → String
      → String
      → Result (Unit {0}) SemanticsError
  unfolding binding validate_value_with_wired message same
  validate_pinned node_id params wired entry requested_model_id binding_id = do
    b ← ok_or (binding catalog binding_id) (binding_not_found node_id binding_id)
    ensure (same b.capability_id entry.capability_id)
        (binding_mismatch node_id binding_id (implements_reason b entry))
    ensure (same b.model_id requested_model_id)
        (pinned_model_mismatch node_id requested_model_id b.model_id)
    ensure (same b.mode entry.mode) (binding_mismatch node_id binding_id (mode_reason b entry))
    map_err (λ e. params_invalid node_id (message e))
        (validate_value_with_wired b.input_schema binding_id params wired)

  unfoldable pub validate_policy : String → NodeSemanticsEntry → Result (Unit {0}) SemanticsError
  unfolding binding Assoc.lookup
  validate_policy node_id entry = do
    default_id ←
        ok_or (Assoc.lookup entry.capability_id catalog.default_bindings)
          (policy_default_missing node_id entry.capability_id)
    ensure (is_some (binding catalog default_id)) (binding_not_found node_id default_id)

  abbrev pub validate_implementation :
      String
      → Value
      → BTreeSet
      → NodeSemanticsEntry
      → ImplementationSelection
      → Result (Unit {0}) SemanticsError
  validate_implementation node_id params wired entry (pinned requested_model_id binding_id) =
      validate_pinned node_id params wired entry requested_model_id binding_id
  validate_implementation node_id params wired entry (policy policy_id constraints) =
      validate_policy node_id entry

  unfoldable pub validate_entry :
      String
      → String
      → Value
      → BTreeSet
      → String
      → NodeSemanticsEntry
      → Result (Unit {0}) SemanticsError
  unfolding capability validate_pinned validate_policy same
  validate_entry node_id node_type params wired expected_capability entry = do
    ensure (same entry.capability_id expected_capability)
        (capability_mismatch node_id node_type entry.capability_id)
    ensure (is_some (capability catalog entry.capability_id))
        (capability_not_found node_id entry.capability_id)
    validate_implementation node_id params wired entry entry.implementation

  -- A node's entry, as its type's capability wants it.
  abbrev pub check_layer :
      List GraphEdge
      → String
      → GraphNode
      → Option String
      → Option NodeSemanticsEntry
      → Result (Unit {0}) SemanticsError
  check_layer edges node_id node (some capability_id) (some entry) =
      validate_entry node_id node.node_type node.params (wired_ports node_id edges) capability_id
        entry
  check_layer edges node_id node (some capability_id) none = err (missing_semantics node_id)
  check_layer edges node_id node none (some entry) = err (unexpected_semantics node_id)
  check_layer edges node_id node none none = ok tt

  -- The body of the loop over the nodes.
  unfoldable pub check_semantics :
      NodeRegistry → List GraphEdge → String × GraphNode → Result (Unit {0}) SemanticsError
  unfolding definition validate_entry wired_ports
  check_semantics reg edges (node_id, node) = do
    d ← map_err (λ e. structural_invalid (registry e)) (definition reg node.node_type)
    check_layer edges node_id node d.capability node.semantics

  unfoldable pub validate_semantics :
      NodeRegistry → WorkflowGraph → Result (Unit {0}) SemanticsError
  unfolding validate_graph check_semantics same
  validate_semantics reg graph = do
    graph_revision ← ok_or graph.catalog_revision catalog_revision_missing
    ensure (same graph_revision catalog.catalog_revision)
        (catalog_revision_stale graph_revision catalog.catalog_revision)
    map_err structural_invalid (validate_graph reg graph)
    for_each (check_semantics reg graph.edges) graph.nodes
