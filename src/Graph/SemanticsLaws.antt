-- ===== src/Graph/SemanticsLaws.antt =====
-- What `validate_semantics` of crates/graph/src/semantics.rs accepts.
use helixflow.Base.{
  String, true, false, Option, none, some, List, [], ◌∷◌, ok, ok_or, map_err, ensure, for_each, ◌≡◌,
  ◌↔◌, refl, sym, ap, ◌∙◌, same, same_iff, same_refl, is_some, All, >>=-eq-ok, >>-eq-ok,
  ensure-eq-ok, ok_or-eq-ok, map_err-eq-ok,
}
use helixflow.Base.Assoc
use helixflow.Base.Assoc.{BTreeMap}
use helixflow.Base.Keys.{BTreeSet}
use helixflow.Json.{Value}
use helixflow.Registry.{NodeRegistry, definition}
use helixflow.Registry.Types.{NodeDefinition}
use helixflow.Registry.Params.{validate_value_with_wired}
use helixflow.Registry.Catalog.{CatalogSnapshot, CapabilityBinding, capability, binding}
use helixflow.Graph.Types.{
  WorkflowGraph, GraphNode, GraphEdge, NodeSemanticsEntry, ImplementationSelection, pinned, policy,
}
use helixflow.Graph.Validation.{validate_graph}
use helixflow.Graph.Semantics.{
  structural_invalid, catalog_revision_missing, binding_not_found, policy_default_missing,
  validate_pinned, validate_policy, validate_implementation, validate_entry, check_layer,
  check_semantics, validate_semantics, wired_ports,
}

module _ (catalog : CatalogSnapshot) where
  -- A pinned entry names a binding of its capability, its mode and its model, whose schema accepts
  -- the node's parameters; any other entry has a default binding.
  abbrev pub Implements : Value → BTreeSet → NodeSemanticsEntry → ImplementationSelection → Type 0
  Implements params wired entry (pinned model binding_id) =
      (b : CapabilityBinding) × (binding catalog binding_id ≡ some b)
      × (b.capability_id ≡ entry.capability_id)
      × (b.model_id ≡ model)
      × (b.mode ≡ entry.mode)
      × (validate_value_with_wired b.input_schema binding_id params wired ≡ ok tt)
  Implements params wired entry (policy policy_id constraints) =
      (id : String) × (Assoc.lookup entry.capability_id catalog.default_bindings ≡ some id)
      × (is_some (binding catalog id) ≡ true)

  -- A node has an entry exactly if its type has a capability, and the entry is of that capability,
  -- which the catalog knows.
  abbrev pub IsLayered :
      List GraphEdge → String → GraphNode → Option String → Option NodeSemanticsEntry → Type 0
  IsLayered edges id node none entry = entry ≡ none
  IsLayered edges id node (some cap) none = true ≡ false
  IsLayered edges id node (some cap) (some entry) =
      (entry.capability_id ≡ cap)
      × (is_some (capability catalog cap) ≡ true)
      × Implements node.params (wired_ports id edges) entry entry.implementation

  pinned_iff :
      (id : String) (params : Value) (wired : BTreeSet) (entry : NodeSemanticsEntry)
      (model binding_id : String)
      → (validate_pinned catalog id params wired entry model binding_id ≡ ok tt)
        ↔ Implements params wired entry (pinned model binding_id)
  unfolding validate_pinned
  pinned_iff id params wired entry model binding_id = (
    λ h.
        let (b, found, h1) =
          >>=-eq-ok (ok_or (binding catalog binding_id) (binding_not_found id binding_id)) _ h in
        let (c, h2) = >>-eq-ok (ensure (same b.capability_id entry.capability_id) _) _ h1 in
        let (m, h3) = >>-eq-ok (ensure (same b.model_id model) _) _ h2 in
        let (d, last) = >>-eq-ok (ensure (same b.mode entry.mode) _) _ h3 in
        (
          b,
          ok_or-eq-ok _ _ found,
          (same_iff b.capability_id entry.capability_id).0 (ensure-eq-ok _ _ c),
          (same_iff b.model_id model).0 (ensure-eq-ok _ _ m),
          (same_iff b.mode entry.mode).0 (ensure-eq-ok _ _ d),
          map_err-eq-ok _ _ last,
        ),
    λ (b, found, c, m, d, accepted). rw (
      found,
      (same_iff b.capability_id entry.capability_id).1 c,
      (same_iff b.model_id model).1 m,
      (same_iff b.mode entry.mode).1 d,
      accepted,
    ),
  )

  policy_iff :
      (id policy_id : String) (params constraints : Value) (wired : BTreeSet)
      (entry : NodeSemanticsEntry)
      → (validate_policy catalog id entry ≡ ok tt)
        ↔ Implements params wired entry (policy policy_id constraints)
  unfolding validate_policy
  policy_iff id policy_id params constraints wired entry = (
    λ h.
        let (d, found, last) =
          >>=-eq-ok
            (ok_or (Assoc.lookup entry.capability_id catalog.default_bindings)
              (policy_default_missing id entry.capability_id))
            _ h in
        (d, ok_or-eq-ok _ _ found, ensure-eq-ok _ _ last),
    λ (d, found, known). rw (found, known),
  )

  implementation_iff :
      (id : String) (params : Value) (wired : BTreeSet) (entry : NodeSemanticsEntry)
      (s : ImplementationSelection)
      → (validate_implementation catalog id params wired entry s ≡ ok tt)
        ↔ Implements params wired entry s
  implementation_iff id params wired entry (pinned model binding_id) =
      pinned_iff id params wired entry model binding_id
  implementation_iff id params wired entry (policy policy_id constraints) =
      policy_iff id policy_id params constraints wired entry

  layer_iff :
      (edges : List GraphEdge) (id : String) (node : GraphNode) (c : Option String)
      (o : Option NodeSemanticsEntry)
      → (check_layer catalog edges id node c o ≡ ok tt) ↔ IsLayered edges id node c o
  unfolding validate_entry
  layer_iff edges id node none none = (λ h. refl, λ h. refl)
  layer_iff edges id node none (some entry) = (λ h. cc, λ h. cc)
  layer_iff edges id node (some cap) none = (λ h. cc, λ h. cc)
  layer_iff edges id node (some cap) (some entry) = (
    λ h.
        let (c, h1) = >>-eq-ok (ensure (same entry.capability_id cap) _) _ h in
        let (k, last) =
          >>-eq-ok (ensure (is_some (capability catalog entry.capability_id)) _) _ h1 in
        let is_cap = (same_iff entry.capability_id cap).0 (ensure-eq-ok _ _ c) in
        (
          is_cap,
          ap (λ x. is_some (capability catalog x)) (sym is_cap) ∙ ensure-eq-ok _ _ k,
          (implementation_iff id node.params (wired_ports id edges) entry entry.implementation).0
              last,
        ),
    λ (is_cap, known, implements).
        rw
          (
            (same_iff entry.capability_id cap).1 is_cap,
            ap (λ x. is_some (capability catalog x)) is_cap ∙ known,
          )
          ((implementation_iff id node.params (wired_ports id edges) entry entry.implementation).1
            implements),
  )

  -- A node of the graph, with its type's definition.
  abbrev pub HasLayer : NodeRegistry → List GraphEdge → String × GraphNode → Type 0
  HasLayer reg edges (id, node) =
      (d : NodeDefinition) × (definition reg node.node_type ≡ ok d)
      × IsLayered edges id node d.capability node.semantics

  check_semantics_iff :
      (reg : NodeRegistry) (edges : List GraphEdge) (id : String) (node : GraphNode)
      → (check_semantics catalog reg edges (id, node) ≡ ok tt) ↔ HasLayer reg edges (id, node)
  unfolding check_semantics
  check_semantics_iff reg edges id node = (
    λ h.
        let (d, known, last) = >>=-eq-ok (map_err _ (definition reg node.node_type)) _ h in
        (d, map_err-eq-ok _ _ known, (layer_iff edges id node d.capability node.semantics).0 last),
    λ (d, known, layered).
        rw known ((layer_iff edges id node d.capability node.semantics).1 layered),
  )

  nodes_iff :
      (reg : NodeRegistry) (edges : List GraphEdge) (nodes : BTreeMap GraphNode)
      → (for_each (check_semantics catalog reg edges) nodes ≡ ok tt)
        ↔ All (HasLayer reg edges) nodes
  nodes_iff reg edges [] = (λ h. tt, λ h. refl)
  nodes_iff reg edges ((id, node) ∷ nodes) = (
    λ h.
        let (first, rest) = >>-eq-ok (check_semantics catalog reg edges (id, node)) _ h in
        ((check_semantics_iff reg edges id node).0 first, (nodes_iff reg edges nodes).0 rest),
    λ (first, rest).
        rw ((check_semantics_iff reg edges id node).1 first) ((nodes_iff reg edges nodes).1 rest),
  )

-- `validate_semantics` accepts exactly the graphs that carry the catalog's revision, are valid in
-- structure, and have an entry that the catalog supports on each node of an executable type and
-- none on any other node.
pub validate_semantics-ok_iff :
    (catalog : CatalogSnapshot) (reg : NodeRegistry) (g : WorkflowGraph)
    → (validate_semantics catalog reg g ≡ ok tt) ↔ (
        (g.catalog_revision ≡ some catalog.catalog_revision)
        × (validate_graph reg g ≡ ok tt)
        × All (HasLayer catalog reg g.edges) g.nodes)
unfolding validate_semantics
validate_semantics-ok_iff catalog reg g = (
  λ h.
      let (r, found, h1) = >>=-eq-ok (ok_or g.catalog_revision catalog_revision_missing) _ h in
      let (current, h2) = >>-eq-ok (ensure (same r catalog.catalog_revision) _) _ h1 in
      let (valid, last) = >>-eq-ok (map_err structural_invalid (validate_graph reg g)) _ h2 in
      (
        ok_or-eq-ok _ _ found
            ∙ ap some ((same_iff r catalog.catalog_revision).0 (ensure-eq-ok _ _ current)),
        map_err-eq-ok _ _ valid,
        (nodes_iff catalog reg g.edges g.nodes).0 last,
      ),
  λ (current, valid, layered).
      rw (current, same_refl catalog.catalog_revision, valid)
        ((nodes_iff catalog reg g.edges g.nodes).1 layered),
)
