-- ===== src/Graph/Migration/Validates.antt =====
-- A graph that the migration of crates/graph/src/semantics.rs returns passes its validation.
use helixflow.Base.{
  String, true, Option, none, some, List, ok, ◌≡◌, refl, sym, ap, ◌∙◌, subst, is_some, inl, inr,
  All, Option-cases,
}
use mathlib.Core.List.{Memᴰ}
use helixflow.Base.Assoc
use helixflow.Base.Assoc.{lookup, keys}
use helixflow.Base.Keys.{BTreeSet, member, sorted}
use helixflow.Json.{Value}
use helixflow.Registry.{NodeRegistry, definition}
use helixflow.Registry.Names.{CharTables}
use helixflow.Registry.Params.{validate_value_with_wired}
use helixflow.Registry.Catalog.{CatalogSnapshot, CapabilityBinding, binding}
use helixflow.Graph.Types.{WorkflowGraph, GraphNode, GraphEdge, NodeSemanticsEntry, pinned}
use helixflow.Graph.Topology.Correct.{HasSortedNodes}
use helixflow.Graph.Validation.{validate_graph}
use helixflow.Graph.Semantics.{validate_semantics, wired_ports}
use helixflow.Graph.SemanticsLaws.{Implements, IsLayered, HasLayer, validate_semantics-ok_iff}
use helixflow.Graph.Migration.{MigrationReport, legacy_model, migrate_v1_with_connector}
use helixflow.Graph.Migration.Sound.{EntryFits, Layered}
use helixflow.Graph.Migration.Loop.{
  HasSortedParams, GraphMigrated, migrate_v1_with_connector-GraphMigrated,
}

-- The ids of a catalog's bindings are distinct, a binding's mode is its capability, and every
-- default names a binding, as in the catalog of crates/registry/src/catalog_seed.rs.
pub record IsConsistent (catalog : CatalogSnapshot) : Type 0 where
  pub unique :
      (b : CapabilityBinding) → Memᴰ b catalog.bindings → binding catalog b.binding_id ≡ some b
  pub moded : (b : CapabilityBinding) → Memᴰ b catalog.bindings → b.mode ≡ b.capability_id
  pub defaults :
      (cap id : String)
      → lookup cap catalog.default_bindings ≡ some id
      → is_some (binding catalog id) ≡ true

-- The schema of the binding that a node pins accepts the node's parameters.
abbrev pub AcceptsPinned : CatalogSnapshot → WorkflowGraph → Type 0
AcceptsPinned catalog g =
    (id : String) (n : GraphNode) (entry : NodeSemanticsEntry) (b : CapabilityBinding)
    → Memᴰ b catalog.bindings
    → lookup id g.nodes ≡ some n
    → n.semantics ≡ some entry
    → entry.implementation ≡ pinned b.model_id b.binding_id
    → validate_value_with_wired b.input_schema b.binding_id n.params (wired_ports id g.edges)
      ≡ ok tt

-- A graph without a semantic layer.
abbrev pub IsLegacy : WorkflowGraph → Type 0
IsLegacy g = (id : String) (n : GraphNode) → lookup id g.nodes ≡ some n → n.semantics ≡ none

module _ (tables : CharTables) (catalog : CatalogSnapshot) (connector : Option String)
    (consistent : IsConsistent catalog) where
  EntryFits-Implements :
      (cap : String) (model : Option String) (entry : NodeSemanticsEntry) (params : Value)
      (wired : BTreeSet)
      → EntryFits tables catalog connector cap model entry
      → ((b : CapabilityBinding)
          → Memᴰ b catalog.bindings
          → entry.implementation ≡ pinned b.model_id b.binding_id
          → validate_value_with_wired b.input_schema b.binding_id params wired ≡ ok tt)
      → Implements catalog params wired entry entry.implementation
  EntryFits-Implements cap (some query) entry params wired f accepted =
      let b = f.binding in
      subst (Implements catalog params wired entry) (sym f.selects) (
        b,
        consistent.unique b f.serves.listed,
        f.serves.implements ∙ sym f.is_capability,
        refl,
        consistent.moded b f.serves.listed ∙ f.serves.implements ∙ sym f.is_mode,
        accepted b f.serves.listed f.selects,
      )
  EntryFits-Implements cap none entry params wired f accepted =
      elim (Option-cases (lookup cap catalog.default_bindings)) [
        | inl missing ↦ cc (rw missing at f.selects.1)
        | inr (id, found) ↦
            subst (λ e. Implements catalog params wired e e.implementation) (sym f.selects.0)
              (id, found, consistent.defaults cap id found)
      ]

  Layered-IsLayered :
      (edges : List GraphEdge) (id : String) (c : Option String) (n n' : GraphNode)
      → Layered tables catalog connector c n n'
      → n.semantics ≡ none
      → ((entry : NodeSemanticsEntry) (b : CapabilityBinding)
          → Memᴰ b catalog.bindings
          → n'.semantics ≡ some entry
          → entry.implementation ≡ pinned b.model_id b.binding_id
          → validate_value_with_wired b.input_schema b.binding_id n'.params (wired_ports id edges)
            ≡ ok tt)
      → IsLayered catalog edges id n' c n'.semantics × (n'.node_type ≡ n.node_type)
  Layered-IsLayered edges id none n n' l plain accepted =
      (ap (λ x. x.semantics) l ∙ plain, ap (λ x. x.node_type) l)
  Layered-IsLayered edges id (some cap) n n' (entry, f, frame, stripped) plain accepted =
      let has_entry : n'.semantics ≡ some entry = ap (λ x. x.semantics) frame in
      (
        subst (IsLayered catalog edges id n' (some cap)) (sym has_entry) (
          f.is_capability,
          f.known,
          EntryFits-Implements cap (legacy_model n.params) entry n'.params (wired_ports id edges) f
              (λ b m e. accepted entry b m has_entry e),
        ),
        ap (λ x. x.node_type) frame,
      )

-- The graph that a migration returns, for a graph without a semantic layer whose nodes are held
-- in the order of their names and whose parameters are likewise, passes the validation of its
-- semantics, where the catalog is consistent, the structure is valid, and the schemas of the
-- bindings that are pinned accept the parameters that remain.
pub migrate_v1_with_connector-validate_semantics :
    (tables : CharTables) (catalog : CatalogSnapshot) (connector : Option String)
    (reg : NodeRegistry) (g g' : WorkflowGraph) (report : MigrationReport)
    → HasSortedNodes g
    → All HasSortedParams g.nodes
    → IsLegacy g
    → IsConsistent catalog
    → migrate_v1_with_connector tables catalog connector reg g ≡ (some g', report)
    → validate_graph reg g' ≡ ok tt
    → AcceptsPinned catalog g'
    → validate_semantics catalog reg g' ≡ ok tt
migrate_v1_with_connector-validate_semantics tables catalog connector reg g g' report s p legacy
      consistent h valid accepted =
    let moved : GraphMigrated tables catalog connector reg g g' =
      migrate_v1_with_connector-GraphMigrated tables catalog connector reg g g' report s p h in
    (validate_semantics-ok_iff catalog reg g').1 (
      ap (λ x. x.catalog_revision) moved.frame,
      valid,
      Assoc.All-of_lookup (HasLayer catalog reg g'.edges) g'.nodes (ap sorted moved.names ∙ s)
          λ id n' found.
            let (n, old) = Assoc.some_of_member id g.nodes (
              ap (member id) (sym moved.names)
              ∙ sym (Assoc.is_some-lookup id g'.nodes)
              ∙ ap is_some found) in
            let (n'', there, m) = moved.nodes id n old in
            let is_it : n'' ≡ n' = cc in
            let (layered, typed) =
              Layered-IsLayered tables catalog connector consistent g'.edges id m.def.capability n
                n' (subst (Layered tables catalog connector m.def.capability n) is_it m.layered)
                (legacy id n old) (λ entry b m e i. accepted id n' entry b m found e i) in
            (m.def, ap (definition reg) typed ∙ m.known, layered),
    )
