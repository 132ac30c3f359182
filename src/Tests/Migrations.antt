-- ===== src/Tests/Migrations.antt =====
-- The migration of crates/graph/src/semantics.rs at a legacy graph that declares a model.
use helixflow.Base.{
  all, map, All-mem, String, none, true, some, [], ◌∷◌, ◌≡◌, refl, ok, same, before, All, ◌↔◌,
  subst, is_some, Bool-cases, inl, inr,
}
use helixflow.Json.{end, field, object, string, as_object}
use helixflow.Graph.Topology.Correct.{HasSortedNodes}
use helixflow.Graph.Types.{WorkflowGraph, pinned}
use helixflow.Graph.Semantics.{validate_semantics}
use helixflow.Graph.Migration.{
  MigrationReport, structural, mapped_pinned, migrate_v1_with_connector,
}
use helixflow.Graph.Migration.Loop.{
  HasSortedParams, GraphMigrated, migrate_v1_with_connector-GraphMigrated,
}
use helixflow.Graph.Migration.Validates.{
  IsConsistent, AcceptsPinned, IsLegacy, migrate_v1_with_connector-validate_semantics,
}
use helixflow.Graph.SemanticsLaws.{HasLayer, validate_semantics-ok_iff}
use helixflow.Graph.Validation.{validate_graph}
use helixflow.Graph.Semantics.{wired_ports}
use helixflow.Registry.Catalog.{binding}
use helixflow.Registry.Params.{validate_value_with_wired}
use helixflow.Base.Assoc
use helixflow.Base.Assoc.{lookup}
use helixflow.Base.Assoc.{keys}
use helixflow.Graph.Migration.Report.{is_settled, migrate_v1_with_connector-report}
use helixflow.Tests.Resolutions.{ascii, catalog}
use helixflow.Tests.Samples.{reg, graph, prompt_node, render_node, open_schema}

abbrev legacy : WorkflowGraph
legacy = record graph {
  nodes =
      ("a", record render_node { params = object (field "model" (string "FLUX-1") end) })
      ∷ ("b", prompt_node)
      ∷ [];
}

abbrev migrated : WorkflowGraph
migrated = record graph {
  catalog_revision = some "c1";
  nodes =
      (
        "a",
        record render_node {
          semantics = some (record {
            capability_id = "image.generate";
            mode = "image.generate";
            implementation = pinned "bfl/flux-1" "flux-fal";
          });
        },
      )
      ∷ ("b", prompt_node)
      ∷ [];
}

abbrev report : MigrationReport
report = record {
  migration_version = "1";
  source_schema_version = 1;
  catalog_revision = "c1";
  nodes =
      record { node_id = "a"; action = mapped_pinned "image.generate" "bfl/flux-1" "flux-fal" }
      ∷ record { node_id = "b"; action = structural }
      ∷ [];
  resolvable = true;
}

migrate_runs :
    migrate_v1_with_connector ascii catalog (some "fal") reg legacy ≡ (some migrated, report)
unfolding migrate_v1_with_connector same before
migrate_runs = refl

legacy_names : HasSortedNodes legacy
unfolding before
legacy_names = refl

legacy_params : All HasSortedParams legacy.nodes
unfolding as_object
legacy_params = (refl, (refl, tt))

migrate_v1_with_connector-GraphMigrated_example :
    GraphMigrated ascii catalog (some "fal") reg legacy migrated
migrate_v1_with_connector-GraphMigrated_example =
    migrate_v1_with_connector-GraphMigrated ascii catalog (some "fal") reg legacy migrated report
      legacy_names legacy_params migrate_runs

migrated_validates : validate_semantics catalog reg migrated ≡ ok tt
unfolding validate_semantics same before
migrated_validates = refl

validate_semantics-ok_iff_example : (validate_semantics catalog reg migrated ≡ ok tt) ↔ (
    (migrated.catalog_revision ≡ some catalog.catalog_revision)
    × (validate_graph reg migrated ≡ ok tt)
    × All (HasLayer catalog reg migrated.edges) migrated.nodes)
validate_semantics-ok_iff_example = validate_semantics-ok_iff catalog reg migrated

ids_distinct : All (λ b. binding catalog b.binding_id ≡ some b) catalog.bindings
unfolding binding same
ids_distinct = (refl, (refl, (refl, tt)))

the_id : {i j : String} → some i ≡ some j → i ≡ j
the_id e = cc

catalog-IsConsistent : IsConsistent catalog
unfolding binding same lookup
catalog-IsConsistent = record {
  unique =
      λ b m. All-mem (λ b. binding catalog b.binding_id ≡ some b) catalog.bindings ids_distinct m;
  moded =
      λ b m. All-mem (λ b. b.mode ≡ b.capability_id) catalog.bindings (refl, (refl, (refl, tt))) m;
  defaults = λ cap id e. elim (Bool-cases (same cap "image.generate")) [
    | inl is_cap ↦
        let found : some "imagen-fal" ≡ some id = rw is_cap at e in
        subst (λ i. is_some (binding catalog i) ≡ true) (the_id found) refl
    | inr other ↦ cc (rw other at e)
  ];
}

legacy-IsLegacy : IsLegacy legacy
legacy-IsLegacy id n e =
    Assoc.lookup_of_All (λ x. x.1.semantics ≡ none) id legacy.nodes (refl, (refl, tt)) e

-- The sample schemas accept every object.
migrated-AcceptsPinned : AcceptsPinned catalog migrated
unfolding validate_value_with_wired as_object
migrated-AcceptsPinned id n entry b m found has_entry pins =
    rw (All-mem (λ b. b.input_schema ≡ open_schema) catalog.bindings (refl, (refl, (refl, tt))) m) (
      Assoc.lookup_of_All
        (λ x.
          validate_value_with_wired open_schema b.binding_id x.1.params
            (wired_ports id migrated.edges)
          ≡ ok tt)
        id migrated.nodes (refl, (refl, tt)) found)

migrated_structure : validate_graph reg migrated ≡ ok tt
unfolding validate_graph same before
migrated_structure = refl

migrate_v1_with_connector-validate_semantics_example :
    validate_semantics catalog reg migrated ≡ ok tt
migrate_v1_with_connector-validate_semantics_example =
    migrate_v1_with_connector-validate_semantics ascii catalog (some "fal") reg legacy migrated
      report legacy_names legacy_params legacy-IsLegacy catalog-IsConsistent migrate_runs
      migrated_structure migrated-AcceptsPinned

migrate_v1_with_connector-report_example :
    let (migrated, report) = migrate_v1_with_connector ascii catalog (some "fal") reg legacy in
    (is_some migrated ≡ report.resolvable)
    × (report.resolvable ≡ all (λ n. is_settled n.action) report.nodes)
    × (map (λ n. n.node_id) report.nodes ≡ keys legacy.nodes)
migrate_v1_with_connector-report_example =
    migrate_v1_with_connector-report ascii catalog (some "fal") reg legacy
