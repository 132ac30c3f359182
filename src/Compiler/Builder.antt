-- ===== src/Compiler/Builder.antt =====
-- crates/compiler/src/graph_builder.rs: the graph that an intent stands for. A `?` and an early
-- return of a clarification both end the loop over the stages, as does an `expect` that fails and,
-- in a debug build, an assertion that does.
pub mod Clarify
pub mod Layout
pub mod Wiring
pub mod Texts
pub mod Stage
pub mod Total
pub mod Order
use helixflow.Base.{Bool, String, Option, some, List, [], ◌∷◌, Result, ok, map_err, ◌>>=◌, ◌>>◌}
use helixflow.Registry.{NodeRegistry}
use helixflow.Registry.Names.{CharTables}
use helixflow.Registry.Catalog.{CatalogSnapshot}
use helixflow.Registry.Resolver.{ConnectorAvailability}
use helixflow.Graph.Types.{WorkflowGraph}
use helixflow.Graph.Semantics.{SemanticsError, validate_semantics}
use helixflow.Compiler.Types.{IntentPlan, invalid_semantics}
use helixflow.Compiler.Types
use helixflow.Compiler.Builder.Clarify.{Stop, fail}
use helixflow.Compiler.Builder.Layout.{LayoutHint, apply_layout, place_synthesized}
use helixflow.Compiler.Builder.Stage.{ResolvedStage, Builder, build_stages}

pub record BuiltGraph : Type 0 where
  pub target : WorkflowGraph
  pub resolved_stages : List ResolvedStage
  pub layout_hints : List LayoutHint
  pub diagnostics : List String

abbrev pub empty_builder : Builder
empty_builder = record {
  nodes = [];
  edges = [];
  resolved_stages = [];
  diagnostics = [];
  synthesized_inputs = [];
}

-- The graph that the loop has built, with its layout.
unfoldable pub assemble : IntentPlan → CatalogSnapshot → Builder → BuiltGraph
unfolding apply_layout place_synthesized
assemble intent catalog built =
    let (nodes, hints) =
      place_synthesized built.synthesized_inputs (apply_layout intent built.nodes []) in
    record {
      target = record {
        schema_version = 1;
        catalog_revision = some catalog.catalog_revision;
        nodes = nodes;
        edges = built.edges;
      };
      resolved_stages = built.resolved_stages;
      layout_hints = hints;
      diagnostics = built.diagnostics;
    }

unfoldable pub build_graph :
    Bool
    → CharTables
    → NodeRegistry
    → CatalogSnapshot
    → ConnectorAvailability
    → Option String
    → IntentPlan
    → Result BuiltGraph Stop
unfolding build_stages assemble validate_semantics
build_graph debug_assertions tables reg catalog availability connector_preference intent = do
  built ←
      build_stages debug_assertions tables reg catalog availability connector_preference
        intent.stages 0 intent.stages empty_builder
  let graph = assemble intent catalog built
  map_err (λ (e : SemanticsError). fail (Types.graph_invalid (invalid_semantics e)))
      (validate_semantics catalog reg graph.target)
  ok graph
