-- ===== src/Compiler.antt =====
-- crates/compiler/src/lib.rs: intents compiled to graphs and to proposals, in a build with debug
-- assertions or without.
pub mod Types
pub mod Intent
pub mod Diff
pub mod Builder
pub mod Correct
use helixflow.Base.{
  Bool, String, Option, none, some, List, Result, ok, err, map_err, ok_or, ◌>>=◌, ◌>>◌,
}
use helixflow.Base.{ℕ}
use helixflow.Registry.{NodeRegistry}
use helixflow.Registry.Names.{CharTables}
use helixflow.Registry.Catalog.{CatalogSnapshot}
use helixflow.Registry.Resolver.{ConnectorAvailability}
use helixflow.Graph.Types.{WorkflowGraph, ProposalOp}
use helixflow.Compiler.Types.{IntentPlan, CompileError, ClarifyFirst}
use helixflow.Compiler.Intent.{validate_intent}
use helixflow.Compiler.Diff.{diff}
use helixflow.Compiler.Builder.{BuiltGraph, build_graph}
use helixflow.Compiler.Builder.Clarify.{Stop, clarify, fail, panicked}
use helixflow.Compiler.Builder.Layout.{LayoutHint}
use helixflow.Compiler.Builder.Stage.{ResolvedStage}

pub record CompiledProposal : Type 0 where
  pub graph_schema_version : ℕ
  pub catalog_revision : String
  pub ops : List ProposalOp
  pub resolved_stages : List ResolvedStage
  pub target : WorkflowGraph
  pub layout_hints : List LayoutHint
  pub diagnostics : List String

pub data CompileOutcome : Type 0 where
  compiled : CompiledProposal → CompileOutcome
  clarified : ClarifyFirst → CompileOutcome

-- An error of the compiler, or the end of the program by an `expect` or, in a debug build, an assertion.
pub data Failure : Type 0 where
  error : CompileError → Failure
  panic : Failure

abbrev pub proposal_of : WorkflowGraph → BuiltGraph → String → CompiledProposal
proposal_of current built catalog_revision = record {
  graph_schema_version = built.target.schema_version;
  catalog_revision = catalog_revision;
  ops = diff current built.target;
  resolved_stages = built.resolved_stages;
  target = built.target;
  layout_hints = built.layout_hints;
  diagnostics = built.diagnostics;
}

abbrev pub outcome : WorkflowGraph → Result BuiltGraph Stop → Result CompileOutcome Failure
outcome current (ok built) = do
  catalog_revision ← ok_or built.target.catalog_revision panic
  ok (compiled (proposal_of current built catalog_revision))
outcome current (err (clarify c)) = ok (clarified c)
outcome current (err (fail e)) = err (error e)
outcome current (err panicked) = err panic

unfoldable pub compile_for_connector :
    Bool
    → CharTables
    → NodeRegistry
    → CatalogSnapshot
    → ConnectorAvailability
    → Option String
    → IntentPlan
    → WorkflowGraph
    → Result CompileOutcome Failure
unfolding validate_intent build_graph diff
compile_for_connector debug_assertions tables reg catalog availability connector_preference intent
      current =
    do
      map_err error (validate_intent intent)
      outcome current
          (build_graph debug_assertions tables reg catalog availability connector_preference intent)

unfoldable pub compile :
    Bool
    → CharTables
    → NodeRegistry
    → CatalogSnapshot
    → ConnectorAvailability
    → IntentPlan
    → WorkflowGraph
    → Result CompileOutcome Failure
unfolding compile_for_connector
compile debug_assertions tables reg catalog availability intent current =
    compile_for_connector debug_assertions tables reg catalog availability none intent current
