-- ===== src/Lib.antt =====
-- A model of the core of helixflow, a canvas on which an agent and a user build workflows that
-- generate text, images and video. A workflow is a graph of nodes; a node's type comes from a
-- registry, and the capability that a type executes is bound, through a catalog, to a model and a
-- connector. Proposals are lists of operations on a graph that are previewed and applied to the
-- version that they were made for. A graph is compiled into a plan of steps, which a run executes.
--
-- The parts and the files that model them. Paths are from the repository's root.
--   * Json: `serde_json::Value`, as crates/registry and crates/graph use it. An f64 is an integer
--     times 2^-1074, an infinity or NaN, so every comparison is exact.
--   * Registry (crates/registry/src/lib.rs), Registry/Types and Registry/Params (types.rs),
--     Registry/Messages (error.rs): node types and the validation of a node's parameters.
--     Registry/Lookup and Registry/ParamsLaws hold their proofs.
--   * Registry/Catalog (catalog.rs): capabilities, models, connectors and bindings; its children Build
--     and Queries hold `CatalogSnapshot::build` and the queries that cross bindings.
--   * Registry/Names and Registry/Resolver (resolver.rs): the choice of one binding for a request, and
--     in Registry/Resolver/Display its errors' messages. Registry/Resolver/Sound holds its proof.
--   * Graph/Types (crates/graph/src/lib.rs): the graph, its operations as values, its errors.
--   * Graph/Topology: `topological_order` and `has_cycle`. Its children Counting, Setup, Release,
--     Drain and Correct prove Kahn's algorithm.
--   * Graph/Validation: `GraphService::validate_graph`; Graph/Validation/Sound and
--     Graph/Validation/Complete prove what it accepts.
--   * Graph/Operations: `apply_op_in_place`, `apply_ops`, and with Graph/Lineage `spawn_derived` of
--     semantics.rs. Its children Frame, Effects and SetParam and Graph/LineageLaws hold the proofs.
--   * Graph/Proposal: `preview_proposal`, `apply_proposal`, `dismiss_proposal`.
--   * Graph/Plan: `compile_plan`; Graph/PlanLaws holds the proofs.
--   * Graph/Semantics: `validate_semantics` (semantics.rs).
--   * Graph/Migration: `migrate_v1` and `migrate_v1_for_connector`; its children Sound, Loop
--     and Report hold the proofs.
--   * Graph/SemanticsLaws and Graph/Migration/Validates: what the validation accepts, and that it accepts
--     what a migration returns.
--   * Run/Errors and Run/StepDag (crates/run/src/error.rs and step_dag.rs): the dependencies between the
--     steps of a plan. Its children Indexes, Links, Ascends and Total hold sets of positions and the
--     proofs.
--   * Run/Inputs and Run/Executor (crates/run/src/executor.rs): a step's inputs, and the loop that
--     starts a run's steps and joins their tasks; in its child Lifecycle the loop's start and the
--     run's end. Run/InputsLaws, Counts, Invariant, Turns, Joins and Restore hold the proofs, Runs the step relation,
--     Correct and Plans the theorems.
--   * Run/Policy (crates/run/src/run_policy.rs): the confirmation of costs and the limit on retries.
--   * Compiler/Types, Compiler/Intent (crates/compiler/src/errors.rs and intent.rs): the intent that an
--     agent states as a list of stages, and its validation; Stages, Chain and Accepts hold the proofs.
--   * Compiler/Builder (graph_builder.rs): the graph built from an intent. Its children are Clarify
--     (the questions to the user), Wiring (a stage's edges), Texts (its parameters), Stage (its node),
--     Layout (positions), Order and Total (proofs).
--   * Compiler/Diff (proposal_diff.rs): the operations that lead from one graph to another. Its
--     children Edges, Removals, Nodes, Kept, Loop and Converges hold the proofs.
--   * Compiler (crates/compiler/src/lib.rs): `compile` and `compile_for_connector`, which validate an
--     intent, build its graph and state the difference. Compiler/Correct holds the proofs.
--   * Agent/Types, Agent/Bindings and Agent/CanvasEdit (crates/agent/src/canvas_edit.rs): the edits
--     that an agent asks for, compiled into a proposal's operations; Translated, Bounds and Sound
--     hold the proofs.
--   * Base: lists, options, results, ordered maps and sets, and strings. Tests: runs at small inputs.
--
-- How the code is written in the model. A `BTreeMap` is a list of pairs whose keys rise strictly;
-- a theorem that needs this of a given map says so. A function that may fail returns a `Result`,
-- whose do blocks are Rust's `?`. A graph that is mutated in place is passed and returned. The
-- loop of `topological_order` is recursion on fuel, with a round for each node, which is enough
-- because each round orders one node. The position of a node is a pair of `f32`, in the type of
-- f64 numbers: what the compiler computes is rounded to 24 bits, to the nearest, ties to even, by
-- recursion on fuel for the bits above these (40 and 48 for a count of columns or rows and its
-- product, 1200 for a difference). A panic of the compiler is a value of its error type, and
-- whether the build has debug assertions is an argument. The executor's tasks end in any order, so
-- the runs of its loop are a relation on its states; a task is a position until its result is
-- joined, and what the loop writes to the store and emits is a list of events. Parameters stand
-- for what is not in the repository: `CharTables` for Unicode's white space and lower case,
-- `Compare` for the comparison of JSON documents by the crate palim, and a digest for SHA-256 over
-- serde's encoding of a catalog. A threshold or a limit that the environment holds is an argument.
--
-- Not modelled: what is written to the store (`apply_proposal_version`, and crates/store), the
-- work of a step and the recovery of runs (the rest of crates/run), the agent's processes and the
-- text printed for it (the rest of crates/agent), the providers' clients (crates/gateway), the
-- HTTP server (crates/server), and serde's encodings. All of this is I/O, SQL or asynchronous code
-- around the core.
pub mod Base
pub mod Json
pub mod Agent
pub mod Compiler
pub mod Graph
pub mod Registry
pub mod Run
pub mod Tests
