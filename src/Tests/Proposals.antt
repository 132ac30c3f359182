-- ===== src/Tests/Proposals.antt =====
-- The proposals and plans of crates/graph at the sample graphs.
use helixflow.Base.{none, some, [], ◌∷◌, ◌≡◌, refl, ok, same, before, map, All, ◌++◌}
use helixflow.Graph.Topology.Correct.{IsOrdering}
use helixflow.Graph.Types.{WorkflowGraph, spawn_node, add_edge}
use helixflow.Graph.Validation.{validate_graph}
use helixflow.Graph.Operations.{apply_ops}
use helixflow.Graph.Proposal.{
  Compare, ProposalDraft, PreparedProposal, modify, pending, preview_proposal, apply_proposal,
  apply_proposal-preview_proposal, apply_proposal_lem,
}
use helixflow.Graph.Plan.{ExecutionPlan, compile_plan}
use helixflow.Graph.PlanLaws.{StepFits, compile_plan-fits}
use helixflow.Tests.Graphs.{sorted_names}
use helixflow.Tests.Operations.{derived}
use helixflow.Tests.Samples.{reg, graph, render_node, prompt_node, wire}

-- A comparison that finds nothing.
abbrev silent : Compare
silent left right = ok []

abbrev previewed : WorkflowGraph
previewed = record derived { edges = derived.edges ++ wire "b" "d" ∷ [] }

abbrev draft : ProposalDraft
draft = record {
  base_version_id = "v1";
  kind = modify;
  title = "a variant";
  summary = "";
  ops = spawn_node "d" render_node "a" ∷ add_edge (wire "b" "d") ∷ [];
  message_id = none;
}

abbrev prepared : PreparedProposal
prepared = record {
  base_version_id = "v1";
  kind = modify;
  title = "a variant";
  summary = "";
  ops = spawn_node "d" render_node "a" ∷ add_edge (wire "b" "d") ∷ [];
  diff_summary = [];
  preview_graph = previewed;
  state = pending;
  message_id = none;
}

preview_runs : preview_proposal silent reg graph "v1" draft ≡ ok prepared
unfolding preview_proposal same before
preview_runs = refl

apply_proposal-preview_proposal_example : apply_proposal reg graph "v1" prepared ≡ ok previewed
apply_proposal-preview_proposal_example =
    apply_proposal-preview_proposal silent reg graph "v1" draft prepared preview_runs

apply_runs : apply_proposal reg graph "v1" prepared ≡ ok previewed
unfolding apply_proposal same before
apply_runs = refl

apply_proposal_lem_example :
    (prepared.state ≡ pending)
    × (prepared.base_version_id ≡ "v1")
    × (apply_ops reg graph prepared.ops ≡ ok previewed)
    × (validate_graph reg previewed ≡ ok tt)
apply_proposal_lem_example = apply_proposal_lem reg graph previewed "v1" prepared apply_runs

abbrev pub plan : ExecutionPlan
plan = record {
  schema_version = 1;
  version_id = "v1";
  catalog_revision = none;
  steps =
      record {
        node_id = "b";
        node_type = "prompt";
        provider = none;
        capability = none;
        inputs = [];
        params = prompt_node.params;
        resolved = none;
      }
      ∷ record {
        node_id = "a";
        node_type = "render";
        provider = some "fal";
        capability = some "image.generate";
        inputs = ("prompt", ("b", "text") ∷ []) ∷ [];
        params = render_node.params;
        resolved = none;
      }
      ∷ [];
}

pub plan_runs : compile_plan reg graph "v1" "fal" ≡ ok plan
unfolding compile_plan same before
plan_runs = refl

compile_plan-fits_example :
    IsOrdering graph (map (λ s. s.node_id) plan.steps)
    × All (StepFits reg graph "fal") plan.steps
    × (plan.version_id ≡ "v1")
    × (validate_graph reg graph ≡ ok tt)
compile_plan-fits_example = compile_plan-fits reg graph "v1" "fal" plan sorted_names plan_runs
