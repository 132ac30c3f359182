-- ===== src/Graph/Proposal.antt =====
-- crates/graph/src/lib.rs: proposals, their preview, their application and the summary of their
-- changes. The comparison of two graphs as JSON is `palim`'s, over `serde_json`'s encoding, and is
-- a parameter.
use helixflow.Base.{
  String, Bool, true, false, Option, List, map, Result, ok, ensure, map_err, ◌>>=◌, ◌>>◌,
  if◌then◌else◌, same, same_iff, is_some, ◌≡◌, >>=-eq-ok, >>-eq-ok, refl, sym, ensure-eq-ok,
  ok-injective,
}
use Prim.Native.String.{◌++◌ as append}
use helixflow.Json.{Value}
use helixflow.Registry.{NodeRegistry}
use helixflow.Graph.Validation.{validate_graph}
use helixflow.Graph.Operations.{apply_ops}
use helixflow.Graph.Types.{
  WorkflowGraph, GraphResult, GraphError, ProposalOp, proposal_superseded, proposal_not_pending,
}

pub data ProposalKind : Type 0 where
  create modify fix sweep : ProposalKind

pub data ProposalState : Type 0 where
  pending applied dismissed superseded invalid : ProposalState

abbrev pub is_pending : ProposalState → Bool
is_pending pending = true
is_pending _ = false

pub record ProposalDraft : Type 0 where
  pub base_version_id : String
  pub kind : ProposalKind
  pub title : String
  pub summary : String
  pub ops : List ProposalOp
  pub message_id : Option String

pub record PreparedProposal : Type 0 where
  pub base_version_id : String
  pub kind : ProposalKind
  pub title : String
  pub summary : String
  pub ops : List ProposalOp
  pub diff_summary : List String
  pub preview_graph : WorkflowGraph
  pub state : ProposalState
  pub message_id : Option String

-- A difference that `palim` reports: a JSON pointer, and the values that are there on each side.
pub record Difference : Type 0 where
  pub path : String
  pub left : Option Value
  pub right : Option Value

unfoldable pub describe : Difference → String
describe d =
    if is_some d.left
    then if is_some d.right then append "~ " d.path else append "- " d.path
    else append "+ " d.path

-- The comparison of two encoded graphs, which may fail with a message.
abbrev pub Compare : Type 0
Compare = WorkflowGraph → WorkflowGraph → Result (List Difference) String

unfoldable pub ensure_proposal_applies_to_current :
    PreparedProposal → String → GraphResult (Unit {0})
unfolding same
ensure_proposal_applies_to_current proposal current_version_id = do
  ensure (is_pending proposal.state) proposal_not_pending
  ensure (same proposal.base_version_id current_version_id)
      (proposal_superseded proposal.base_version_id current_version_id)

unfoldable pub apply_proposal :
    NodeRegistry → WorkflowGraph → String → PreparedProposal → GraphResult WorkflowGraph
unfolding ensure_proposal_applies_to_current apply_ops validate_graph
apply_proposal reg base_graph current_version_id proposal = do
  ensure_proposal_applies_to_current proposal current_version_id
  graph ← apply_ops reg base_graph proposal.ops
  validate_graph reg graph
  ok graph

unfoldable pub dismiss_proposal : WorkflowGraph → WorkflowGraph
dismiss_proposal base_graph = base_graph

module _ (compare : Compare) where
  unfoldable pub summarize_diff : WorkflowGraph → WorkflowGraph → GraphResult (List String)
  unfolding describe
  summarize_diff base preview = do
    differences ← map_err GraphError.diff_summary (compare base preview)
    ok (map describe differences)

  unfoldable pub preview_proposal :
      NodeRegistry → WorkflowGraph → String → ProposalDraft → GraphResult PreparedProposal
  unfolding apply_ops validate_graph summarize_diff same
  preview_proposal reg base_graph current_version_id draft = do
    ensure (same draft.base_version_id current_version_id)
        (proposal_superseded draft.base_version_id current_version_id)
    preview ← apply_ops reg base_graph draft.ops
    validate_graph reg preview
    summary ← summarize_diff base_graph preview
    ok (record {
      base_version_id = draft.base_version_id;
      kind = draft.kind;
      title = draft.title;
      summary = draft.summary;
      ops = draft.ops;
      diff_summary = summary;
      preview_graph = preview;
      state = pending;
      message_id = draft.message_id;
    })

  -- What was previewed is what is applied: against the same base and version, applying a prepared
  -- proposal gives the preview's graph.
  pub apply_proposal-preview_proposal :
      (reg : NodeRegistry) (base_graph : WorkflowGraph) (current : String) (draft : ProposalDraft)
      (p : PreparedProposal)
      → preview_proposal reg base_graph current draft ≡ ok p
      → apply_proposal reg base_graph current p ≡ ok p.preview_graph
  unfolding preview_proposal apply_proposal
  apply_proposal-preview_proposal reg base_graph current draft p h =
      let (fresh, h1) = >>-eq-ok (ensure (same draft.base_version_id current) _) _ h in
      let (graph, applied_ok, h2) = >>=-eq-ok (apply_ops reg base_graph draft.ops) _ h1 in
      let (valid, h3) = >>-eq-ok (validate_graph reg graph) _ h2 in
      let (summary, _, last) = >>=-eq-ok (summarize_diff base_graph graph) _ h3 in
      let is_p = sym (ok-injective last) in rw (is_p, ensure-eq-ok _ _ fresh, applied_ok, valid)

-- A proposal that is applied is pending and its base is the current version; the result is what
-- its operations make of the base graph, and it is valid.
pub apply_proposal_lem :
    (reg : NodeRegistry) (base_graph g : WorkflowGraph) (current : String) (p : PreparedProposal)
    → apply_proposal reg base_graph current p ≡ ok g
    → (p.state ≡ pending)
      × (p.base_version_id ≡ current)
      × (apply_ops reg base_graph p.ops ≡ ok g)
      × (validate_graph reg g ≡ ok tt)
unfolding apply_proposal
apply_proposal_lem reg base_graph g current p h =
    let (applies, h1) = >>-eq-ok (ensure_proposal_applies_to_current p current) _ h in
    let (is_open, is_base) = >>-eq-ok (ensure (is_pending p.state) _) _ applies in
    let (graph, ran, h2) = >>=-eq-ok (apply_ops reg base_graph p.ops) _ h1 in
    let (valid, last) = >>-eq-ok (validate_graph reg graph) _ h2 in
    let same_graph = ok-injective last in
    (
      pending_of p.state (ensure-eq-ok _ _ is_open),
      (same_iff p.base_version_id current).0 (ensure-eq-ok _ _ is_base),
      rw same_graph at ran,
      rw same_graph at valid,
    )
  where
    pending_of : (s : ProposalState) → is_pending s ≡ true → s ≡ pending
    pending_of pending e = refl
    pending_of _ e = cc
