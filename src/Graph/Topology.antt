-- ===== src/Graph/Topology.antt =====
-- crates/graph/src/lib.rs: `topological_order` and `has_cycle`, Kahn's algorithm with the ready
-- nodes in the order of their ids.
pub mod Counting
pub mod Release
pub mod Setup
pub mod Drain
pub mod Correct
use helixflow.Base.{
  ℕ, zero, suc, ◌-◌, ◌+◌, String, Bool, true, false, List, [], ◌∷◌, ◌++◌, Result, ok, err, ok_or,
  ◌>>=◌, if◌then◌else◌, ◌==◌, length,
}
use helixflow.Base.Assoc
use helixflow.Base.Assoc.{BTreeMap, items}
use helixflow.Base.Keys
use helixflow.Base.Keys.{BTreeSet}
use helixflow.Graph.Types.{
  WorkflowGraph, GraphNode, GraphEdge, GraphResult, GraphError, missing_endpoint, cycle_detected,
}

-- The maps `incoming` and `outgoing`.
abbrev pub Maps : Type 0
Maps = BTreeMap ℕ × BTreeMap (List String)

pub no_incoming : BTreeMap GraphNode → BTreeMap ℕ
no_incoming [] = []
no_incoming ((id, node) ∷ m) = (id, 0) ∷ no_incoming m

-- The loop over the edges.
pub count_edges : List GraphEdge → BTreeMap ℕ → BTreeMap (List String) → GraphResult Maps
unfolding Assoc.lookup Assoc.insert Assoc.push
count_edges [] incoming outgoing = ok (incoming, outgoing)
count_edges (e ∷ es) incoming outgoing = do
  count ← ok_or (Assoc.lookup e.to.0 incoming) (missing_endpoint e.to.0)
  count_edges es (Assoc.insert e.to.0 (count + 1) incoming) (Assoc.push e.from.0 e.to.0 outgoing)

-- The ids that nothing points to.
pub initially_ready : BTreeMap ℕ → BTreeSet
initially_ready [] = []
initially_ready ((id, count) ∷ m) = if count == 0 then id ∷ initially_ready m else initially_ready m

-- The loop over the targets of a node that was popped. `count` is at least 1 there.
pub release : List String → BTreeMap ℕ → BTreeSet → GraphResult (BTreeMap ℕ × BTreeSet)
unfolding Assoc.lookup Assoc.insert Keys.insert
release [] incoming ready = ok (incoming, ready)
release (next ∷ rest) incoming ready = do
  count ← ok_or (Assoc.lookup next incoming) (missing_endpoint next)
  release rest (Assoc.insert next (count - 1) incoming)
      (if count - 1 == 0 then Keys.insert next ready else ready)

-- The `while let` loop, on fuel: what is left of `ready`, and the order.
pub drain :
    ℕ
    → BTreeMap (List String)
    → BTreeMap ℕ
    → BTreeSet
    → List String
    → GraphResult (BTreeSet × List String)
unfolding Assoc.lookup release
drain fuel outgoing incoming [] ordered = ok ([], ordered)
drain zero outgoing incoming (id ∷ ready) ordered = ok (id ∷ ready, ordered)
drain (suc fuel) outgoing incoming (id ∷ ready) ordered = do
  (incoming', ready') ← release (items (Assoc.lookup id outgoing)) incoming ready
  drain fuel outgoing incoming' ready' (ordered ++ id ∷ [])

-- Each round orders one node, so a round for each node is enough.
unfoldable pub topological_order : WorkflowGraph → GraphResult (List String)
unfolding count_edges no_incoming initially_ready drain
topological_order graph = do
  (incoming, outgoing) ← count_edges graph.edges (no_incoming graph.nodes) []
  (rest, ordered) ← drain (length graph.nodes) outgoing incoming (initially_ready incoming) []
  if length ordered == length graph.nodes then ok ordered else err cycle_detected

abbrev pub is_err {ℓ κ} : {A : Type ℓ} {E : Type κ} → Result A E → Bool
is_err (ok a) = false
is_err (err e) = true

unfoldable pub has_cycle : WorkflowGraph → Bool
unfolding topological_order
has_cycle graph = is_err (topological_order graph)
