-- ===== src/Compiler/Builder/Layout.antt =====
-- crates/compiler/src/graph_builder.rs: the positions of nodes. An `f32` is one of the numbers of
-- Json, rounded to 24 bits; a graph of fewer than 2^64 stages stays far below the largest.
use helixflow.Base.{
  ℕ, zero, suc, ◌+◌, ◌-◌, ◌*◌, ◌^◌, String, Option, none, some, List, [], ◌∷◌, ◌++◌, if◌then◌else◌,
  ltb, leb,
}
use helixflow.Base.Assoc
use helixflow.Base.Assoc.{BTreeMap}
use helixflow.Json.{F64, finite, infinite, nan, ℤ, pos, negsuc, round_bits}
use helixflow.Registry.Params.{is_empty}
use helixflow.Graph.Types.{GraphNode, Pair}
use helixflow.Compiler.Types.{
  IntentPlan, StageIntent, StageInputRef, TopologyIntent, linear, parallel,
}

pub record LayoutHint : Type 0 where
  pub node_id : String
  pub pos : Pair

abbrev pub column_width : ℕ
column_width = 240

abbrev pub row_height : ℕ
row_height = 180

-- `n as f32 * size` for a size of few bits.
unfoldable pub scaled : ℕ → ℕ → F64
unfolding round_bits
scaled n size = finite (pos (round_bits 24 48 (round_bits 24 40 n * size) * 2 ^ 1074))

abbrev pub origin : Pair
origin = (finite (pos 0), finite (pos 0))

-- The magnitude of a negative number, one less than which `negsuc` holds.
abbrev negated : ℕ → ℤ
negated zero = pos 0
negated (suc n) = negsuc n

abbrev round_ℤ : ℤ → ℤ
round_ℤ (pos n) = pos (round_bits 24 1200 n)
round_ℤ (negsuc n) = negated (round_bits 24 1200 (suc n))

abbrev minus : ℤ → ℕ → ℤ
minus (pos m) n = if leb n m then pos (m - n) else negsuc (n - m - 1)
minus (negsuc m) n = negsuc (m + n)

-- `x - COLUMN_WIDTH`
unfoldable pub one_column_left : F64 → F64
unfolding round_bits
one_column_left (finite a) = finite (round_ℤ (minus a (column_width * 2 ^ 1074)))
one_column_left (infinite negative) = infinite negative
one_column_left nan = nan

-- The maps `branch_of` and `depth_of`, the counter, the nodes and the hints.
pub record LayoutState : Type 0 where
  pub branch_of : BTreeMap ℕ
  pub depth_of : BTreeMap ℕ
  pub next_branch : ℕ
  pub nodes : BTreeMap GraphNode
  pub hints : List LayoutHint

abbrev max : ℕ → ℕ → ℕ
max a b = if ltb a b then b else a

abbrev raised : ℕ → Option ℕ → ℕ
raised branch none = branch
raised branch (some upstream) = max branch upstream

abbrev raised_suc : ℕ → Option ℕ → ℕ
raised_suc depth none = depth
raised_suc depth (some upstream) = max depth (upstream + 1)

-- The loop over the inputs of a stage.
unfoldable pub place_inputs : BTreeMap ℕ → BTreeMap ℕ → ℕ × ℕ → List StageInputRef → ℕ × ℕ
unfolding Assoc.lookup
place_inputs branch_of depth_of place [] = place
place_inputs branch_of depth_of (branch, depth) (input ∷ inputs) =
    place_inputs branch_of depth_of
      (
        raised branch (Assoc.lookup input.stage_id branch_of),
        raised_suc depth (Assoc.lookup input.stage_id depth_of),
      )
      inputs

-- The branch and depth of a stage, and the next counter.
abbrev pub place_stage : TopologyIntent → LayoutState → StageIntent → (ℕ × ℕ) × ℕ
place_stage topology state stage =
    if is_empty stage.input_from
    then elim topology [
      | parallel ↦ ((state.next_branch, 0), state.next_branch + 1)
      | linear ↦ ((0, 0), state.next_branch)
    ]
    else (place_inputs state.branch_of state.depth_of (0, 0) stage.input_from, state.next_branch)

abbrev pub placed_at : ℕ × ℕ → Pair
placed_at (branch, depth) = (scaled depth column_width, scaled branch row_height)

unfoldable pub layout_stage : TopologyIntent → LayoutState → StageIntent → LayoutState
unfolding Assoc.insert Assoc.adjust place_inputs scaled
layout_stage topology state stage =
    let (place, next_branch) = place_stage topology state stage in
    record {
      branch_of = Assoc.insert stage.stage_id place.0 state.branch_of;
      depth_of = Assoc.insert stage.stage_id place.1 state.depth_of;
      next_branch = next_branch;
      nodes = Assoc.adjust stage.stage_id (λ n. record n { pos = placed_at place }) state.nodes;
      hints = state.hints ++ record { node_id = stage.stage_id; pos = placed_at place } ∷ [];
    }

unfoldable pub layout_stages : TopologyIntent → LayoutState → List StageIntent → LayoutState
unfolding layout_stage
layout_stages topology state [] = state
layout_stages topology state (stage ∷ stages) =
    layout_stages topology (layout_stage topology state stage) stages

unfoldable pub apply_layout :
    IntentPlan → BTreeMap GraphNode → List LayoutHint → BTreeMap GraphNode × List LayoutHint
unfolding layout_stages
apply_layout intent nodes hints =
    let last =
      layout_stages intent.topology
        (record { branch_of = []; depth_of = []; next_branch = 0; nodes = nodes; hints = hints })
        intent.stages in
    (last.nodes, last.hints)

abbrev pos_of : Option GraphNode → Pair
pos_of none = origin
pos_of (some n) = n.pos

-- The loop over the synthesized inputs: each stands one column left of its consumer.
unfoldable pub place_synthesized :
    List (String × String)
    → BTreeMap GraphNode × List LayoutHint
    → BTreeMap GraphNode × List LayoutHint
unfolding Assoc.lookup Assoc.adjust one_column_left
place_synthesized [] state = state
place_synthesized ((input_id, consumer_id) ∷ rest) (nodes, hints) =
    let consumer_pos = pos_of (Assoc.lookup consumer_id nodes) in
    let at : Pair = (one_column_left consumer_pos.0, consumer_pos.1) in
    place_synthesized rest (
      Assoc.adjust input_id (λ n. record n { pos = at }) nodes,
      hints ++ record { node_id = input_id; pos = at } ∷ [],
    )
