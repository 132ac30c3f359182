-- ===== src/Tests/Graphs.antt =====
-- The graph service of crates/graph at the sample graphs.
use helixflow.Base.{true, false, [], ◌∷◌, ◌≡◌, refl, ok, err, ◌↔◌, same, before}
use helixflow.Base.Assoc
use helixflow.Base.Keys
use helixflow.Graph.Topology.{topological_order, has_cycle}
use helixflow.Graph.Topology.Correct.{
  IsOrdering, IsAcyclic, HasEndpoints, topological_order-IsOrdering, has_cycle_iff,
}
use helixflow.Graph.Types.{cycle_detected}
use helixflow.Graph.Validation.{validate_graph}
use helixflow.Graph.Validation.Sound.{IsWellFormed}
use helixflow.Graph.Validation.Complete.{validate_graph_iff}
use helixflow.Tests.Samples.{reg, graph, loop}

topological_order_runs :
    (topological_order graph ≡ ok ("b" ∷ "a" ∷ [])) × (topological_order loop ≡ err cycle_detected)
unfolding topological_order same before
topological_order_runs = (refl, refl)

pub sorted_names : (Keys.sorted (Assoc.keys graph.nodes) ≡ true)
unfolding before
sorted_names = refl

topological_order-IsOrdering_example : IsOrdering graph ("b" ∷ "a" ∷ [])
topological_order-IsOrdering_example =
    topological_order-IsOrdering graph ("b" ∷ "a" ∷ []) sorted_names topological_order_runs.0

pub ends_known : HasEndpoints graph
unfolding same
ends_known = ((refl, refl), tt)

has_cycle_iff_example : (has_cycle graph ≡ false) ↔ IsAcyclic graph
has_cycle_iff_example = has_cycle_iff graph sorted_names ends_known

validate_graph_runs : validate_graph reg graph ≡ ok tt
unfolding validate_graph same before
validate_graph_runs = refl

validate_graph_iff_example : (validate_graph reg graph ≡ ok tt) ↔ IsWellFormed reg graph
validate_graph_iff_example = validate_graph_iff reg graph sorted_names
