-- ===== src/Tests/Operations.antt =====
-- The operations of crates/graph at the sample graphs.
use helixflow.Base.{All-mem, true, some, [], ◌∷◌, ◌≡◌, refl, ok, err, inr, same, before}
use helixflow.Json.{string}
use helixflow.Graph.Topology.Correct.{HasEndpoints}
use helixflow.Graph.Types.{
  WorkflowGraph, add_node, remove_node, set_param, spawn_node, set_param_conflict,
}
use helixflow.Graph.Operations.{apply_op}
use helixflow.Graph.Operations.SetParam.{ParamSet, apply_op-ParamSet}
use helixflow.Graph.Operations.Frame.{Keeps, apply_op-Keeps}
use helixflow.Graph.Operations.Effects.{apply_op-HasEndpoints, remove_node-undoes}
use helixflow.Tests.Graphs.{ends_known}
use mathlib.Core.List.{Memᴰ}
use helixflow.Registry.Types.{PortDefinition}
use helixflow.Graph.Lineage.{LineagePorts, is_media_ref, matching_connection_ports}
use helixflow.Graph.LineageLaws.{HasReferencePort, matching_connection_ports-types_agree}
use helixflow.Graph.Validation.{is_reference_input, types_agree}
use helixflow.Tests.Samples.{render_definition, reg, graph, prompt_node, render_node, wire}

-- The sample graph with another prompt, and with a renderer derived from the first.
abbrev prompted : WorkflowGraph
prompted = record graph {
  nodes = ("a", render_node) ∷ ("b", prompt_node) ∷ ("c", prompt_node) ∷ [];
}

abbrev cut : WorkflowGraph
cut = record graph { nodes = ("a", render_node) ∷ []; edges = [] }

abbrev pub derived : WorkflowGraph
derived = record graph {
  nodes = ("a", render_node) ∷ ("b", prompt_node) ∷ ("d", render_node) ∷ [];
  edges =
      wire "b" "a" ∷ record { from = ("a", "image"); to = ("d", "in"); edge_type = "image" } ∷ [];
}

add_runs : apply_op reg graph (add_node "c" prompt_node) ≡ ok prompted
unfolding apply_op same before
add_runs = refl

remove_runs : apply_op reg graph (remove_node "b") ≡ ok cut
unfolding apply_op same before
remove_runs = refl

pub spawn_runs : apply_op reg graph (spawn_node "d" render_node "a") ≡ ok derived
unfolding apply_op same before
spawn_runs = refl

apply_op-Keeps_example : Keeps graph cut (remove_node "b")
apply_op-Keeps_example = apply_op-Keeps reg graph cut (remove_node "b") remove_runs

apply_op-HasEndpoints_example : HasEndpoints cut
apply_op-HasEndpoints_example =
    apply_op-HasEndpoints reg graph cut (remove_node "b") ends_known tt remove_runs

remove_node-undoes_example : apply_op reg derived (remove_node "d") ≡ ok graph
remove_node-undoes_example =
    remove_node-undoes reg graph derived "d" render_node (spawn_node "d" render_node "a") ends_known
      (inr ("a", refl)) spawn_runs

apply_op-ParamSet_example :
    ParamSet graph "b" "text"
      (some (string "a cat"))
      (string "a dog")
      (apply_op reg graph (set_param "b" "text" (some (string "a cat")) (string "a dog")))
apply_op-ParamSet_example =
    apply_op-ParamSet reg graph "b" "text" (some (string "a cat")) (string "a dog")

set_param_stale :
    apply_op reg graph (set_param "b" "text" (some (string "a cat")) (string "a dog"))
    ≡ err (set_param_conflict "b" "text")
unfolding apply_op same before
set_param_stale = refl

abbrev spawn_ports : LineagePorts
spawn_ports = record { source_port = "image"; target_port = "in"; edge_type = "image" }

spawn_ports_runs : matching_connection_ports render_definition render_definition ≡ some spawn_ports
unfolding matching_connection_ports same
spawn_ports_runs = refl

render-HasReferencePort : HasReferencePort render_definition
unfolding is_reference_input same
render-HasReferencePort p m named =
    All-mem (λ p. is_media_ref p ≡ true → is_reference_input p ≡ true) render_definition.inputs
      (λ h. cc, (λ h. refl, tt)) m named

matching_connection_ports-types_agree_example :
    (output : PortDefinition) × (input : PortDefinition) × Memᴰ output render_definition.outputs
    × Memᴰ input render_definition.inputs
    × ("image" ≡ output.name)
    × ("in" ≡ input.name)
    × (types_agree output input "image" ≡ true)
matching_connection_ports-types_agree_example =
    matching_connection_ports-types_agree render_definition render_definition spawn_ports
      render-HasReferencePort spawn_ports_runs
