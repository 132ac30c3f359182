-- ===== src/Tests/CanvasEdits.antt =====
-- The edits of crates/agent at the sample graph.
use helixflow.Base.{
  ◌≤◌, String, none, some, [], ◌∷◌, ◌≡◌, refl, ok, err, Result, same, before, All, length,
}
use helixflow.Json.{end, field, object, string}
use helixflow.Registry.{validate_node_params}
use helixflow.Graph.Types.{GraphNode}
use helixflow.Graph.Topology.Correct.{HasEndpoints}
use helixflow.Graph.Operations.{apply_ops}
use helixflow.Agent.Types.{
  CanvasEditPlan, CompiledCanvasEdit, CanvasEditError, connect, disconnect, update_node, edit_code,
  is_clarify, invalid_id, missing_param,
}
use helixflow.Agent.Types
use helixflow.Agent.CanvasEdit.{compile_canvas_edit_with}
use helixflow.Agent.CanvasEdit.Sound.{compile_canvas_edit_with_lem}
use helixflow.Agent.CanvasEdit.Bounds.{
  NamesOf, IsIdentifier, IsBound, compile_canvas_edit_with-IsIdentifier,
  compile_canvas_edit_with-IsBound,
}
use helixflow.Tests.Samples.{reg, graph, origin}
use helixflow.Tests.Resolutions.{ascii, catalog, both_available}

-- A renderer is added and wired to the prompt, whose text is rewritten.
abbrev edit : CanvasEditPlan
edit = record {
  operations =
      Types.CanvasEditOp.add_node "c" "render" none none (some " FLUX-1 ") (object end)
      ∷ connect "b" "text" "c" "prompt"
      ∷ update_node "b" (some (object (field "text" (string "a hen") end)))
      ∷ disconnect "b" "text" "a" "prompt"
      ∷ Types.CanvasEditOp.move_node "a" origin
      ∷ [];
  summary = none;
}

abbrev edited_in : Result CompiledCanvasEdit CanvasEditError → CompiledCanvasEdit
edited_in (ok r) = r
edited_in (err e) = record { ops = []; preview = graph }

edited : CompiledCanvasEdit
edited =
    edited_in (compile_canvas_edit_with ascii reg catalog both_available (some "fal") edit graph)

edit_runs :
    compile_canvas_edit_with ascii reg catalog both_available (some "fal") edit graph ≡ ok edited
unfolding compile_canvas_edit_with edited same before
edit_runs = refl

edited_nodes : length edited.preview.nodes ≡ 3
unfolding compile_canvas_edit_with edited same before
edited_nodes = refl

bad_name_runs :
    compile_canvas_edit_with ascii reg catalog both_available none
      (record edit { operations = Types.CanvasEditOp.remove_node "a b" ∷ [] })
      graph
    ≡ err (invalid_id "a b")
unfolding compile_canvas_edit_with same before
bad_name_runs = refl

missing_runs : edit_code (missing_param "a" "text") ≡ "REQUIRED_INPUT_MISSING"
unfolding edit_code
missing_runs = refl

compile_canvas_edit_with_lem_example :
    (1 ≤ 5)
    × (5 ≤ 64)
    × (apply_ops reg graph edited.ops ≡ ok edited.preview)
    × All
        (λ (entry : String × GraphNode).
          validate_node_params reg entry.1.node_type entry.1.params ≡ ok tt)
        edited.preview.nodes
    × (HasEndpoints graph → HasEndpoints edited.preview)
compile_canvas_edit_with_lem_example =
    compile_canvas_edit_with_lem ascii reg catalog both_available (some "fal") edit graph edited
      edit_runs

compile_canvas_edit_with-IsIdentifier_example : All (NamesOf IsIdentifier) edited.ops
compile_canvas_edit_with-IsIdentifier_example =
    compile_canvas_edit_with-IsIdentifier ascii reg catalog both_available (some "fal") edit graph
      edited edit_runs

compile_canvas_edit_with-IsBound_example :
    All (IsBound ascii reg catalog both_available (some "fal")) edited.ops
compile_canvas_edit_with-IsBound_example =
    compile_canvas_edit_with-IsBound ascii reg catalog both_available (some "fal") edit graph edited
      edit_runs
