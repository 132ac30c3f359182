-- ===== src/Tests/Registries.antt =====
-- The registry of crates/registry at the sample definitions.
use helixflow.Base.{[], ◌∷◌, ◌≡◌, refl, ok, err, ◌↔◌, same, before}
use helixflow.Json.{object, end, as_object}
use helixflow.Registry.{from_definitions, definition}
use helixflow.Registry.Types.{missing_required_param, duplicate_node_type}
use helixflow.Registry.Params.{validate_value_with_wired}
use helixflow.Registry.ParamsLaws.{Accepts, validate_value_with_wired-ok_iff}
use helixflow.Registry.Lookup.{definition-from_definitions}
use helixflow.Tests.Samples.{definitions, reg, prompt_definition, render_definition, prompt_schema}
use mathlib.Core.List.{Memᴰ}

from_definitions_runs : from_definitions definitions ≡ ok reg
unfolding from_definitions same before
from_definitions_runs = refl

from_definitions_duplicate :
    from_definitions (prompt_definition ∷ render_definition ∷ prompt_definition ∷ [])
    ≡ err (duplicate_node_type "prompt")
unfolding from_definitions same before
from_definitions_duplicate = refl

definition-from_definitions_example :
    (definition reg "render" ≡ ok render_definition)
    ↔ (Memᴰ render_definition definitions × (render_definition.node_type ≡ "render"))
definition-from_definitions_example =
    definition-from_definitions definitions reg "render" render_definition from_definitions_runs

validate_value_wired :
    (validate_value_with_wired prompt_schema "prompt" (object end) ("text" ∷ []) ≡ ok tt)
    × (validate_value_with_wired prompt_schema "prompt" (object end) []
        ≡ err (missing_required_param "prompt" "text"))
unfolding validate_value_with_wired same
validate_value_wired = (refl, refl)

validate_value_with_wired-ok_iff_example :
    (validate_value_with_wired prompt_schema "prompt" (object end) ("text" ∷ []) ≡ ok tt)
    ↔ Accepts prompt_schema [] ("text" ∷ [])
validate_value_with_wired-ok_iff_example =
    validate_value_with_wired-ok_iff prompt_schema "prompt" (object end) ("text" ∷ []) []
      (unfold as_object in refl) refl
