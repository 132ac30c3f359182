-- ===== src/Compiler/Builder/Clarify.antt =====
-- crates/compiler/src/graph_builder.rs: the resolution of a stage, and what is asked of the user
-- where it does not succeed.
use helixflow.Base.{
  String, Bool, true, false, ◌&&◌, Option, none, some, List, [], ◌∷◌, Result, ok, err,
  if◌then◌else◌, same, retain, filter_map, concat,
}
use helixflow.Base.Sorting.{sort_by}
use helixflow.Json.{Value, Items, nil, cons, json_object}
use helixflow.Registry.Names.{CharTables}
use helixflow.Registry.Catalog.{
  CatalogSnapshot, CapabilityDefinition, ModelDefinition, CapabilityBinding, BindingAvailability,
  capability, model, bindings_for_capability,
}
use helixflow.Registry.Resolver.{
  ResolveRequest, ResolvedImplementation, ResolveError, ConnectorAvailability, resolve, error_code,
  recoverable,
}
use helixflow.Registry.Resolver
use helixflow.Registry.Resolver.Display.{display}
use helixflow.Compiler.Types.{StageIntent, CompileError, ClarifyFirst, clarify_first}
use helixflow.Compiler.Types

-- How the construction ends before its end.
pub data Stop : Type 0 where
  clarify : ClarifyFirst → Stop
  fail : CompileError → Stop
  panicked : Stop

abbrev is_enabled : BindingAvailability → Bool
is_enabled BindingAvailability.enabled = true
is_enabled BindingAvailability.disabled = false

-- An id with a display name.
abbrev Named : Type 0
Named = String × String

-- `dedup_by` on the ids: of neighbours with one id, the first.
unfoldable pub dedup_after : String → List Named → List Named
unfolding same
dedup_after last [] = []
dedup_after last ((id, name) ∷ xs) =
    let rest = dedup_after id xs in
    let skipped = dedup_after last xs in if same id last then skipped else (id, name) ∷ rest

abbrev dedup_named : List Named → List Named
dedup_named [] = []
dedup_named ((id, name) ∷ xs) = (id, name) ∷ dedup_after id xs

abbrev sorted_named : List Named → List Named
sorted_named xs = dedup_named (sort_by (λ (x : Named). x.0) xs)

-- The objects of a list, each under the name of its id's field.
abbrev items_of : String → List Named → Items
items_of id_field [] = nil
items_of id_field ((id, name) ∷ xs) =
    cons (json_object ((id_field, Value.string id) ∷ ("displayName", Value.string name) ∷ []))
      (items_of id_field xs)

abbrev string_or_null : Option String → Value
string_or_null none = Value.null
string_or_null (some s) = Value.string s

abbrev named_model : Option ModelDefinition → Option Named
named_model none = none
named_model (some m) = some (m.model_id, m.display_name)

abbrev named_capability : Option CapabilityDefinition → Option Named
named_capability none = none
named_capability (some c) = some (c.capability_id, c.display_name)

module _ (catalog : CatalogSnapshot) where
  abbrev capability_name : String → String
  capability_name id = elim (capability catalog id) [ some c ↦ c.display_name | none ↦ id ]

  abbrev available_models : String → List Named
  available_models capability_id = sorted_named (
      filter_map (λ (b : CapabilityBinding). named_model (model catalog b.model_id))
        (retain (λ (b : CapabilityBinding). is_enabled b.availability)
          (bindings_for_capability catalog capability_id)))

  abbrev model_capabilities : Option String → List Named
  model_capabilities none = []
  model_capabilities (some id) = sorted_named (
      filter_map (λ (b : CapabilityBinding). named_capability (capability catalog b.capability_id))
        (retain (λ (b : CapabilityBinding). same b.model_id id && is_enabled b.availability)
          catalog.bindings))

  abbrev model_name : Option String → Option String
  model_name none = none
  model_name (some id) = elim (model catalog id) [ some m ↦ some m.display_name | none ↦ none ]

  unfoldable pub binding_not_found_clarification :
      StageIntent → String → Option String → ClarifyFirst
  unfolding capability model bindings_for_capability sort_by dedup_after json_object clarify_first
      same
  binding_not_found_clarification stage capability_id model_id =
      clarify_first "BINDING_NOT_FOUND" (concat (stage.stage_id ∷ ".model" ∷ []) ∷ [])
        (json_object (
          ("stageId", Value.string stage.stage_id)
          ∷ ("capabilityId", Value.string capability_id)
          ∷ ("capabilityName", Value.string (capability_name capability_id))
          ∷ ("requestedModelId", string_or_null model_id)
          ∷ ("requestedModelName", string_or_null (model_name model_id))
          ∷ ("availableModels", Value.array (items_of "modelId" (available_models capability_id)))
          ∷ (
            "requestedModelCapabilities",
            Value.array (items_of "capabilityId" (model_capabilities model_id)),
          )
          ∷ []))
        "请选择一个已验证支持该能力的模型，或先配置相应的 Provider binding"

  -- What the outcome of a resolution means for the stage.
  unfoldable pub on_resolved :
      StageIntent → Result ResolvedImplementation ResolveError → Result ResolvedImplementation Stop
  unfolding binding_not_found_clarification clarify_first json_object error_code recoverable display
  on_resolved stage (ok r) = ok r
  on_resolved stage (err (Resolver.binding_not_found capability_id model_id)) =
      err (clarify (binding_not_found_clarification stage capability_id model_id))
  on_resolved stage (err e) =
      if recoverable e
      then err (
          clarify (
            clarify_first (error_code e) (concat (stage.stage_id ∷ ".model" ∷ []) ∷ [])
              (json_object (
                ("stageId", Value.string stage.stage_id)
                ∷ ("detail", Value.string (display e))
                ∷ []))
              "ask the user to pick a specific model or enable a connector"))
      else err (fail (Types.resolve e))

  unfoldable pub resolve_stage :
      CharTables
      → ConnectorAvailability
      → Option String
      → StageIntent
      → Result ResolvedImplementation Stop
  unfolding on_resolved resolve
  resolve_stage tables availability connector_preference stage = on_resolved stage (
      resolve tables catalog
        (record {
          capability_id = stage.capability_id;
          requested_model = stage.requested_model;
          connector_preference = connector_preference;
        })
        availability)

  -- `node_type_for_stage`, and the same for a resolved capability.
  unfoldable pub node_type_of : String → Result String Stop
  unfolding capability
  node_type_of capability_id = elim (capability catalog capability_id) [
    | some c ↦ ok c.node_type
    | none ↦ err (fail (Types.unmapped_capability capability_id))
  ]
