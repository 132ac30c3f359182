-- ===== src/Registry/Resolver/Display.antt =====
-- crates/registry/src/resolver.rs: the messages of the resolver's errors.
use helixflow.Base.{String, none, some, [], ◌∷◌, concat, quoted, join}
use helixflow.Registry.Resolver.{
  ResolveError, capability_not_found, model_not_found, model_ambiguous, binding_not_found,
  binding_ambiguous, binding_unavailable,
}

-- `Display` for `ResolveError`
unfoldable pub display : ResolveError → String
display (capability_not_found capability_id) =
    concat ("capability " ∷ quoted capability_id ∷ " is not in the catalog" ∷ [])
display (model_not_found query) = concat ("no catalog model matches " ∷ quoted query ∷ [])
display (model_ambiguous query candidates) =
    concat ("model name " ∷ quoted query ∷ " matches multiple models: " ∷ join ", " candidates ∷ [])
display (binding_not_found capability_id (some model_id)) = concat (
    "no binding implements capability "
    ∷ quoted capability_id
    ∷ " with model "
    ∷ quoted model_id
    ∷ [])
display (binding_not_found capability_id none) =
    concat ("no binding implements capability " ∷ quoted capability_id ∷ [])
display (binding_ambiguous capability_id candidates) = concat (
    "multiple bindings for capability "
    ∷ quoted capability_id
    ∷ " and no configured default: "
    ∷ join ", " candidates
    ∷ [])
display (binding_unavailable capability_id binding_ids) = concat (
    "all bindings for capability "
    ∷ quoted capability_id
    ∷ " are unavailable: "
    ∷ join ", " binding_ids
    ∷ [])
