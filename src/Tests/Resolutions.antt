-- ===== src/Tests/Resolutions.antt =====
-- The resolver of crates/registry at a small catalog: two models, two connectors.
use helixflow.Base.{
  ℕ, String, Bool, true, none, some, [], ◌∷◌, ◌≡◌, refl, ok, err, ◌==◌, same, before, if◌then◌else◌,
  ◌&&◌, leb, ◌+◌,
}
use helixflow.Base.Assoc.{BTreeMap}
use helixflow.Json.{object, end}
use helixflow.Registry.Names.{CharTables, Text}
use helixflow.Registry.Catalog.{
  CatalogSnapshot, CapabilityBinding, ModelDefinition, ConnectorDefinition, api_connector,
  MediaCategory, ModelLifecycle, ConnectorKind, ConnectorStatus, BindingAvailability,
}
use helixflow.Registry.Resolver.{
  ResolveRequest, ResolvedImplementation, resolve, resolved, model_not_found, binding_unavailable,
}
use helixflow.Registry.Resolver.Sound.{Serves, IsExplicit, requested_id, candidates, resolve-Serves}
use helixflow.Tests.Samples.{open_schema, render_definition}

-- ASCII's tables.
abbrev lower : ℕ → Text
lower c = (if leb b'A' c && leb c b'Z' then c + 32 else c) ∷ []

abbrev pub ascii : CharTables
ascii = record { is_whitespace = λ c. c == b' '; to_lowercase = lower }

abbrev pub binding_of : String → String → String → CapabilityBinding
binding_of id model connector = record {
  binding_id = id;
  capability_id = "image.generate";
  model_id = model;
  implementation = api_connector connector "run";
  mode = "image.generate";
  input_schema = open_schema;
  output_schema = open_schema;
  defaults = object end;
  availability = BindingAvailability.enabled;
  binding_revision = "r1";
}

abbrev pub model_of : String → String → ModelDefinition
model_of id name = record {
  model_id = id;
  family_id = "family";
  display_name = name;
  vendor = "vendor";
  lifecycle = ModelLifecycle.active;
  aliases = [];
}

abbrev connector_of : String → ConnectorDefinition
connector_of id = record {
  connector_id = id;
  provider_id = id;
  kind = ConnectorKind.api;
  enabled = true;
  status = ConnectorStatus.active;
}

abbrev pub catalog : CatalogSnapshot
catalog = record {
  catalog_revision = "c1";
  capabilities =
      record {
        capability_id = "image.generate";
        node_type = "render";
        category = MediaCategory.image;
        display_name = "Render";
        description = "";
        inputs = render_definition.inputs;
        outputs = render_definition.outputs;
        params_schema = open_schema;
      }
      ∷ [];
  models = model_of "bfl/flux-1" "FLUX.1" ∷ model_of "google/imagen" "Imagen" ∷ [];
  bindings =
      binding_of "flux-fal" "bfl/flux-1" "fal"
      ∷ binding_of "flux-replicate" "bfl/flux-1" "replicate"
      ∷ binding_of "imagen-fal" "google/imagen" "fal"
      ∷ [];
  connectors = connector_of "fal" ∷ connector_of "replicate" ∷ [];
  workflow_backends = [];
  default_bindings = ("image.generate", "imagen-fal") ∷ [];
}

abbrev request : ResolveRequest
request = record {
  capability_id = "image.generate";
  requested_model = some "Flux_1";
  connector_preference = some "fal";
}

abbrev pub both_available : BTreeMap Bool
both_available = ("fal", true) ∷ ("replicate", true) ∷ []

abbrev result : ResolvedImplementation
result = record {
  capability_id = "image.generate";
  requested_model_id = some "bfl/flux-1";
  resolved_model_id = "bfl/flux-1";
  binding_id = "flux-fal";
  binding_revision = "r1";
  target = api_connector "fal" "run";
}

resolve_runs : resolve ascii catalog request both_available ≡ ok result
unfolding resolve same before
resolve_runs = refl

resolve_policy_runs :
    resolve ascii catalog
      (record request { requested_model = none; connector_preference = none })
      both_available
    ≡ ok (record result {
      requested_model_id = none;
      resolved_model_id = "google/imagen";
      binding_id = "imagen-fal";
    })
unfolding resolve same before
resolve_policy_runs = refl

resolve_fails :
    (resolve ascii catalog request []
      ≡ err (binding_unavailable "image.generate" ("flux-fal" ∷ [])))
    × (resolve ascii catalog (record request { requested_model = some "sdxl" }) both_available
        ≡ err (model_not_found "sdxl"))
unfolding resolve same before
resolve_fails = (refl, refl)

resolve-Serves_example :
    (b : CapabilityBinding) × Serves ascii catalog request both_available b
    × (result ≡ resolved request.capability_id (requested_id request.requested_model b) b)
    × IsExplicit catalog request.capability_id (candidates ascii catalog request both_available b) b
resolve-Serves_example = resolve-Serves ascii catalog request both_available result resolve_runs
