-- ===== src/Tests/Catalogs.antt =====
-- The catalog of crates/registry at a few entries.
use helixflow.Base.{String, List, [], ◌∷◌, some, ◌≡◌, ◌↔◌, refl, true, same, before, find}
use mathlib.Core.List.{Memᴰ, Permᴰ}
use mathlib.Core.List.Permᴰ
use helixflow.Registry.Catalog.{
  CatalogSnapshot, CapabilityBinding, CapabilityDefinition, ModelDefinition, capability, model,
  binding, connector,
}
use helixflow.Registry.Catalog.Build.{
  Entries, Permuted, HasDistinctIds, build, build-Permuted, build-find,
}
use helixflow.Registry.Catalog.Queries.{
  models_for_capability, capabilities_for_model, models_for_capability-mem_iff,
}
use helixflow.Tests.Resolutions.{catalog, model_of, binding_of}

abbrev entries_with : List ModelDefinition → Entries
entries_with models = record {
  capabilities = catalog.capabilities;
  models = models;
  bindings = binding_of "b" "m" "fal" ∷ [];
  connectors = [];
  workflow_backends = [];
  default_bindings = [];
}

abbrev given : Entries
given = entries_with (model_of "z" "Z" ∷ model_of "m" "M" ∷ [])

abbrev reordered : Entries
reordered = entries_with (model_of "m" "M" ∷ model_of "z" "Z" ∷ [])

-- A digest that ignores what it reads.
abbrev no_digest : CatalogSnapshot → String
no_digest c = "sha256:"

build_runs : (build no_digest given).models ≡ model_of "m" "M" ∷ model_of "z" "Z" ∷ []
unfolding build before
build_runs = refl

given-HasDistinctIds : HasDistinctIds given
unfolding same
given-HasDistinctIds = record {
  capabilities = refl;
  models = refl;
  bindings = refl;
  connectors = refl;
  workflow_backends = refl;
}

given-Permuted : Permuted given reordered
given-Permuted = record {
  capabilities = Permᴰ.refl catalog.capabilities;
  models = Permᴰ.swap refl refl;
  bindings = Permᴰ.refl given.bindings;
  connectors = Permᴰ.nil;
  workflow_backends = Permᴰ.nil;
  default_bindings = refl;
}

build-Permuted_example : build no_digest given ≡ build no_digest reordered
build-Permuted_example =
    build-Permuted no_digest given reordered given-HasDistinctIds given-Permuted

build-find_example :
    (capability (build no_digest given) "m"
      ≡ find (λ c. same c.capability_id "m") given.capabilities)
    × (model (build no_digest given) "m" ≡ find (λ m. same m.model_id "m") given.models)
    × (binding (build no_digest given) "m" ≡ find (λ b. same b.binding_id "m") given.bindings)
    × (connector (build no_digest given) "m" ≡ find (λ c. same c.connector_id "m") given.connectors)
build-find_example = build-find no_digest given "m"

models_for_capability_runs :
    models_for_capability catalog "image.generate"
    ≡ model_of "bfl/flux-1" "FLUX.1" ∷ model_of "google/imagen" "Imagen" ∷ []
unfolding models_for_capability same before
models_for_capability_runs = refl

models_for_capability-mem_iff_example :
    ((m : ModelDefinition)
      → Memᴰ m (models_for_capability catalog "image.generate") ↔ (
          (b : CapabilityBinding) × Memᴰ b catalog.bindings
          × (same b.capability_id "image.generate" ≡ true)
          × (model catalog b.model_id ≡ some m)))
    × ((c : CapabilityDefinition)
        → Memᴰ c (capabilities_for_model catalog "image.generate") ↔ (
            (b : CapabilityBinding) × Memᴰ b catalog.bindings
            × (same b.model_id "image.generate" ≡ true)
            × (capability catalog b.capability_id ≡ some c)))
models_for_capability-mem_iff_example = models_for_capability-mem_iff catalog "image.generate"
