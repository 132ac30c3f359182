-- ===== src/Registry/Catalog/Build.antt =====
-- crates/registry/src/catalog.rs: `CatalogSnapshot::build`. The digest of a catalog's JSON is
-- serde's and SHA-256's, and is a parameter.
use helixflow.Base.{String, true, List, ◌≡◌, refl, same, find}
use mathlib.Core.List.{Permᴰ}
use helixflow.Base.Assoc.{BTreeMap}
use helixflow.Base.Keys.{distinct}
use helixflow.Base.Sorting.{sort_by, find-sort_by, sort_by-Perm, keys_of}
use helixflow.Registry.Catalog.{
  CatalogSnapshot, CapabilityDefinition, ModelDefinition, CapabilityBinding, ConnectorDefinition,
  WorkflowBackendDefinition, capability, model, binding, connector,
}

-- The arguments of `build`.
pub record Entries : Type 0 where
  pub capabilities : List CapabilityDefinition
  pub models : List ModelDefinition
  pub bindings : List CapabilityBinding
  pub connectors : List ConnectorDefinition
  pub workflow_backends : List WorkflowBackendDefinition
  pub default_bindings : BTreeMap String

-- The same entries in another order.
pub record Permuted (a b : Entries) : Type 0 where
  pub capabilities : Permᴰ a.capabilities b.capabilities
  pub models : Permᴰ a.models b.models
  pub bindings : Permᴰ a.bindings b.bindings
  pub connectors : Permᴰ a.connectors b.connectors
  pub workflow_backends : Permᴰ a.workflow_backends b.workflow_backends
  pub default_bindings : a.default_bindings ≡ b.default_bindings

-- No id stands for two entries of a kind.
pub record HasDistinctIds (a : Entries) : Type 0 where
  pub capabilities : distinct (keys_of (λ c. c.capability_id) a.capabilities) ≡ true
  pub models : distinct (keys_of (λ m. m.model_id) a.models) ≡ true
  pub bindings : distinct (keys_of (λ b. b.binding_id) a.bindings) ≡ true
  pub connectors : distinct (keys_of (λ c. c.connector_id) a.connectors) ≡ true
  pub workflow_backends : distinct (keys_of (λ b. b.backend_id) a.workflow_backends) ≡ true

module _ (digest : CatalogSnapshot → String) where
  unfoldable pub compute_revision : CatalogSnapshot → String
  compute_revision catalog = digest (record catalog { catalog_revision = "" })

  unfoldable pub build : Entries → CatalogSnapshot
  unfolding sort_by compute_revision
  build e =
      let snapshot : CatalogSnapshot = record {
        catalog_revision = "";
        capabilities = sort_by (λ c. c.capability_id) e.capabilities;
        models = sort_by (λ m. m.model_id) e.models;
        bindings = sort_by (λ b. b.binding_id) e.bindings;
        connectors = sort_by (λ c. c.connector_id) e.connectors;
        workflow_backends = sort_by (λ b. b.backend_id) e.workflow_backends;
        default_bindings = e.default_bindings;
      } in
      record snapshot { catalog_revision = compute_revision snapshot }

  -- A catalog's revision and content do not depend on the order in which the entries were given,
  -- where no id stands for two entries of a kind.
  pub build-Permuted : (a b : Entries) → HasDistinctIds a → Permuted a b → build a ≡ build b
  unfolding build
  build-Permuted a b d p =
      rw
        (
          sort_by-Perm (λ c. c.capability_id) p.capabilities d.capabilities,
          sort_by-Perm (λ m. m.model_id) p.models d.models,
          sort_by-Perm (λ b. b.binding_id) p.bindings d.bindings,
          sort_by-Perm (λ c. c.connector_id) p.connectors d.connectors,
          sort_by-Perm (λ b. b.backend_id) p.workflow_backends d.workflow_backends,
          p.default_bindings,
        )
        refl

  -- A catalog that was built answers a search for an id with the first entry of that id that was
  -- given.
  pub build-find :
      (e : Entries) (id : String)
      → (capability (build e) id ≡ find (λ c. same c.capability_id id) e.capabilities)
        × (model (build e) id ≡ find (λ m. same m.model_id id) e.models)
        × (binding (build e) id ≡ find (λ b. same b.binding_id id) e.bindings)
        × (connector (build e) id ≡ find (λ c. same c.connector_id id) e.connectors)
  unfolding build capability model binding connector
  build-find e id = (
    find-sort_by (λ c. c.capability_id) id e.capabilities,
    find-sort_by (λ m. m.model_id) id e.models,
    find-sort_by (λ b. b.binding_id) id e.bindings,
    find-sort_by (λ c. c.connector_id) id e.connectors,
  )
