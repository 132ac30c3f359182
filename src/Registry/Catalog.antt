-- ===== src/Registry/Catalog.antt =====
-- crates/registry/src/catalog.rs: the capability catalog and its queries.
pub mod Build
pub mod Queries
use helixflow.Base.{String, Bool, ◌&&◌, Option, List, same, find, retain}
use helixflow.Base.Assoc.{BTreeMap}
use helixflow.Json.{Value}
use helixflow.Registry.Types.{PortDefinition, ParamsSchema}

pub data MediaCategory : Type 0 where
  text image video : MediaCategory

pub data ModelLifecycle : Type 0 where
  active deprecated : ModelLifecycle

pub data ConnectorKind : Type 0 where
  api : ConnectorKind

pub data ConnectorStatus : Type 0 where
  active disabled : ConnectorStatus

pub data BindingAvailability : Type 0 where
  enabled disabled : BindingAvailability

pub data ImplementationTarget : Type 0 where
  api_connector : (connector_id operation_id : String) → ImplementationTarget
  workflow_template : (backend_id template_id template_revision : String) → ImplementationTarget

pub record CapabilityDefinition : Type 0 where
  pub capability_id : String
  pub node_type : String
  pub category : MediaCategory
  pub display_name : String
  pub description : String
  pub inputs : List PortDefinition
  pub outputs : List PortDefinition
  pub params_schema : ParamsSchema

pub record ModelDefinition : Type 0 where
  pub model_id : String
  pub family_id : String
  pub display_name : String
  pub vendor : String
  pub lifecycle : ModelLifecycle
  pub aliases : List String

pub record ConnectorDefinition : Type 0 where
  pub connector_id : String
  pub provider_id : String
  pub kind : ConnectorKind
  pub enabled : Bool
  pub status : ConnectorStatus

pub record CapabilityBinding : Type 0 where
  pub binding_id : String
  pub capability_id : String
  pub model_id : String
  pub implementation : ImplementationTarget
  pub mode : String
  pub input_schema : ParamsSchema
  pub output_schema : ParamsSchema
  pub defaults : Value
  pub availability : BindingAvailability
  pub binding_revision : String

pub data WorkflowBackendKind : Type 0 where
  comfyui : WorkflowBackendKind

pub data BackendStatus : Type 0 where
  disabled : BackendStatus

pub record WorkflowBackendDefinition : Type 0 where
  pub backend_id : String
  pub kind : WorkflowBackendKind
  pub enabled : Bool
  pub status : BackendStatus
  pub catalog_revision : String

pub record CatalogSnapshot : Type 0 where
  pub catalog_revision : String
  pub capabilities : List CapabilityDefinition
  pub models : List ModelDefinition
  pub bindings : List CapabilityBinding
  pub connectors : List ConnectorDefinition
  pub workflow_backends : List WorkflowBackendDefinition
  pub default_bindings : BTreeMap String

module _ (catalog : CatalogSnapshot) where
  unfoldable pub capability : String → Option CapabilityDefinition
  capability id = find (λ c. same c.capability_id id) catalog.capabilities

  unfoldable pub model : String → Option ModelDefinition
  model id = find (λ m. same m.model_id id) catalog.models

  unfoldable pub binding : String → Option CapabilityBinding
  binding id = find (λ b. same b.binding_id id) catalog.bindings

  unfoldable pub connector : String → Option ConnectorDefinition
  connector id = find (λ c. same c.connector_id id) catalog.connectors

  unfoldable pub bindings_for_capability : String → List CapabilityBinding
  bindings_for_capability capability_id =
      retain (λ b. same b.capability_id capability_id) catalog.bindings

  unfoldable pub bindings_for_pair : String → String → List CapabilityBinding
  bindings_for_pair capability_id model_id =
      retain (λ b. same b.capability_id capability_id && same b.model_id model_id) catalog.bindings
