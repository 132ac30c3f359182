-- ===== src/Registry/Types.antt =====
-- crates/registry/src/types.rs and error.rs: ports, parameter schemas, node definitions, errors.
use helixflow.Base.{String, Bool, true, false, Option, List, holds, ◌↔◌, ◌≡◌}
use helixflow.Base.Assoc.{BTreeMap}
use helixflow.Base.{holds_iff}
use helixflow.Json.{Value, F64}

pub data PortCardinality : Type 0 where
  one many : PortCardinality

unfoldable pub allows_fan_in : PortCardinality → Bool
allows_fan_in one = false
allows_fan_in many = true

pub data PortType : Type 0 where
  text image video audio mask json : PortType

unfoldable pub PortType-discrete : Discrete PortType
PortType-discrete = hlevel

-- `==` of port types.
unfoldable pub same_port_type : PortType → PortType → Bool
unfolding PortType-discrete
same_port_type a b = holds (PortType-discrete a b)

pub same_port_type_iff : (a b : PortType) → (same_port_type a b ≡ true) ↔ (a ≡ b)
unfolding same_port_type
same_port_type_iff a b = holds_iff (PortType-discrete a b)

pub record PortDefinition : Type 0 where
  pub name : String
  pub port_type : PortType
  pub required : Bool
  pub cardinality : PortCardinality

pub data ParamValueType : Type 0 where
  string integer number boolean : ParamValueType

unfoldable pub label : ParamValueType → String
label string = "string"
label integer = "integer"
label number = "number"
label boolean = "boolean"

pub record ParamSpec : Type 0 where
  pub value_type : ParamValueType
  pub enum_values : List Value
  pub minimum : Option F64
  pub maximum : Option F64

pub record ParamsSchema : Type 0 where
  pub required : List String
  pub properties : BTreeMap ParamSpec
  pub allow_unknown : Bool

pub record EstimatedCostRef : Type 0 where
  pub unit : String
  pub catalog_key : String

pub record NodeDefinition : Type 0 where
  pub node_type : String
  pub title : String
  pub category : String
  pub provider : Option String
  pub capability : Option String
  pub description : String
  pub inputs : List PortDefinition
  pub outputs : List PortDefinition
  pub params_schema : ParamsSchema
  pub estimated_cost : Option EstimatedCostRef

pub data RegistryError : Type 0 where
  duplicate_node_type : (node_type : String) → RegistryError
  unknown_node_type : (node_type : String) → RegistryError
  params_not_object : (context : String) → RegistryError
  missing_required_param : (node_type param : String) → RegistryError
  unknown_param : (node_type param : String) → RegistryError
  invalid_param_type : (node_type param expected : String) → RegistryError
  param_out_of_range : (node_type param : String) → RegistryError
  param_not_in_enum : (node_type param : String) → RegistryError
