-- ===== src/Registry.antt =====
-- crates/registry/src/lib.rs: the node registry, a map from a node type to its definition.
pub mod Types
pub mod Params
pub mod ParamsLaws
pub mod Lookup
pub mod Messages
pub mod Catalog
pub mod Names
pub mod Resolver
use helixflow.Base.{
  String, Bool, true, Option, none, some, List, [], ◌∷◌, Result, ok, err, ok_or, ◌>>=◌,
  if◌then◌else◌,
}
use helixflow.Base.Assoc
use helixflow.Base.Assoc.{BTreeMap}
use helixflow.Json.{Value}
use Types.{NodeDefinition, RegistryError, duplicate_node_type, unknown_node_type}
use Params.{validate_value}

pub record NodeRegistry : Type 0 where
  pub definitions : BTreeMap NodeDefinition

-- The loop of `from_definitions` over the map built so far.
collect :
    BTreeMap NodeDefinition → List NodeDefinition → Result (BTreeMap NodeDefinition) RegistryError
unfolding Assoc.lookup Assoc.insert
collect by_type [] = ok by_type
collect by_type (d ∷ ds) =
    let rest = collect (Assoc.insert d.node_type d by_type) ds in
    if Assoc.contains_key d.node_type by_type then err (duplicate_node_type d.node_type) else rest

unfoldable pub from_definitions : List NodeDefinition → Result NodeRegistry RegistryError
unfolding collect
from_definitions ds = do by_type ← collect [] ds; ok (record { definitions = by_type })

unfoldable pub definition : NodeRegistry → String → Result NodeDefinition RegistryError
unfolding Assoc.lookup
definition registry node_type =
    ok_or (Assoc.lookup node_type registry.definitions) (unknown_node_type node_type)

-- `NodeDefinition::validate_params`
unfoldable pub validate_params : NodeDefinition → Value → Result (Unit {0}) RegistryError
unfolding validate_value
validate_params d params = validate_value d.params_schema d.node_type params

unfoldable pub validate_node_params :
    NodeRegistry → String → Value → Result (Unit {0}) RegistryError
unfolding definition validate_params
validate_node_params registry node_type params = do
  d ← definition registry node_type
  validate_params d params
