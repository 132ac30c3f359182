-- ===== src/Registry/Messages.antt =====
-- crates/registry/src/error.rs: the messages of the registry's errors.
use helixflow.Base.{String}
use Prim.Native.String.{◌++◌}
use helixflow.Registry.Types.{
  RegistryError, duplicate_node_type, unknown_node_type, params_not_object, missing_required_param,
  unknown_param, invalid_param_type, param_out_of_range, param_not_in_enum,
}

-- `Display` for `RegistryError`
unfoldable pub message : RegistryError → String
message (duplicate_node_type t) = "duplicate node type: " ++ t
message (unknown_node_type t) = "unknown node type: " ++ t
message (params_not_object t) = "node params must be an object: " ++ t
message (missing_required_param t p) =
    "missing required param `" ++ p ++ "` for node type `" ++ t ++ "`"
message (unknown_param t p) = "unknown param `" ++ p ++ "` for node type `" ++ t ++ "`"
message (invalid_param_type t p expected) =
    "invalid param `" ++ p ++ "` for node type `" ++ t ++ "`; expected " ++ expected
message (param_out_of_range t p) = "param `" ++ p ++ "` is out of range for node type `" ++ t ++ "`"
message (param_not_in_enum t p) = "param `" ++ p ++ "` is not allowed for node type `" ++ t ++ "`"
