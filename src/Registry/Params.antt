-- ===== src/Registry/Params.antt =====
-- crates/registry/src/types.rs: validation of a node's parameters against a schema.
use helixflow.Base.{
  String, Bool, true, false, not, ◌||◌, Option, none, some, List, [], ◌∷◌, Result, ensure, for_each,
  ◌>>◌, ok_or, ◌>>=◌, any, is_some,
}
use helixflow.Base.Assoc
use helixflow.Base.Assoc.{BTreeMap}
use helixflow.Base.Keys.{BTreeSet, member}
use helixflow.Json.{
  Value, F64, ltb_F64, as_object, as_i64, as_f64, is_string, is_boolean, same_value, f64_of, ℤ,
}
use helixflow.Registry.Types.{
  ParamValueType, ParamSpec, ParamsSchema, RegistryError, label, params_not_object,
  missing_required_param, unknown_param, invalid_param_type, param_out_of_range, param_not_in_enum,
}

-- `ParamSpec::new` and the constructors built on it.
unfoldable pub new : ParamValueType → ParamSpec
new t = record { value_type = t; enum_values = []; minimum = none; maximum = none }

unfoldable pub integer_range : ℤ → ℤ → ParamSpec
unfolding new f64_of
integer_range minimum maximum = record (new ParamValueType.integer) {
  minimum = some (f64_of minimum);
  maximum = some (f64_of maximum);
}

abbrev pub strings : List String → List Value
strings [] = []
strings (s ∷ ss) = Value.string s ∷ strings ss

unfoldable pub string_enum : List String → ParamSpec
unfolding new
string_enum values = record (new ParamValueType.string) { enum_values = strings values }

abbrev pub has_type : ParamValueType → Value → Bool
has_type ParamValueType.string v = is_string v
has_type ParamValueType.integer v = is_some (as_i64 v)
has_type ParamValueType.number v = is_some (as_f64 v)
has_type ParamValueType.boolean v = is_boolean v

abbrev pub is_empty {ℓ} : {A : Type ℓ} → List A → Bool
is_empty [] = true
is_empty (x ∷ xs) = false

abbrev pub below_min : Option F64 → F64 → Bool
below_min none x = false
below_min (some minimum) x = ltb_F64 x minimum

abbrev pub above_max : Option F64 → F64 → Bool
above_max none x = false
above_max (some maximum) x = ltb_F64 maximum x

-- The range test applies to a value that is a number.
abbrev pub in_range : ParamSpec → Option F64 → Bool
in_range spec none = true
in_range spec (some x) = not (below_min spec.minimum x || above_max spec.maximum x)

-- `ParamSpec::validate`
unfoldable pub validate : ParamSpec → String → String → Value → Result (Unit {0}) RegistryError
unfolding label is_string is_boolean as_i64 as_f64 same_value ltb_F64
validate spec node_type param value = do
  ensure (has_type spec.value_type value)
      (invalid_param_type node_type param (label spec.value_type))
  ensure (is_empty spec.enum_values || any (λ allowed. same_value allowed value) spec.enum_values)
      (param_not_in_enum node_type param)
  ensure (in_range spec (as_f64 value)) (param_out_of_range node_type param)

-- One step of the first loop: a required parameter is in the map or wired.
unfoldable pub check_required :
    String → BTreeMap Value → BTreeSet → String → Result (Unit {0}) RegistryError
unfolding Assoc.lookup
check_required context m wired required =
    ensure (Assoc.contains_key required m || member required wired)
      (missing_required_param context required)

-- One step of the second loop: a parameter that is given is known and valid.
unfoldable pub check_param :
    ParamsSchema → String → String × Value → Result (Unit {0}) RegistryError
unfolding Assoc.lookup validate
check_param schema context (param, value) = elim (Assoc.lookup param schema.properties) [
  | some spec ↦ validate spec context param value
  | none ↦ ensure schema.allow_unknown (unknown_param context param)
]

unfoldable pub validate_value_with_wired :
    ParamsSchema → String → Value → BTreeSet → Result (Unit {0}) RegistryError
unfolding check_required check_param as_object
validate_value_with_wired schema context params wired = do
  m ← ok_or (as_object params) (params_not_object context)
  for_each (check_required context m wired) schema.required
  for_each (check_param schema context) m

unfoldable pub validate_value : ParamsSchema → String → Value → Result (Unit {0}) RegistryError
unfolding validate_value_with_wired
validate_value schema context params = validate_value_with_wired schema context params []
