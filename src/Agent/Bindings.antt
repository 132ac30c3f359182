-- ===== src/Agent/Bindings.antt =====
-- crates/agent/src/canvas_edit.rs: identifiers, parameters, and the binding of a node that is added.
use helixflow.Base.{
  ℕ, String, Bool, not, ◌&&◌, ◌||◌, Option, none, some, List, [], ◌∷◌, Result, ok, err, ok_or,
  ensure, if◌then◌else◌, leb, ◌==◌, all, byte_len,
}
use Prim.Native.Char.{Char, code}
use helixflow.Base.Assoc
use helixflow.Base.Assoc.{BTreeMap}
use helixflow.Json.{Value, as_object, as_str, is_null}
use helixflow.Registry.Names.{CharTables, codes}
use helixflow.Registry.Params.{is_empty}
use helixflow.Registry.Catalog.{CatalogSnapshot, CapabilityBinding, binding}
use helixflow.Registry.Resolver
use helixflow.Registry.Resolver.{
  ResolveRequest, ResolvedImplementation, ResolveError, ConnectorAvailability, error_code,
}
use helixflow.Registry.Resolver.Display.{display}
use helixflow.Graph.Types.{NodeSemanticsEntry, pinned}
use helixflow.Agent.Types.{CanvasEditError, invalid_id, params_not_object}

abbrev pub Edited {ℓ} : Type ℓ → Type ℓ
Edited A = Result A CanvasEditError

abbrev pub max_operations : ℕ
max_operations = 64

abbrev pub max_id_chars : ℕ
max_id_chars = 96

abbrev between : ℕ → ℕ → ℕ → Bool
between lo hi c = leb lo c && leb c hi

abbrev pub id_byte : ℕ → Bool
id_byte c =
    between b'a' b'z' c
    || between b'A' b'Z' c
    || between b'0' b'9' c
    || c == b'_'
    || c == b'-'
    || c == b'.'

-- A byte of a character beyond ASCII is none of these, so the test of the bytes is that of the
-- characters.
unfoldable pub is_bounded_identifier : String → Bool
is_bounded_identifier value =
    not (is_empty (codes value)) && leb (byte_len value) max_id_chars && all id_byte (codes value)

unfoldable pub ensure_id : String → Edited (Unit {0})
unfolding is_bounded_identifier
ensure_id id = ensure (is_bounded_identifier id) (invalid_id id)

unfoldable pub params_object : String → Value → Edited (BTreeMap Value)
unfolding as_object is_null
params_object node_id params =
    if is_null params then ok [] else ok_or (as_object params) (params_not_object node_id)

-- `params.entry(key).or_insert_with(...)`
abbrev or_insert : String → Value → BTreeMap Value → BTreeMap Value
or_insert key value params =
    if Assoc.contains_key key params then params else Assoc.insert key value params

abbrev add_missing : List (String × Value) → BTreeMap Value → BTreeMap Value
add_missing [] params = params
add_missing ((key, value) ∷ defaults) params = add_missing defaults (or_insert key value params)

unfoldable pub merge_defaults : BTreeMap Value → Value → BTreeMap Value
unfolding as_object Assoc.lookup Assoc.insert
merge_defaults params defaults = elim (as_object defaults) [
  | some object ↦ add_missing object params
  | none ↦ params
]

-- The name of a model: that of the request, trimmed and not empty, or else the parameter's.
abbrev string_of : Option Value → Option String
string_of none = none
string_of (some v) = as_str v

abbrev if_some : String → Option String → Option String
if_some String.[] fallback = fallback
if_some (String.◌∷◌ c s) fallback = some (String.◌∷◌ c s)

module _ (tables : CharTables) where
  open tables use {is_whitespace}

  -- `str::trim`
  unfoldable pub trim_start : String → String
  trim_start String.[] = String.[]
  trim_start (String.◌∷◌ c s) =
      let rest = trim_start s in if is_whitespace (code c) then rest else String.◌∷◌ c s

  abbrev push_char : Char → String → String
  push_char c String.[] = if is_whitespace (code c) then String.[] else String.◌∷◌ c String.[]
  push_char c (String.◌∷◌ d s) = String.◌∷◌ c (String.◌∷◌ d s)

  unfoldable pub trim_back : String → String
  trim_back String.[] = String.[]
  trim_back (String.◌∷◌ c s) = push_char c (trim_back s)

  unfoldable pub trim : String → String
  unfolding trim_start trim_back
  trim s = trim_back (trim_start s)

  unfoldable pub chosen_model : Option String → BTreeMap Value → Option String
  unfolding trim Assoc.lookup as_str
  chosen_model (some requested) params =
      if_some (trim requested) (string_of (Assoc.lookup "model" params))
  chosen_model none params = string_of (Assoc.lookup "model" params)

  abbrev pub title_of : Option String → String → String
  title_of none default = default
  title_of (some title) default = elim (trim title) [ String.[] ↦ default | String.◌∷◌ c s ↦ title ]

-- What `resolve_semantics` leaves: the parameters, and the entry.
abbrev Bound : Type 0
Bound = BTreeMap Value × Option NodeSemanticsEntry

abbrev entry_of : String → ResolvedImplementation → NodeSemanticsEntry
entry_of capability_id r = record {
  capability_id = capability_id;
  mode = capability_id;
  implementation = pinned r.resolved_model_id r.binding_id;
}

abbrev with_defaults : BTreeMap Value → Option CapabilityBinding → BTreeMap Value
with_defaults params none = params
with_defaults params (some b) = merge_defaults params b.defaults

module _ (tables : CharTables) (catalog : CatalogSnapshot) (availability : ConnectorAvailability)
    (connector_preference : Option String) where
  abbrev pub edit_request : String → Option String → BTreeMap Value → ResolveRequest
  edit_request capability_id requested_model params = record {
    capability_id = capability_id;
    requested_model = chosen_model tables requested_model params;
    connector_preference = connector_preference;
  }

  abbrev on_resolution :
      String → String → BTreeMap Value → Result ResolvedImplementation ResolveError → Edited Bound
  on_resolution node_id capability_id params (ok r) =
      ok (with_defaults params (binding catalog r.binding_id), some (entry_of capability_id r))
  on_resolution node_id capability_id params (err e) =
      err (CanvasEditError.resolve node_id (error_code e) (display e))

  unfoldable pub resolve_semantics :
      String → Option String → Option String → BTreeMap Value → Edited Bound
  unfolding chosen_model Assoc.remove Resolver.resolve merge_defaults binding error_code display
  resolve_semantics node_id none requested_model params = ok (params, none)
  resolve_semantics node_id (some capability_id) requested_model params =
      on_resolution node_id capability_id (Assoc.remove "model" params) (
        Resolver.resolve tables catalog (edit_request capability_id requested_model params)
          availability)
