-- ===== src/Registry/Resolver.antt =====
-- crates/registry/src/resolver.rs: the resolution of a capability to one binding.
pub mod Sound
pub mod Display
use helixflow.Base.{
  ℕ, String, Bool, true, false, not, ◌&&◌, ◌||◌, Option, none, some, List, [], ◌∷◌, ◌++◌, map,
  Result, ok, err, ok_or, ensure, ◌>>=◌, ◌>>◌, if◌then◌else◌, ◌==◌, same, find, any, retain,
  is_some,
}
use helixflow.Base.Assoc
use helixflow.Base.Assoc.{BTreeMap}
use helixflow.Base.Keys
use helixflow.Base.Keys.{BTreeSet, sort_dedup}
use helixflow.Registry.Params.{is_empty}
use helixflow.Registry.Names.{Text, codes, CharTables, normalize_name, same_text}
use helixflow.Registry.Catalog.{
  CatalogSnapshot, CapabilityBinding, ModelDefinition, ConnectorDefinition, ImplementationTarget,
  BindingAvailability, api_connector, workflow_template, capability, connector,
  bindings_for_capability, bindings_for_pair,
}

pub record ResolveRequest : Type 0 where
  pub capability_id : String
  pub requested_model : Option String
  pub connector_preference : Option String

pub record ResolvedImplementation : Type 0 where
  pub capability_id : String
  pub requested_model_id : Option String
  pub resolved_model_id : String
  pub binding_id : String
  pub binding_revision : String
  pub target : ImplementationTarget

-- A connector that is missing counts as unavailable.
abbrev pub ConnectorAvailability : Type 0
ConnectorAvailability = BTreeMap Bool

pub data ResolveError : Type 0 where
  capability_not_found : (capability_id : String) → ResolveError
  model_not_found : (query : String) → ResolveError
  model_ambiguous : (query : String) (candidates : List String) → ResolveError
  binding_not_found : (capability_id : String) (model_id : Option String) → ResolveError
  binding_ambiguous : (capability_id : String) (candidates : List String) → ResolveError
  binding_unavailable : (capability_id : String) (binding_ids : List String) → ResolveError

unfoldable pub error_code : ResolveError → String
error_code (capability_not_found c) = "CAPABILITY_NOT_FOUND"
error_code (model_not_found q) = "MODEL_NOT_FOUND"
error_code (model_ambiguous q cs) = "MODEL_AMBIGUOUS"
error_code (binding_not_found c m) = "BINDING_NOT_FOUND"
error_code (binding_ambiguous c cs) = "BINDING_AMBIGUOUS"
error_code (binding_unavailable c bs) = "BINDING_UNAVAILABLE"

unfoldable pub recoverable : ResolveError → Bool
recoverable (model_ambiguous q cs) = true
recoverable (binding_ambiguous c cs) = true
recoverable (binding_unavailable c bs) = true
recoverable _ = false

unfoldable pub resolved : String → Option String → CapabilityBinding → ResolvedImplementation
resolved capability_id requested_model_id b = record {
  capability_id = capability_id;
  requested_model_id = requested_model_id;
  resolved_model_id = b.model_id;
  binding_id = b.binding_id;
  binding_revision = b.binding_revision;
  target = b.implementation;
}

abbrev target_connector : ImplementationTarget → Option String
target_connector (api_connector connector_id operation_id) = some connector_id
target_connector (workflow_template b t r) = none

abbrev pub binding_connector : CapabilityBinding → Option String
binding_connector b = target_connector b.implementation

abbrev pub binding_ids : List CapabilityBinding → List String
binding_ids bs = map (λ b. b.binding_id) bs

-- `binding_connector(binding) == Some(preference)`
abbrev is_name : Option String → String → Bool
is_name none name = false
is_name (some n) name = same n name

abbrev pub preferred : Option String → List CapabilityBinding → List CapabilityBinding
preferred none bs = bs
preferred (some preference) bs = retain (λ b. is_name (binding_connector b) preference) bs

abbrev is_enabled : BindingAvailability → Bool
is_enabled BindingAvailability.enabled = true
is_enabled BindingAvailability.disabled = false

abbrev is_true : Option Bool → Bool
is_true none = false
is_true (some b) = b

-- `Option::is_some_and(|connector| connector.enabled)`
abbrev is_declared : Option ConnectorDefinition → Bool
is_declared none = false
is_declared (some c) = c.enabled

-- The candidate whose id is the configured default, if there is one.
abbrev pub find_default : Option String → List CapabilityBinding → Option CapabilityBinding
find_default none bs = none
find_default (some default_id) bs = find (λ b. same b.binding_id default_id) bs

-- `split_once('/')`: what follows the first slash.
unfoldable pub after_slash : Text → Option Text
after_slash [] = none
after_slash (c ∷ cs) = let rest = after_slash cs in if c == b'/' then some cs else rest

abbrev tail_names : Option Text → List Text
tail_names none = []
tail_names (some t) = t ∷ []

abbrev pub choose_model : String → BTreeSet → Result String ResolveError
choose_model query [] = err (model_not_found query)
choose_model query (id ∷ []) = ok id
choose_model query (id ∷ other ∷ ids) = err (model_ambiguous query (id ∷ other ∷ ids))

-- The last tests of `select_unique`, on the available candidates.
abbrev pub pick_one : String → List CapabilityBinding → Result CapabilityBinding ResolveError
pick_one capability_id (b ∷ []) = ok b
pick_one capability_id bs = err (binding_ambiguous capability_id (binding_ids bs))

abbrev pub default_or_one :
    String
    → List CapabilityBinding
    → Option CapabilityBinding
    → Result CapabilityBinding ResolveError
default_or_one capability_id available (some b) = ok b
default_or_one capability_id available none = pick_one capability_id available

-- Without a default among the candidates, a unique preferred one is chosen.
abbrev pub policy_choice :
    String
    → Option String
    → List CapabilityBinding
    → Option CapabilityBinding
    → Result CapabilityBinding ResolveError
policy_choice capability_id preference candidates (some b) = ok b
policy_choice capability_id (some preference) candidates none = pick_one capability_id candidates
policy_choice capability_id none candidates none =
    err (binding_ambiguous capability_id (binding_ids candidates))

module _ (catalog : CatalogSnapshot) where
  abbrev pub target_available : ConnectorAvailability → ImplementationTarget → Bool
  target_available availability (api_connector connector_id operation_id) =
      is_declared (connector catalog connector_id)
      && is_true (Assoc.lookup connector_id availability)
  target_available availability (workflow_template b t r) = false

  unfoldable pub binding_available : ConnectorAvailability → CapabilityBinding → Bool
  unfolding connector Assoc.lookup
  binding_available availability b =
      is_enabled b.availability && target_available availability b.implementation

  unfoldable pub select_unique :
      String
      → List CapabilityBinding
      → ConnectorAvailability
      → Result CapabilityBinding ResolveError
  unfolding binding_available Assoc.lookup same
  select_unique capability_id candidates availability = do
    let available = retain (binding_available availability) candidates
    ensure (not (is_empty available)) (binding_unavailable capability_id (binding_ids candidates))
    default_or_one capability_id available
        (find_default (Assoc.lookup capability_id catalog.default_bindings) available)

  unfoldable pub resolve_policy :
      String → Option String → ConnectorAvailability → Result ResolvedImplementation ResolveError
  unfolding bindings_for_capability binding_available resolved Assoc.lookup same
  resolve_policy capability_id preference availability = do
    let candidates = preferred preference (bindings_for_capability catalog capability_id)
    ensure (not (is_empty candidates)) (binding_not_found capability_id none)
    b ←
        policy_choice capability_id preference candidates
          (find_default (Assoc.lookup capability_id catalog.default_bindings) candidates)
    ensure (binding_available availability b)
        (binding_unavailable capability_id (b.binding_id ∷ []))
    ok (resolved capability_id none b)

module _ (tables : CharTables) (catalog : CatalogSnapshot) where
  -- A model's names: its id, its display name, the tail of its id, and its aliases.
  unfoldable pub model_names : ModelDefinition → List Text
  unfolding normalize_name after_slash
  model_names m = map (normalize_name tables) (
      codes m.model_id
      ∷ codes m.display_name
      ∷ (tail_names (after_slash (codes m.model_id)) ++ map codes m.aliases))

  unfoldable pub answers_to : Text → ModelDefinition → Bool
  unfolding model_names same_text
  answers_to needle m = any (λ name. same_text name needle) (model_names m)

  unfoldable pub normalize_model : String → Result String ResolveError
  unfolding normalize_name answers_to sort_dedup
  normalize_model query =
      let needle = normalize_name tables (codes query) in
      if is_empty needle
      then err (model_not_found query)
      else choose_model query
          (sort_dedup (map (λ m. m.model_id) (retain (answers_to needle) catalog.models)))

  unfoldable pub resolve_pinned :
      String
      → String
      → Option String
      → ConnectorAvailability
      → Result ResolvedImplementation ResolveError
  unfolding normalize_model bindings_for_pair select_unique resolved same
  resolve_pinned capability_id query preference availability = do
    model_id ← normalize_model query
    let candidates = preferred preference (bindings_for_pair catalog capability_id model_id)
    ensure (not (is_empty candidates)) (binding_not_found capability_id (some model_id))
    b ← select_unique catalog capability_id candidates availability
    ok (resolved capability_id (some model_id) b)

  abbrev dispatch :
      String
      → Option String
      → Option String
      → ConnectorAvailability
      → Result ResolvedImplementation ResolveError
  dispatch capability_id (some query) preference availability =
      resolve_pinned capability_id query preference availability
  dispatch capability_id none preference availability =
      resolve_policy catalog capability_id preference availability

  unfoldable pub resolve :
      ResolveRequest → ConnectorAvailability → Result ResolvedImplementation ResolveError
  unfolding capability resolve_pinned resolve_policy
  resolve request availability = do
    ensure (is_some (capability catalog request.capability_id))
        (capability_not_found request.capability_id)
    dispatch request.capability_id request.requested_model request.connector_preference availability
