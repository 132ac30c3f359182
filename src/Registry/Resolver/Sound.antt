-- ===== src/Registry/Resolver/Sound.antt =====
-- What a resolution of crates/registry/src/resolver.rs guarantees.
use helixflow.Base.{
  String, true, not, ◌&&◌, Option, none, some, List, [], ◌∷◌, ok, ensure, ◌≡◌, ◌⊎◌, refl, sym, ap,
  ◌∙◌, subst, arith, same, same_iff, retain, find-some, retain-mem, find-mem, is_some, inl, inr,
  Option-cases, >>=-eq-ok, >>-eq-ok, ok-injective, ensure-eq-ok,
}
use mathlib.Core.List.{Memᴰ}
use helixflow.Base.Assoc
use helixflow.Registry.Names.{CharTables}
use helixflow.Registry.Params.{is_empty}
use helixflow.Registry.Catalog.{
  CatalogSnapshot, CapabilityBinding, capability, bindings_for_capability, bindings_for_pair,
}
use helixflow.Registry.Resolver.{
  ResolveRequest, ResolvedImplementation, ConnectorAvailability, resolved, binding_connector,
  preferred, find_default, is_name, normalize_model, binding_available, pick_one, default_or_one,
  select_unique, resolve_pinned, policy_choice, resolve_policy, resolve,
}

preferred-mem :
    (o : Option String) (bs : List CapabilityBinding) (b : CapabilityBinding)
    → Memᴰ b (preferred o bs)
    → Memᴰ b bs × ((c : String) → o ≡ some c → binding_connector b ≡ some c)
preferred-mem none bs b m = (m, λ c e. cc)
preferred-mem (some p) bs b m =
    let (i, q) = retain-mem (λ x. is_name (binding_connector x) p) bs m in
    (
      i,
      λ c e. elim (Option-cases (binding_connector b)) [
        | inl none_there ↦ ground arith
        | inr (n, there) ↦ there ∙ ap some ((same_iff n p).0 (ground arith)) ∙ e
      ],
    )

pick_one_ok :
    (id : String) (bs : List CapabilityBinding) (b : CapabilityBinding)
    → pick_one id bs ≡ ok b
    → bs ≡ b ∷ []
pick_one_ok id [] b h = cc
pick_one_ok id (x ∷ []) b h = ap (λ y. y ∷ []) (ok-injective h)
pick_one_ok id (x ∷ y ∷ bs) b h = cc

find_default_ok :
    (o : Option String) (bs : List CapabilityBinding) (b : CapabilityBinding)
    → find_default o bs ≡ some b
    → Memᴰ b bs × (o ≡ some b.binding_id)
find_default_ok none bs b h = cc
find_default_ok (some d) bs b h = (
  find-mem (λ x. same x.binding_id d) bs h,
  ap some (sym ((same_iff b.binding_id d).0 (find-some (λ x. same x.binding_id d) bs h))),
)

pair_mem :
    (catalog : CatalogSnapshot) (id model : String) (b : CapabilityBinding)
    → Memᴰ b (bindings_for_pair catalog id model)
    → Memᴰ b catalog.bindings × (b.capability_id ≡ id) × (b.model_id ≡ model)
unfolding bindings_for_pair
pair_mem catalog id model b m =
    let (i, q) =
      retain-mem (λ x. same x.capability_id id && same x.model_id model) catalog.bindings m in
    (
      i,
      (same_iff b.capability_id id).0 (ground arith),
      (same_iff b.model_id model).0 (ground arith),
    )

capability_mem :
    (catalog : CatalogSnapshot) (id : String) (b : CapabilityBinding)
    → Memᴰ b (bindings_for_capability catalog id)
    → Memᴰ b catalog.bindings × (b.capability_id ≡ id)
unfolding bindings_for_capability
capability_mem catalog id b m =
    let (i, q) = retain-mem (λ x. same x.capability_id id) catalog.bindings m in
    (i, (same_iff b.capability_id id).0 q)

-- A choice is the configured default, or the only candidate.
abbrev pub IsExplicit :
    CatalogSnapshot → String → List CapabilityBinding → CapabilityBinding → Type 0
IsExplicit catalog id candidates b =
    (Assoc.lookup id catalog.default_bindings ≡ some b.binding_id) ⊎ (candidates ≡ b ∷ [])

IsExplicit-mem :
    (catalog : CatalogSnapshot) (id : String) (bs : List CapabilityBinding) (b : CapabilityBinding)
    (o : Option CapabilityBinding)
    → find_default (Assoc.lookup id catalog.default_bindings) bs ≡ o
    → (o ≡ some b) ⊎ (bs ≡ b ∷ [])
    → Memᴰ b bs × IsExplicit catalog id bs b
IsExplicit-mem catalog id bs b o e (inl is_b) =
    let (m, d) = find_default_ok (Assoc.lookup id catalog.default_bindings) bs b (e ∙ is_b) in
    (m, inl d)
IsExplicit-mem catalog id bs b o e (inr only) =
    (subst (Memᴰ b) (sym only) (Memᴰ.head refl), inr only)

default_or_one_ok :
    (id : String) (bs : List CapabilityBinding) (o : Option CapabilityBinding)
    (b : CapabilityBinding)
    → default_or_one id bs o ≡ ok b
    → (o ≡ some b) ⊎ (bs ≡ b ∷ [])
default_or_one_ok id bs (some d) b h = inl (ap some (ok-injective h))
default_or_one_ok id bs none b h = inr (pick_one_ok id bs b h)

policy_choice_ok :
    (id : String) (p : Option String) (bs : List CapabilityBinding) (o : Option CapabilityBinding)
    (b : CapabilityBinding)
    → policy_choice id p bs o ≡ ok b
    → (o ≡ some b) ⊎ (bs ≡ b ∷ [])
policy_choice_ok id p bs (some d) b h = inl (ap some (ok-injective h))
policy_choice_ok id (some p) bs none b h = inr (pick_one_ok id bs b h)
policy_choice_ok id none bs none b h = cc

-- A binding of the catalog that a request may resolve to.
pub record Serves (tables : CharTables) (catalog : CatalogSnapshot) (request : ResolveRequest)
    (availability : ConnectorAvailability) (b : CapabilityBinding) : Type 0 where
  pub listed : Memᴰ b catalog.bindings
  pub implements : b.capability_id ≡ request.capability_id
  pub available : binding_available catalog availability b ≡ true
  pub on_connector :
      (c : String) → request.connector_preference ≡ some c → binding_connector b ≡ some c
  pub as_requested :
      (query : String)
      → request.requested_model ≡ some query
      → normalize_model tables catalog query ≡ ok b.model_id

-- The candidates among which a choice must be explicit: for a requested model, the available
-- bindings of the pair, and else the bindings of the capability.
abbrev pub candidates :
    CharTables
    → CatalogSnapshot
    → ResolveRequest
    → ConnectorAvailability
    → CapabilityBinding
    → List CapabilityBinding
candidates tables catalog request availability b = elim request.requested_model [
  | some query ↦ retain (binding_available catalog availability) (
      preferred request.connector_preference
        (bindings_for_pair catalog request.capability_id b.model_id))
  | none ↦
      preferred request.connector_preference (bindings_for_capability catalog request.capability_id)
]

-- The model id that a result reports as requested.
abbrev pub requested_id : Option String → CapabilityBinding → Option String
requested_id none b = none
requested_id (some query) b = some b.model_id

module _ (tables : CharTables) (catalog : CatalogSnapshot)
    (availability : ConnectorAvailability) where
  resolve_pinned-Serves :
      (id query : String) (p : Option String) (r : ResolvedImplementation)
      → resolve_pinned tables catalog id query p availability ≡ ok r
      → (b : CapabilityBinding) × Serves tables catalog
          (record { capability_id = id; requested_model = some query; connector_preference = p })
          availability
          b
        × (r ≡ resolved id (some b.model_id) b)
        × IsExplicit catalog id
            (retain
              (binding_available catalog availability)
              (preferred p (bindings_for_pair catalog id b.model_id)))
            b
  unfolding resolve_pinned select_unique
  resolve_pinned-Serves id query p r h =
      let (model, is_model, h1) = >>=-eq-ok (normalize_model tables catalog query) _ h in
      let cs = preferred p (bindings_for_pair catalog id model) in
      let (some_there, h2) = >>-eq-ok (ensure (not (is_empty cs)) _) _ h1 in
      let (b, chosen, last) = >>=-eq-ok (select_unique catalog id cs availability) _ h2 in
      let avail = retain (binding_available catalog availability) cs in
      let (_, picked) = >>-eq-ok (ensure (not (is_empty avail)) _) _ chosen in
      let (m, explicit) =
        IsExplicit-mem catalog id avail b _ refl (default_or_one_ok id avail _ b picked) in
      let (m1, usable) = retain-mem (binding_available catalog availability) cs m in
      let (m2, on) = preferred-mem p (bindings_for_pair catalog id model) b m1 in
      let (m3, implements, models) = pair_mem catalog id model b m2 in
      (
        b,
        record {
          listed = m3;
          implements = implements;
          available = usable;
          on_connector = on;
          as_requested = λ q e. answer_of query q model b models is_model e;
        },
        sym (ok-injective last) ∙ ap (λ x. resolved id (some x) b) (sym models),
        subst
            (λ x.
              IsExplicit catalog id
                (retain (binding_available catalog availability)
                  (preferred p (bindings_for_pair catalog id x)))
                b)
            (sym models) explicit,
      )
    where
      answer_of :
          (query q model : String) (b : CapabilityBinding)
          → b.model_id ≡ model
          → normalize_model tables catalog query ≡ ok model
          → some query ≡ some q
          → normalize_model tables catalog q ≡ ok b.model_id
      answer_of query q model b models is_model e = cc

  resolve_policy-Serves :
      (id : String) (p : Option String) (r : ResolvedImplementation)
      → resolve_policy catalog id p availability ≡ ok r
      → (b : CapabilityBinding) × Serves tables catalog
          (record { capability_id = id; requested_model = none; connector_preference = p })
          availability
          b
        × (r ≡ resolved id none b)
        × IsExplicit catalog id (preferred p (bindings_for_capability catalog id)) b
  unfolding resolve_policy
  resolve_policy-Serves id p r h =
      let cs = preferred p (bindings_for_capability catalog id) in
      let (some_there, h1) = >>-eq-ok (ensure (not (is_empty cs)) _) _ h in
      let (b, chosen, h2) = >>=-eq-ok (policy_choice id p cs _) _ h1 in
      let (usable, last) = >>-eq-ok (ensure (binding_available catalog availability b) _) _ h2 in
      let (m, explicit) =
        IsExplicit-mem catalog id cs b _ refl (policy_choice_ok id p cs _ b chosen) in
      let (m2, on) = preferred-mem p (bindings_for_capability catalog id) b m in
      let (m3, implements) = capability_mem catalog id b m2 in
      (
        b,
        record {
          listed = m3;
          implements = implements;
          available = ensure-eq-ok _ _ usable;
          on_connector = on;
          as_requested = λ q e. cc;
        },
        sym (ok-injective last),
        explicit,
      )

  resolve_dispatch :
      (id : String) (o p : Option String) (r : ResolvedImplementation)
      → resolve tables catalog
          (record { capability_id = id; requested_model = o; connector_preference = p })
          availability
        ≡ ok r
      → (b : CapabilityBinding) × Serves tables catalog
          (record { capability_id = id; requested_model = o; connector_preference = p })
          availability
          b
        × (r ≡ resolved id (requested_id o b) b)
        × IsExplicit catalog id
            (candidates tables catalog
              (record { capability_id = id; requested_model = o; connector_preference = p })
              availability
              b)
            b
  unfolding resolve
  resolve_dispatch id none p r h =
      resolve_policy-Serves id p r (>>-eq-ok (ensure (is_some (capability catalog id)) _) _ h).1
  resolve_dispatch id (some query) p r h =
      resolve_pinned-Serves id query p r
        (>>-eq-ok (ensure (is_some (capability catalog id)) _) _ h).1

-- A resolution that succeeds is a binding of the catalog for the requested capability that is
-- available. It is on the preferred connector, where one is given, and of exactly the model that
-- the requested name normalizes to, where one is named; and it is the configured default or the
-- only candidate.
pub resolve-Serves :
    (tables : CharTables) (catalog : CatalogSnapshot) (request : ResolveRequest)
    (availability : ConnectorAvailability) (r : ResolvedImplementation)
    → resolve tables catalog request availability ≡ ok r
    → (b : CapabilityBinding) × Serves tables catalog request availability b
      × (r ≡ resolved request.capability_id (requested_id request.requested_model b) b)
      × IsExplicit catalog request.capability_id
          (candidates tables catalog request availability b)
          b
resolve-Serves tables catalog request availability r h =
    resolve_dispatch tables catalog availability request.capability_id request.requested_model
      request.connector_preference r h
