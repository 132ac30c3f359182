-- ===== src/Registry/ParamsLaws.antt =====
-- Lemmas about crates/registry/src/types.rs: what the validation of parameters accepts.
use helixflow.Base.{
  String, true, false, ◌||◌, Option, none, some, List, [], ◌∷◌, ok, ◌≡◌, refl, ◌↔◌, ◌⊎◌, inl, inr,
  arith, sym, for_each, for_each-eq-ok, for_each_of_All, >>-eq-ok, ensure, ensure-eq-ok, any, All,
  Bool-cases, Option-cases, map-All,
}
use helixflow.Base.Assoc
use helixflow.Base.Keys.{BTreeSet, member, sorted}
use helixflow.Json.{Value, F64, ltb_F64, as_object, as_f64, same_value, same_value_iff}
use helixflow.Registry.Types.{ParamSpec, ParamsSchema}
use helixflow.Registry.Params.{
  has_type, is_empty, in_range, below_min, above_max, validate, check_required, check_param,
  validate_value_with_wired,
}
use mathlib.Core.List.{Memᴰ}

-- A value meets a specification: its type, its listed values, and its bounds where it is a number.
pub record Conforms (spec : ParamSpec) (value : Value) : Type 0 where
  pub typed : has_type spec.value_type value ≡ true
  pub listed : (spec.enum_values ≡ []) ⊎ Memᴰ value spec.enum_values
  pub from_minimum :
      (x lo : F64) → as_f64 value ≡ some x → spec.minimum ≡ some lo → ltb_F64 x lo ≡ false
  pub to_maximum :
      (x hi : F64) → as_f64 value ≡ some x → spec.maximum ≡ some hi → ltb_F64 hi x ≡ false

any-same_value : (v : Value) (vs : List Value) → any (λ w. same_value w v) vs ≡ true → Memᴰ v vs
any-same_value v [] h = cc
any-same_value v (w ∷ vs) h = elim (Bool-cases (same_value w v)) [
  | inl e ↦ Memᴰ.head (sym ((same_value_iff w v).0 e))
  | inr e ↦ Memᴰ.tail (any-same_value v vs (ground arith))
]

any-same_value_of_mem :
    (v : Value) (vs : List Value) → Memᴰ v vs → any (λ w. same_value w v) vs ≡ true
any-same_value_of_mem v [] m = elim m [ ]
any-same_value_of_mem v (w ∷ vs) (Memᴰ.head e) = rw ((same_value_iff w v).1 (sym e))
any-same_value_of_mem v (w ∷ vs) (Memᴰ.tail m) = ground (arith, any-same_value_of_mem v vs m)

listed_of_test :
    (v : Value) (vs : List Value)
    → (is_empty vs || any (λ w. same_value w v) vs) ≡ true
    → (vs ≡ []) ⊎ Memᴰ v vs
listed_of_test v [] h = inl refl
listed_of_test v (w ∷ vs) h = inr (any-same_value v (w ∷ vs) h)

test_of_listed :
    (v : Value) (vs : List Value)
    → (vs ≡ []) ⊎ Memᴰ v vs
    → (is_empty vs || any (λ w. same_value w v) vs) ≡ true
test_of_listed v [] h = refl
test_of_listed v (w ∷ vs) (inl e) = cc
test_of_listed v (w ∷ vs) (inr m) = any-same_value_of_mem v (w ∷ vs) m

not-below_min :
    (o : Option F64) (x : F64)
    → ((lo : F64) → o ≡ some lo → ltb_F64 x lo ≡ false)
    → below_min o x ≡ false
not-below_min none x h = refl
not-below_min (some lo) x h = h lo refl

not-above_max :
    (o : Option F64) (x : F64)
    → ((hi : F64) → o ≡ some hi → ltb_F64 hi x ≡ false)
    → above_max o x ≡ false
not-above_max none x h = refl
not-above_max (some hi) x h = h hi refl

in_range_of_bounds :
    (spec : ParamSpec) (value : Value) → Conforms spec value → in_range spec (as_f64 value) ≡ true
in_range_of_bounds spec value c = elim (Option-cases (as_f64 value)) [
  | inl e ↦ rw e
  | inr (x, e) ↦ rw (
    e,
    not-below_min spec.minimum x (λ lo. c.from_minimum x lo e),
    not-above_max spec.maximum x (λ hi. c.to_maximum x hi e),
  )
]

pub validate-ok_iff :
    (spec : ParamSpec) (node_type param : String) (value : Value)
    → (validate spec node_type param value ≡ ok tt) ↔ Conforms spec value
unfolding validate
validate-ok_iff spec node_type param value = (
  λ h.
      let (a, rest) = >>-eq-ok (ensure (has_type spec.value_type value) _) _ h in
      let (b, c) = >>-eq-ok (ensure _ _) _ rest in
      let within = ensure-eq-ok _ _ c in
      record {
        typed = ensure-eq-ok _ _ a;
        listed = listed_of_test value spec.enum_values (ensure-eq-ok _ _ b);
        from_minimum = λ x lo e m. ground arith;
        to_maximum = λ x hi e m. ground arith;
      },
  λ c.
      rw (c.typed, test_of_listed value spec.enum_values c.listed, in_range_of_bounds spec value c),
)

-- A parameter is known and its value conforms, or unknown ones are let through.
abbrev pub Allowed : ParamsSchema → String → Value → Type 0
Allowed schema param value =
    ((spec : ParamSpec) × (Assoc.lookup param schema.properties ≡ some spec) × Conforms spec value)
    ⊎ (Assoc.lookup param schema.properties ≡ none) × (schema.allow_unknown ≡ true)

-- What a schema accepts: an object with every required name given or wired, each entry allowed.
pub record Accepts (schema : ParamsSchema) (m : Assoc.BTreeMap Value) (wired : BTreeSet)
    : Type 0 where
  pub complete :
      All (λ name. (Assoc.contains_key name m || member name wired) ≡ true) schema.required
  pub allowed :
      (param : String) (v : Value) → Assoc.lookup param m ≡ some v → Allowed schema param v

check_param-ok_iff :
    (schema : ParamsSchema) (context param : String) (value : Value)
    → (check_param schema context (param, value) ≡ ok tt) ↔ Allowed schema param value
unfolding check_param
check_param-ok_iff schema context param value =
    elim (Option-cases (Assoc.lookup param schema.properties)) [
      | inl e ↦ (
        λ h. inr (e, ensure-eq-ok schema.allow_unknown _ (rw (e, check_param) at h)),
        λ a. elim a [ inl (spec, found, c) ↦ ground arith | inr (absent, known) ↦ ground arith ],
      )
      | inr (spec, e) ↦ (
        λ h. inl (spec, e, (validate-ok_iff spec context param value).0 (rw (e, check_param) at h)),
        λ a. elim a [
          | inl (spec', found, c) ↦
              rw (found, check_param) ((validate-ok_iff spec' context param value).1 c)
          | inr (absent, known) ↦ cc
        ],
      )
    ]

-- The validation of parameters that are an object, held in the order of its names, accepts
-- exactly what the schema describes: each required parameter is given or wired, and each that is
-- given is known, or unknown ones are allowed, and conforms to its specification.
pub validate_value_with_wired-ok_iff :
    (schema : ParamsSchema) (context : String) (params : Value) (wired : BTreeSet)
    (m : Assoc.BTreeMap Value)
    → as_object params ≡ some m
    → sorted (Assoc.keys m) ≡ true
    → (validate_value_with_wired schema context params wired ≡ ok tt) ↔ Accepts schema m wired
unfolding validate_value_with_wired check_required
validate_value_with_wired-ok_iff schema context params wired m e s = rw e (
  λ h.
      let (a, b) = >>-eq-ok (for_each (check_required context m wired) schema.required) _ h in
      record {
        complete =
            map-All (λ r. ensure-eq-ok _ _) schema.required
              (for_each-eq-ok (check_required context m wired) schema.required a);
        allowed = λ param v found. (check_param-ok_iff schema context param v).0 (
            Assoc.lookup_of_All (λ x. check_param schema context x ≡ ok tt) param m
              (for_each-eq-ok (check_param schema context) m b) found);
      },
  λ c. rw (
    for_each_of_All (check_required context m wired) schema.required
        (map-All (λ r h. rw h) schema.required c.complete),
    for_each_of_All (check_param schema context) m (
        Assoc.All-of_lookup (λ x. check_param schema context x ≡ ok tt) m s
          (λ k v found. (check_param-ok_iff schema context k v).1 (c.allowed k v found))),
  ),
)
