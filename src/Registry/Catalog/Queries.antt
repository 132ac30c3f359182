-- ===== src/Registry/Catalog/Queries.antt =====
-- crates/registry/src/catalog.rs: `models_for_capability` and `capabilities_for_model`.
use helixflow.Base.{
  String, Bool, true, Option, some, List, [], ◌∷◌, map, ◌≡◌, ◌↔◌, refl, sym, ap, ◌∙◌, arith, same,
  same_iff, retain, retain-mem, mem-retain, filter_map, mem-filter_map, filter_map-mem, Bool-cases,
  inl, inr,
}
use mathlib.Core.List.{Memᴰ}
use helixflow.Base.Keys.{member, sort_dedup, member-sort_dedup}
use helixflow.Registry.Catalog.{
  CatalogSnapshot, CapabilityDefinition, ModelDefinition, CapabilityBinding, capability, model,
  bindings_for_capability,
}

module _ (catalog : CatalogSnapshot) where
  unfoldable pub models_for_capability : String → List ModelDefinition
  unfolding bindings_for_capability model sort_dedup
  models_for_capability capability_id =
      filter_map (model catalog)
        (sort_dedup (map (λ b. b.model_id) (bindings_for_capability catalog capability_id)))

  unfoldable pub capabilities_for_model : String → List CapabilityDefinition
  unfolding capability sort_dedup same
  capabilities_for_model model_id = filter_map (capability catalog) (
      sort_dedup
        (map (λ b. b.capability_id) (retain (λ b. same b.model_id model_id) catalog.bindings)))

-- The strings of a list by a key.
member-map :
    {A : Type 0} (key : A → String) (k : String) (xs : List A)
    → member k (map key xs) ≡ true
    → (x : A) × Memᴰ x xs × (key x ≡ k)
member-map key k [] h = cc
member-map key k (x ∷ xs) h = elim (Bool-cases (same k (key x))) [
  | inl e ↦ (x, Memᴰ.head refl, sym ((same_iff k (key x)).0 e))
  | inr e ↦ let (y, i, q) = member-map key k xs (rw e at h) in (y, Memᴰ.tail i, q)
]

member_of_mem : (k : String) {ks : List String} → Memᴰ k ks → member k ks ≡ true
member_of_mem k {ks = []} m = elim m [ ]
member_of_mem k {ks = j ∷ ks} (Memᴰ.head e) = ground (arith, (same_iff k j).1 e)
member_of_mem k {ks = j ∷ ks} (Memᴰ.tail i) = ground (arith, member_of_mem k i)

mem_of_member : (k : String) (ks : List String) → member k ks ≡ true → Memᴰ k ks
mem_of_member k [] h = cc
mem_of_member k (j ∷ ks) h = elim (Bool-cases (same k j)) [
  | inl e ↦ Memᴰ.head ((same_iff k j).0 e)
  | inr e ↦ Memᴰ.tail (mem_of_member k ks (rw e at h))
]

mem-map :
    {A : Type 0} (key : A → String) {x : A} {xs : List A} → Memᴰ x xs → Memᴰ (key x) (map key xs)
mem-map key {xs = []} m = elim m [ ]
mem-map key {xs = y ∷ xs} (Memᴰ.head e) = Memᴰ.head (ap key e)
mem-map key {xs = y ∷ xs} (Memᴰ.tail i) = Memᴰ.tail (mem-map key i)

-- What a search over the sorted ids of a list's elements finds.
related_iff :
    {A B : Type 0} (key : A → String) (search : String → Option B) (p : A → Bool) (xs : List A)
    (y : B)
    → Memᴰ y (filter_map search (sort_dedup (map key (retain p xs))))
      ↔ ((x : A) × Memᴰ x xs × (p x ≡ true) × (search (key x) ≡ some y))
related_iff key search p xs y = (
  λ m.
      let (k, i, found) = filter_map-mem search (sort_dedup (map key (retain p xs))) m in
      let named = sym (member-sort_dedup k (map key (retain p xs))) ∙ member_of_mem k i in
      let (x, j, is_k) = member-map key k (retain p xs) named in
      let (l, q) = retain-mem p xs j in (x, l, q, ap search is_k ∙ found),
  λ (x, m, q, found).
      let i = member_of_mem (key x) (mem-map key (mem-retain p m q)) in
      mem-filter_map search
        (mem_of_member (key x) (sort_dedup (map key (retain p xs)))
          (member-sort_dedup (key x) (map key (retain p xs)) ∙ i))
        found,
)

-- A model is listed for a capability exactly if it is what the catalog finds by the model id of
-- some binding of the capability, and a capability is listed for a model exactly if it is what
-- the catalog finds by the capability id of some binding of the model.
pub models_for_capability-mem_iff :
    (catalog : CatalogSnapshot) (id : String)
    → ((m : ModelDefinition)
        → Memᴰ m (models_for_capability catalog id) ↔ (
            (b : CapabilityBinding) × Memᴰ b catalog.bindings
            × (same b.capability_id id ≡ true)
            × (model catalog b.model_id ≡ some m)))
      × ((c : CapabilityDefinition)
          → Memᴰ c (capabilities_for_model catalog id) ↔ (
              (b : CapabilityBinding) × Memᴰ b catalog.bindings
              × (same b.model_id id ≡ true)
              × (capability catalog b.capability_id ≡ some c)))
unfolding models_for_capability capabilities_for_model bindings_for_capability
models_for_capability-mem_iff catalog id = (
  λ m.
      related_iff (λ b. b.model_id) (model catalog) (λ b. same b.capability_id id) catalog.bindings
        m,
  λ c.
      related_iff (λ b. b.capability_id) (capability catalog) (λ b. same b.model_id id)
        catalog.bindings c,
)
