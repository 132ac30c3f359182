-- ===== src/Graph/Migration/Sound.antt =====
-- What the migration of crates/graph/src/semantics.rs does to each node.
use helixflow.Base.{
  String, true, false, ◌&&◌, Option, none, some, [], ok, err, ensure, map_err, ◌≡◌, refl, sym, ap,
  ◌∙◌, subst, arith, same, if◌then◌else◌, is_some, inl, inr, Bool-cases, >>=-eq-ok, >>-eq-ok,
  ensure-eq-ok, ok-injective, map_err-eq-ok,
}
use helixflow.Base.Assoc
use helixflow.Base.Assoc.{BTreeMap, lookup, keys}
use helixflow.Base.Keys.{sorted}
use helixflow.Json.{Value, as_object, get, to_map, to_map-of_map}
use helixflow.Registry.{NodeRegistry, definition}
use helixflow.Registry.Types.{NodeDefinition}
use helixflow.Registry.Names.{CharTables}
use helixflow.Registry.Catalog.{CatalogSnapshot, CapabilityBinding, capability}
use helixflow.Registry.Resolver.{resolve, resolved}
use helixflow.Registry.Resolver.Sound.{Serves, resolve-Serves}
use helixflow.Graph.Types.{GraphNode, NodeSemanticsEntry, pinned}
use helixflow.Graph.Migration.{
  MigrationAction, Migrating, Outcome, request_for, legacy_model, remove_model, migrated_params,
  write_entry, policy_entry, pinned_entry, resolve_error_action, mapped_policy,
  migrate_executable_node, settle, availability_for,
}

-- The fields of an object, and none of another value.
abbrev pub fields_of : Value → BTreeMap Value
fields_of v = elim (as_object v) [ some m ↦ m | none ↦ [] ]

get-remove_model :
    (j : String) (v : Value)
    → sorted (keys (fields_of v)) ≡ true
    → get j (remove_model v) ≡ (if same j "model" then none else get j v)
unfolding get as_object
get-remove_model j (Value.object fs) s =
    rw (to_map-of_map (Assoc.remove "model" (to_map fs))) (elim (Bool-cases (same j "model")) [
      | inl e ↦ rw e (
          Assoc.lookup-same j "model" (Assoc.remove "model" (to_map fs)) e
          ∙ Assoc.lookup-remove_self "model" (to_map fs) s)
      | inr e ↦ rw e (Assoc.lookup-remove_ne j "model" (to_map fs) e)
    ])
get-remove_model j _ s = ground arith

-- The parameters of a node whose declared model is taken out.
abbrev pub IsStripped : Option String → Value → Value → Type 0
IsStripped model params params' =
    (j : String) → get j params' ≡ (if is_some model && same j "model" then none else get j params)

migrated_params-IsStripped :
    (model : Option String) (params : Value)
    → sorted (keys (fields_of params)) ≡ true
    → IsStripped model params (migrated_params model params)
migrated_params-IsStripped none params s = λ j. refl
migrated_params-IsStripped (some m) params s = λ j. get-remove_model j params s

-- How an entry selects: a pinned entry names the binding and its model, and an entry without a
-- declared model leaves the choice to the default, which is configured.
abbrev pub Selects :
    CatalogSnapshot → String → Option String → CapabilityBinding → NodeSemanticsEntry → Type 0
Selects catalog cap (some query) b entry = entry.implementation ≡ pinned b.model_id b.binding_id
Selects catalog cap none b entry =
    (entry ≡ policy_entry cap) × (Assoc.contains_key cap catalog.default_bindings ≡ true)

module _ (tables : CharTables) (catalog : CatalogSnapshot) (connector : Option String) where
  -- The entry of a node of a capability and a declared model, or none.
  pub record EntryFits (cap : String) (model : Option String) (entry : NodeSemanticsEntry)
      : Type 0 where
    pub binding : CapabilityBinding
    pub serves :
        Serves tables catalog
          (request_for tables catalog connector cap model)
          (availability_for catalog connector)
          binding
    pub is_capability : entry.capability_id ≡ cap
    pub is_mode : entry.mode ≡ cap
    pub known : is_some (capability catalog cap) ≡ true
    pub selects : Selects catalog cap model binding entry

  migrate_executable_node-EntryFits :
      (cap : String) (model : Option String) (entry : NodeSemanticsEntry) (action : MigrationAction)
      → migrate_executable_node tables catalog connector cap model
          (availability_for catalog connector)
        ≡ ok (entry, action)
      → EntryFits cap model entry
  unfolding migrate_executable_node resolved
  migrate_executable_node-EntryFits cap (some query) entry action h =
      let (is_known, h1) = >>-eq-ok (ensure (is_some (capability catalog cap)) _) _ h in
      let request = request_for tables catalog connector cap (some query) in
      let available = availability_for catalog connector in
      let (r, r_ok, last) =
        >>=-eq-ok
          (map_err (λ e. resolve_error_action tables catalog connector e request true)
            (resolve tables catalog request available))
          _ h1 in
      let (b, serves, is_r, explicit) =
        resolve-Serves tables catalog request available r (map_err-eq-ok _ _ r_ok) in
      let is_entry : pinned_entry cap r ≡ entry = ap (λ p. p.0) (ok-injective last) in
      record {
        binding = b;
        serves = serves;
        is_capability = ap (λ e. e.capability_id) (sym is_entry);
        is_mode = ap (λ e. e.mode) (sym is_entry);
        known = ensure-eq-ok _ _ is_known;
        selects =
            ap (λ e. e.implementation) (sym is_entry)
            ∙ ap (λ x. pinned x.resolved_model_id x.binding_id) is_r;
      }
  migrate_executable_node-EntryFits cap none entry action h =
      let (is_known, h1) = >>-eq-ok (ensure (is_some (capability catalog cap)) _) _ h in
      let (is_default, h2) =
        >>-eq-ok (ensure (Assoc.contains_key cap catalog.default_bindings) _) _ h1 in
      let request = request_for tables catalog connector cap none in
      let available = availability_for catalog connector in
      let (r, r_ok, last) =
        >>=-eq-ok
          (map_err (λ e. resolve_error_action tables catalog connector e request false)
            (resolve tables catalog request available))
          (λ r. ok (policy_entry cap, mapped_policy cap)) h2 in
      let (b, serves, is_r, explicit) =
        resolve-Serves tables catalog request available r (map_err-eq-ok _ _ r_ok) in
      let is_entry : policy_entry cap ≡ entry = ap (λ p. p.0) (ok-injective last) in
      record {
        binding = b;
        serves = serves;
        is_capability = ap (λ e. e.capability_id) (sym is_entry);
        is_mode = ap (λ e. e.mode) (sym is_entry);
        known = ensure-eq-ok _ _ is_known;
        selects = (sym is_entry, ensure-eq-ok _ _ is_default);
      }

  -- What becomes of a node whose type has a capability, or has none.
  abbrev pub Layered : Option String → GraphNode → GraphNode → Type 0
  Layered none n n' = n' ≡ n
  Layered (some cap) n n' =
      (entry : NodeSemanticsEntry) × EntryFits cap (legacy_model n.params) entry
      × (n' ≡ record n { params = n'.params; semantics = some entry })
      × IsStripped (legacy_model n.params) n.params n'.params

  pub record Migrated (reg : NodeRegistry) (n n' : GraphNode) : Type 0 where
    pub def : NodeDefinition
    pub known : definition reg n.node_type ≡ ok def
    pub layered : Layered def.capability n n'

  -- One step of the loop, on a node that it resolves.
  pub record Step (reg : NodeRegistry) (id : String) (n : GraphNode) (m m' : Migrating)
      : Type 0 where
    pub was : m.resolvable ≡ true
    pub names : keys m'.migrated ≡ keys m.migrated
    pub others : (j : String) → same j id ≡ false → lookup j m'.migrated ≡ lookup j m.migrated
    pub itself :
        lookup id m.migrated ≡ some n
        → (n' : GraphNode) × (lookup id m'.migrated ≡ some n') × Migrated reg n n'

  pub settle-Step :
      (reg : NodeRegistry) (d : NodeDefinition) (id cap : String) (n : GraphNode) (m : Migrating)
      (o : Outcome)
      → sorted (keys (fields_of n.params)) ≡ true
      → definition reg n.node_type ≡ ok d
      → d.capability ≡ some cap
      → migrate_executable_node tables catalog connector cap
          (legacy_model n.params)
          (availability_for catalog connector)
        ≡ o
      → (settle tables catalog connector id (legacy_model n.params) o m).resolvable ≡ true
      → Step reg id n m (settle tables catalog connector id (legacy_model n.params) o m)
  settle-Step reg d id cap n m (err action) s known capable is_o h = cc
  settle-Step reg d id cap n m (ok (entry, action)) s known capable is_o h = record {
    was = h;
    names = Assoc.keys-adjust id (write_entry (legacy_model n.params) entry) m.migrated;
    others = λ j ne.
        Assoc.lookup-adjust_ne j id (write_entry (legacy_model n.params) entry) m.migrated ne;
    itself = λ found. (
      write_entry (legacy_model n.params) entry n,
      Assoc.lookup-adjust_self id (write_entry (legacy_model n.params) entry) m.migrated found,
      record {
        def = d;
        known = known;
        layered =
            subst (λ c. Layered c n (write_entry (legacy_model n.params) entry n)) (sym capable)
              (
                entry,
                migrate_executable_node-EntryFits cap (legacy_model n.params) entry action is_o,
                refl,
                migrated_params-IsStripped (legacy_model n.params) n.params s,
              );
      },
    );
  }
