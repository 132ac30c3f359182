-- ===== src/Graph/Migration/Report.antt =====
-- The report of the migration of crates/graph/src/semantics.rs.
use helixflow.Base.{
  String, Bool, true, false, not, ◌&&◌, Option, none, some, List, [], ◌∷◌, ◌++◌, map, Result, ok,
  err, map_err, ◌>>=◌, ◌≡◌, refl, sym, ap, ◌∙◌, arith, all, is_some, inl, inr, Bool-cases,
}
use mathlib.Core.List.{append_assoc, append-nil}
use helixflow.Base.Assoc
use helixflow.Base.Assoc.{BTreeMap, keys}
use helixflow.Registry.{NodeRegistry, definition}
use helixflow.Registry.Types.{NodeDefinition, RegistryError}
use helixflow.Registry.Messages.{message}
use Prim.Native.String.{◌++◌ as append}
use helixflow.Registry.Names.{CharTables}
use helixflow.Registry.Catalog.{CatalogSnapshot, capability}
use helixflow.Registry.Resolver.{
  ConnectorAvailability, ResolveRequest, ResolveError, resolve, resolve_policy, resolve_pinned,
}
use helixflow.Graph.Types.{WorkflowGraph, GraphNode, NodeSemanticsEntry}
use helixflow.Graph.Migration.{
  MigrationAction, NodeMigration, Migrating, Outcome, structural, mapped_policy, mapped_pinned,
  needs_resolution, needs_user_choice, policy_entry, pinned_entry, MigrationReasonCode,
  all_available, lacks_binding, action_of, is_ok, legacy_model, request_for, resolve_error_action,
  migrate_executable_node, push_action, settle, migrate_known, migrate_node, migrate_nodes,
  availability_for, migrate_v1_with_connector,
}

-- An action that leaves nothing to be decided.
abbrev pub is_settled : MigrationAction → Bool
is_settled (needs_resolution code reason) = false
is_settled (needs_user_choice code candidates) = false
is_settled _ = true

action_of-unsettled : (p : Bool) (e : ResolveError) → is_settled (action_of p e) ≡ false
action_of-unsettled p (ResolveError.capability_not_found c) = refl
action_of-unsettled p (ResolveError.model_not_found q) = refl
action_of-unsettled p (ResolveError.model_ambiguous q cs) = refl
action_of-unsettled true (ResolveError.binding_not_found c m) = refl
action_of-unsettled false (ResolveError.binding_not_found c m) = refl
action_of-unsettled p (ResolveError.binding_ambiguous c cs) = refl
action_of-unsettled p (ResolveError.binding_unavailable c bs) = refl

-- An outcome settles its node exactly if it is not an error.
abbrev is_fair : Outcome → Bool
is_fair (ok (entry, action)) = is_settled action
is_fair (err action) = not (is_settled action)

fair_of {ℓ κ} :
    {A : Type ℓ} {E : Type κ} (r : Result A E) (f : E → MigrationAction)
    (g : A → NodeSemanticsEntry × MigrationAction)
    → ((e : E) → is_settled (f e) ≡ false)
    → ((a : A) → is_settled (g a).1 ≡ true)
    → is_fair (map_err f r >>= λ a. ok (g a)) ≡ true
fair_of (ok a) f g h k = k a
fair_of (err e) f g h k = ap not (h e)

all-append {ℓ} :
    {A : Type ℓ} (p : A → Bool) (xs : List A) (y : A) → all p (xs ++ y ∷ []) ≡ (all p xs && p y)
all-append p [] y = ground arith
all-append p (x ∷ xs) y = ground (arith, all-append p xs y)

map-append {ℓ κ} :
    {A : Type ℓ} {B : Type κ} (f : A → B) (xs ys : List A) → map f (xs ++ ys) ≡ map f xs ++ map f ys
map-append f [] ys = refl
map-append f (x ∷ xs) ys = ap (λ r. f x ∷ r) (map-append f xs ys)

abbrev settled : List NodeMigration → Bool
settled nodes = all (λ n. is_settled n.action) nodes

-- The flag tells whether every action so far is settled.
abbrev IsTold : Migrating → Type 0
IsTold m = m.resolvable ≡ settled m.nodes

module _ (tables : CharTables) (catalog : CatalogSnapshot) (connector : Option String) where
  resolve_error_action-unsettled :
      (e : ResolveError) (request : ResolveRequest) (p : Bool)
      → is_settled (resolve_error_action tables catalog connector e request p) ≡ false
  unfolding resolve_error_action
  resolve_error_action-unsettled e request p =
      elim (Bool-cases (
        is_some connector
        && lacks_binding e
        && is_ok (
            resolve tables catalog (record request { connector_preference = none })
              (all_available catalog.connectors)))) [
                | inl t ↦ rw (t, resolve_error_action) refl
                | inr f ↦ rw (f, resolve_error_action) (action_of-unsettled p e)
              ]

  migrate_executable_node-fair :
      (cap : String) (model : Option String) (available : ConnectorAvailability)
      → is_fair (migrate_executable_node tables catalog connector cap model available) ≡ true
  unfolding migrate_executable_node
  migrate_executable_node-fair cap (some query) available =
      elim (Bool-cases (is_some (capability catalog cap))) [
        | inr unknown ↦ rw unknown refl
        | inl known ↦ rw known (
            fair_of (resolve_pinned tables catalog cap query connector available)
              (λ e.
                resolve_error_action tables catalog connector e
                  (request_for tables catalog connector cap (some query)) true)
              (λ r. (pinned_entry cap r, mapped_pinned cap r.resolved_model_id r.binding_id))
              (λ e.
                resolve_error_action-unsettled e
                  (request_for tables catalog connector cap (some query)) true)
              (λ r. refl))
      ]
  migrate_executable_node-fair cap none available =
      elim (Bool-cases (is_some (capability catalog cap))) [
        | inr unknown ↦ rw unknown refl
        | inl known ↦ elim (Bool-cases (Assoc.contains_key cap catalog.default_bindings)) [
          | inr no_default ↦ rw (known, no_default) refl
          | inl default ↦
              rw (known, default)
                (fair_of (resolve_policy catalog cap connector available)
                  (λ e.
                    resolve_error_action tables catalog connector e
                      (request_for tables catalog connector cap none) false)
                  (λ r. (policy_entry cap, mapped_policy cap))
                  (λ e.
                    resolve_error_action-unsettled e (request_for tables catalog connector cap none)
                      false)
                  (λ r. refl))
        ]
      ]

  abbrev names : Migrating → List String
  names m = map (λ n. n.node_id) m.nodes

  -- A step reports its node, and keeps the flag in step with the actions.
  abbrev Reports : String → Migrating → Migrating → Type 0
  Reports id m m' = (IsTold m → IsTold m') × (names m' ≡ names m ++ id ∷ [])

  settle-Reports :
      (id : String) (model : Option String) (o : Outcome) (m : Migrating)
      → is_fair o ≡ true
      → Reports id m (settle tables catalog connector id model o m)
  settle-Reports id model (ok (entry, action)) m fair = (
    λ told.
        told
        ∙ sym (
            all-append (λ n. is_settled n.action) m.nodes (record { node_id = id; action = action })
            ∙ ground (arith, fair)),
    map-append (λ n. n.node_id) m.nodes (record { node_id = id; action = action } ∷ []),
  )
  settle-Reports id model (err action) m fair = (
    λ told. sym (
        all-append (λ n. is_settled n.action) m.nodes (record { node_id = id; action = action })
        ∙ ground (arith, fair)),
    map-append (λ n. n.node_id) m.nodes (record { node_id = id; action = action } ∷ []),
  )

  known-Reports :
      (id : String) (n : GraphNode) (c : Option String) (available : ConnectorAvailability)
      (m : Migrating)
      → Reports id m (migrate_known tables catalog connector id n c available m)
  known-Reports id n none available m =
      settle-Reports id none (ok (policy_entry id, structural)) m refl
  known-Reports id n (some cap) available m =
      settle-Reports id (legacy_model n.params) _ m
        (migrate_executable_node-fair cap (legacy_model n.params) available)

  migrate_node-Reports :
      (reg : NodeRegistry) (available : ConnectorAvailability) (id : String) (n : GraphNode)
      (m : Migrating)
      → Reports id m (migrate_node tables catalog connector reg available (id, n) m)
  unfolding migrate_node
  migrate_node-Reports reg available id n m = by_definition (definition reg n.node_type)
    where
      by_definition :
          (r : Result NodeDefinition RegistryError)
          → Reports id m (elim r [
            | ok d ↦ migrate_known tables catalog connector id n d.capability available m
            | err e ↦
                push_action tables catalog connector id
                  (needs_resolution MigrationReasonCode.unknown_node_type
                    (append "unknown node type: " (message e)))
                  (record m { resolvable = false })
          ])
      by_definition (ok d) = known-Reports id n d.capability available m
      by_definition (err e) =
          settle-Reports id none
            (err (
              needs_resolution MigrationReasonCode.unknown_node_type
                (append "unknown node type: " (message e))))
            m refl

  migrate_nodes-Reports :
      (reg : NodeRegistry) (available : ConnectorAvailability) (ns : BTreeMap GraphNode)
      (m : Migrating)
      → let m' = migrate_nodes tables catalog connector reg available ns m in
        (IsTold m → IsTold m') × (names m' ≡ names m ++ keys ns)
  unfolding migrate_nodes
  migrate_nodes-Reports reg available [] m = (λ told. told, sym (append-nil (names m)))
  migrate_nodes-Reports reg available ((id, n) ∷ ns) m =
      let (told, named) = migrate_node-Reports reg available id n m in
      let (all_told, all_named) =
        migrate_nodes-Reports reg available ns
          (migrate_node tables catalog connector reg available (id, n) m) in
      (
        λ t. all_told (told t),
        all_named ∙ ap (λ x. x ++ keys ns) named ∙ append_assoc (names m) (id ∷ []) (keys ns),
      )

-- A migration always reports on every node, in the order of their names, and returns a graph exactly
-- if no node is left to be resolved or to be chosen for, as its report says.
pub migrate_v1_with_connector-report :
    (tables : CharTables) (catalog : CatalogSnapshot) (connector : Option String)
    (reg : NodeRegistry) (g : WorkflowGraph)
    → let (migrated, report) = migrate_v1_with_connector tables catalog connector reg g in
      (is_some migrated ≡ report.resolvable)
      × (report.resolvable ≡ all (λ n. is_settled n.action) report.nodes)
      × (map (λ n. n.node_id) report.nodes ≡ keys g.nodes)
unfolding migrate_v1_with_connector
migrate_v1_with_connector-report tables catalog connector reg g =
    let start : Migrating = record { migrated = g.nodes; nodes = []; resolvable = true } in
    let available = availability_for catalog connector in
    let (told, named) =
      migrate_nodes-Reports tables catalog connector reg available g.nodes start in
    let done = migrate_nodes tables catalog connector reg available g.nodes start in
    (given _ done.resolvable, told refl, named)
  where
    given : (a : WorkflowGraph) (b : Bool) → is_some (elim b [ true ↦ some a | false ↦ none ]) ≡ b
    given a true = refl
    given a false = refl
