-- ===== src/Graph/Migration/Loop.antt =====
-- The loop of crates/graph/src/semantics.rs's migration: the graph that it returns.
use helixflow.Base.{
  String, true, false, Option, none, some, [], ◌∷◌, ok, err, ◌≡◌, refl, sym, ap, ◌∙◌, subst, arith,
  same, ◌⊎◌, inl, inr, Result-cases, All, Bool-cases,
}
use helixflow.Base.Assoc
use helixflow.Base.Assoc.{BTreeMap, lookup, keys}
use helixflow.Base.Keys.{member, sorted, distinct, distinct_of_sorted}
use helixflow.Registry.{NodeRegistry, definition}
use helixflow.Registry.Types.{NodeDefinition, RegistryError}
use helixflow.Registry.Names.{CharTables}
use helixflow.Registry.Catalog.{CatalogSnapshot}
use helixflow.Graph.Types.{WorkflowGraph, GraphNode}
use helixflow.Graph.Topology.Correct.{HasSortedNodes}
use helixflow.Graph.Migration.{
  MigrationReport, Migrating, migrate_known, migrate_node, migrate_nodes, availability_for,
  migrate_v1_with_connector,
}
use helixflow.Graph.Migration.Sound.{fields_of, Layered, Migrated, Step, settle-Step}

-- The parameters of a node are held in the order of their names.
abbrev pub HasSortedParams : String × GraphNode → Type 0
HasSortedParams (id, n) = sorted (keys (fields_of n.params)) ≡ true

module _ (tables : CharTables) (catalog : CatalogSnapshot) (connector : Option String)
    (reg : NodeRegistry) where
  known-Step :
      (d : NodeDefinition) (c : Option String) (id : String) (n : GraphNode) (m : Migrating)
      → HasSortedParams (id, n)
      → definition reg n.node_type ≡ ok d
      → d.capability ≡ c
      → let m' =
          migrate_known tables catalog connector id n c (availability_for catalog connector) m in
        m'.resolvable ≡ true → Step tables catalog connector reg id n m m'
  known-Step d none id n m s known plain h = record {
    was = h;
    names = refl;
    others = λ j ne. refl;
    itself = λ found. (
      n,
      found,
      record {
        def = d;
        known = known;
        layered = subst (λ c. Layered tables catalog connector c n n) (sym plain) refl;
      },
    );
  }
  known-Step d (some cap) id n m s known capable h =
      settle-Step tables catalog connector reg d id cap n m _ s known capable refl h

  migrate_node-Step :
      (id : String) (n : GraphNode) (m : Migrating)
      → HasSortedParams (id, n)
      → let m' =
          migrate_node tables catalog connector reg
            (availability_for catalog connector)
            (id, n)
            m in
        m'.resolvable ≡ true → Step tables catalog connector reg id n m m'
  unfolding migrate_node
  migrate_node-Step id n m s h = elim (definition-cases n.node_type) [
    | inl (d, is_d) ↦
        rw (is_d, migrate_node)
          (known-Step d d.capability id n m s is_d refl (rw (is_d, migrate_node) at h))
    | inr (e, is_e) ↦ cc (rw (is_e, migrate_node) at h)
  ]
    where
      definition-cases :
          (t : String)
          → ((d : NodeDefinition) × (definition reg t ≡ ok d))
            ⊎ ((e : RegistryError) × (definition reg t ≡ err e))
      definition-cases t = Result-cases (definition reg t)

  -- The loop keeps what it does not visit, and migrates each node that it visits.
  record Done (ns : BTreeMap GraphNode) (m m' : Migrating) : Type 0 where
    was : m.resolvable ≡ true
    names : keys m'.migrated ≡ keys m.migrated
    others : (j : String) → member j (keys ns) ≡ false → lookup j m'.migrated ≡ lookup j m.migrated
    visited :
        (j : String) (n : GraphNode)
        → lookup j ns ≡ some n
        → lookup j m.migrated ≡ some n
        → (n' : GraphNode) × (lookup j m'.migrated ≡ some n')
          × Migrated tables catalog connector reg n n'

  migrate_nodes-Done :
      (ns : BTreeMap GraphNode) (m : Migrating)
      → distinct (keys ns) ≡ true
      → All HasSortedParams ns
      → let m' =
          migrate_nodes tables catalog connector reg (availability_for catalog connector) ns m in
        m'.resolvable ≡ true → Done ns m m'
  unfolding migrate_nodes lookup
  migrate_nodes-Done [] m u s h = record {
    was = h;
    names = refl;
    others = λ j ne. refl;
    visited = λ j n e. cc;
  }
  migrate_nodes-Done ((id, n) ∷ ns) m u s h =
      let m1 =
        migrate_node tables catalog connector reg (availability_for catalog connector) (id, n) m in
      let rest : Done ns m1 _ = migrate_nodes-Done ns m1 (ground arith) s.1 h in
      let step : Step tables catalog connector reg id n m m1 =
        migrate_node-Step id n m s.0 rest.was in
      record {
        was = step.was;
        names = rest.names ∙ step.names;
        others = λ j ne. rest.others j (ground arith) ∙ step.others j (ground arith);
        visited = λ j k e f. elim (Bool-cases (same j id)) [
          | inl at_id ↦
              let found : some n ≡ some k = rw at_id at e in
              let is_n : n ≡ k = cc in
              let (n', there, fits) =
                step.itself (sym (Assoc.lookup-same j id m.migrated at_id) ∙ f ∙ sym found) in
              (
                n',
                Assoc.lookup-same j id _ at_id ∙ rest.others id (ground arith) ∙ there,
                subst (λ x. Migrated tables catalog connector reg x n') is_n fits,
              )
          | inr other ↦ rest.visited j k (rw other at e) (step.others j other ∙ f)
        ];
      }

-- A graph and what its migration returns.
pub record GraphMigrated (tables : CharTables) (catalog : CatalogSnapshot)
    (connector : Option String) (reg : NodeRegistry) (g g' : WorkflowGraph) : Type 0 where
  pub frame : g' ≡ record g { catalog_revision = some catalog.catalog_revision; nodes = g'.nodes }
  pub names : keys g'.nodes ≡ keys g.nodes
  pub nodes :
      (id : String) (n : GraphNode)
      → lookup id g.nodes ≡ some n
      → (n' : GraphNode) × (lookup id g'.nodes ≡ some n')
        × Migrated tables catalog connector reg n n'

-- A migration that returns a graph, for a graph whose nodes are held in the order of their names
-- and whose parameters are likewise, keeps the edges, the version of the schema and the nodes'
-- names, records the catalog's revision, and changes no node but those of an executable type.
-- Such a node loses its declared model and gets an entry: one that pins the binding and the model
-- that the declared name resolves to, or, without a declared model, one that leaves the choice to
-- the capability's default binding, which is configured.
pub migrate_v1_with_connector-GraphMigrated :
    (tables : CharTables) (catalog : CatalogSnapshot) (connector : Option String)
    (reg : NodeRegistry) (g g' : WorkflowGraph) (report : MigrationReport)
    → HasSortedNodes g
    → All HasSortedParams g.nodes
    → migrate_v1_with_connector tables catalog connector reg g ≡ (some g', report)
    → GraphMigrated tables catalog connector reg g g'
unfolding migrate_v1_with_connector
migrate_v1_with_connector-GraphMigrated tables catalog connector reg g g' report s p h =
    let start : Migrating = record { migrated = g.nodes; nodes = []; resolvable = true } in
    let done =
      migrate_nodes tables catalog connector reg (availability_for catalog connector) g.nodes
        start in
    elim (Bool-cases done.resolvable) [
      | inl all_resolved ↦
          let laws : Done tables catalog connector reg g.nodes start done =
            migrate_nodes-Done tables catalog connector reg g.nodes start
              (distinct_of_sorted (keys g.nodes) s) p all_resolved in
          let returned = record g {
            catalog_revision = some catalog.catalog_revision;
            nodes = done.migrated;
          } in
          let first : some returned ≡ some g' = ap (λ x. x.0) (rw all_resolved at h) in
          let is_returned : returned ≡ g' = cc in
          subst (GraphMigrated tables catalog connector reg g) is_returned
            (record { frame = refl; names = laws.names; nodes = λ id n e. laws.visited id n e e })
      | inr unresolved ↦ let first : none ≡ some g' = ap (λ x. x.0) (rw unresolved at h) in cc
    ]
