-- ===== src/Graph/Operations/SetParam.antt =====
-- The operation `SetParam` of crates/graph/src/lib.rs, on each of its branches.
use helixflow.Base.{
  String, true, false, Option, none, some, Result, ok, err, ◌≡◌, ◌≢◌, refl, ap, if◌then◌else◌, same,
  inl, inr, Bool-cases, Option-cases,
}
use helixflow.Base.Assoc
use helixflow.Base.Assoc.{BTreeMap, lookup}
use helixflow.Json.{Value, as_object, of_map, same_value_iff}
use helixflow.Registry.{NodeRegistry}
use helixflow.Graph.Types.{
  WorkflowGraph, GraphNode, GraphError, set_param, missing_node, params_not_object,
  set_param_conflict,
}
use helixflow.Graph.Operations.{apply_set_param, apply_op, agrees}

-- What the caller saw at the key, if anything, is there.
abbrev pub Expected : Option Value → Option Value → Type 0
Expected none current = Unit
Expected (some seen) current = current ≡ some seen

-- The map `params` is `before` with a value at a key.
abbrev pub Holds : String → Value → BTreeMap Value → BTreeMap Value → Type 0
Holds key value before params =
    (j : String) → lookup j params ≡ (if same j key then some value else lookup j before)

module _ (g : WorkflowGraph) (id key : String) (prev : Option Value) (value : Value) where
  -- The operation has written: what it found, and what the graph has become.
  pub record Written (g' : WorkflowGraph) : Type 0 where
    pub node : GraphNode
    pub before : BTreeMap Value
    pub found : lookup id g.nodes ≡ some node
    pub is_object : as_object node.params ≡ some before
    pub expected : Expected prev (lookup key before)
    pub after : BTreeMap Value
    pub holds : Holds key value before after
    pub written : lookup id g'.nodes ≡ some (record node { params = Value.object (of_map after) })
    pub others : (j : String) → same j id ≡ false → lookup j g'.nodes ≡ lookup j g.nodes
    pub rest :
        (g'.edges ≡ g.edges)
        × (g'.schema_version ≡ g.schema_version)
        × (g'.catalog_revision ≡ g.catalog_revision)

  -- The operation has been refused: there is no such node, or its parameters are no object, or another
  -- value than the one that the caller saw is at the key.
  pub data Refused (e : GraphError) : Type 0 where
    no_node : lookup id g.nodes ≡ none → e ≡ missing_node id → Refused e
    no_object :
        (node : GraphNode)
        → lookup id g.nodes ≡ some node
        → as_object node.params ≡ none
        → e ≡ params_not_object id
        → Refused e
    stale :
        (node : GraphNode) (before : BTreeMap Value) (seen : Value)
        → lookup id g.nodes ≡ some node
        → as_object node.params ≡ some before
        → prev ≡ some seen
        → lookup key before ≢ some seen
        → e ≡ set_param_conflict id key
        → Refused e

  -- By how the operation ended.
  abbrev pub ParamSet : Result WorkflowGraph GraphError → Type 0
  ParamSet (ok g') = Written g'
  ParamSet (err e) = Refused e

agrees-Expected : (prev current : Option Value) → agrees prev current ≡ true → Expected prev current
agrees-Expected none current h = tt
agrees-Expected (some seen) none h = cc
agrees-Expected (some seen) (some v) h = ap some ((same_value_iff v seen).0 h)

disagrees :
    (prev current : Option Value)
    → agrees prev current ≡ false
    → (seen : Value) × (prev ≡ some seen) × (current ≢ some seen)
disagrees none current h = cc
disagrees (some seen) none h = (seen, refl, λ q. cc)
disagrees (some seen) (some v) h =
    (seen, refl, λ q. cc ((same_value_iff v seen).1 (some-injective q), h))
  where
    some-injective : {a b : Value} → some a ≡ some b → a ≡ b
    some-injective q = cc

-- `SetParam` writes exactly where the node is there, its parameters are an object and the value that
-- the caller saw, if one is given, is still at the key: the node then has the new value at the key
-- and its other parameters and fields as they were, and the rest of the graph is as it was. Otherwise its error names what failed.
pub apply_op-ParamSet :
    (reg : NodeRegistry) (g : WorkflowGraph) (id key : String) (prev : Option Value) (value : Value)
    → ParamSet g id key prev value (apply_op reg g (set_param id key prev value))
unfolding apply_op apply_set_param
apply_op-ParamSet reg g id key prev value = elim (Option-cases (lookup id g.nodes)) [
  | inl absent ↦ rw absent (no_node absent refl)
  | inr (node, found) ↦ elim (Option-cases (as_object node.params)) [
    | inl other ↦ rw (found, other) (no_object node found other refl)
    | inr (before, is_object) ↦ elim (Bool-cases (agrees prev (lookup key before))) [
      | inl holds ↦
          rw (found, is_object, holds)
            (record {
              node = node;
              before = before;
              found = found;
              is_object = is_object;
              expected = agrees-Expected prev (lookup key before) holds;
              after = Assoc.insert key value before;
              holds = λ j. Assoc.lookup-insert j key value before;
              written = Assoc.lookup-adjust_self id _ g.nodes found;
              others = λ j o. Assoc.lookup-adjust_ne j id _ g.nodes o;
              rest = (refl, refl, refl);
            })
      | inr fails ↦
          let (seen, given, differs) = disagrees prev (lookup key before) fails in
          rw (found, is_object, fails) (stale node before seen found is_object given differs refl)
    ]
  ]
]
