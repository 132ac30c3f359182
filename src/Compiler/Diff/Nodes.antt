-- ===== src/Compiler/Diff/Nodes.antt =====
-- What the operations that crates/compiler/src/proposal_diff.rs makes for one node of the target do
-- to the graph.
use helixflow.Base.{
  String, true, false, Option, none, some, List, [], ◌∷◌, ok, ◌≡◌, refl, sym, ap, subst, ◌∙◌, arith,
  if◌then◌else◌, same, same_iff, same_refl, Bool-cases, inl, inr,
}
use helixflow.Base.Assoc
use helixflow.Base.Assoc.{BTreeMap, lookup, keys}
use helixflow.Base.Keys.{member, distinct, sorted, member-same}
use helixflow.Json.{
  Value, Fields, end, field, as_object, of_map, to_map, to_map-of_map, same_value_iff,
}
use helixflow.Registry.{NodeRegistry}
use helixflow.Graph.Types.{WorkflowGraph, GraphNode, set_param}
use helixflow.Graph.Operations.{
  apply_op, apply_ops, apply_set_param, write_node, is_current, agrees,
}
use helixflow.Compiler.Diff.{param_ops}
use helixflow.Compiler.Diff.Removals.{or_right, other_name}

-- A node is written and nothing else changes.
pub record Writes (id : String) (n : GraphNode) (g g' : WorkflowGraph) : Type 0 where
  pub written : lookup id g'.nodes ≡ some n
  pub others : (j : String) → same j id ≡ false → lookup j g'.nodes ≡ lookup j g.nodes
  pub in_order : sorted (keys g.nodes) ≡ true → sorted (keys g'.nodes) ≡ true
  pub edges : g'.edges ≡ g.edges

pub Writes-refl :
    (id : String) (n : GraphNode) (g : WorkflowGraph) → lookup id g.nodes ≡ some n → Writes id n g g
Writes-refl id n g h = record { written = h; others = λ j d. refl; in_order = λ s. s; edges = refl }

pub Writes-trans :
    {id : String} {n m : GraphNode} {g g' g'' : WorkflowGraph}
    → Writes id n g g'
    → Writes id m g' g''
    → Writes id m g g''
Writes-trans a b = record {
  written = b.written;
  others = λ j d. b.others j d ∙ a.others j d;
  in_order = λ s. b.in_order (a.in_order s);
  edges = b.edges ∙ a.edges;
}

pub Writes-adjust :
    (id : String) (f : GraphNode → GraphNode) (n : GraphNode) (g : WorkflowGraph)
    → lookup id g.nodes ≡ some n
    → Writes id (f n) g (record g { nodes = Assoc.adjust id f g.nodes })
Writes-adjust id f n g h = record {
  written = Assoc.lookup-adjust_self id f g.nodes h;
  others = λ j d. Assoc.lookup-adjust_ne j id f g.nodes d;
  in_order = λ s. Assoc.adjust-keys-sorted id f g.nodes s;
  edges = refl;
}

pub write_node-Writes :
    (id : String) (f : GraphNode → GraphNode) (n : GraphNode) (g : WorkflowGraph)
    → lookup id g.nodes ≡ some n
    → write_node id f g ≡ ok (record g { nodes = Assoc.adjust id f g.nodes })
unfolding write_node
write_node-Writes id f n g h = rw h refl

of_map-to_map : (fs : Fields) → of_map (to_map fs) ≡ fs
unfolding of_map to_map
of_map-to_map end = refl
of_map-to_map (field k v fs) = ap (λ r. field k v r) (of_map-to_map fs)

pub object_of_as_object :
    (v : Value) {m : BTreeMap Value} → as_object v ≡ some m → Value.object (of_map m) ≡ v
unfolding as_object
object_of_as_object (Value.object fs) h =
    subst (λ m. Value.object (of_map m) ≡ Value.object fs) (cc h)
      (ap Value.object (of_map-to_map fs))
object_of_as_object Value.null h = cc
object_of_as_object (Value.boolean b) h = cc
object_of_as_object (Value.number n) h = cc
object_of_as_object (Value.string s) h = cc
object_of_as_object (Value.array xs) h = cc

-- The parameters after the writes for those that differ from the current ones.
pub overlay : BTreeMap Value → BTreeMap Value → BTreeMap Value → BTreeMap Value
overlay current [] params = params
overlay current ((key, value) ∷ target) params =
    overlay current target
      (if is_current (lookup key current) value then params else Assoc.insert key value params)

abbrev pub or_else : Option Value → Option Value → Option Value
or_else none b = b
or_else (some a) b = some a

is_current_iff : (o : Option Value) (v : Value) → is_current o v ≡ true → o ≡ some v
is_current_iff none v h = cc
is_current_iff (some w) v h = ap some ((same_value_iff w v).0 h)

agrees_self : (o : Option Value) → agrees o o ≡ true
agrees_self none = refl
agrees_self (some v) = (same_value_iff v v).1 refl

-- The parameters that are still to be compared are as they were.
abbrev pub Untouched : BTreeMap Value → BTreeMap Value → BTreeMap Value → Type 0
Untouched current target params =
    (k : String) → member k (keys target) ≡ true → lookup k params ≡ lookup k current

lookup-not_member :
    (k : String) (m : BTreeMap Value) → member k (keys m) ≡ false → lookup k m ≡ none
lookup-not_member k m h = Assoc.none_of_not-member k m h

pub rest_distinct : (k : String) (ks : List String) → distinct (k ∷ ks) ≡ true → distinct ks ≡ true
rest_distinct k ks d = ground arith

pub first_fresh : (k : String) (ks : List String) → distinct (k ∷ ks) ≡ true → member k ks ≡ false
first_fresh k ks d = ground arith

pub not_head :
    (k j : String) (ks : List String)
    → distinct (k ∷ ks) ≡ true
    → member j ks ≡ true
    → same j k ≡ false
not_head k j ks d m = other_name j k ks (first_fresh k ks d) m

insert_other :
    (j k : String) (v : Value) (m : BTreeMap Value)
    → same j k ≡ false
    → lookup j (Assoc.insert k v m) ≡ lookup j m
insert_other j k v m d = rw (Assoc.lookup-insert j k v m, d) refl

pub lookup-overlay :
    (current target params : BTreeMap Value)
    → distinct (keys target) ≡ true
    → Untouched current target params
    → (k : String)
    → lookup k (overlay current target params) ≡ or_else (lookup k target) (lookup k params)
unfolding overlay lookup
lookup-overlay current [] params d u k = refl
lookup-overlay current ((key, value) ∷ target) params d u k =
    elim (Bool-cases (is_current (lookup key current) value)) [
      | inl old ↦ rw old (
          lookup-overlay current target params (rest_distinct key (keys target) d)
            (λ j m. u j (or_right _ _ m)) k
          ∙ head_old (u key (rw (same_refl key)) ∙ is_current_iff _ value old))
      | inr new ↦ rw new (
          lookup-overlay current target (Assoc.insert key value params)
            (rest_distinct key (keys target) d)
            (λ j m.
              insert_other j key value params (not_head key j (keys target) d m)
              ∙ u j (or_right _ _ m))
            k
          ∙ head_new)
    ]
  where
    no_other : same k key ≡ true → lookup k target ≡ none
    no_other e =
        Assoc.none_of_not-member k target
          (member-same k key (keys target) e ∙ first_fresh key (keys target) d)

    head_old :
        lookup key params ≡ some value
        → or_else (lookup k target) (lookup k params)
          ≡ or_else (if same k key then some value else lookup k target) (lookup k params)
    head_old h = elim (Bool-cases (same k key)) [
      | inl e ↦ rw (e, no_other e, (same_iff k key).0 e, h) refl
      | inr e ↦ rw e refl
    ]

    head_new :
        or_else (lookup k target) (lookup k (Assoc.insert key value params))
        ≡ or_else (if same k key then some value else lookup k target) (lookup k params)
    head_new = elim (Bool-cases (same k key)) [
      | inl e ↦ rw (Assoc.lookup-insert k key value params, e, no_other e) refl
      | inr e ↦ rw (Assoc.lookup-insert k key value params, e) refl
    ]

module _ (reg : NodeRegistry) (id : String) where
  set_param_step :
      (g : WorkflowGraph) (n : GraphNode) (key : String) (value : Value) (params : BTreeMap Value)
      → lookup id g.nodes ≡ some n
      → as_object n.params ≡ some params
      → apply_op reg g (set_param id key (lookup key params) value)
        ≡ ok (record g {
          nodes =
              Assoc.adjust id
                (λ m. record m { params = Value.object (of_map (Assoc.insert key value params)) })
                g.nodes;
        })
  unfolding apply_op apply_set_param
  set_param_step g n key value params found is_object =
      rw (found, is_object, agrees_self (lookup key params)) refl

  pub apply_ops-param_ops :
      (current target params : BTreeMap Value) (n : GraphNode) (g : WorkflowGraph)
      → lookup id g.nodes ≡ some n
      → as_object n.params ≡ some params
      → distinct (keys target) ≡ true
      → Untouched current target params
      → (g' : WorkflowGraph) × (apply_ops reg g (param_ops id current target) ≡ ok g')
        × Writes id
            (record n { params = Value.object (of_map (overlay current target params)) })
            g
            g'
  unfolding param_ops overlay apply_ops
  apply_ops-param_ops current [] params n g found is_object d u = (
    g,
    refl,
    subst (λ v. Writes id (record n { params = v }) g g)
        (sym (object_of_as_object n.params is_object)) (Writes-refl id n g found),
  )
  apply_ops-param_ops current ((key, value) ∷ target) params n g found is_object d u =
      elim (Bool-cases (is_current (lookup key current) value)) [
        | inl old ↦ rw old (
            apply_ops-param_ops current target params n g found is_object
              (rest_distinct key (keys target) d) (λ j m. u j (or_right _ _ m)))
        | inr new ↦ rw new (
            wrote (u key (rw (same_refl key))) (λ params' n' g' f o.
              apply_ops-param_ops current target params' n' g' f o
                (rest_distinct key (keys target) d)))
      ]
    where
      Rest : Type 0
      Rest =
          (params' : BTreeMap Value) (n' : GraphNode) (g' : WorkflowGraph)
          → lookup id g'.nodes ≡ some n'
          → as_object n'.params ≡ some params'
          → Untouched current target params'
          → (g'' : WorkflowGraph) × (apply_ops reg g' (param_ops id current target) ≡ ok g'')
            × Writes id
                (record n' { params = Value.object (of_map (overlay current target params')) }) g'
                g''

      wrote :
          lookup key params ≡ lookup key current
          → Rest
          → (g'' : WorkflowGraph) × (apply_ops reg g
                (set_param id key (lookup key current) value ∷ param_ops id current target)
              ≡ ok g'')
            × Writes id
                (record n {
                  params =
                      Value.object
                        (of_map (overlay current target (Assoc.insert key value params)));
                })
                g
                g''
      wrote same_value_there rest =
          let params' = Assoc.insert key value params in
          let n' : GraphNode = record n { params = Value.object (of_map params') } in
          let write = λ (m : GraphNode). record m { params = Value.object (of_map params') } in
          let g1 : WorkflowGraph = record g { nodes = Assoc.adjust id write g.nodes } in
          let first = Writes-adjust id write n g found in
          let (g'', ran, more) =
            rest params' n' g1 first.written (ap some (to_map-of_map params')) (λ j m.
              insert_other j key value params (not_head key j (keys target) d m)
              ∙ u j (or_right _ _ m)) in
          (
            g'',
            rw (sym same_value_there, set_param_step g n key value params found is_object) ran,
            Writes-trans first more,
          )
