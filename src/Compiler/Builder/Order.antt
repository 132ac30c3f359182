-- ===== src/Compiler/Builder/Order.antt =====
-- The maps that crates/compiler/src/graph_builder.rs builds: their keys rise, those of the nodes and
-- those of each node's parameters.
use helixflow.Base.{
  Bool, ℕ, ◌+◌, String, true, ◌||◌, Option, some, List, [], ◌∷◌, ok, ok_or, ensure, ◌≡◌, refl, sym,
  subst, ◌∙◌, same, All, Bool-cases, inl, inr, Option-cases, >>-eq-ok, ok-injective, before,
}
use helixflow.Base.Assoc
use helixflow.Base.Assoc.{BTreeMap, lookup, keys}
use helixflow.Base.Keys.{member, distinct, sorted, distinct_of_sorted}
use helixflow.Json.{Value, as_object, of_map, to_map-of_map, insert_all, json_object}
use helixflow.Registry.{NodeRegistry}
use helixflow.Registry.Types.{NodeDefinition, PortDefinition}
use helixflow.Registry.Params.{is_empty}
use helixflow.Compiler.Builder.Total.{>>=-Ensures}
use helixflow.Registry.Names.{CharTables}
use helixflow.Registry.Catalog.{CatalogSnapshot, CapabilityBinding, binding}
use helixflow.Registry.Resolver.{ResolvedImplementation, ConnectorAvailability}
use helixflow.Graph.Types.{GraphNode, GraphEdge, Pair}
use helixflow.Compiler.Types.{IntentPlan, StageIntent, TopologyIntent}
use helixflow.Compiler.Diff.Loop.{HasParams}
use helixflow.Compiler.Builder.Clarify.{panicked, resolve_stage, node_type_of}
use helixflow.Compiler.Builder.Layout.{
  LayoutState, LayoutHint, layout_stage, layout_stages, apply_layout, place_synthesized,
}
use helixflow.Compiler.Builder.Stage.{
  Builder, Filled, fill_param, fill_params, ResolvedStage, stage_node, fill_stage, close_stage,
  stage_inputs, asserted, build_stage, build_stages,
}
use helixflow.Compiler.Builder.Texts.{
  Inputs, fields_of, merged_params, text_input, with_input, is_wired, materialize_port, materialize,
  text_ports,
}
use helixflow.Compiler.Builder.Wiring.{definition_of, wire_inputs}

-- The nodes of a graph under construction.
pub record IsOrdered (nodes : BTreeMap GraphNode) : Type 0 where
  pub in_order : sorted (keys nodes) ≡ true
  pub params : All (λ (entry : String × GraphNode). HasParams entry.1) nodes

All-insert {ℓ κ} :
    {V : Type ℓ} (P : V → Type κ) (k : String) (v : V) (m : BTreeMap V)
    → P v
    → All (λ (entry : String × V). P entry.1) m
    → All (λ (entry : String × V). P entry.1) (Assoc.insert k v m)
unfolding Assoc.insert
All-insert P k v [] p h = (p, tt)
All-insert P k v ((j, w) ∷ m) p h = elim (Bool-cases (same k j)) [
  | inl e ↦ rw e (p, h.1)
  | inr e ↦ elim (Bool-cases (before k j)) [
    | inl b ↦ rw (e, b) (p, h)
    | inr b ↦ rw (e, b) (h.0, All-insert P k v m p h.1)
  ]
]

All-adjust {ℓ κ} :
    {V : Type ℓ} (P : V → Type κ) (k : String) (f : V → V) (m : BTreeMap V)
    → ((v : V) → P v → P (f v))
    → All (λ (entry : String × V). P entry.1) m
    → All (λ (entry : String × V). P entry.1) (Assoc.adjust k f m)
unfolding Assoc.adjust
All-adjust P k f [] p h = tt
All-adjust P k f ((j, w) ∷ m) p h = elim (Bool-cases (same k j)) [
  | inl e ↦ rw e (p w h.0, h.1)
  | inr e ↦ rw e (h.0, All-adjust P k f m p h.1)
]

insert-IsOrdered :
    (id : String) (n : GraphNode) (nodes : BTreeMap GraphNode)
    → HasParams n
    → IsOrdered nodes
    → IsOrdered (Assoc.insert id n nodes)
insert-IsOrdered id n nodes p h = record {
  in_order = Assoc.insert-keys-sorted id n nodes h.in_order;
  params = All-insert HasParams id n nodes p h.params;
}

move-IsOrdered :
    (id : String) (at : Pair) (nodes : BTreeMap GraphNode)
    → IsOrdered nodes
    → IsOrdered (Assoc.adjust id (λ n. record n { pos = at }) nodes)
move-IsOrdered id at nodes h = record {
  in_order = Assoc.adjust-keys-sorted id _ nodes h.in_order;
  params = All-adjust HasParams id _ nodes (λ v p. p) h.params;
}

insert_all-sorted :
    (fields : List (String × Value)) (m : BTreeMap Value)
    → sorted (keys m) ≡ true
    → sorted (keys (insert_all fields m)) ≡ true
insert_all-sorted [] m h = h
insert_all-sorted ((k, v) ∷ fields) m h =
    insert_all-sorted fields (Assoc.insert k v m) (Assoc.insert-keys-sorted k v m h)

object-distinct :
    (m : BTreeMap Value) (qs : BTreeMap Value)
    → sorted (keys m) ≡ true
    → as_object (Value.object (of_map m)) ≡ some qs
    → distinct (keys qs) ≡ true
unfolding as_object
object-distinct m qs h e =
    subst (λ x. distinct (keys x) ≡ true) (sym (to_map-of_map m) ∙ (cc e))
      (distinct_of_sorted (keys m) h)

merged_params-sorted :
    (b : CapabilityBinding) (stage : StageIntent) → sorted (keys (merged_params b stage)) ≡ true
unfolding merged_params
merged_params-sorted b stage =
    insert_all-sorted (fields_of stage.params) _ (insert_all-sorted (fields_of b.defaults) [] refl)

-- The invariant of the loop that materializes inputs.
record KeepsOrder (state : Inputs) : Type 0 where
  nodes : IsOrdered state.nodes
  params : sorted (keys state.params) ≡ true

text_input-HasParams : (value : Value) → HasParams (text_input value)
unfolding json_object
text_input-HasParams value qs e =
    object-distinct (insert_all (("text", value) ∷ []) []) qs
      (insert_all-sorted (("text", value) ∷ []) [] refl) e

with_input-KeepsOrder :
    (stage : StageIntent) (port : String) (value : Value) (state : Inputs)
    → KeepsOrder state
    → KeepsOrder (with_input stage port value state)
unfolding with_input
with_input-KeepsOrder stage port value state h = record {
  nodes = insert-IsOrdered _ (text_input value) state.nodes (text_input-HasParams value) h.nodes;
  params = Assoc.remove-sorted port state.params h.params;
}

materialize_port-KeepsOrder :
    (def : NodeDefinition) (stage : StageIntent) (port : PortDefinition) (state : Inputs)
    → KeepsOrder state
    → KeepsOrder (materialize_port def stage port state)
unfolding materialize_port
materialize_port-KeepsOrder def stage port state h =
    elim (Bool-cases (
      is_wired stage.stage_id port.name state.edges
      || Assoc.contains_key port.name def.params_schema.properties)) [
        | inl skip ↦ rw skip h
        | inr go ↦ rw go (elim (Option-cases (lookup port.name state.params)) [
          | inl e ↦ rw e h
          | inr (v, e) ↦ rw e (with_input-KeepsOrder stage port.name v state h)
        ])
      ]

materialize-KeepsOrder :
    (def : NodeDefinition) (stage : StageIntent) (ports : List PortDefinition) (state : Inputs)
    → KeepsOrder state
    → KeepsOrder (materialize def stage ports state)
unfolding materialize
materialize-KeepsOrder def stage [] state h = h
materialize-KeepsOrder def stage (port ∷ ports) state h =
    materialize-KeepsOrder def stage ports (materialize_port def stage port state)
      (materialize_port-KeepsOrder def stage port state h)

stage_inputs-KeepsOrder :
    (def : NodeDefinition) (stage : StageIntent) (edges : List GraphEdge) (b : CapabilityBinding)
    (state : Builder)
    → IsOrdered state.nodes
    → KeepsOrder (stage_inputs def stage edges b state)
unfolding stage_inputs
stage_inputs-KeepsOrder def stage edges b state h =
    materialize-KeepsOrder def stage (text_ports def)
      (record {
        nodes = state.nodes;
        edges = edges;
        params = merged_params b stage;
        synthesized_inputs = state.synthesized_inputs;
        diagnostics = state.diagnostics;
      })
      (record { nodes = h; params = merged_params-sorted b stage })

fill_param-sorted :
    (stage : StageIntent) (wired : List String) (required : String) (state : Filled)
    → sorted (keys state.params) ≡ true
    → sorted (keys (fill_param stage wired required state).params) ≡ true
unfolding fill_param
fill_param-sorted stage wired required state h =
    elim (Bool-cases (Assoc.contains_key required state.params)) [
      | inl there ↦ rw there h
      | inr absent ↦ rw absent (elim (Bool-cases (member required wired)) [
        | inl w ↦ rw w (Assoc.insert-keys-sorted required (Value.string "") state.params h)
        | inr w ↦ rw w h
      ])
    ]

fill_params-sorted :
    (stage : StageIntent) (wired required : List String) (state : Filled)
    → sorted (keys state.params) ≡ true
    → sorted (keys (fill_params stage wired required state).params) ≡ true
unfolding fill_params
fill_params-sorted stage wired [] state h = h
fill_params-sorted stage wired (r ∷ rest) state h =
    fill_params-sorted stage wired rest (fill_param stage wired r state)
      (fill_param-sorted stage wired r state h)

fill_stage-sorted :
    (def : NodeDefinition) (stage : StageIntent) (inputs : Inputs)
    → sorted (keys inputs.params) ≡ true
    → sorted (keys (fill_stage def stage inputs).params) ≡ true
unfolding fill_stage
fill_stage-sorted def stage inputs h = fill_params-sorted stage _ def.params_schema.required _ h

close_stage-IsOrdered :
    (index : ℕ) (stage : StageIntent) (r : ResolvedImplementation) (node_type : String)
    (def : NodeDefinition) (b : CapabilityBinding) (done : List ResolvedStage) (inputs : Inputs)
    (filled : Filled)
    → IsOrdered inputs.nodes
    → sorted (keys filled.params) ≡ true
    → (state : Builder) → close_stage index stage r node_type def b done inputs filled ≡ ok state
    → IsOrdered state.nodes
unfolding close_stage
close_stage-IsOrdered index stage r node_type def b done inputs filled h s state e =
    let (complete, last) = >>-eq-ok (ensure (is_empty filled.missing) _) _ e in
    let node = stage_node index stage r node_type def b filled.params in
    subst (λ (x : Builder). IsOrdered x.nodes) (ok-injective last)
      (insert-IsOrdered stage.stage_id node inputs.nodes
        (λ qs o. object-distinct filled.params qs s o) h)

layout_stages-IsOrdered :
    (topology : TopologyIntent) (state : LayoutState) (stages : List StageIntent)
    → IsOrdered state.nodes
    → IsOrdered (layout_stages topology state stages).nodes
unfolding layout_stages layout_stage
layout_stages-IsOrdered topology state [] h = h
layout_stages-IsOrdered topology state (s ∷ ss) h =
    layout_stages-IsOrdered topology (layout_stage topology state s) ss
      (move-IsOrdered s.stage_id _ state.nodes h)

pub apply_layout-IsOrdered :
    (intent : IntentPlan) (nodes : BTreeMap GraphNode) (hints : List LayoutHint)
    → IsOrdered nodes
    → IsOrdered (apply_layout intent nodes hints).0
unfolding apply_layout
apply_layout-IsOrdered intent nodes hints h =
    layout_stages-IsOrdered intent.topology _ intent.stages h

pub place_synthesized-IsOrdered :
    (inputs : List (String × String)) (state : BTreeMap GraphNode × List LayoutHint)
    → IsOrdered state.0
    → IsOrdered (place_synthesized inputs state).0
unfolding place_synthesized
place_synthesized-IsOrdered [] state h = h
place_synthesized-IsOrdered ((input_id, consumer_id) ∷ rest) (nodes, hints) h =
    place_synthesized-IsOrdered rest _ (move-IsOrdered input_id _ nodes h)

module _ (debug_assertions : Bool) (tables : CharTables) (reg : NodeRegistry)
    (catalog : CatalogSnapshot) (availability : ConnectorAvailability) (preference : Option String)
    (stages : List StageIntent) where
  build_stage-IsOrdered :
      (index : ℕ) (stage : StageIntent) (state state' : Builder)
      → IsOrdered state.nodes
      → build_stage debug_assertions tables reg catalog availability preference stages index stage
          state
        ≡ ok state'
      → IsOrdered state'.nodes
  unfolding build_stage
  build_stage-IsOrdered index stage state state' h =
      let P = λ (x : Builder). IsOrdered x.nodes in
      >>=-Ensures P (resolve_stage catalog tables availability preference stage) _
        (λ r h1. >>=-Ensures P (node_type_of catalog r.capability_id) _ (λ node_type h2.
          >>=-Ensures P (definition_of reg node_type) _ (λ def h3.
            >>=-Ensures P (asserted debug_assertions def r) _ (λ u fits.
              >>=-Ensures P (wire_inputs reg catalog stages def stage state.edges stage.input_from)
                _
                (λ edges h4.
                  >>=-Ensures P (ok_or (binding catalog r.binding_id) panicked) _ (λ b h5.
                    let inputs = stage_inputs def stage edges b state in
                    let kept = stage_inputs-KeepsOrder def stage edges b state h in
                    close_stage-IsOrdered index stage r node_type def b state.resolved_stages inputs
                      (fill_stage def stage inputs) kept.nodes
                      (fill_stage-sorted def stage inputs kept.params)))))))
        state'

  pub build_stages-IsOrdered :
      (index : ℕ) (ss : List StageIntent) (state state' : Builder)
      → IsOrdered state.nodes
      → build_stages debug_assertions tables reg catalog availability preference stages index ss
          state
        ≡ ok state'
      → IsOrdered state'.nodes
  unfolding build_stages
  build_stages-IsOrdered index [] state state' h r =
      subst (λ (x : Builder). IsOrdered x.nodes) (ok-injective r) h
  build_stages-IsOrdered index (s ∷ ss) state state' h r =
      >>=-Ensures (λ (x : Builder). IsOrdered x.nodes)
        (build_stage debug_assertions tables reg catalog availability preference stages index s
          state)
        _
        (λ middle first. λ y.
          build_stages-IsOrdered (index + 1) ss middle y
            (build_stage-IsOrdered index s state middle h first))
        state' r
