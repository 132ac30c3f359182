-- ===== src/Agent/CanvasEdit/Translated.antt =====
-- The operations that each edit of crates/agent/src/canvas_edit.rs becomes.
use helixflow.Base.{
  String, true, Option, none, some, List, [], ◌∷◌, ok, ok_or, ensure, ◌≡◌, refl, sym, ap, subst,
  ◌∙◌, arith, find, same_iff, find-some, >>=-eq-ok, >>-eq-ok, ok_or-eq-ok, map_err-eq-ok,
  ok-injective, ensure-eq-ok, is_some,
}
use helixflow.Base.Assoc
use helixflow.Base.Assoc.{BTreeMap, lookup, keys}
use helixflow.Base.Keys.{member}
use helixflow.Json.{Value, of_map}
use helixflow.Registry.{NodeRegistry, definition}
use helixflow.Registry.Types.{NodeDefinition}
use helixflow.Registry.Names.{CharTables}
use helixflow.Registry.Catalog.{CatalogSnapshot}
use helixflow.Registry.Resolver.{ConnectorAvailability}
use helixflow.Graph.Types.{WorkflowGraph, GraphNode, GraphEdge, ProposalOp, Pair}
use helixflow.Agent.Types.{CanvasEditOp, connect, disconnect, update_node, unknown_node}
use helixflow.Agent.CanvasEdit.{
  typed_edge, set_params, ensure_node, update_ops, joins, known_type, translate_add, translate_op,
}
use helixflow.Agent.Bindings.{is_bounded_identifier, ensure_id, params_object, resolve_semantics}

abbrev pub IsId : String → Type 0
IsId id = is_bounded_identifier id ≡ true

abbrev pub HasNode : WorkflowGraph → String → Type 0
HasNode g id = member id (keys g.nodes) ≡ true

module _ (tables : CharTables) (reg : NodeRegistry) (catalog : CatalogSnapshot)
    (availability : ConnectorAvailability) (preference : Option String) where
  -- A node that an edit adds: its type is known, and its entry is what its parameters resolve to.
  pub record IsResolved (id : String) (model : Option String) (node : GraphNode) : Type 0 where
    pub def : NodeDefinition
    pub known : definition reg node.node_type ≡ ok def
    pub given : BTreeMap Value
    pub kept : BTreeMap Value
    pub params : node.params ≡ Value.object (of_map kept)
    pub bound :
        resolve_semantics tables catalog availability preference id def.capability model given
        ≡ ok (kept, node.semantics)

  abbrev pub Translated : CanvasEditOp → WorkflowGraph → List ProposalOp → Type 0
  Translated (CanvasEditOp.add_node id node_type title position model params) g ops =
      (node : GraphNode) × IsId id
      × IsResolved id model node
      × (ops ≡ ProposalOp.add_node id node ∷ [])
  Translated (update_node id params) g ops =
      (object : BTreeMap Value) × IsId id × (ops ≡ set_params id object)
  Translated (CanvasEditOp.move_node id position) g ops =
      IsId id × (ops ≡ ProposalOp.move_node id position ∷ [])
  Translated (CanvasEditOp.remove_node id) g ops = IsId id × (ops ≡ ProposalOp.remove_node id ∷ [])
  Translated (connect source source_handle target target_handle) g ops =
      (e : GraphEdge) × IsId source
      × IsId target
      × HasNode g source
      × HasNode g target
      × (e.from.0 ≡ source)
      × (e.to.0 ≡ target)
      × (ops ≡ ProposalOp.add_edge e ∷ [])
  Translated (disconnect source source_handle target target_handle) g ops =
      (e : GraphEdge) × IsId source
      × IsId target
      × (e.from.0 ≡ source)
      × (e.to.0 ≡ target)
      × (ops ≡ ProposalOp.remove_edge e ∷ [])

ensure_id-ok : (id : String) → ensure_id id ≡ ok tt → IsId id
unfolding ensure_id
ensure_id-ok id h = ensure-eq-ok _ _ h

HasNode-of_lookup :
    (g : WorkflowGraph) (id : String) {n : GraphNode} → lookup id g.nodes ≡ some n → HasNode g id
HasNode-of_lookup g id h = sym (Assoc.is_some-lookup id g.nodes) ∙ ap is_some h

abbrev Ends : WorkflowGraph → String → String → GraphEdge → Type 0
Ends g s t e = HasNode g s × HasNode g t × (e.from.0 ≡ s) × (e.to.0 ≡ t)

typed_edge-Ends :
    (reg : NodeRegistry) (g : WorkflowGraph) (s sh t th : String) (e : GraphEdge)
    → typed_edge reg g s sh t th ≡ ok e
    → Ends g s t e
unfolding typed_edge
typed_edge-Ends reg g s sh t th e h =
    let (sn, found_s, h1) = >>=-eq-ok (ok_or (lookup s g.nodes) (unknown_node s)) _ h in
    let (tn, found_t, h2) = >>=-eq-ok (ok_or (lookup t g.nodes) (unknown_node t)) _ h1 in
    let (sd, _, h3) = >>=-eq-ok (known_type reg sn.node_type) _ h2 in
    let (td, _, h4) = >>=-eq-ok (known_type reg tn.node_type) _ h3 in
    let (o, _, h5) = >>=-eq-ok (ok_or (find _ sd.outputs) _) _ h4 in
    let (i, _, h6) = >>=-eq-ok (ok_or (find _ td.inputs) _) _ h5 in
    let (_, last) = >>-eq-ok (ensure _ _) _ h6 in
    subst (Ends g s t) (ok-injective last) (
      HasNode-of_lookup g s (ok_or-eq-ok _ _ found_s),
      HasNode-of_lookup g t (ok_or-eq-ok _ _ found_t),
      refl,
      refl,
    )

joins-ends :
    (s sh t th : String) (e : GraphEdge) → joins s sh t th e ≡ true → (e.from.0 ≡ s) × (e.to.0 ≡ t)
joins-ends s sh t th e h =
    ((same_iff e.from.0 s).0 (ground arith), (same_iff e.to.0 t).0 (ground arith))

update_ops-set_params :
    (id : String) (params : Option Value) (ops : List ProposalOp)
    → update_ops id params ≡ ok ops
    → (object : BTreeMap Value) × (ops ≡ set_params id object)
update_ops-set_params id none ops h = ([], sym (ok-injective h))
update_ops-set_params id (some v) ops h =
    let (object, _, last) = >>=-eq-ok (params_object id v) _ h in (object, sym (ok-injective last))

module _ (tables : CharTables) (reg : NodeRegistry) (catalog : CatalogSnapshot)
    (availability : ConnectorAvailability) (preference : Option String) where
  translate_add-Translated :
      (id node_type : String) (title : Option String) (position : Option Pair)
      (model : Option String) (params : Value) (g : WorkflowGraph) (ops : List ProposalOp)
      → translate_add tables reg catalog availability preference id node_type title position model
          params
        ≡ ok ops
      → Translated tables reg catalog availability preference
          (CanvasEditOp.add_node id node_type title position model params)
          g
          ops
  unfolding translate_add
  translate_add-Translated id node_type title position model params g ops h =
      let (is_id, h1) = >>-eq-ok (ensure_id id) _ h in
      let (def, known, h2) = >>=-eq-ok (known_type reg node_type) _ h1 in
      let (object, _, h3) = >>=-eq-ok (params_object id params) _ h2 in
      let (bound, is_bound, last) =
        >>=-eq-ok
          (resolve_semantics tables catalog availability preference id def.capability model object)
          _ h3 in
      (
        _,
        ensure_id-ok id is_id,
        record {
          def = def;
          known = map_err-eq-ok _ (definition reg node_type) known;
          given = object;
          kept = bound.0;
          params = refl;
          bound = is_bound;
        },
        sym (ok-injective last),
      )

  pub translate_op-Translated :
      (o : CanvasEditOp) (g : WorkflowGraph) (ops : List ProposalOp)
      → translate_op tables reg catalog availability preference o g ≡ ok ops
      → Translated tables reg catalog availability preference o g ops
  unfolding translate_op
  translate_op-Translated (CanvasEditOp.add_node id node_type title position model params) g ops h =
      translate_add-Translated id node_type title position model params g ops h
  translate_op-Translated (update_node id params) g ops h =
      let (is_id, h1) = >>-eq-ok (ensure_id id) _ h in
      let (_, last) = >>-eq-ok (ensure_node g id) _ h1 in
      let (object, is_ops) = update_ops-set_params id params ops last in
      (object, ensure_id-ok id is_id, is_ops)
  translate_op-Translated (CanvasEditOp.move_node id position) g ops h =
      let (is_id, h1) = >>-eq-ok (ensure_id id) _ h in
      let (_, last) = >>-eq-ok (ensure_node g id) _ h1 in
      (ensure_id-ok id is_id, sym (ok-injective last))
  translate_op-Translated (CanvasEditOp.remove_node id) g ops h =
      let (is_id, h1) = >>-eq-ok (ensure_id id) _ h in
      let (_, last) = >>-eq-ok (ensure_node g id) _ h1 in
      (ensure_id-ok id is_id, sym (ok-injective last))
  translate_op-Translated (connect s sh t th) g ops h =
      let (is_s, h1) = >>-eq-ok (ensure_id s) _ h in
      let (is_t, h2) = >>-eq-ok (ensure_id t) _ h1 in
      let (e, typed, last) = >>=-eq-ok (typed_edge reg g s sh t th) _ h2 in
      let (has_s, has_t, from, to) = typed_edge-Ends reg g s sh t th e typed in
      (e, ensure_id-ok s is_s, ensure_id-ok t is_t, has_s, has_t, from, to, sym (ok-injective last))
  translate_op-Translated (disconnect s sh t th) g ops h =
      let (is_s, h1) = >>-eq-ok (ensure_id s) _ h in
      let (is_t, h2) = >>-eq-ok (ensure_id t) _ h1 in
      let (e, found, last) = >>=-eq-ok (ok_or (find (joins s sh t th) g.edges) _) _ h2 in
      let (from, to) =
        joins-ends s sh t th e (find-some (joins s sh t th) g.edges (ok_or-eq-ok _ _ found)) in
      (e, ensure_id-ok s is_s, ensure_id-ok t is_t, from, to, sym (ok-injective last))
