-- ===== src/Agent/CanvasEdit/Bounds.antt =====
-- The names in an edit that crates/agent/src/canvas_edit.rs compiles, and the entries of the nodes
-- that it adds.
use helixflow.Base.{
  ℕ, ◌≤◌, String, Bool, true, not, ◌&&◌, Option, none, some, List, [], ◌∷◌, ok, ensure, for_each,
  ◌≡◌, ◌≢◌, sym, subst, arith, leb, length, all, All, map-All, byte_len, >>=-eq-ok, >>-eq-ok,
  ok-injective, Result-cases, inl, inr,
}
use helixflow.Base.Assoc.{BTreeMap}
use helixflow.Json.{Value}
use helixflow.Registry.{NodeRegistry, definition}
use helixflow.Registry.Types.{NodeDefinition}
use helixflow.Registry.Names.{CharTables, Text, codes}
use helixflow.Registry.Params.{is_empty}
use helixflow.Registry.Catalog.{CatalogSnapshot, CapabilityBinding}
use helixflow.Registry.Resolver.{ConnectorAvailability, ResolvedImplementation, resolved}
use helixflow.Registry.Resolver
use helixflow.Registry.Resolver.Sound.{Serves, resolve-Serves}
use helixflow.Graph.Types.{WorkflowGraph, GraphNode, ProposalOp, NodeSemanticsEntry, pinned}
use helixflow.Agent.Types.{
  CanvasEditOp, CanvasEditPlan, CompiledCanvasEdit, connect, disconnect, update_node,
}
use helixflow.Agent.CanvasEdit.{set_params, edit_loop, check_params, compile_canvas_edit_with}
use helixflow.Agent.Bindings.{
  is_bounded_identifier, id_byte, max_operations, resolve_semantics, edit_request,
}
use helixflow.Agent.CanvasEdit.Translated.{IsId, IsResolved, Translated, translate_op-Translated}
use helixflow.Agent.CanvasEdit.Sound.{edit_loop-All}

-- A name of 1 to 96 bytes, all of them letters, digits or one of three marks.
abbrev pub IsIdentifier : String → Type 0
IsIdentifier id = (codes id ≢ []) × (byte_len id ≤ 96) × All (λ c. id_byte c ≡ true) (codes id)

-- The nodes that an operation names.
abbrev pub NamesOf : (String → Type 0) → ProposalOp → Type 0
NamesOf P (ProposalOp.add_node id node) = P id
NamesOf P (ProposalOp.remove_node id) = P id
NamesOf P (ProposalOp.set_param id key prev value) = P id
NamesOf P (ProposalOp.add_edge e) = P e.from.0 × P e.to.0
NamesOf P (ProposalOp.remove_edge e) = P e.from.0 × P e.to.0
NamesOf P (ProposalOp.move_node id pos) = P id
NamesOf P (ProposalOp.resize_node id size) = P id
NamesOf P (ProposalOp.set_semantics id semantics) = P id
NamesOf P (ProposalOp.spawn_node id node from) = P id × P from

all-All : (p : ℕ → Bool) (cs : Text) → all p cs ≡ true → All (λ c. p c ≡ true) cs
all-All p [] h = tt
all-All p (c ∷ cs) h = (ground arith, all-All p cs (ground arith))

IsId-IsIdentifier : (id : String) → IsId id → IsIdentifier id
unfolding is_bounded_identifier
IsId-IsIdentifier id h =
    let (filled, short, bytes) = three _ _ _ h in
    (not_empty (codes id) filled, leb→le _ _ short, all-All id_byte (codes id) bytes)
  where
    three : (a b c : Bool) → a && b && c ≡ true → (a ≡ true) × (b ≡ true) × (c ≡ true)
    three a b c e = ground arith

    leb→le : (a b : ℕ) → leb a b ≡ true → a ≤ b
    leb→le a b e = ground arith

    not_empty : (t : Text) → not (is_empty t) ≡ true → t ≢ []
    not_empty [] e = cc
    not_empty (c ∷ cs) e = λ q. cc

set_params-IsId :
    (id : String) (m : BTreeMap Value) → IsId id → All (NamesOf IsId) (set_params id m)
set_params-IsId id [] i = tt
set_params-IsId id ((key, value) ∷ m) i = (i, set_params-IsId id m i)

NamesOf-map :
    {P Q : String → Type 0} (f : (id : String) → P id → Q id) (op : ProposalOp)
    → NamesOf P op
    → NamesOf Q op
NamesOf-map f (ProposalOp.add_node id node) p = f id p
NamesOf-map f (ProposalOp.remove_node id) p = f id p
NamesOf-map f (ProposalOp.set_param id key prev value) p = f id p
NamesOf-map f (ProposalOp.add_edge e) p = (f e.from.0 p.0, f e.to.0 p.1)
NamesOf-map f (ProposalOp.remove_edge e) p = (f e.from.0 p.0, f e.to.0 p.1)
NamesOf-map f (ProposalOp.move_node id pos) p = f id p
NamesOf-map f (ProposalOp.resize_node id size) p = f id p
NamesOf-map f (ProposalOp.set_semantics id semantics) p = f id p
NamesOf-map f (ProposalOp.spawn_node id node from) p = (f id p.0, f from p.1)

module _ (tables : CharTables) (reg : NodeRegistry) (catalog : CatalogSnapshot)
    (availability : ConnectorAvailability) (preference : Option String) where
  -- An entry that pins a binding which serves a request for the capability.
  abbrev pub PinsServed : String → Option NodeSemanticsEntry → Type 0
  PinsServed c semantics =
      (b : CapabilityBinding) × (query : Option String) × Serves tables catalog
        (record { capability_id = c; requested_model = query; connector_preference = preference })
        availability b
      × (semantics
          ≡ some (record {
            capability_id = c;
            mode = c;
            implementation = pinned b.model_id b.binding_id;
          }))

  -- The entry of a node that an edit adds: none for a type without a capability, and otherwise one
  -- that pins a binding of the catalog which serves a request for that capability.
  abbrev pub IsBound : ProposalOp → Type 0
  IsBound (ProposalOp.add_node id node) =
      (def : NodeDefinition) × (definition reg node.node_type ≡ ok def)
      × (def.capability ≡ none → node.semantics ≡ none)
      × ((c : String) → def.capability ≡ some c → PinsServed c node.semantics)
  IsBound _ = Unit

  Translated-names :
      (o : CanvasEditOp) (g : WorkflowGraph) (ops : List ProposalOp)
      → Translated tables reg catalog availability preference o g ops
      → All (NamesOf IsId) ops
  Translated-names (CanvasEditOp.add_node id t title position model params) g ops (n, i, r, e) =
      subst (All (NamesOf IsId)) (sym e) (i, tt)
  Translated-names (update_node id params) g ops (object, i, e) =
      subst (All (NamesOf IsId)) (sym e) (set_params-IsId id object i)
  Translated-names (CanvasEditOp.move_node id position) g ops (i, e) =
      subst (All (NamesOf IsId)) (sym e) (i, tt)
  Translated-names (CanvasEditOp.remove_node id) g ops (i, e) =
      subst (All (NamesOf IsId)) (sym e) (i, tt)
  Translated-names (connect s sh t th) g ops (edge, i, j, hs, ht, from, to, e) =
      subst (All (NamesOf IsId)) (sym e) ((subst IsId (sym from) i, subst IsId (sym to) j), tt)
  Translated-names (disconnect s sh t th) g ops (edge, i, j, from, to, e) =
      subst (All (NamesOf IsId)) (sym e) ((subst IsId (sym from) i, subst IsId (sym to) j), tt)

  set_params-IsBound : (id : String) (m : BTreeMap Value) → All IsBound (set_params id m)
  set_params-IsBound id [] = tt
  set_params-IsBound id ((key, value) ∷ m) = (tt, set_params-IsBound id m)

  none_bound :
      (id : String) (model : Option String) (s : Option NodeSemanticsEntry)
      (given kept : BTreeMap Value)
      → resolve_semantics tables catalog availability preference id none model given ≡ ok (kept, s)
      → s ≡ none
  unfolding resolve_semantics
  none_bound id model s given kept h = cc

  some_bound :
      (id c : String) (model : Option String) (s : Option NodeSemanticsEntry)
      (given kept : BTreeMap Value)
      → resolve_semantics tables catalog availability preference id (some c) model given
        ≡ ok (kept, s)
      → PinsServed c s
  unfolding resolve_semantics resolved
  some_bound id c model s given kept h =
      elim (Result-cases (Resolver.resolve tables catalog (request model given c) availability)) [
        | inr (e, failed) ↦ cc (rw failed at h)
        | inl (r, is_r) ↦
            let (b, serves, r_of, _) =
              resolve-Serves tables catalog (request model given c) availability r is_r in
            (b, _, serves, (cc (rw (is_r, r_of) at h)))
      ]
    where
      request : Option String → BTreeMap Value → String → Resolver.ResolveRequest
      request m params capability_id =
          edit_request tables catalog availability preference capability_id m params

  IsResolved-IsBound :
      (id : String) (model : Option String) (node : GraphNode)
      → IsResolved tables reg catalog availability preference id model node
      → IsBound (ProposalOp.add_node id node)
  IsResolved-IsBound id model node r = (
    r.def,
    r.known,
    λ e. none_bound id model node.semantics r.given r.kept (at_capability e),
    λ c e. some_bound id c model node.semantics r.given r.kept (at_capability e),
  )
    where
      at_capability :
          {o : Option String}
          → r.def.capability ≡ o
          → resolve_semantics tables catalog availability preference id o model r.given
            ≡ ok (r.kept, node.semantics)
      at_capability e =
          subst
            (λ (o : Option String).
              resolve_semantics tables catalog availability preference id o model r.given
              ≡ ok (r.kept, node.semantics))
            e r.bound

  Translated-IsBound :
      (o : CanvasEditOp) (g : WorkflowGraph) (ops : List ProposalOp)
      → Translated tables reg catalog availability preference o g ops
      → All IsBound ops
  Translated-IsBound (CanvasEditOp.add_node id t title position model params) g ops (n, i, r, e) =
      subst (All IsBound) (sym e) (IsResolved-IsBound id model n r, tt)
  Translated-IsBound (update_node id params) g ops (object, i, e) =
      subst (All IsBound) (sym e) (set_params-IsBound id object)
  Translated-IsBound (CanvasEditOp.move_node id position) g ops (i, e) =
      subst (All IsBound) (sym e) (tt, tt)
  Translated-IsBound (CanvasEditOp.remove_node id) g ops (i, e) =
      subst (All IsBound) (sym e) (tt, tt)
  Translated-IsBound (connect s sh t th) g ops (edge, i, j, hs, ht, from, to, e) =
      subst (All IsBound) (sym e) (tt, tt)
  Translated-IsBound (disconnect s sh t th) g ops (edge, i, j, from, to, e) =
      subst (All IsBound) (sym e) (tt, tt)

  compiled-All {κ} :
      (P : ProposalOp → Type κ)
      → ((o : CanvasEditOp) (g : WorkflowGraph) (ops : List ProposalOp)
          → Translated tables reg catalog availability preference o g ops
          → All P ops)
      → (plan : CanvasEditPlan) (base : WorkflowGraph) (r : CompiledCanvasEdit)
      → compile_canvas_edit_with tables reg catalog availability preference plan base ≡ ok r
      → All P r.ops
  unfolding compile_canvas_edit_with
  compiled-All P step plan base r h =
      let (_, h1) = >>-eq-ok (ensure (not (is_empty plan.operations)) _) _ h in
      let (_, h2) = >>-eq-ok (ensure (leb (length plan.operations) max_operations) _) _ h1 in
      let (done, looped, h3) =
        >>=-eq-ok (edit_loop tables reg catalog availability preference plan.operations base) _
          h2 in
      let (_, last) =
        >>-eq-ok (for_each (check_params tables reg catalog availability preference) done.1.nodes) _
          h3 in
      subst (λ (c : CompiledCanvasEdit). All P c.ops) (ok-injective last)
        (edit_loop-All tables reg catalog availability preference P
          (λ o g ops t.
            step o g ops
              (translate_op-Translated tables reg catalog availability preference o g ops t))
          plan.operations base done looped)

  -- Every node that an operation of a compiled edit names, as the node or as an end of an edge, has a
  -- name of 1 to 96 bytes, all letters and digits of ASCII, `_`, `-` or `.`.
  pub compile_canvas_edit_with-IsIdentifier :
      (plan : CanvasEditPlan) (base : WorkflowGraph) (r : CompiledCanvasEdit)
      → compile_canvas_edit_with tables reg catalog availability preference plan base ≡ ok r
      → All (NamesOf IsIdentifier) r.ops
  compile_canvas_edit_with-IsIdentifier plan base r h =
      map-All (λ op p. NamesOf-map IsId-IsIdentifier op p) r.ops
        (compiled-All (NamesOf IsId) Translated-names plan base r h)

  -- Every node that a compiled edit adds has a type that the registry knows. It has no entry if the
  -- type has no capability, and otherwise its entry pins a binding of the catalog that implements the
  -- capability, is available, and is on the preferred connector if there is one.
  pub compile_canvas_edit_with-IsBound :
      (plan : CanvasEditPlan) (base : WorkflowGraph) (r : CompiledCanvasEdit)
      → compile_canvas_edit_with tables reg catalog availability preference plan base ≡ ok r
      → All IsBound r.ops
  compile_canvas_edit_with-IsBound plan base r h =
      compiled-All IsBound Translated-IsBound plan base r h
