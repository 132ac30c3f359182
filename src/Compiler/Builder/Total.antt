-- ===== src/Compiler/Builder/Total.antt =====
-- The lookups of crates/compiler/src/graph_builder.rs that a program fault would end: for an intent
-- that was accepted none of them fails.
use helixflow.Base.{
  ℕ, ◌+◌, String, Bool, true, false, sym, ok-injective, map_err-eq-ok, Option, none, some, List, [],
  ◌∷◌, ◌++◌, Result, ok, err, ok_or, ◌>>=◌, ◌≡◌, ◌≢◌, refl, ap, subst, arith, find, same, same_refl,
  same_sym, All, Bool-cases, inl, inr, Option-cases, Result-cases,
}
use mathlib.Core.List.{Memᴰ}
use helixflow.Base.Keys.{member}
use helixflow.Registry.{NodeRegistry, definition}
use helixflow.Registry.Types.{NodeDefinition, PortType}
use helixflow.Registry.Params.{is_empty}
use helixflow.Registry.Names.{CharTables}
use helixflow.Registry.Catalog.{
  CatalogSnapshot, CapabilityBinding, CapabilityDefinition, binding, capability,
}
use helixflow.Registry.Resolver
use helixflow.Registry.Resolver.{
  ResolveRequest, ResolvedImplementation, ResolveError, ConnectorAvailability, resolve, resolved,
  recoverable,
}
use helixflow.Registry.Resolver.Sound.{resolve-Serves}
use helixflow.Graph.Types.{GraphEdge}
use helixflow.Compiler.Types.{StageIntent, StageInputRef, CompileError}
use helixflow.Compiler.Intent.{stage_ids}
use helixflow.Compiler.Builder.Clarify.{
  Stop, fail, panicked, on_resolved, resolve_stage, node_type_of,
}
use helixflow.Compiler.Builder.Stage.{
  Builder, close_stage, fill_stage, stage_inputs, ResolvedStage, Filled, asserted, build_stage,
  build_stages,
}
use helixflow.Compiler.Builder.Texts.{Inputs}
use helixflow.Compiler.Builder.Wiring.{
  definition_of, stage_named, wire_input, wire_inputs, mismatch, no_input_reason, source_port_of,
  target_port_of,
}

-- What holds of each result that the rest of a chain may have holds of the chain's result.
pub >>=-Ensures {ℓ κ μ} :
    {A : Type ℓ} {B : Type κ} (P : B → Type μ) (m : Result A Stop) (f : A → Result B Stop)
    → ((a : A) → m ≡ ok a → (y : B) → f a ≡ ok y → P y)
    → (y : B) → (m >>= f) ≡ ok y
    → P y
>>=-Ensures P (ok a) f k y h = k a refl y h
>>=-Ensures P (err e) f k y h = cc

-- A result that is no fault.
abbrev pub Calm {ℓ} : {A : Type ℓ} → Result A Stop → Type ℓ
Calm m = m ≢ err panicked

-- A chain is calm if its first step is, and each rest that it may reach.
pub >>=-Calm {ℓ κ} :
    {A : Type ℓ} {B : Type κ} (m : Result A Stop) (f : A → Result B Stop)
    → m ≢ err panicked
    → ((a : A) → m ≡ ok a → f a ≢ err panicked)
    → (m >>= f) ≢ err panicked
>>=-Calm (ok a) f h k = k a refl
>>=-Calm {B} (err e) f h k = λ q. h (ap (λ (s : Stop). err s) (stop_of q))
  where
    stop_of : ◌≡◌ {A = Result B Stop} (err e) (err panicked) → e ≡ panicked
    stop_of q = cc

ok-Calm {ℓ} : {A : Type ℓ} (a : A) → ◌≢◌ {A = Result A Stop} (ok a) (err panicked)
ok-Calm a = λ q. cc

fail-panicked : (e : CompileError) → fail e ≢ panicked
fail-panicked e = λ q. cc

ok_or-Calm {ℓ} : {A : Type ℓ} (o : Option A) (s : Stop) → s ≢ panicked → ok_or o s ≢ err panicked
ok_or-Calm none s h = λ q. h (cc)
ok_or-Calm (some a) s h = λ q. cc

source_port_of-Calm :
    (def : NodeDefinition) (stage : StageIntent) (input : StageInputRef)
    → source_port_of def stage input ≢ err panicked
unfolding source_port_of
source_port_of-Calm def stage input =
    ok_or-Calm (find _ def.outputs) (mismatch stage input "source stage has no such output")
      (fail-panicked _)

target_port_of-Calm :
    (def : NodeDefinition) (stage : StageIntent) (input : StageInputRef) (t : PortType)
    → target_port_of def stage input t ≢ err panicked
unfolding target_port_of
target_port_of-Calm def stage input t =
    ok_or-Calm (find _ def.inputs) (mismatch stage input (no_input_reason stage input t))
      (fail-panicked _)

found-Calm {ℓ} :
    {A : Type ℓ} (o : Option A) (a : A) → o ≡ some a → ok_or {E = Stop} o panicked ≢ err panicked
found-Calm o a h = rw h (λ q. cc)

definition_of-Calm : (reg : NodeRegistry) (t : String) → definition_of reg t ≢ err panicked
definition_of-Calm reg t = elim (Result-cases (definition reg t)) [
  | inl (d, e) ↦ rw e (λ q. cc)
  | inr (x, e) ↦ rw e (λ q. cc)
]

node_type_of-Calm :
    (catalog : CatalogSnapshot) (id : String) → node_type_of catalog id ≢ err panicked
unfolding node_type_of
node_type_of-Calm catalog id = elim (Option-cases (capability catalog id)) [
  | inl e ↦ rw (node_type_of, e) (λ q. cc)
  | inr (c, e) ↦ rw (node_type_of, e) (λ q. cc)
]

on_resolved-Calm :
    (catalog : CatalogSnapshot) (stage : StageIntent)
    (m : Result ResolvedImplementation ResolveError)
    → on_resolved catalog stage m ≢ err panicked
unfolding on_resolved recoverable
on_resolved-Calm catalog stage (ok r) = λ q. cc
on_resolved-Calm catalog stage (err (Resolver.binding_not_found c m)) = λ q. cc
on_resolved-Calm catalog stage (err (Resolver.capability_not_found c)) = λ q. cc
on_resolved-Calm catalog stage (err (Resolver.model_not_found q)) = λ q. cc
on_resolved-Calm catalog stage (err (Resolver.model_ambiguous q cs)) = λ q. cc
on_resolved-Calm catalog stage (err (Resolver.binding_ambiguous c cs)) = λ q. cc
on_resolved-Calm catalog stage (err (Resolver.binding_unavailable c bs)) = λ q. cc

on_resolved-ok :
    (catalog : CatalogSnapshot) (stage : StageIntent)
    (m : Result ResolvedImplementation ResolveError) {r : ResolvedImplementation}
    → on_resolved catalog stage m ≡ ok r
    → m ≡ ok r
unfolding on_resolved recoverable
on_resolved-ok catalog stage (ok r) h = cc
on_resolved-ok catalog stage (err (Resolver.binding_not_found c m)) h = cc
on_resolved-ok catalog stage (err (Resolver.capability_not_found c)) h = cc
on_resolved-ok catalog stage (err (Resolver.model_not_found q)) h = cc
on_resolved-ok catalog stage (err (Resolver.model_ambiguous q cs)) h = cc
on_resolved-ok catalog stage (err (Resolver.binding_ambiguous c cs)) h = cc
on_resolved-ok catalog stage (err (Resolver.binding_unavailable c bs)) h = cc

find_of_mem {ℓ} :
    {A : Type ℓ} (p : A → Bool) {x : A} {xs : List A}
    → Memᴰ x xs
    → p x ≡ true
    → (y : A) × (find p xs ≡ some y)
find_of_mem p {xs = []} m h = elim m [ ]
find_of_mem p {x = x} {xs = y ∷ xs} (Memᴰ.head e) h = (y, rw (subst (λ z. p z ≡ true) e h) refl)
find_of_mem p {xs = y ∷ xs} (Memᴰ.tail m) h = elim (Bool-cases (p y)) [
  | inl k ↦ (y, rw k refl)
  | inr k ↦ let (z, found) = find_of_mem p m h in (z, rw k found)
]

stage_named_of_member :
    (id : String) (ss : List StageIntent)
    → member id (stage_ids ss) ≡ true
    → (s : StageIntent) × (stage_named id ss ≡ some s)
stage_named_of_member id [] h = cc
stage_named_of_member id (s ∷ ss) h = elim (Bool-cases (same s.stage_id id)) [
  | inl k ↦ (s, rw k refl)
  | inr k ↦
      let (t, found) = stage_named_of_member id ss (ground (arith, same_sym s.stage_id id)) in
      (t, rw k found)
]

close_stage-Calm :
    (index : ℕ) (stage : StageIntent) (r : ResolvedImplementation) (node_type : String)
    (def : NodeDefinition) (b : CapabilityBinding) (done : List ResolvedStage) (inputs : Inputs)
    (filled : Filled)
    → close_stage index stage r node_type def b done inputs filled ≢ err panicked
unfolding close_stage
close_stage-Calm index stage r node_type def b done inputs filled =
    elim (Bool-cases (is_empty filled.missing)) [
      | inl e ↦ rw e (ok-Calm _)
      | inr e ↦ rw e (λ q. cc)
    ]

-- The stages that a stage refers to are among the given ones.
abbrev pub Known : List StageIntent → StageIntent → Type 0
Known stages s =
    All (λ (i : StageInputRef). member i.stage_id (stage_ids stages) ≡ true) s.input_from

module _ (reg : NodeRegistry) (catalog : CatalogSnapshot) (stages : List StageIntent) where
  wire_input-Calm :
      (def : NodeDefinition) (stage : StageIntent) (input : StageInputRef)
      → member input.stage_id (stage_ids stages) ≡ true
      → wire_input reg catalog stages def stage input ≢ err panicked
  unfolding wire_input
  wire_input-Calm def stage input known =
      let (source, found) = stage_named_of_member input.stage_id stages known in
      >>=-Calm _ _ (found-Calm _ source found) (λ source_stage h1.
        >>=-Calm _ _ (node_type_of-Calm catalog source_stage.capability_id) (λ source_type h2.
          >>=-Calm _ _ (definition_of-Calm reg source_type) (λ source_def h3.
            >>=-Calm _ _ (source_port_of-Calm source_def stage input) (λ source_port h4.
              >>=-Calm _ _ (target_port_of-Calm def stage input source_port.port_type)
                (λ target_port h5. ok-Calm _)))))

  wire_inputs-Calm :
      (def : NodeDefinition) (stage : StageIntent) (edges : List GraphEdge)
      (inputs : List StageInputRef)
      → All (λ (i : StageInputRef). member i.stage_id (stage_ids stages) ≡ true) inputs
      → wire_inputs reg catalog stages def stage edges inputs ≢ err panicked
  unfolding wire_inputs
  wire_inputs-Calm def stage edges [] known = λ q. cc
  wire_inputs-Calm def stage edges (input ∷ inputs) known =
      >>=-Calm _ _ (wire_input-Calm def stage input known.0)
        (λ edge h. wire_inputs-Calm def stage (edges ++ edge ∷ []) inputs known.1)

-- The node type of each capability of the catalog is registered as one that executes it, where it is
-- registered.
abbrev pub Executes : NodeRegistry → CatalogSnapshot → Type 0
Executes reg catalog =
    (id : String) (c : CapabilityDefinition) (def : NodeDefinition)
    → capability catalog id ≡ some c
    → definition reg c.node_type ≡ ok def
    → def.capability ≡ some id

-- The node type that a stage gets is the one that the catalog has for its capability.
executed :
    (reg : NodeRegistry) (catalog : CatalogSnapshot) (id node_type : String) (def : NodeDefinition)
    → Executes reg catalog
    → node_type_of catalog id ≡ ok node_type
    → definition_of reg node_type ≡ ok def
    → def.capability ≡ some id
unfolding node_type_of
executed reg catalog id node_type def fits h k = elim (Option-cases (capability catalog id)) [
  | inl e ↦ cc (rw (node_type_of, e) at h)
  | inr (c, e) ↦
      let is_type : ok c.node_type ≡ ok node_type = rw (node_type_of, e) at h in
      fits id c def e (
        subst (λ t. definition reg t ≡ ok def) (sym (ok-injective is_type))
          (map_err-eq-ok _ (definition reg node_type) k))
]

asserted-Calm :
    (debug_assertions : Bool) (def : NodeDefinition) (r : ResolvedImplementation)
    → (debug_assertions ≡ true → def.capability ≡ some r.capability_id)
    → asserted debug_assertions def r ≢ err panicked
asserted-Calm false def r h = λ q. cc
asserted-Calm true def r h = rw (h refl, same_refl r.capability_id) (λ q. cc)

module _ (debug_assertions : Bool) (tables : CharTables) (reg : NodeRegistry)
    (catalog : CatalogSnapshot) (availability : ConnectorAvailability) (preference : Option String)
    (stages : List StageIntent) (fits : debug_assertions ≡ true → Executes reg catalog) where
  -- The binding that a resolution names is in the catalog.
  resolved_binding :
      (stage : StageIntent) (r : ResolvedImplementation)
      → resolve_stage catalog tables availability preference stage ≡ ok r
      → (b : CapabilityBinding) × (binding catalog r.binding_id ≡ some b)
  unfolding resolve_stage binding resolved
  resolved_binding stage r h =
      let (b, serves, is_r, explicit) =
        resolve-Serves tables catalog _ availability r (on_resolved-ok catalog stage _ h) in
      rw is_r (
        find_of_mem (λ (c : CapabilityBinding). same c.binding_id b.binding_id) serves.listed
          (same_refl b.binding_id))

  build_stage-Calm :
      (index : ℕ) (stage : StageIntent) (state : Builder)
      → Known stages stage
      → build_stage debug_assertions tables reg catalog availability preference stages index stage
          state
        ≢ err panicked
  unfolding build_stage
  build_stage-Calm index stage state known =
      >>=-Calm _ _ (on_resolved-Calm catalog stage _) (λ r is_r.
        let (b, found) = resolved_binding stage r is_r in
        >>=-Calm _ _ (node_type_of-Calm catalog r.capability_id) (λ node_type h2.
          >>=-Calm _ _ (definition_of-Calm reg node_type) (λ def h3.
            >>=-Calm _ _
              (asserted-Calm debug_assertions def r
                (λ on. executed reg catalog r.capability_id node_type def (fits on) h2 h3))
              (λ u h.
                >>=-Calm _ _
                  (wire_inputs-Calm reg catalog stages def stage state.edges stage.input_from known)
                  (λ edges h4. >>=-Calm _ _ (found-Calm _ b found) (λ b' h5.
                    let inputs = stage_inputs def stage edges b' state in
                    close_stage-Calm index stage r node_type def b' state.resolved_stages inputs
                      (fill_stage def stage inputs)))))))

  pub build_stages-Calm :
      (index : ℕ) (ss : List StageIntent) (state : Builder)
      → All (Known stages) ss
      → build_stages debug_assertions tables reg catalog availability preference stages index ss
          state
        ≢ err panicked
  unfolding build_stages
  build_stages-Calm index [] state known = λ q. cc
  build_stages-Calm index (s ∷ ss) state known =
      >>=-Calm _ _ (build_stage-Calm index s state known.0)
        (λ state' h. build_stages-Calm (index + 1) ss state' known.1)
