-- ===== src/Compiler/Intent/Accepts.antt =====
-- What `IntentPlan::validate` of crates/compiler/src/intent.rs accepts.
use helixflow.Base.{
  String, Bool, true, not, ◌&&◌, List, [], ◌∷◌, ok, ensure, for_each, ◌≡◌, ◌≢◌, ◌↔◌, refl, sym, ap,
  subst, ◌∙◌, arith, retain, same, same_iff, same_refl, All, map-All, ensure-eq-ok, for_each_of_All,
  >>-eq-ok, Bool-cases, inl, inr, length, ◌==◌,
}
use helixflow.Base.Keys.{member, distinct, sort_dedup, member-sort_dedup}
use helixflow.Base.Sorting.{sort_by}
use helixflow.Base.Sets.{eq_of_SameMembers, sort_dedup-sorted, sort_by-eq-sort_dedup}
use helixflow.Registry.Params.{is_empty}
use helixflow.Compiler.Types.{IntentPlan, StageIntent, TopologyIntent, linear, parallel}
use helixflow.Compiler.Intent.{
  intent_version, stage_ids, referenced, sinks, same_strings, check_stages, check_linear,
  check_shape, validate_topology, validate_intent,
}
use helixflow.Compiler.Intent.Stages.{
  ensure-ok, >>-ok, same_strings_iff, EarlierOnly, IsStage, check_stages-Follows,
  check_stages_of_Follows, Follows-IsStage, Follows-distinct, Follows-EarlierOnly, Follows-of_parts,
}
use helixflow.Compiler.Intent.Chain.{
  IsChain, not-is_empty, is_empty-eq-false, check_linear-IsChain, check_linear_of_IsChain,
  sinks-IsChain, last_of,
}

-- A stage of an intent that no stage consumes.
abbrev pub is_terminal : String → List StageIntent → Bool
is_terminal id stages = member id (stage_ids stages) && not (member id (referenced stages))

pub record IsWellFormed (intent : IntentPlan) : Type 0 where
  pub version : intent.intent_version ≡ intent_version
  pub some_stage : intent.stages ≢ []
  pub some_output : intent.output_stage_ids ≢ []
  pub stages : All IsStage intent.stages
  pub ids : distinct (stage_ids intent.stages) ≡ true
  pub earlier : EarlierOnly [] intent.stages
  pub outputs : (id : String) → member id intent.output_stage_ids ≡ is_terminal id intent.stages
  pub chain : intent.topology ≡ linear → IsChain intent.stages

pub member-retain :
    (k : String) (p : String → Bool) (xs : List String)
    → member k (retain p xs) ≡ (member k xs && p k)
member-retain k p [] = refl
member-retain k p (x ∷ xs) = elim (Bool-cases (same k x)) [
  | inl e ↦
      let agree : p k ≡ p x = ap p ((same_iff k x).0 e) in
      ground (arith, member-retain k p xs, agree)
  | inr e ↦ ground (arith, member-retain k p xs)
]

pub distinct-retain :
    (p : String → Bool) (xs : List String) → distinct xs ≡ true → distinct (retain p xs) ≡ true
distinct-retain p [] d = refl
distinct-retain p (x ∷ xs) d = ground (arith, distinct-retain p xs, member-retain x p xs)

-- The comparison of the sorted lists, with the terminal stages all different.
outputs_iff :
    (intent : IntentPlan)
    → distinct (stage_ids intent.stages) ≡ true
    → (same_strings
          (sort_dedup intent.output_stage_ids)
          (sort_by (λ (id : String). id) (sinks intent.stages))
        ≡ true)
      ↔ ((id : String) → member id intent.output_stage_ids ≡ is_terminal id intent.stages)
outputs_iff intent d = (
  λ h id.
      sym (member-sort_dedup id intent.output_stage_ids)
      ∙ ap (member id) ((same_strings_iff _ _).0 h ∙ as_set)
      ∙ member-sort_dedup id (sinks intent.stages)
      ∙ is_sink id,
  λ h. (same_strings_iff _ _).1 (
      eq_of_SameMembers _ _ (sort_dedup-sorted intent.output_stage_ids)
        (sort_dedup-sorted (sinks intent.stages))
        (λ id.
          member-sort_dedup id intent.output_stage_ids
          ∙ h id
          ∙ sym (is_sink id)
          ∙ sym (member-sort_dedup id (sinks intent.stages)))
      ∙ sym as_set),
)
  where
    as_set : sort_by (λ (id : String). id) (sinks intent.stages) ≡ sort_dedup (sinks intent.stages)
    as_set = sort_by-eq-sort_dedup (sinks intent.stages) (distinct-retain _ _ d)

    is_sink : (id : String) → member id (sinks intent.stages) ≡ is_terminal id intent.stages
    is_sink id = member-retain id _ (stage_ids intent.stages)

check_shape-IsChain :
    (t : TopologyIntent) (ss : List StageIntent)
    → check_shape t ss ≡ ok tt
    → t ≡ linear
    → IsChain ss
check_shape-IsChain parallel ss h e = cc
check_shape-IsChain linear ss h e =
    let (chained, one) = >>-eq-ok (check_linear ss) _ h in check_linear-IsChain ss chained

check_shape_of_IsChain :
    (t : TopologyIntent) (ss : List StageIntent)
    → ss ≢ []
    → distinct (stage_ids ss) ≡ true
    → (t ≡ linear → IsChain ss)
    → check_shape t ss ≡ ok tt
check_shape_of_IsChain parallel ss n d c = refl
check_shape_of_IsChain linear [] n d c = absurd (n refl)
check_shape_of_IsChain linear (q ∷ ss) n d c =
    >>-ok (check_linear_of_IsChain (q ∷ ss) (c refl))
      (ensure-ok _ _ (ap (λ (ids : List String). length ids == 1) (sinks-IsChain q ss (c refl) d)))

known_outputs :
    (ids outputs : List String)
    → ((id : String) → member id outputs ≡ true → member id ids ≡ true)
    → All (λ id. member id ids ≡ true) outputs
known_outputs ids [] h = tt
known_outputs ids (o ∷ outputs) h =
    (h o (ground (arith, same_refl o)), known_outputs ids outputs (λ id m. h id (ground arith)))

validate_intent-IsWellFormed :
    (intent : IntentPlan) → validate_intent intent ≡ ok tt → IsWellFormed intent
unfolding validate_intent validate_topology
validate_intent-IsWellFormed intent h =
    let (version, h1) = >>-eq-ok (ensure (same intent.intent_version intent_version) _) _ h in
    let (staged, h2) = >>-eq-ok (ensure (not (is_empty intent.stages)) _) _ h1 in
    let (ended, h3) = >>-eq-ok (ensure (not (is_empty intent.output_stage_ids)) _) _ h2 in
    let (walked, h4) = >>-eq-ok (check_stages [] intent.stages) _ h3 in
    let (known, h5) = >>-eq-ok (for_each _ intent.output_stage_ids) _ h4 in
    let (equal, shaped) = >>-eq-ok (ensure _ _) _ h5 in
    let follows = check_stages-Follows [] intent.stages walked in
    let ids = Follows-distinct [] intent.stages follows in
    record {
      version = (same_iff intent.intent_version intent_version).0 (ensure-eq-ok _ _ version);
      some_stage = not-is_empty intent.stages (ground (arith, ensure-eq-ok _ _ staged));
      some_output = not-is_empty intent.output_stage_ids (ground (arith, ensure-eq-ok _ _ ended));
      stages = Follows-IsStage [] intent.stages follows;
      ids = ids;
      earlier = Follows-EarlierOnly [] intent.stages follows;
      outputs = (outputs_iff intent ids).0 (ensure-eq-ok _ _ equal);
      chain = check_shape-IsChain intent.topology intent.stages shaped;
    }

validate_intent_of_IsWellFormed :
    (intent : IntentPlan) → IsWellFormed intent → validate_intent intent ≡ ok tt
unfolding validate_intent validate_topology
validate_intent_of_IsWellFormed intent w =
    >>-ok (ensure-ok _ _ ((same_iff intent.intent_version intent_version).1 w.version)) (
      >>-ok (ensure-ok _ _ (ap not (is_empty-eq-false intent.stages w.some_stage))) (
        >>-ok (ensure-ok _ _ (ap not (is_empty-eq-false intent.output_stage_ids w.some_output))) (
          >>-ok
            (check_stages_of_Follows [] intent.stages
              (Follows-of_parts [] intent.stages w.stages (λ k m. refl) w.ids w.earlier))
            (>>-ok
              (for_each_of_All _ intent.output_stage_ids (
                map-All (λ id e. ensure-ok _ _ e) intent.output_stage_ids
                  (known_outputs (stage_ids intent.stages) intent.output_stage_ids
                    (λ id m. ground (arith, w.outputs id)))))
              (>>-ok (ensure-ok _ _ ((outputs_iff intent w.ids).1 w.outputs)) (
                check_shape_of_IsChain intent.topology intent.stages w.some_stage w.ids
                  w.chain))))))

-- An intent is accepted exactly when its version is the supported one, it has stages and outputs,
-- the stages' ids are well shaped and distinct and their parameters are objects, each stage refers
-- to stages before it alone, the outputs are the stages that no other refers to, and, if it is
-- linear, the first stage has no input and each other one takes all of its inputs, and at least
-- one, from the stage before it.
pub validate_intent-ok_iff :
    (intent : IntentPlan) → (validate_intent intent ≡ ok tt) ↔ IsWellFormed intent
validate_intent-ok_iff intent =
    (validate_intent-IsWellFormed intent, validate_intent_of_IsWellFormed intent)

-- In an accepted linear intent exactly one stage is consumed by none, the last.
pub validate_intent-sinks :
    (intent : IntentPlan) (q : StageIntent) (ss : List StageIntent)
    → validate_intent intent ≡ ok tt
    → intent.topology ≡ linear
    → intent.stages ≡ q ∷ ss
    → sinks intent.stages ≡ last_of q.stage_id (stage_ids ss) ∷ []
validate_intent-sinks intent q ss h t e =
    let w = validate_intent-IsWellFormed intent h in
    subst (λ stages. sinks stages ≡ last_of q.stage_id (stage_ids ss) ∷ []) (sym e)
      (sinks-IsChain q ss (subst IsChain e (w.chain t))
        (subst (λ stages. distinct (stage_ids stages) ≡ true) e w.ids))
