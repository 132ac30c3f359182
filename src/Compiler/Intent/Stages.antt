-- ===== src/Compiler/Intent/Stages.antt =====
-- What the validation of intents in crates/compiler/src/intent.rs asks of the stages.
use helixflow.Base.{
  String, Bool, true, false, not, ◌||◌, List, [], ◌∷◌, ◌++◌, Result, ok, ensure, same_refl, ◌>>◌,
  ◌≡◌, ◌↔◌, refl, sym, ap, subst, arith, same, same_iff, All, map-All, for_each-eq-ok,
  for_each_of_All, ensure-eq-ok, >>-eq-ok, is_some, Bool-cases, inl, inr,
}
use helixflow.Base.Keys.{member, member-same, distinct}
use helixflow.Json.{as_object}
use mathlib.Core.List.{append_assoc, append-nil}
use helixflow.Compiler.Types.{StageIntent, StageInputRef}
use helixflow.Compiler.Intent.{
  valid_stage_id, stage_ids, check_references, check_stages, same_strings,
}

-- A check passes exactly when its condition holds.
pub ensure-ok {μ} : {E : Type μ} (b : Bool) (e : E) → b ≡ true → ensure b e ≡ ok tt
ensure-ok true e h = refl
ensure-ok false e h = cc

pub >>-ok {κ μ} :
    {B : Type κ} {E : Type μ} {check : Result (Unit {0}) E} {rest : Result B E} {y : B}
    → check ≡ ok tt
    → rest ≡ ok y
    → (check >> rest) ≡ ok y
>>-ok p q = rw p q

pub same_strings_iff : (s t : List String) → (same_strings s t ≡ true) ↔ (s ≡ t)
unfolding same_strings
same_strings_iff [] [] = (λ h. refl, λ h. refl)
same_strings_iff [] (y ∷ t) = (λ h. cc, λ h. cc)
same_strings_iff (x ∷ s) [] = (λ h. cc, λ h. cc)
same_strings_iff (x ∷ s) (y ∷ t) = (
  λ h. ground (arith, (same_iff x y).0, (same_strings_iff s t).0),
  λ h. ground (arith, (same_iff x y).1, (same_strings_iff s t).1),
)

-- What is asked of a stage and of those behind it, after the stages of some ids.
abbrev pub Follows : List String → List StageIntent → Type 0
Follows seen [] = Unit
Follows seen (s ∷ ss) =
    (valid_stage_id s.stage_id ≡ true)
    × (member s.stage_id seen ≡ false)
    × (is_some (as_object s.params) ≡ true)
    × All (λ (i : StageInputRef). member i.stage_id seen ≡ true) s.input_from
    × Follows (seen ++ s.stage_id ∷ []) ss

pub check_stages-Follows :
    (seen : List String) (ss : List StageIntent) → check_stages seen ss ≡ ok tt → Follows seen ss
unfolding check_stages check_references
check_stages-Follows seen [] h = tt
check_stages-Follows seen (s ∷ ss) h =
    let (is_id, h1) = >>-eq-ok (ensure (valid_stage_id s.stage_id) _) _ h in
    let (is_new, h2) = >>-eq-ok (ensure (not (member s.stage_id seen)) _) _ h1 in
    let (is_object, h3) = >>-eq-ok (ensure (is_some (as_object s.params)) _) _ h2 in
    let (known, h4) = >>-eq-ok (check_references seen s) _ h3 in
    (
      ensure-eq-ok _ _ is_id,
      ground (arith, ensure-eq-ok _ _ is_new),
      ensure-eq-ok _ _ is_object,
      map-All (λ i e. ensure-eq-ok _ _ e) s.input_from (for_each-eq-ok _ s.input_from known),
      check_stages-Follows (seen ++ s.stage_id ∷ []) ss h4,
    )

pub check_stages_of_Follows :
    (seen : List String) (ss : List StageIntent) → Follows seen ss → check_stages seen ss ≡ ok tt
unfolding check_stages check_references
check_stages_of_Follows seen [] f = refl
check_stages_of_Follows seen (s ∷ ss) (is_id, is_new, is_object, known, rest) =
    >>-ok (ensure-ok _ _ is_id) (
      >>-ok (ensure-ok _ _ (ap not is_new)) (
        >>-ok (ensure-ok _ _ is_object) (
          >>-ok
            (for_each_of_All _ s.input_from (map-All (λ i e. ensure-ok _ _ e) s.input_from known))
            (check_stages_of_Follows (seen ++ s.stage_id ∷ []) ss rest))))

-- Stages that stand one before the other, in front of, at and behind a position.
abbrev pub EarlierOnly : List String → List StageIntent → Type 0
EarlierOnly seen ss =
    (before : List StageIntent) (s : StageIntent) (behind : List StageIntent)
    → ss ≡ before ++ s ∷ behind
    → All (λ (i : StageInputRef). member i.stage_id (seen ++ stage_ids before) ≡ true) s.input_from

-- What holds of the stages one by one.
abbrev pub IsStage : StageIntent → Type 0
IsStage s = (valid_stage_id s.stage_id ≡ true) × (is_some (as_object s.params) ≡ true)

pub member-append :
    (k : String) (s t : List String) → member k (s ++ t) ≡ (member k s || member k t)
member-append k [] t = refl
member-append k (j ∷ s) t = ground (arith, member-append k s t)

abbrev pub Fresh : List String → List StageIntent → Type 0
Fresh seen ss = (k : String) → member k (stage_ids ss) ≡ true → member k seen ≡ false

pub Follows-IsStage :
    (seen : List String) (ss : List StageIntent) → Follows seen ss → All IsStage ss
Follows-IsStage seen [] f = tt
Follows-IsStage seen (s ∷ ss) (is_id, is_new, is_object, known, rest) =
    ((is_id, is_object), Follows-IsStage (seen ++ s.stage_id ∷ []) ss rest)

Follows-Fresh : (seen : List String) (ss : List StageIntent) → Follows seen ss → Fresh seen ss
Follows-Fresh seen [] f k m = cc
Follows-Fresh seen (s ∷ ss) (is_id, is_new, is_object, known, rest) k m =
    elim (Bool-cases (same k s.stage_id)) [
      | inl e ↦ subst (λ x. member x seen ≡ false) (sym ((same_iff k s.stage_id).0 e)) is_new
      | inr e ↦ ground (
        arith,
        Follows-Fresh (seen ++ s.stage_id ∷ []) ss rest k (ground arith),
        member-append k seen (s.stage_id ∷ []),
      )
    ]

pub Follows-distinct :
    (seen : List String) (ss : List StageIntent) → Follows seen ss → distinct (stage_ids ss) ≡ true
Follows-distinct seen [] f = refl
Follows-distinct seen (s ∷ ss) (is_id, is_new, is_object, known, rest) =
    elim (Bool-cases (member s.stage_id (stage_ids ss))) [
      | inl m ↦ ground (
        arith,
        Follows-Fresh (seen ++ s.stage_id ∷ []) ss rest s.stage_id m,
        member-append s.stage_id seen (s.stage_id ∷ []),
        same_refl s.stage_id,
      )
      | inr m ↦ rw m (Follows-distinct (seen ++ s.stage_id ∷ []) ss rest)
    ]

pub Follows-EarlierOnly :
    (seen : List String) (ss : List StageIntent) → Follows seen ss → EarlierOnly seen ss
Follows-EarlierOnly seen [] f [] s behind e = cc
Follows-EarlierOnly seen [] f (b ∷ before) s behind e = cc
Follows-EarlierOnly seen (t ∷ ss) (is_id, is_new, is_object, known, rest) [] s behind e =
    let is_t : t ≡ s = cc e in
    subst
      (λ (x : StageIntent).
        All (λ (i : StageInputRef). member i.stage_id (seen ++ []) ≡ true) x.input_from)
      is_t (rw append-nil known)
Follows-EarlierOnly seen (t ∷ ss) (is_id, is_new, is_object, known, rest) (b ∷ before) s behind e =
    let found = Follows-EarlierOnly (seen ++ t.stage_id ∷ []) ss rest before s behind (cc e) in
    let is_t : t ≡ b = cc e in
    subst
      (λ (x : StageIntent).
        All
          (λ (i : StageInputRef). member i.stage_id (seen ++ x.stage_id ∷ stage_ids before) ≡ true)
          s.input_from)
      is_t (rw append_assoc at found)

pub Follows-of_parts :
    (seen : List String) (ss : List StageIntent)
    → All IsStage ss
    → Fresh seen ss
    → distinct (stage_ids ss) ≡ true
    → EarlierOnly seen ss
    → Follows seen ss
Follows-of_parts seen [] h n d r = tt
Follows-of_parts seen (s ∷ ss) ((is_id, is_object), h) n d r = (
  is_id,
  n s.stage_id (ground (arith, same_refl s.stage_id)),
  is_object,
  rw append-nil at (r [] s ss refl),
  Follows-of_parts (seen ++ s.stage_id ∷ []) ss h
      (λ k m. ground (
        arith,
        n k,
        member-append k seen (s.stage_id ∷ []),
        member-same k s.stage_id (stage_ids ss),
      ))
      (ground arith)
      (λ before t behind e.
        rw (sym (append_assoc seen (s.stage_id ∷ []) (stage_ids before))) at
          (r (s ∷ before) t behind (ap (λ x. s ∷ x) e))),
)
