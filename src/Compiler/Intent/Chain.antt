-- ===== src/Compiler/Intent/Chain.antt =====
-- The shape of a linear intent in crates/compiler/src/intent.rs: each stage consumes the one before
-- it, and so exactly the last is consumed by none.
use helixflow.Base.{
  String, Bool, true, false, not, ◌||◌, List, [], ◌∷◌, ◌++◌, ok, ensure, ◌≡◌, ◌≢◌, refl, ap, ap₂,
  subst, ◌∙◌, arith, any, retain, same, same_iff, same_refl, All, ensure-eq-ok, >>-eq-ok,
}
use helixflow.Base.Keys.{member, distinct, member-same}
use helixflow.Registry.Params.{is_empty}
use helixflow.Compiler.Types.{StageIntent, StageInputRef}
use helixflow.Compiler.Intent.{
  stage_ids, input_stages, referenced, sinks, check_chain, check_linear,
}
use helixflow.Compiler.Intent.Stages.{ensure-ok, >>-ok, member-append}

-- It has inputs, all of them from one stage.
abbrev pub ConsumesOnly : String → StageIntent → Type 0
ConsumesOnly previous s =
    (s.input_from ≢ []) × All (λ (i : StageInputRef). i.stage_id ≡ previous) s.input_from

-- The first stage consumes none, and each other one exactly the stage before it.
abbrev pub IsChain : List StageIntent → Type 0
IsChain ss =
    ((s : StageIntent) (behind : List StageIntent) → ss ≡ s ∷ behind → s.input_from ≡ [])
    × ((before : List StageIntent) (p s : StageIntent) (behind : List StageIntent)
        → ss ≡ before ++ p ∷ s ∷ behind
        → ConsumesOnly p.stage_id s)

abbrev ChainFrom : String → List StageIntent → Type 0
ChainFrom previous [] = Unit
ChainFrom previous (s ∷ ss) = ConsumesOnly previous s × ChainFrom s.stage_id ss

All-from :
    (previous : String) (inputs : List StageInputRef)
    → any (λ (i : StageInputRef). not (same i.stage_id previous)) inputs ≡ false
    → All (λ (i : StageInputRef). i.stage_id ≡ previous) inputs
All-from previous [] h = tt
All-from previous (i ∷ inputs) h =
    ((same_iff i.stage_id previous).0 (ground arith), All-from previous inputs (ground arith))

none_other :
    (previous : String) (inputs : List StageInputRef)
    → All (λ (i : StageInputRef). i.stage_id ≡ previous) inputs
    → any (λ (i : StageInputRef). not (same i.stage_id previous)) inputs ≡ false
none_other previous [] h = refl
none_other previous (i ∷ inputs) h =
    ground (arith, (same_iff i.stage_id previous).1 h.0, none_other previous inputs h.1)

pub not-is_empty {ℓ} : {A : Type ℓ} (xs : List A) → is_empty xs ≡ false → xs ≢ []
not-is_empty [] h e = cc
not-is_empty (x ∷ xs) h e = cc

pub is_empty-eq-false {ℓ} : {A : Type ℓ} (xs : List A) → xs ≢ [] → is_empty xs ≡ false
is_empty-eq-false [] h = absurd (h refl)
is_empty-eq-false (x ∷ xs) h = refl

is_empty-eq-true {ℓ} : {A : Type ℓ} (xs : List A) → is_empty xs ≡ true → xs ≡ []
is_empty-eq-true [] h = refl
is_empty-eq-true (x ∷ xs) h = cc

both_false : (a b : Bool) → not (a || b) ≡ true → (a ≡ false) × (b ≡ false)
both_false a b h = ground arith

check_chain-ChainFrom :
    (previous : String) (ss : List StageIntent)
    → check_chain previous ss ≡ ok tt
    → ChainFrom previous ss
unfolding check_chain
check_chain-ChainFrom previous [] h = tt
check_chain-ChainFrom previous (s ∷ ss) h =
    let others = any (λ (i : StageInputRef). not (same i.stage_id previous)) s.input_from in
    let (tested, rest) =
      >>-eq-ok (ensure (not (is_empty s.input_from || others)) _) (check_chain s.stage_id ss) h in
    let (filled, alike) = both_false _ _ (ensure-eq-ok _ _ tested) in
    (
      (not-is_empty s.input_from filled, All-from previous s.input_from alike),
      check_chain-ChainFrom s.stage_id ss rest,
    )

check_chain_of_ChainFrom :
    (previous : String) (ss : List StageIntent)
    → ChainFrom previous ss
    → check_chain previous ss ≡ ok tt
unfolding check_chain
check_chain_of_ChainFrom previous [] c = refl
check_chain_of_ChainFrom previous (s ∷ ss) ((some_input, from_previous), rest) =
    >>-ok
      (ensure-ok _ _ (
        rw
          (
            is_empty-eq-false s.input_from some_input,
            none_other previous s.input_from from_previous,
          )
          refl))
      (check_chain_of_ChainFrom s.stage_id ss rest)

ChainFrom-splits :
    (q : StageIntent) (ss : List StageIntent)
    → ChainFrom q.stage_id ss
    → (before : List StageIntent) (p s : StageIntent) (behind : List StageIntent)
    → q ∷ ss ≡ before ++ p ∷ s ∷ behind
    → ConsumesOnly p.stage_id s
ChainFrom-splits q [] c [] p s behind e = cc
ChainFrom-splits q (t ∷ ss) (first, rest) [] p s behind e =
    let is_q : q ≡ p = cc e in
    let is_t : t ≡ s = cc e in
    subst (λ x. ConsumesOnly x.stage_id s) is_q (subst (ConsumesOnly q.stage_id) is_t first)
ChainFrom-splits q [] c (b ∷ []) p s behind e = cc
ChainFrom-splits q [] c (b ∷ a ∷ before) p s behind e = cc
ChainFrom-splits q (t ∷ ss) (first, rest) (b ∷ before) p s behind e =
    ChainFrom-splits t ss rest before p s behind (cc e)

ChainFrom-of_splits :
    (q : StageIntent) (ss : List StageIntent)
    → ((before : List StageIntent) (p s : StageIntent) (behind : List StageIntent)
        → q ∷ ss ≡ before ++ p ∷ s ∷ behind
        → ConsumesOnly p.stage_id s)
    → ChainFrom q.stage_id ss
ChainFrom-of_splits q [] h = tt
ChainFrom-of_splits q (t ∷ ss) h = (
  h [] q t ss refl,
  ChainFrom-of_splits t ss (λ before p s behind e. h (q ∷ before) p s behind (ap (λ r. q ∷ r) e)),
)

no_stage :
    (before : List StageIntent) (p s : StageIntent) (behind : List StageIntent)
    → [] ≡ before ++ p ∷ s ∷ behind
    → ConsumesOnly p.stage_id s
no_stage [] p s behind e = cc
no_stage (b ∷ before) p s behind e = cc

pub check_linear-IsChain : (ss : List StageIntent) → check_linear ss ≡ ok tt → IsChain ss
unfolding check_linear
check_linear-IsChain [] h = (λ s behind e. cc, no_stage)
check_linear-IsChain (q ∷ ss) h =
    let (tested, rest) = >>-eq-ok (ensure (is_empty q.input_from) _) _ h in
    (
      λ s behind e.
          let is_q : q ≡ s = cc e in
          subst (λ (x : StageIntent). x.input_from ≡ []) is_q
            (is_empty-eq-true q.input_from (ensure-eq-ok _ _ tested)),
      ChainFrom-splits q ss (check_chain-ChainFrom q.stage_id ss rest),
    )

pub check_linear_of_IsChain : (ss : List StageIntent) → IsChain ss → check_linear ss ≡ ok tt
unfolding check_linear
check_linear_of_IsChain [] c = refl
check_linear_of_IsChain (q ∷ ss) (first, steps) =
    >>-ok (ensure-ok _ _ (ap is_empty (first q ss refl)))
      (check_chain_of_ChainFrom q.stage_id ss (ChainFrom-of_splits q ss steps))

-- A list without its last element, and that element.
abbrev front : List String → List String
front [] = []
front (x ∷ []) = []
front (x ∷ y ∷ l) = x ∷ front (y ∷ l)

abbrev pub last_of : String → List String → String
last_of x [] = x
last_of x (y ∷ l) = last_of y l

member-inputs :
    (k previous : String) (inputs : List StageInputRef)
    → inputs ≢ []
    → All (λ (i : StageInputRef). i.stage_id ≡ previous) inputs
    → member k (input_stages inputs) ≡ same k previous
member-inputs k previous [] h c = absurd (h refl)
member-inputs k previous (i ∷ []) h c = rw (c.0) (ground arith)
member-inputs k previous (i ∷ j ∷ inputs) h c =
    rw (c.0, member-inputs k previous (j ∷ inputs) (λ e. cc e) c.1) (ground arith)

member-referenced :
    (k previous : String) (ss : List StageIntent)
    → ChainFrom previous ss
    → member k (referenced ss) ≡ member k (front (previous ∷ stage_ids ss))
member-referenced k previous [] c = refl
member-referenced k previous (s ∷ ss) ((some_input, from_previous), rest) =
    member-append k (input_stages s.input_from) (referenced ss)
    ∙ ap₂ (λ a b. a || b) (member-inputs k previous s.input_from some_input from_previous)
        (member-referenced k s.stage_id ss rest)

retain_congr :
    (p q : String → Bool) (xs : List String)
    → ((k : String) → member k xs ≡ true → p k ≡ q k)
    → retain p xs ≡ retain q xs
retain_congr p q [] h = refl
retain_congr p q (x ∷ xs) h =
    let rest = retain_congr p q xs (λ k m. h k (ground arith)) in
    ground (arith, h x, same_refl x, rest)

retain-front :
    (x : String) (l : List String)
    → distinct (x ∷ l) ≡ true
    → retain (λ k. not (member k (front (x ∷ l)))) (x ∷ l) ≡ last_of x l ∷ []
retain-front x [] d = refl
retain-front x (y ∷ l) d =
    let others =
      retain_congr (λ k. not (member k (x ∷ front (y ∷ l)))) (λ k. not (member k (front (y ∷ l))))
        (y ∷ l) (λ k m. ground (arith, member-same k x (y ∷ l))) in
    rw (same_refl x) (others ∙ retain-front y l (ground arith))

-- The last stage of a chain is the only one that no stage consumes.
pub sinks-IsChain :
    (q : StageIntent) (ss : List StageIntent)
    → IsChain (q ∷ ss)
    → distinct (stage_ids (q ∷ ss)) ≡ true
    → sinks (q ∷ ss) ≡ last_of q.stage_id (stage_ids ss) ∷ []
sinks-IsChain q ss (first, steps) d =
    let chain = ChainFrom-of_splits q ss steps in
    let no_input : referenced (q ∷ ss) ≡ referenced ss =
      ap (λ inputs. input_stages inputs ++ referenced ss) (first q ss refl) in
    retain_congr (λ k. not (member k (referenced (q ∷ ss))))
      (λ k. not (member k (front (q.stage_id ∷ stage_ids ss)))) (stage_ids (q ∷ ss))
      (λ k m. ap not (ap (member k) no_input ∙ member-referenced k q.stage_id ss chain))
    ∙ retain-front q.stage_id (stage_ids ss) d
