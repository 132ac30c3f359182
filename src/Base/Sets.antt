-- ===== src/Base/Sets.antt =====
-- Sorted lists of strings as sets: two that hold the same strings are equal, and a stable sort of
-- distinct strings is the set that they make.
use mathlib.Core.Path.{◌≡◌, refl, sym, ap, ap₂, ◌∙◌, subst}
use mathlib.Core.Logic.{inl, inr}
use mathlib.Core.Bool.{true, false}
use mathlib.Core.List.{List, [], ◌∷◌}
use Prim.Native.String.{String}
use native.Mathlib.Omega.{arith}
use helixflow.Base.Tests.{Bool-cases}
use helixflow.Base.Lists.{all}
use helixflow.Base.Text.{
  same, before, same_iff, same_refl, same_sym, before_irrefl, before_trans, before_total,
}
use helixflow.Base.Keys.{
  member, distinct, sorted, sort_dedup, member-sort_dedup, insert-sorted, not-member_of_before,
  member-same,
}
use helixflow.Base.Keys
use helixflow.Base.Sorting.{insert_by, sort_by}

pub sort_dedup-sorted : (ks : List String) → sorted (sort_dedup ks) ≡ true
unfolding sort_dedup
sort_dedup-sorted [] = refl
sort_dedup-sorted (k ∷ ks) = insert-sorted k (sort_dedup ks) (sort_dedup-sorted ks)

before_of_member :
    (k j : String) (s : List String)
    → all (before k) s ≡ true
    → member j s ≡ true
    → before k j ≡ true
before_of_member k j [] h m = cc
before_of_member k j (i ∷ s) h m = elim (Bool-cases (same j i)) [
  | inl e ↦ subst (λ x. before k x ≡ true) (sym ((same_iff j i).0 e)) (ground arith)
  | inr e ↦ before_of_member k j s (ground arith) (ground arith)
]

abbrev pub SameMembers : List String → List String → Type 0
SameMembers s t = (k : String) → member k s ≡ member k t

tail_members :
    (x : String) (s t : List String)
    → all (before x) s ≡ true
    → all (before x) t ≡ true
    → SameMembers (x ∷ s) (x ∷ t)
    → SameMembers s t
tail_members x s t hs ht e k = elim (Bool-cases (same k x)) [
  | inl d ↦
      member-same k x s d
      ∙ not-member_of_before x s hs
      ∙ sym (not-member_of_before x t ht)
      ∙ sym (member-same k x t d)
  | inr d ↦ ground (arith, e k)
]

-- Two sorted lists with the same members are equal.
pub eq_of_SameMembers :
    (s t : List String) → sorted s ≡ true → sorted t ≡ true → SameMembers s t → s ≡ t
eq_of_SameMembers [] [] hs ht e = refl
eq_of_SameMembers [] (y ∷ t) hs ht e = ground (arith, e y, same_refl y)
eq_of_SameMembers (x ∷ s) [] hs ht e = ground (arith, e x, same_refl x)
eq_of_SameMembers (x ∷ s) (y ∷ t) hs ht e = elim (Bool-cases (same x y)) [
  | inl d ↦ heads ((same_iff x y).0 d) (λ k. eq_of_SameMembers s t (ground arith) (ground arith) k)
  | inr d ↦ cc (
    before_irrefl x,
    before_trans x y x
        (before_of_member x y s (ground arith) (ground (arith, e y, same_refl y, same_sym x y)))
        (before_of_member y x t (ground arith) (ground (arith, e x, same_refl x))),
  )
]
  where
    heads : x ≡ y → (SameMembers s t → s ≡ t) → x ∷ s ≡ y ∷ t
    heads p rest =
        let e' = subst (λ z. SameMembers (x ∷ s) (z ∷ t)) (sym p) e in
        let ht' = subst (λ z. all (before z) t ≡ true) (sym p) (ground arith) in
        ap₂ (λ a b. a ∷ b) p (rest (tail_members x s t (ground arith) ht' e'))

insert_by-eq-insert :
    (x : String) (s : List String)
    → member x s ≡ false
    → insert_by (λ (i : String). i) x s ≡ Keys.insert x s
unfolding insert_by Keys.insert
insert_by-eq-insert x [] h = refl
insert_by-eq-insert x (y ∷ s) h = elim (Bool-cases (before x y)) [
  | inl b ↦ elim (Bool-cases (before y x)) [
    | inl c ↦ cc (before_irrefl x, before_trans x y x b c)
    | inr c ↦ ground arith
  ]
  | inr b ↦ ground (arith, insert_by-eq-insert x s, before_total x y)
]

-- Distinct strings sorted are the set of them.
pub sort_by-eq-sort_dedup :
    (s : List String) → distinct s ≡ true → sort_by (λ (i : String). i) s ≡ sort_dedup s
unfolding sort_by sort_dedup
sort_by-eq-sort_dedup [] h = refl
sort_by-eq-sort_dedup (x ∷ s) h =
    ap (λ r. insert_by (λ (i : String). i) x r) (sort_by-eq-sort_dedup s (ground arith))
    ∙ insert_by-eq-insert x (sort_dedup s) (ground (arith, member-sort_dedup x s))
