-- ===== src/Base/Sorting.antt =====
-- `slice::sort_by` on a string key: the stable sort, with what it does to searches and to the order
-- of its input.
use Prim.Native.String.{String}
use mathlib.Core.Path.{◌≡◌, refl, ap, ap₂, subst, ◌∙◌}
use mathlib.Core.Logic.{◌⊎◌, inl, inr}
use mathlib.Core.Bool.{Bool, true, false, ◌||◌}
use mathlib.Core.Option.{some}
use mathlib.Core.List.{List, [], ◌∷◌, map, Permᴰ}
use native.Mathlib.Omega.{arith}
use helixflow.Base.Tests.{if◌then◌else◌, Bool-cases}
use helixflow.Base.Lists.{find}
use helixflow.Base.Keys.{member, distinct}
use helixflow.Base.Text.{
  same, same_iff, before, before_irrefl, same_sym, before-same, before_trans, before_total,
}

one_before :
    (a b : String)
    → same a b ≡ false
    → ((before a b ≡ true) × (before b a ≡ false)) ⊎ ((before a b ≡ false) × (before b a ≡ true))
one_before a b d = elim (Bool-cases (before a b)) [
  | inl h ↦ inl (h, not_after a b h)
  | inr h ↦ inr (h, before_total a b d h)
]
  where
    not_after : (a b : String) → before a b ≡ true → before b a ≡ false
    not_after a b h = elim (Bool-cases (before b a)) [
      | inl k ↦ cc (before_irrefl a, before_trans a b a h k)
      | inr k ↦ k
    ]

-- What is not before `x` but before `y` puts `x` before `y`.
before_of_between : (x y z : String) → before z x ≡ false → before z y ≡ true → before x y ≡ true
before_of_between x y z h k = elim (Bool-cases (same z x)) [
  | inl e ↦ subst (λ w. before w y ≡ true) ((same_iff z x).0 e) k
  | inr e ↦ before_trans x z y (before_total z x e h) k
]

module _ {ℓ} {A : Type ℓ} (key : A → String) where
  -- An element goes before those of its own key, which stood behind it.
  unfoldable pub insert_by : A → List A → List A
  insert_by x [] = x ∷ []
  insert_by x (y ∷ ys) = if before (key y) (key x) then y ∷ insert_by x ys else x ∷ y ∷ ys

  unfoldable pub sort_by : List A → List A
  unfolding insert_by
  sort_by [] = []
  sort_by (x ∷ xs) = insert_by x (sort_by xs)

  abbrev named : String → A → Bool
  named k x = same (key x) k

  find-insert_by :
      (k : String) (x : A) (ys : List A)
      → find (named k) (insert_by x ys) ≡ (if same (key x) k then some x else find (named k) ys)
  unfolding insert_by
  find-insert_by k x [] = refl
  find-insert_by k x (y ∷ ys) = elim (Bool-cases (before (key y) (key x))) [
    | inl b ↦
        rw (b, find-insert_by k x ys)
          (elim (Bool-cases (same (key x) k)) [
            | inl at_x ↦ elim (Bool-cases (same (key y) k)) [
              | inl at_y ↦ cc (before-same (key y) (key x) b, (same_iff (key x) k).0 at_x)
              | inr not_y ↦ rw (at_x, not_y) refl
            ]
            | inr not_x ↦ rw not_x refl
          ])
    | inr n ↦ rw n refl
  ]

  -- A search by key finds what it finds in the list as it was given.
  pub find-sort_by : (k : String) (xs : List A) → find (named k) (sort_by xs) ≡ find (named k) xs
  unfolding sort_by
  find-sort_by k [] = refl
  find-sort_by k (x ∷ xs) =
      find-insert_by k x (sort_by xs)
      ∙ ap (λ r. if same (key x) k then some x else r) (find-sort_by k xs)

  insert_by-swap :
      (x y : A) (zs : List A)
      → same (key x) (key y) ≡ false
      → insert_by x (insert_by y zs) ≡ insert_by y (insert_by x zs)
  unfolding insert_by
  insert_by-swap x y [] d = elim (one_before (key x) (key y) d) [
    | inl (a, b) ↦ rw (a, b) refl
    | inr (a, b) ↦ rw (a, b) refl
  ]
  insert_by-swap x y (z ∷ zs) d = elim (Bool-cases (before (key z) (key x))) [
    | inl q ↦ elim (Bool-cases (before (key z) (key y))) [
      | inl p ↦ rw (p, q, p) (ap (λ r. z ∷ r) (insert_by-swap x y zs d))
      | inr p ↦ let yx = before_of_between (key y) (key x) (key z) p q in rw (p, q, yx, p) refl
    ]
    | inr q ↦ elim (Bool-cases (before (key z) (key y))) [
      | inl p ↦ let xy = before_of_between (key x) (key y) (key z) q p in rw (p, q, xy, p) refl
      | inr p ↦ elim (one_before (key x) (key y) d) [
        | inl (a, b) ↦ rw (p, q, a, b, p) refl
        | inr (a, b) ↦ rw (p, q, a, b) refl
      ]
    ]
  ]

  abbrev pub keys_of : List A → List String
  keys_of xs = map key xs

  member-keys_of :
      (k : String) {xs ys : List A} → Permᴰ xs ys → member k (keys_of xs) ≡ member k (keys_of ys)
  member-keys_of k Permᴰ.nil = refl
  member-keys_of k (Permᴰ.cons e p) = ap₂ (λ a b. same k (key a) || b) e (member-keys_of k p)
  member-keys_of k (Permᴰ.swap {a = a} {b = b} e f) =
      ground (arith, ap (λ x. same k (key x)) e, ap (λ x. same k (key x)) f)
  member-keys_of k (Permᴰ.trans p q) = member-keys_of k p ∙ member-keys_of k q

  distinct-keys_of :
      {xs ys : List A} → Permᴰ xs ys → distinct (keys_of xs) ≡ true → distinct (keys_of ys) ≡ true
  distinct-keys_of Permᴰ.nil d = refl
  distinct-keys_of (Permᴰ.cons {a = a} {l₂ = ys} e p) d =
      subst (λ x. distinct (keys_of (x ∷ ys)) ≡ true) e
        (ground (arith, member-keys_of (key a) p, distinct-keys_of p (ground arith)))
  distinct-keys_of (Permᴰ.swap {a = a} {b = b} {b' = b'} {l = l} e f) d =
      subst (λ x. distinct (keys_of (x ∷ b' ∷ l)) ≡ true) f
        (subst (λ y. distinct (keys_of (b ∷ y ∷ l)) ≡ true) e
          (ground (arith, same_sym (key a) (key b))))
  distinct-keys_of (Permᴰ.trans p q) d = distinct-keys_of q (distinct-keys_of p d)

  -- The sort of elements with distinct keys does not depend on the order that they came in.
  pub sort_by-Perm :
      {xs ys : List A} → Permᴰ xs ys → distinct (keys_of xs) ≡ true → sort_by xs ≡ sort_by ys
  unfolding sort_by
  sort_by-Perm Permᴰ.nil d = refl
  sort_by-Perm (Permᴰ.cons e p) d = ap₂ insert_by e (sort_by-Perm p (ground arith))
  sort_by-Perm (Permᴰ.swap {a = a} {b = b} {l = l} e f) d =
      insert_by-swap a b (sort_by l) (ground arith)
      ∙ ap₂ (λ x y. insert_by x (insert_by y (sort_by l))) f e
  sort_by-Perm (Permᴰ.trans p q) d = sort_by-Perm p d ∙ sort_by-Perm q (distinct-keys_of p d)
