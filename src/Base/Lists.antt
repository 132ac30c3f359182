-- ===== src/Base/Lists.antt =====
-- Lists measured by native numbers, and Boolean searches through them.
use Prim.Native.Nat.{ℕ, zero, suc, ◌+◌, ◌≤◌}
use mathlib.Core.Path.{◌≡◌, refl, sym, ap, subst, ◌∙◌}
use mathlib.Core.List.{List, [], ◌∷◌, ◌++◌, Memᴰ}
use mathlib.Core.Bool.{Bool, true, false, ◌&&◌, ◌||◌}
use mathlib.Core.Option.{Option, none, some}
use native.Mathlib.Omega.{arith}
use mathlib.Core.Logic.{inl, inr}
use helixflow.Base.Tests.{if◌then◌else◌, Bool-cases}

module _ {ℓ} {A : Type ℓ} where
  abbrev pub length : List A → ℕ
  length [] = 0
  length (x ∷ xs) = suc (length xs)

  abbrev pub get_elem? : List A → ℕ → Option A
  get_elem? [] i = none
  get_elem? (x ∷ xs) zero = some x
  get_elem? (x ∷ xs) (suc i) = get_elem? xs i

  -- `Iterator::any`, `Iterator::all`, `Iterator::find` and `Vec::retain`.
  abbrev pub any : (A → Bool) → List A → Bool
  any p [] = false
  any p (x ∷ xs) = p x || any p xs

  abbrev pub all : (A → Bool) → List A → Bool
  all p [] = true
  all p (x ∷ xs) = p x && all p xs

  abbrev pub find : (A → Bool) → List A → Option A
  find p [] = none
  find p (x ∷ xs) = if p x then some x else find p xs

  abbrev pub retain : (A → Bool) → List A → List A
  retain p [] = []
  retain p (x ∷ xs) = if p x then x ∷ retain p xs else retain p xs

  abbrev pub count_if : (A → Bool) → List A → ℕ
  count_if p [] = 0
  count_if p (x ∷ xs) = (if p x then 1 else 0) + count_if p xs

  -- Each element satisfies a predicate.
  abbrev pub All {κ} : (A → Type κ) → List A → Type κ
  All P [] = Unit
  All P (x ∷ xs) = P x × All P xs

module _ {ℓ} {A : Type ℓ} where
  pub length-append : (xs ys : List A) → length (xs ++ ys) ≡ length xs + length ys
  length-append [] ys = omega arith
  length-append (x ∷ xs) ys = omega (arith, length-append xs ys)

  pub find-some : (p : A → Bool) (xs : List A) {x : A} → find p xs ≡ some x → p x ≡ true
  find-some p [] h = ground arith
  find-some p (x ∷ xs) {x = y} h = ground (arith, find-some p xs {x = y})

  pub any-find : (p : A → Bool) (xs : List A) {x : A} → find p xs ≡ some x → any p xs ≡ true
  any-find p [] h = ground arith
  any-find p (x ∷ xs) {x = y} h = ground (arith, any-find p xs {x = y})

  pub retain-length_le : (p : A → Bool) (xs : List A) → length (retain p xs) ≤ length xs
  retain-length_le p [] = omega arith
  retain-length_le p (x ∷ xs) = ground (arith, retain-length_le p xs)

  -- `retain` that drops nothing leaves the list alone.
  pub retain-eq_self : (p : A → Bool) (xs : List A) → all p xs ≡ true → retain p xs ≡ xs
  retain-eq_self p [] h = refl
  retain-eq_self p (x ∷ xs) h = ground (arith, retain-eq_self p xs)

  pub any-append : (p : A → Bool) (xs ys : List A) → any p (xs ++ ys) ≡ (any p xs || any p ys)
  any-append p [] ys = refl
  any-append p (x ∷ xs) ys = ground (arith, any-append p xs ys)

  pub retain-append :
      (p : A → Bool) (xs ys : List A) → retain p (xs ++ ys) ≡ retain p xs ++ retain p ys
  retain-append p [] ys = refl
  retain-append p (x ∷ xs) ys = ground (arith, retain-append p xs ys)

-- A weaker predicate.
pub map-All {ℓ κ μ} :
    {A : Type ℓ} {P : A → Type κ} {Q : A → Type μ} (f : (x : A) → P x → Q x) (xs : List A)
    → All P xs
    → All Q xs
map-All f [] h = tt
map-All f (x ∷ xs) h = (f x h.0, map-All f xs h.1)

module _ {ℓ} {A : Type ℓ} where
  pub find-mem : (p : A → Bool) (xs : List A) {x : A} → find p xs ≡ some x → Memᴰ x xs
  find-mem p [] h = cc
  find-mem p (y ∷ xs) {x = x} h = elim (Bool-cases (p y)) [
    | inl e ↦ Memᴰ.head (ground arith)
    | inr e ↦ Memᴰ.tail (find-mem p xs (rw e at h))
  ]

  pub retain-mem :
      (p : A → Bool) (xs : List A) {x : A} → Memᴰ x (retain p xs) → Memᴰ x xs × (p x ≡ true)
  retain-mem p [] m = elim m [ ]
  retain-mem p (y ∷ xs) {x = x} m = elim (Bool-cases (p y)) [
    | inl e ↦ from_head e (λ i. retain-mem p xs i) (rw e at m)
    | inr e ↦ let (i, q) = retain-mem p xs (rw e at m) in (Memᴰ.tail i, q)
  ]
    where
      from_head :
          p y ≡ true
          → (Memᴰ x (retain p xs) → Memᴰ x xs × (p x ≡ true))
          → Memᴰ x (y ∷ retain p xs)
          → Memᴰ x (y ∷ xs) × (p x ≡ true)
      from_head e rec (Memᴰ.head s) = (Memᴰ.head s, rw s e)
      from_head e rec (Memᴰ.tail i) = let (j, q) = rec i in (Memᴰ.tail j, q)

  pub mem-retain :
      (p : A → Bool) {x : A} {xs : List A} → Memᴰ x xs → p x ≡ true → Memᴰ x (retain p xs)
  mem-retain p {xs = []} m q = elim m [ ]
  mem-retain p {xs = y ∷ xs} (Memᴰ.head e) q = rw (sym e, q) (Memᴰ.head refl)
  mem-retain p {xs = y ∷ xs} (Memᴰ.tail i) q = elim (Bool-cases (p y)) [
    | inl k ↦ rw k (Memᴰ.tail (mem-retain p i q))
    | inr k ↦ rw k (mem-retain p i q)
  ]

-- `Iterator::filter_map`
abbrev pub cons_some {ℓ} : {B : Type ℓ} → Option B → List B → List B
cons_some none ys = ys
cons_some (some y) ys = y ∷ ys

module _ {ℓ κ} {A : Type ℓ} {B : Type κ} (f : A → Option B) where
  abbrev pub filter_map : List A → List B
  filter_map [] = []
  filter_map (x ∷ xs) = cons_some (f x) (filter_map xs)

  pub filter_map-mem :
      (xs : List A) {y : B} → Memᴰ y (filter_map xs) → (x : A) × Memᴰ x xs × (f x ≡ some y)
  filter_map-mem [] m = elim m [ ]
  filter_map-mem (x ∷ xs) {y = y} m =
      from_cons (f x) refl (λ i. let (z, j, g) = filter_map-mem xs i in (z, Memᴰ.tail j, g)) m
    where
      Found : Type (ℓ ⊔ κ)
      Found = (z : A) × Memᴰ z (x ∷ xs) × (f z ≡ some y)

      from_cons :
          (o : Option B)
          → f x ≡ o
          → (Memᴰ y (filter_map xs) → Found)
          → Memᴰ y (cons_some o (filter_map xs))
          → Found
      from_cons (some w) e rest (Memᴰ.head h) = (x, Memᴰ.head refl, e ∙ ap some (sym h))
      from_cons (some w) e rest (Memᴰ.tail i) = rest i
      from_cons none e rest i = rest i

  pub mem-filter_map :
      {x : A} {y : B} {xs : List A} → Memᴰ x xs → f x ≡ some y → Memᴰ y (filter_map xs)
  mem-filter_map {xs = []} m g = elim m [ ]
  mem-filter_map {xs = z ∷ xs} (Memᴰ.head e) g = rw (ap f (sym e) ∙ g) (Memᴰ.head refl)
  mem-filter_map {y = y} {xs = z ∷ xs} (Memᴰ.tail i) g = under (f z) (mem-filter_map i g)
    where
      under : (o : Option B) → Memᴰ y (filter_map xs) → Memᴰ y (cons_some o (filter_map xs))
      under none m = m
      under (some w) m = Memᴰ.tail m

pub All-mem {ℓ κ} : {A : Type ℓ} (P : A → Type κ) (xs : List A) {x : A} → All P xs → Memᴰ x xs → P x
All-mem P [] h m = elim m [ ]
All-mem P (y ∷ ys) h (Memᴰ.head e) = subst P (sym e) h.0
All-mem P (y ∷ ys) h (Memᴰ.tail m) = All-mem P ys h.1 m
