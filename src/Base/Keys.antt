-- ===== src/Base/Keys.antt =====
-- `BTreeSet<String>`, and the keys of a `BTreeMap<String, _>`: strings in strictly rising order.
use Prim.Native.Nat.{suc, ◌+◌, ◌≤◌}
use Prim.Native.String.{String}
use mathlib.Core.Path.{◌≡◌, refl, subst}
use mathlib.Core.Logic.{inl, inr}
use mathlib.Core.Bool.{Bool, true, false, not, ◌&&◌, ◌||◌}
use mathlib.Core.List.{List, [], ◌∷◌}
use native.Mathlib.Omega.{arith}
use helixflow.Base.Tests.{if◌then◌else◌, Bool-cases}
use helixflow.Base.Lists.{length, all}
use helixflow.Base.Text.{
  same, before, same_iff, same_refl, same_sym, before_trans, before_total, before-same, same_left,
}

abbrev pub BTreeSet : Type 0
BTreeSet = List String

-- `BTreeSet::contains`, and membership in any list of strings.
abbrev pub member : String → List String → Bool
member k [] = false
member k (j ∷ s) = same k j || member k s

-- `BTreeSet::insert`.
unfoldable pub insert : String → BTreeSet → BTreeSet
insert k [] = k ∷ []
insert k (j ∷ s) = if same k j then j ∷ s else if before k j then k ∷ j ∷ s else j ∷ insert k s

-- No string twice.
abbrev pub distinct : List String → Bool
distinct [] = true
distinct (k ∷ s) = not (member k s) && distinct s

-- The order in which the tree holds its keys.
abbrev pub sorted : List String → Bool
sorted [] = true
sorted (k ∷ s) = all (before k) s && sorted s

pub member-same : (j k : String) (s : List String) → same j k ≡ true → member j s ≡ member k s
member-same j k s h = subst (λ x. member j s ≡ member x s) ((same_iff j k).0 h) refl

pub member-insert : (j k : String) (s : BTreeSet) → member j (insert k s) ≡ (same j k || member j s)
unfolding insert
member-insert j k [] = refl
member-insert j k (i ∷ s) = elim (Bool-cases (same k i)) [
  | inl e ↦ rw (e, (same_iff k i).0 e) (ground arith)
  | inr e ↦ rw e (ground (arith, member-insert j k s))
]

-- `sort_unstable` and `dedup`: the strings in order, each once.
unfoldable pub sort_dedup : List String → BTreeSet
unfolding insert
sort_dedup [] = []
sort_dedup (k ∷ ks) = insert k (sort_dedup ks)

pub member-sort_dedup : (k : String) (ks : List String) → member k (sort_dedup ks) ≡ member k ks
unfolding sort_dedup
member-sort_dedup k [] = refl
member-sort_dedup k (j ∷ ks) =
    ground (arith, member-insert k j (sort_dedup ks), member-sort_dedup k ks)

all-insert :
    (i k : String) (s : BTreeSet)
    → before i k ≡ true
    → all (before i) s ≡ true
    → all (before i) (insert k s) ≡ true
unfolding insert
all-insert i k [] h g = ground arith
all-insert i k (j ∷ s) h g = ground (arith, all-insert i k s)

pub all-before_trans :
    (i k : String) (s : List String)
    → before i k ≡ true
    → all (before k) s ≡ true
    → all (before i) s ≡ true
all-before_trans i k [] h g = refl
all-before_trans i k (j ∷ s) h g = ground (arith, before_trans i k j, all-before_trans i k s)

pub insert-sorted : (k : String) (s : BTreeSet) → sorted s ≡ true → sorted (insert k s) ≡ true
unfolding insert
insert-sorted k [] h = refl
insert-sorted k (j ∷ s) h =
    ground (arith, insert-sorted k s, all-before_trans k j s, all-insert j k s, before_total k j)

-- What stands before every member is no member.
pub not-member_of_before :
    (k : String) (s : List String) → all (before k) s ≡ true → member k s ≡ false
not-member_of_before k [] h = refl
not-member_of_before k (j ∷ s) h = ground (arith, before-same k j, not-member_of_before k s)

pub distinct_of_sorted : (s : List String) → sorted s ≡ true → distinct s ≡ true
distinct_of_sorted [] h = refl
distinct_of_sorted (k ∷ s) h = ground (arith, not-member_of_before k s, distinct_of_sorted s)

pub length-insert :
    (k : String) (s : BTreeSet)
    → sorted s ≡ true
    → length (insert k s) ≡ length s + (if member k s then 0 else 1)
unfolding insert
length-insert k [] h = refl
length-insert k (j ∷ s) h =
    ground (arith, length-insert k s, all-before_trans k j s, not-member_of_before k s)

-- Drops one string.
drop_key : String → List String → List String
drop_key k [] = []
drop_key k (x ∷ xs) = if same k x then xs else x ∷ drop_key k xs

length-drop_key :
    (k : String) (xs : List String) → member k xs ≡ true → suc (length (drop_key k xs)) ≡ length xs
unfolding drop_key
length-drop_key k [] h = cc
length-drop_key k (x ∷ xs) h = ground (arith, length-drop_key k xs)

member-drop_key :
    (v k : String) (xs : List String)
    → same v k ≡ false
    → member v xs ≡ true
    → member v (drop_key k xs) ≡ true
unfolding drop_key
member-drop_key v k [] n h = cc
member-drop_key v k (x ∷ xs) n h =
    ground (arith, member-drop_key v k xs, same_left k x v, same_sym x v, same_sym v k)

-- A list with no string twice is at most as long as one that holds its strings.
pub length-le_of_distinct :
    (xs ys : List String)
    → distinct xs ≡ true
    → ((v : String) → member v xs ≡ true → member v ys ≡ true)
    → length xs ≤ length ys
length-le_of_distinct [] ys d h = omega arith
length-le_of_distinct (x ∷ xs) ys d h =
    let shorter =
      length-le_of_distinct xs (drop_key x ys) (ground arith)
        (λ v m. member-drop_key v x ys (ground (arith, member-same v x xs)) (h v (ground arith))) in
    omega (arith, shorter, length-drop_key x ys (h x (ground (arith, same_refl x))))
