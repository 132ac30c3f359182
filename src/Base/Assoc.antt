-- ===== src/Base/Assoc.antt =====
-- `BTreeMap<String, V>`: an association list in the order of its keys.
use Prim.Native.String.{String}
use mathlib.Core.Path.{◌≡◌, ◌∙◌, refl, sym, ap, ap₂, subst}
use mathlib.Core.Logic.{inl, inr}
use mathlib.Core.Bool.{Bool, true, false, ◌||◌}
use mathlib.Core.Option.{Option, none, some}
use mathlib.Core.List.{List, [], ◌∷◌, ◌++◌, append-nil}
use native.Mathlib.Omega.{arith}
use helixflow.Base.Tests.{if◌then◌else◌, Bool-cases, is_some}
use helixflow.Base.Lists.{all, All}
use helixflow.Base.Text.{same, before, same_iff, same_refl, same_sym, same_left}
use helixflow.Base.Keys
use helixflow.Base.Keys.{member, sorted, not-member_of_before, member-same}

abbrev pub BTreeMap {ℓ} : Type ℓ → Type ℓ
BTreeMap V = List (String × V)

module _ {ℓ} {V : Type ℓ} where
  -- `BTreeMap::get`
  unfoldable pub lookup : String → BTreeMap V → Option V
  lookup k [] = none
  lookup k ((j, v) ∷ m) = if same k j then some v else lookup k m

  -- `BTreeMap::insert`; the value that it replaces is `lookup k m`.
  unfoldable pub insert : String → V → BTreeMap V → BTreeMap V
  insert k v [] = (k, v) ∷ []
  insert k v ((j, w) ∷ m) =
      if same k j
      then (j, v) ∷ m
      else if before k j
      then (k, v) ∷ (j, w) ∷ m
      else (j, w) ∷ insert k v m

  -- `BTreeMap::remove`
  unfoldable pub remove : String → BTreeMap V → BTreeMap V
  remove k [] = []
  remove k ((j, v) ∷ m) = if same k j then m else (j, v) ∷ remove k m

  -- A write through `BTreeMap::get_mut`.
  unfoldable pub adjust : String → (V → V) → BTreeMap V → BTreeMap V
  adjust k f [] = []
  adjust k f ((j, v) ∷ m) = if same k j then (j, f v) ∷ m else (j, v) ∷ adjust k f m

  abbrev pub keys : BTreeMap V → List String
  keys [] = []
  keys ((k, v) ∷ m) = k ∷ keys m

  -- `BTreeMap::contains_key`
  abbrev pub contains_key : String → BTreeMap V → Bool
  contains_key k m = is_some (lookup k m)

  pub is_some-lookup : (k : String) (m : BTreeMap V) → is_some (lookup k m) ≡ member k (keys m)
  unfolding lookup
  is_some-lookup k [] = refl
  is_some-lookup k ((j, v) ∷ m) = ground (arith, is_some-lookup k m)

  pub none_of_not-member :
      (k : String) (m : BTreeMap V) → member k (keys m) ≡ false → lookup k m ≡ none
  none_of_not-member k m h = ground (arith, is_some-lookup k m)

  pub some_of_member :
      (k : String) (m : BTreeMap V) → member k (keys m) ≡ true → (v : V) × (lookup k m ≡ some v)
  some_of_member k m h = ground (arith, is_some-lookup k m)

  pub lookup-same : (i j : String) (m : BTreeMap V) → same i j ≡ true → lookup i m ≡ lookup j m
  lookup-same i j m h = ap (λ x. lookup x m) ((same_iff i j).0 h)

  pub lookup-insert :
      (j k : String) (v : V) (m : BTreeMap V)
      → lookup j (insert k v m) ≡ (if same j k then some v else lookup j m)
  unfolding lookup insert
  lookup-insert j k v [] = refl
  lookup-insert j k v ((i, w) ∷ m) = elim (Bool-cases (same k i)) [
    | inl e ↦ rw (e, (same_iff k i).0 e) (ground arith)
    | inr e ↦ elim (Bool-cases (before k i)) [
      | inl b ↦ rw (e, b)
      | inr b ↦ rw (e, b) (ground (arith, lookup-insert j k v m, same_left j i k, same_sym i k))
    ]
  ]

  pub keys-insert :
      (k : String) (v : V) (m : BTreeMap V) → keys (insert k v m) ≡ Keys.insert k (keys m)
  unfolding insert Keys.insert
  keys-insert k v [] = refl
  keys-insert k v ((j, w) ∷ m) = ground (arith, keys-insert k v m)

  pub keys-adjust : (k : String) (f : V → V) (m : BTreeMap V) → keys (adjust k f m) ≡ keys m
  unfolding adjust
  keys-adjust k f [] = refl
  keys-adjust k f ((j, w) ∷ m) = ground (arith, keys-adjust k f m)

  pub lookup-adjust_ne :
      (j k : String) (f : V → V) (m : BTreeMap V)
      → same j k ≡ false
      → lookup j (adjust k f m) ≡ lookup j m
  unfolding lookup adjust
  lookup-adjust_ne j k f [] h = refl
  lookup-adjust_ne j k f ((i, w) ∷ m) h = elim (Bool-cases (same k i)) [
    | inl e ↦ rw (e, sym ((same_iff k i).0 e), h)
    | inr e ↦ rw e (ground (arith, lookup-adjust_ne j k f m h))
  ]

  pub lookup-adjust_self :
      (k : String) (f : V → V) (m : BTreeMap V) {v : V}
      → lookup k m ≡ some v
      → lookup k (adjust k f m) ≡ some (f v)
  unfolding lookup adjust
  lookup-adjust_self k f [] h = cc
  lookup-adjust_self k f ((i, w) ∷ m) {v = v} h = elim (Bool-cases (same k i)) [
    | inl e ↦ rw (e, lookup, e) (ground arith)
    | inr e ↦ rw (e, lookup, e) (lookup-adjust_self k f m (rw e at h))
  ]

  pub lookup-remove_ne :
      (j k : String) (m : BTreeMap V) → same j k ≡ false → lookup j (remove k m) ≡ lookup j m
  unfolding lookup remove
  lookup-remove_ne j k [] h = refl
  lookup-remove_ne j k ((i, w) ∷ m) h = elim (Bool-cases (same k i)) [
    | inl e ↦ rw (e, sym ((same_iff k i).0 e), h)
    | inr e ↦ rw e (ground (arith, lookup-remove_ne j k m h))
  ]

  all-keys-remove :
      (p : String → Bool) (k : String) (m : BTreeMap V)
      → all p (keys m) ≡ true
      → all p (keys (remove k m)) ≡ true
  unfolding remove
  all-keys-remove p k [] h = refl
  all-keys-remove p k ((j, w) ∷ m) h = ground (arith, all-keys-remove p k m)

  pub remove-sorted :
      (k : String) (m : BTreeMap V) → sorted (keys m) ≡ true → sorted (keys (remove k m)) ≡ true
  unfolding remove
  remove-sorted k [] h = refl
  remove-sorted k ((j, w) ∷ m) h = ground (arith, all-keys-remove (before j) k m, remove-sorted k m)

  pub lookup-remove_self :
      (k : String) (m : BTreeMap V) → sorted (keys m) ≡ true → lookup k (remove k m) ≡ none
  unfolding lookup remove
  lookup-remove_self k [] h = refl
  lookup-remove_self k ((j, w) ∷ m) h = elim (Bool-cases (same k j)) [
    | inl e ↦
        rw (e, (same_iff k j).0 e)
          (none_of_not-member j m (ground (arith, not-member_of_before j (keys m))))
    | inr e ↦ rw e (ground (arith, lookup-remove_self k m))
  ]

  -- What holds of each entry holds of what a search finds, and conversely in a sorted map.
  pub lookup_of_All {κ} :
      (P : String × V → Type κ) (k : String) (m : BTreeMap V) {v : V}
      → All P m
      → lookup k m ≡ some v
      → P (k, v)
  unfolding lookup
  lookup_of_All P k [] h e = cc
  lookup_of_All P k ((j, w) ∷ m) {v = v} h e = elim (Bool-cases (same k j)) [
    | inl d ↦ subst P (ap₂ (λ a b. (a, b)) (sym ((same_iff k j).0 d)) (ground (arith, d))) h.0
    | inr d ↦ lookup_of_All P k m h.1 (rw d at e)
  ]

  pub All-of_lookup {κ} :
      (P : String × V → Type κ) (m : BTreeMap V)
      → sorted (keys m) ≡ true
      → ((k : String) (v : V) → lookup k m ≡ some v → P (k, v))
      → All P m
  unfolding lookup
  All-of_lookup P [] s h = tt
  All-of_lookup P ((j, w) ∷ m) s h = (
    h j w (rw (same_refl j)),
    All-of_lookup P m (ground arith) λ k v e. h k v (elim (Bool-cases (same k j)) [
      | inl d ↦
          ground
            (arith, not-member_of_before j (keys m), is_some-lookup k m, member-same k j (keys m))
      | inr d ↦ rw d e
    ]),
  )

  pub insert-keys-sorted :
      (k : String) (v : V) (m : BTreeMap V)
      → sorted (keys m) ≡ true
      → sorted (keys (insert k v m)) ≡ true
  insert-keys-sorted k v m h = rw (keys-insert k v m) (Keys.insert-sorted k (keys m) h)

  pub adjust-keys-sorted :
      (k : String) (f : V → V) (m : BTreeMap V)
      → sorted (keys m) ≡ true
      → sorted (keys (adjust k f m)) ≡ true
  adjust-keys-sorted k f m h = rw (keys-adjust k f m) h

-- `entry(k).or_default().push(v)`
module _ {ℓ} {V : Type ℓ} where
  abbrev pub items : Option (List V) → List V
  items none = []
  items (some xs) = xs

  unfoldable pub push : String → V → BTreeMap (List V) → BTreeMap (List V)
  unfolding lookup insert
  push k v m = insert k (items (lookup k m) ++ v ∷ []) m

  pub lookup-push :
      (j k : String) (v : V) (m : BTreeMap (List V))
      → items (lookup j (push k v m)) ≡ items (lookup j m) ++ (if same j k then v ∷ [] else [])
  unfolding push
  lookup-push j k v m = elim (Bool-cases (same j k)) [
    | inl e ↦ rw (lookup-insert j k (items (lookup k m) ++ v ∷ []) m, e, lookup-same j k m e)
    | inr e ↦
        rw (lookup-insert j k (items (lookup k m) ++ v ∷ []) m, e, append-nil (items (lookup j m)))
  ]

module _ {ℓ} {V : Type ℓ} where
  -- Taking away what was just put under a new key.
  pub remove-insert :
      (k : String) (v : V) (m : BTreeMap V) → contains_key k m ≡ false → remove k (insert k v m) ≡ m
  unfolding remove insert lookup
  remove-insert k v [] h = rw (same_refl k)
  remove-insert k v ((j, w) ∷ m) h = elim (Bool-cases (same k j)) [
    | inl e ↦ ground arith
    | inr e ↦ elim (Bool-cases (before k j)) [
      | inl b ↦ rw (e, b, same_refl k)
      | inr b ↦ rw (e, b, e) (ap (λ r. (j, w) ∷ r) (remove-insert k v m (ground arith)))
    ]
  ]

  pub member-keys-insert :
      (j k : String) (v : V) (m : BTreeMap V)
      → member j (keys (insert k v m)) ≡ (same j k || member j (keys m))
  member-keys-insert j k v m = rw (keys-insert k v m) (Keys.member-insert j k (keys m))

  pub member-keys-remove :
      (j k : String) (m : BTreeMap V)
      → same j k ≡ false
      → member j (keys (remove k m)) ≡ member j (keys m)
  member-keys-remove j k m h =
      sym (is_some-lookup j (remove k m))
      ∙ ap is_some (lookup-remove_ne j k m h)
      ∙ is_some-lookup j m
