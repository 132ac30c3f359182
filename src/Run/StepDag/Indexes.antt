-- ===== src/Run/StepDag/Indexes.antt =====
-- Sets of positions, `BTreeSet<usize>`, and vectors of them, for crates/run/src/step_dag.rs.
use helixflow.Base.{
  ℕ, zero, suc, ◌<◌, Bool, false, ◌&&◌, ◌||◌, List, [], ◌∷◌, ◌≡◌, refl, ap, arith, ltb, ◌==◌,
  if◌then◌else◌, length,
}

abbrev pub IndexSet : Type 0
IndexSet = List ℕ

-- `BTreeSet::insert`
unfoldable pub insert_index : ℕ → IndexSet → IndexSet
insert_index i [] = i ∷ []
insert_index i (j ∷ s) =
    if i == j then j ∷ s else if ltb i j then i ∷ j ∷ s else j ∷ insert_index i s

-- `v[i] = f(v[i])`, for a position of the vector.
unfoldable pub update : {A : Type 0} → ℕ → (A → A) → List A → List A
update i f [] = []
update zero f (x ∷ xs) = f x ∷ xs
update (suc i) f (x ∷ xs) = x ∷ update i f xs

abbrev pub has_index : ℕ → IndexSet → Bool
has_index i [] = false
has_index i (j ∷ s) = i == j || has_index i s

-- Whether `i` is in the set at position `j`.
abbrev pub is_linked : List IndexSet → ℕ → ℕ → Bool
is_linked [] j i = false
is_linked (s ∷ ss) zero i = has_index i s
is_linked (s ∷ ss) (suc j) i = is_linked ss j i

pub has_index-insert_index :
    (k i : ℕ) (s : IndexSet) → has_index k (insert_index i s) ≡ (k == i || has_index k s)
unfolding insert_index
has_index-insert_index k i [] = refl
has_index-insert_index k i (j ∷ s) = ground (arith, has_index-insert_index k i s)

pub length-update :
    {A : Type 0} (i : ℕ) (f : A → A) (xs : List A) → length (update i f xs) ≡ length xs
unfolding update
length-update i f [] = refl
length-update zero f (x ∷ xs) = refl
length-update (suc i) f (x ∷ xs) = ap suc (length-update i f xs)

pub is_linked-update :
    (j i k v : ℕ) (ss : List IndexSet)
    → j < length ss
    → is_linked (update j (insert_index v) ss) k i ≡ ((k == j && i == v) || is_linked ss k i)
unfolding update
is_linked-update j i k v [] h = ground arith
is_linked-update zero i zero v (s ∷ ss) h = has_index-insert_index i v s
is_linked-update zero i (suc k) v (s ∷ ss) h = ground arith
is_linked-update (suc j) i zero v (s ∷ ss) h = ground arith
is_linked-update (suc j) i (suc k) v (s ∷ ss) h =
    ground (arith, is_linked-update j i k v ss (omega arith))
