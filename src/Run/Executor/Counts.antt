-- ===== src/Run/Executor/Counts.antt =====
-- The counts and flags of the loop of crates/run/src/executor.rs.
use helixflow.Base.{
  ℕ, zero, suc, ◌+◌, ◌-◌, ◌<◌, ◌≤◌, Bool, true, false, not, ◌&&◌, ◌||◌, List, [], ◌∷◌, ◌++◌, ◌≡◌,
  refl, sym, ap, ◌∙◌, arith, ltb, ◌==◌, if◌then◌else◌, length, get_elem?, Bool-cases, inl, inr,
}
use helixflow.Run.Executor.{RunState, flag, set_flag, lower, lower_all, release, leave}
use helixflow.Run.StepDag.Indexes.{update, has_index, length-update}
use helixflow.Run.StepDag.Links.{is_at}

-- No position stands twice in a list.
abbrev pub once : List ℕ → Bool
once [] = true
once (i ∷ is) = not (has_index i is) && once is

abbrev pub count_at : List ℕ → ℕ → ℕ
count_at [] i = 0
count_at (c ∷ cs) zero = c
count_at (c ∷ cs) (suc i) = count_at cs i

-- How many positions of a set are not marked.
abbrev pub unmarked : List Bool → List ℕ → ℕ
unmarked marks [] = 0
unmarked marks (j ∷ js) = (if flag marks j then 0 else 1) + unmarked marks js

-- How many marks are not set.
abbrev pub unset : List Bool → ℕ
unset [] = 0
unset (b ∷ bs) = (if b then 0 else 1) + unset bs

pub flag-set_flag :
    (k i : ℕ) (bs : List Bool) → k < length bs → flag (set_flag k bs) i ≡ (i == k || flag bs i)
unfolding update
flag-set_flag k i [] h = ground arith
flag-set_flag zero zero (b ∷ bs) h = refl
flag-set_flag zero (suc i) (b ∷ bs) h = ground arith
flag-set_flag (suc k) zero (b ∷ bs) h = ground arith
flag-set_flag (suc k) (suc i) (b ∷ bs) h = ground (arith, flag-set_flag k i bs (omega arith))

pub flag-bound : (i : ℕ) (bs : List Bool) → flag bs i ≡ true → i < length bs
flag-bound i [] h = ground arith
flag-bound zero (b ∷ bs) h = omega arith
flag-bound (suc i) (b ∷ bs) h = omega (arith, flag-bound i bs h)

pub unset-set_flag :
    (k : ℕ) (bs : List Bool)
    → k < length bs
    → flag bs k ≡ false
    → suc (unset (set_flag k bs)) ≡ unset bs
unfolding update
unset-set_flag k [] h f = ground arith
unset-set_flag zero (b ∷ bs) h f = ground arith
unset-set_flag (suc k) (b ∷ bs) h f = ground (arith, unset-set_flag k bs (omega arith) f)

pub same_position : (a b : ℕ) → (a == b) ≡ true → a ≡ b
same_position a b h = ground arith

-- A mark lowers the number of those that are missing by one, where the position stands once.
pub unmarked-set_flag :
    (k : ℕ) (marks : List Bool) (js : List ℕ)
    → k < length marks
    → flag marks k ≡ false
    → once js ≡ true
    → unmarked marks js ≡ (if has_index k js then 1 else 0) + unmarked (set_flag k marks) js
unmarked-set_flag k marks [] h f o = refl
unmarked-set_flag k marks (j ∷ js) h f o = elim (Bool-cases (j == k)) [
  | inl here ↦
      let j_is_k = same_position j k here in
      let rest = unmarked-set_flag k marks js h f (ground arith) in
      let unmarked_j : flag marks j ≡ false = ap (flag marks) j_is_k ∙ f in
      let absent : has_index k js ≡ false = ap (λ x. has_index x js) (sym j_is_k) ∙ ground arith in
      ground (arith, flag-set_flag k j marks h, rest, absent, here, unmarked_j)
  | inr other ↦
      let rest = unmarked-set_flag k marks js h f (ground arith) in
      ground (arith, flag-set_flag k j marks h, rest, other)
]

pub count_at-lower :
    (k i : ℕ) (cs : List ℕ)
    → count_at (lower k cs) i ≡ (if i == k then count_at cs i - 1 else count_at cs i)
unfolding update
count_at-lower k i [] = ground arith
count_at-lower zero zero (c ∷ cs) = refl
count_at-lower zero (suc i) (c ∷ cs) = ground arith
count_at-lower (suc k) zero (c ∷ cs) = ground arith
count_at-lower (suc k) (suc i) (c ∷ cs) = ground (arith, count_at-lower k i cs)

pub count_at-lower_all :
    (ks : List ℕ) (i : ℕ) (cs : List ℕ)
    → once ks ≡ true
    → count_at (lower_all ks cs) i ≡ (if has_index i ks then count_at cs i - 1 else count_at cs i)
unfolding lower_all
count_at-lower_all [] i cs o = refl
count_at-lower_all (k ∷ ks) i cs o = elim (Bool-cases (i == k)) [
  | inl here ↦
      let i_is_k = same_position i k here in
      let absent : has_index i ks ≡ false = ap (λ x. has_index x ks) i_is_k ∙ ground arith in
      ground (
        arith,
        count_at-lower_all ks i (lower k cs) (ground arith),
        count_at-lower k i cs,
        here,
        absent,
      )
  | inr other ↦
      ground
        (arith, count_at-lower_all ks i (lower k cs) (ground arith), count_at-lower k i cs, other)
]

pub length-lower_all : (ks cs : List ℕ) → length (lower_all ks cs) ≡ length cs
unfolding lower_all
length-lower_all [] cs = refl
length-lower_all (k ∷ ks) cs =
    length-lower_all ks (lower k cs) ∙ length-update k (λ count. count - 1) cs

-- A count of zero is one of the vector, or lies behind it.
pub is_at-count_at :
    (cs : List ℕ) (i : ℕ) → is_at (get_elem? cs i) 0 ≡ (ltb i (length cs) && count_at cs i == 0)
is_at-count_at [] i = ground arith
is_at-count_at (c ∷ cs) zero = ground arith
is_at-count_at (c ∷ cs) (suc i) = ground (arith, is_at-count_at cs i)

pub has_index-append :
    (i : ℕ) (xs ys : List ℕ) → has_index i (xs ++ ys) ≡ (has_index i xs || has_index i ys)
has_index-append i [] ys = refl
has_index-append i (x ∷ xs) ys = ground (arith, has_index-append i xs ys)

pub once-append :
    (k : ℕ) (xs : List ℕ) → once xs ≡ true → has_index k xs ≡ false → once (xs ++ k ∷ []) ≡ true
once-append k [] o a = refl
once-append k (x ∷ xs) o a =
    ground (arith, once-append k xs (ground arith) (ground arith), has_index-append x xs (k ∷ []))

pub has_index-leave :
    (k i : ℕ) (xs : List ℕ) → has_index i (leave k xs) ≡ (has_index i xs && not (i == k))
has_index-leave k i [] = refl
has_index-leave k i (x ∷ xs) = ground (arith, has_index-leave k i xs)

pub once-leave : (k : ℕ) (xs : List ℕ) → once xs ≡ true → once (leave k xs) ≡ true
once-leave k [] o = refl
once-leave k (x ∷ xs) o = ground (arith, once-leave k xs, has_index-leave k x xs)

leave-length_le : (k : ℕ) (xs : List ℕ) → length (leave k xs) ≤ length xs
leave-length_le k [] = omega arith
leave-length_le k (x ∷ xs) = ground (arith, leave-length_le k xs)

pub leave-length_lt :
    (k : ℕ) (xs : List ℕ) → has_index k xs ≡ true → length (leave k xs) < length xs
leave-length_lt k [] h = ground arith
leave-length_lt k (x ∷ xs) h = ground (arith, leave-length_lt k xs, leave-length_le k xs)

-- `release` lowers the counts, collects what is ready, and leaves the rest alone.
pub release-frame :
    (ks : List ℕ) (s : RunState)
    → release ks s ≡ record s { remaining = lower_all ks s.remaining; ready = (release ks s).ready }
unfolding release lower_all
release-frame [] s = refl
release-frame (k ∷ ks) s = release-frame ks _

-- A position that is not lowered is as it was.
is_at-lower_all :
    (ks cs : List ℕ) (i : ℕ)
    → once ks ≡ true
    → has_index i ks ≡ false
    → is_at (get_elem? (lower_all ks cs) i) 0 ≡ is_at (get_elem? cs i) 0
is_at-lower_all ks cs i o a = ground (
  arith,
  is_at-count_at (lower_all ks cs) i,
  is_at-count_at cs i,
  count_at-lower_all ks i cs o,
  length-lower_all ks cs,
  a,
)

collected :
    (c : Bool) (i k : ℕ) (xs : List ℕ)
    → has_index i (if c then xs ++ k ∷ [] else xs) ≡ (has_index i xs || i == k && c)
collected true i k xs = has_index-append i xs (k ∷ []) ∙ ground arith
collected false i k xs = ground arith

pub has_index-release :
    (ks : List ℕ) (s : RunState) (i : ℕ)
    → once ks ≡ true
    → has_index i (release ks s).ready
      ≡ (has_index i s.ready || has_index i ks && is_at (get_elem? (lower_all ks s.remaining) i) 0)
unfolding release lower_all
has_index-release [] s i o = ground arith
has_index-release (k ∷ ks) s i o =
    let lowered = lower k s.remaining in
    let first = collected (is_at (get_elem? lowered k) 0) i k s.ready in
    elim (Bool-cases (i == k)) [
      | inl here ↦
          let i_is_k = same_position i k here in
          let absent : has_index i ks ≡ false = ap (λ x. has_index x ks) i_is_k ∙ ground arith in
          let same_count = is_at-lower_all ks lowered i (ground arith) absent in
          let at_k = ap (λ x. is_at (get_elem? lowered x) 0) i_is_k in
          has_index-release ks _ i (ground arith)
          ∙ ground (arith, first, here, absent, same_count, at_k)
      | inr other ↦ has_index-release ks _ i (ground arith) ∙ ground (arith, first, other)
    ]
