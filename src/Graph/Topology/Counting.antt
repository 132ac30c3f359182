-- ===== src/Graph/Topology/Counting.antt =====
-- Counting the edges into a node: vocabulary and lemmas for `topological_order` of
-- crates/graph/src/lib.rs.
use helixflow.Base.{
  ℕ, ◌+◌, String, Bool, true, false, not, ◌&&◌, ◌||◌, List, [], ◌∷◌, ◌++◌, ◌≡◌, refl, arith,
  if◌then◌else◌, ◌==◌, same, same_sym, same_refl,
}
use helixflow.Base.Keys.{member, distinct, member-same}
use helixflow.Graph.Types.{GraphEdge}

-- The edges into `v` from nodes outside `done`.
unfoldable pub pending : List GraphEdge → List String → String → ℕ
pending [] done v = 0
pending (e ∷ es) done v =
    (if same v e.to.0 && not (member e.from.0 done) then 1 else 0) + pending es done v

-- The targets of the edges from `u`.
unfoldable pub targets : List GraphEdge → String → List String
targets [] u = []
targets (e ∷ es) u = (if same u e.from.0 then e.to.0 ∷ [] else []) ++ targets es u

-- How often `v` occurs.
unfoldable pub occurrences : String → List String → ℕ
occurrences v [] = 0
occurrences v (x ∷ xs) = (if same v x then 1 else 0) + occurrences v xs

-- `u` occurs in the list, and `v` somewhere behind it and not before.
unfoldable pub precedes : String → String → List String → Bool
precedes u v [] = false
precedes u v (x ∷ xs) =
    if same u x then member v xs else if same v x then false else precedes u v xs

pub occurrences-append :
    (v : String) (xs ys : List String)
    → occurrences v (xs ++ ys) ≡ occurrences v xs + occurrences v ys
unfolding occurrences
occurrences-append v [] ys = omega arith
occurrences-append v (x ∷ xs) ys = omega (arith, occurrences-append v xs ys)

pub member-append :
    (v : String) (xs ys : List String) → member v (xs ++ ys) ≡ (member v xs || member v ys)
member-append v [] ys = refl
member-append v (x ∷ xs) ys = ground (arith, member-append v xs ys)

pub member-occurrences : (v : String) (xs : List String) → member v xs ≡ not (occurrences v xs == 0)
unfolding occurrences
member-occurrences v [] = refl
member-occurrences v (x ∷ xs) = ground (arith, member-occurrences v xs)

-- Ordering one more node takes its edges off the count.
pub pending-snoc :
    (es : List GraphEdge) (done : List String) (u v : String)
    → member u done ≡ false
    → pending es done v ≡ pending es (done ++ u ∷ []) v + occurrences v (targets es u)
unfolding pending targets occurrences
pending-snoc [] done u v h = omega arith
pending-snoc (e ∷ es) done u v h = ground (
  arith,
  pending-snoc es done u v h,
  member-append e.from.0 done (u ∷ []),
  same_sym u e.from.0,
  member-same e.from.0 u done,
  occurrences-append v (if same u e.from.0 then e.to.0 ∷ [] else []) (targets es u),
)

pub distinct-snoc :
    (xs : List String) (u : String)
    → distinct xs ≡ true
    → member u xs ≡ false
    → distinct (xs ++ u ∷ []) ≡ true
distinct-snoc [] u d h = refl
distinct-snoc (x ∷ xs) u d h =
    ground (arith, distinct-snoc xs u, member-append x xs (u ∷ []), same_sym x u)

pub precedes-snoc :
    (u v w : String) (xs : List String)
    → precedes u v xs ≡ true
    → precedes u v (xs ++ w ∷ []) ≡ true
unfolding precedes
precedes-snoc u v w [] h = cc
precedes-snoc u v w (x ∷ xs) h = ground (arith, precedes-snoc u v w xs, member-append v xs (w ∷ []))

pub precedes_last :
    (u v : String) (xs : List String)
    → member u xs ≡ true
    → member v xs ≡ false
    → precedes u v (xs ++ v ∷ []) ≡ true
unfolding precedes
precedes_last u v [] m n = cc
precedes_last u v (x ∷ xs) m n =
    ground (arith, precedes_last u v xs, member-append v xs (v ∷ []), same_refl v)
