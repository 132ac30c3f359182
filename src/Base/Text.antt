-- ===== src/Base/Text.antt =====
-- The order and equality of Rust's `String`: by bytes, which is the order by code points.
use Prim.Native.Char.{Char, code}
use Prim.Native.String.{String, [], ◌∷◌, compare}
use Prim.Native.String.compare
use mathlib.Core.Path.{◌≡◌, refl, sym, subst}
use mathlib.Core.Logic.{◌↔◌, inl, inr}
use mathlib.Core.Bool.{Bool, true, false, ◌&&◌, ◌||◌}
use native.Mathlib.Omega.{arith}
use text.Mathlib.Text.{◌==◌ as str_eq, is_lt}
use text.Mathlib.TextEquality.{eq_iff}
use helixflow.Base.Tests.{ltb, ◌==◌, Bool-cases, Bool-ext, decided}

-- `a == b` on strings.
unfoldable pub same : String → String → Bool
same a b = str_eq a b

-- `a < b` on strings.
unfoldable pub before : String → String → Bool
before a b = is_lt (compare a b)

pub same_iff : (a b : String) → (same a b ≡ true) ↔ (a ≡ b)
unfolding same
same_iff a b = eq_iff a b

pub same_refl : (a : String) → same a a ≡ true
same_refl a = (same_iff a a).1 refl

-- On a first character the numbers decide, and on equal ones the rest.
before_cons :
    (c d : Char) (s t : String)
    → before (c ∷ s) (d ∷ t) ≡ (ltb (code c) (code d) || code c == code d && before s t)
unfolding before
before_cons c d s t = rw (compare.cons-cons c d s t) (ground arith)

before-nil : (c : Char) (s : String) → before [] (c ∷ s) ≡ true
unfolding before
before-nil c s = rw (compare.nil-cons c s)

not-before-nil : (s : String) → before s [] ≡ false
unfolding before
not-before-nil [] = refl
not-before-nil (c ∷ s) = rw (compare.cons-nil c s)

same_cons : (c d : Char) (s t : String) → same (c ∷ s) (d ∷ t) ≡ (code c == code d && same s t)
unfolding same
same_cons c d s t = rw (compare.cons-cons c d s t) (ground arith)

pub before_irrefl : (a : String) → before a a ≡ false
before_irrefl [] = not-before-nil []
before_irrefl (c ∷ s) = ground (arith, before_cons c c s s, before_irrefl s)

pub before_trans : (a b c : String) → before a b ≡ true → before b c ≡ true → before a c ≡ true
before_trans a [] c h k = ground (arith, not-before-nil a)
before_trans a (y ∷ b) [] h k = ground (arith, not-before-nil (y ∷ b))
before_trans [] (y ∷ b) (z ∷ c) h k = before-nil z c
before_trans (x ∷ a) (y ∷ b) (z ∷ c) h k =
    ground
      (arith, before_cons x y a b, before_cons y z b c, before_cons x z a c, before_trans a b c)

-- What is neither equal nor before stands behind.
pub before_total : (a b : String) → same a b ≡ false → before a b ≡ false → before b a ≡ true
before_total [] [] h k = ground (arith, same_refl [])
before_total [] (y ∷ b) h k = ground (arith, before-nil y b)
before_total (x ∷ a) [] h k = before-nil x a
before_total (x ∷ a) (y ∷ b) h k =
    ground (arith, before_cons x y a b, before_cons y x b a, same_cons x y a b, before_total a b)

pub before-same : (a b : String) → before a b ≡ true → same a b ≡ false
before-same a b h = elim (Bool-cases (same a b)) [
  | inl e ↦ cc (before_irrefl b, subst (λ x. before x b ≡ true) ((same_iff a b).0 e) h)
  | inr e ↦ e
]

pub same_sym : (a b : String) → same a b ≡ same b a
same_sym a b =
    Bool-ext _ _ (λ h. (same_iff b a).1 (sym ((same_iff a b).0 h)))
      (λ h. (same_iff a b).1 (sym ((same_iff b a).0 h)))

pub same_left : (i j k : String) → same i j ≡ true → same i k ≡ same j k
same_left i j k h = subst (λ x. same i k ≡ same x k) ((same_iff i j).0 h) refl

unfoldable pub String_discrete : Discrete String
unfolding same decided
String_discrete a b = decided (same a b) (same_iff a b)
