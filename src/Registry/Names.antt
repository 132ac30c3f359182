-- ===== src/Registry/Names.antt =====
-- crates/registry/src/resolver.rs: `normalize_name`. A text is the list of its code points. Rust's
-- tables of white space and of lower case are Unicode's, and are a parameter.
use helixflow.Base.{
  ℕ, String, Bool, true, false, ◌&&◌, ◌||◌, List, [], ◌∷◌, ◌++◌, ◌==◌, ◌≡◌, ◌↔◌, refl, arith,
  if◌then◌else◌,
}
use Prim.Native.Char.{code}

abbrev pub Text : Type 0
Text = List ℕ

abbrev pub codes : String → Text
codes String.[] = []
codes (String.◌∷◌ c s) = code c ∷ codes s

-- `char::is_whitespace` and `char::to_lowercase`.
pub record CharTables : Type 0 where
  pub is_whitespace : ℕ → Bool
  pub to_lowercase : ℕ → Text

abbrev pub space : ℕ
space = b' '

-- `-`, `_`, `/` and `.` stand for a space.
abbrev pub separator : ℕ → ℕ
separator c = if c == b'-' || c == b'_' || c == b'/' || c == b'.' then space else c

unfoldable pub same_text : Text → Text → Bool
same_text [] [] = true
same_text (a ∷ s) (b ∷ t) = a == b && same_text s t
same_text _ _ = false

pub same_text_iff : (s t : Text) → (same_text s t ≡ true) ↔ (s ≡ t)
unfolding same_text
same_text_iff [] [] = (λ h. refl, λ h. refl)
same_text_iff [] (b ∷ t) = (λ h. cc, λ h. cc)
same_text_iff (a ∷ s) [] = (λ h. cc, λ h. cc)
same_text_iff (a ∷ s) (b ∷ t) =
    (λ h. ground (arith, (same_text_iff s t).0), λ h. ground (arith, (same_text_iff s t).1))

module _ (tables : CharTables) where
  open tables use {is_whitespace, to_lowercase}

  -- The loop over the characters: what is pushed, in order.
  unfoldable pub squeeze : Bool → Text → Text
  squeeze last_was_space [] = []
  squeeze last_was_space (c ∷ cs) =
      let blank = squeeze true cs in
      let letter = to_lowercase (separator c) ++ squeeze false cs in
      if is_whitespace (separator c)
      then if last_was_space then blank else space ∷ blank
      else letter

  abbrev pub push_front : ℕ → Text → Text
  push_front c [] = if is_whitespace c then [] else c ∷ []
  push_front c (d ∷ ds) = c ∷ d ∷ ds

  -- `trim_end`
  unfoldable pub trim_end : Text → Text
  trim_end [] = []
  trim_end (c ∷ cs) = push_front c (trim_end cs)

  unfoldable pub normalize_name : Text → Text
  unfolding squeeze trim_end
  normalize_name value = trim_end (squeeze true value)
