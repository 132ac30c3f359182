-- ===== src/Base/Phrases.antt =====
-- `format!` and `join` on strings, a string's length in bytes, and `json!` of an object.
use Prim.Native.Nat.{ℕ, ◌+◌}
use Prim.Native.Char.{code}
use Prim.Native.String.{String}
use Prim.Native.String.{◌++◌ as append}
use mathlib.Core.List.{List, [], ◌∷◌}
use helixflow.Base.Tests.{ltb, if◌then◌else◌}

-- The parts of a `format!`, one after the other.
abbrev pub concat : List String → String
concat [] = ""
concat (s ∷ ss) = append s (concat ss)

-- A name between backquotes.
abbrev pub quoted : String → String
quoted s = append "`" (append s "`")

-- `join`
abbrev pub join : String → List String → String
join separator [] = ""
join separator (s ∷ []) = s
join separator (s ∷ t ∷ ss) = append s (append separator (join separator (t ∷ ss)))

-- The bytes of a character in UTF-8, and `str::len`.
abbrev utf8_len : ℕ → ℕ
utf8_len c = if ltb c 0x80 then 1 else if ltb c 0x800 then 2 else if ltb c 0x10000 then 3 else 4

abbrev pub byte_len : String → ℕ
byte_len String.[] = 0
byte_len (String.◌∷◌ c s) = utf8_len (code c) + byte_len s
