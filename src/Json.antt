-- ===== src/Json.antt =====
-- JSON values as `serde_json` holds them, with what the code asks of them: `as_object`, `as_str`,
-- `as_i64`, `as_f64`, `get`, `is_null` and `==`. `serde_json` is built without `preserve_order`,
-- so an object is a `BTreeMap`, and without `arbitrary_precision`, so a number is a `u64`, a
-- negative `i64` or a finite `f64`.
use helixflow.Base.{
  ℕ, zero, suc, ◌+◌, ◌-◌, ◌*◌, ◌^◌, ◌/◌, ◌%◌, String, Bool, true, false, ◌&&◌, ◌||◌, Option, none,
  some, List, [], ◌∷◌, ◌≡◌, refl, ap, ◌↔◌, holds, holds_iff, ltb, ◌==◌, if◌then◌else◌,
  String_discrete,
}
use helixflow.Base.Assoc.{BTreeMap}
use helixflow.Base.Assoc
use native.Mathlib.Decide.{ℕ_discrete}

-- `negsuc n` is -(n + 1).
pub data ℤ : Type 0 where
  pos : ℕ → ℤ
  negsuc : ℕ → ℤ

abbrev pub ltb_ℤ : ℤ → ℤ → Bool
ltb_ℤ (pos m) (pos n) = ltb m n
ltb_ℤ (pos m) (negsuc n) = false
ltb_ℤ (negsuc m) (pos n) = true
ltb_ℤ (negsuc m) (negsuc n) = ltb n m

abbrev pub eqb_ℤ : ℤ → ℤ → Bool
eqb_ℤ (pos m) (pos n) = m == n
eqb_ℤ (negsuc m) (negsuc n) = m == n
eqb_ℤ _ _ = false

-- An `f64` (or an `f32`, all of whose values are among them). `finite k` is k · 2^-1074, and every
-- finite double is of that form. The two zeros, which compare equal, are one value.
pub data F64 : Type 0 where
  nan : F64
  infinite : (negative : Bool) → F64
  finite : ℤ → F64

unfoldable pub is_finite : F64 → Bool
is_finite (finite k) = true
is_finite _ = false

-- `a < b`, false where an operand is not a number.
unfoldable pub ltb_F64 : F64 → F64 → Bool
ltb_F64 (finite a) (finite b) = ltb_ℤ a b
ltb_F64 (finite a) (infinite false) = true
ltb_F64 (infinite true) (finite b) = true
ltb_F64 (infinite true) (infinite false) = true
ltb_F64 _ _ = false

-- `a <= b`, likewise.
unfoldable pub leb_F64 : F64 → F64 → Bool
leb_F64 (finite a) (finite b) = ltb_ℤ a b || eqb_ℤ a b
leb_F64 (infinite true) (finite b) = true
leb_F64 (infinite true) (infinite _) = true
leb_F64 (finite a) (infinite false) = true
leb_F64 (infinite false) (infinite false) = true
leb_F64 _ _ = false

-- How often `n` is halved until it has at most `width` bits.
excess_bits : ℕ → ℕ → ℕ → ℕ
excess_bits width zero n = 0
excess_bits width (suc fuel) n =
    let rest = suc (excess_bits width fuel (n / 2)) in if ltb n (2 ^ width) then 0 else rest

-- `n` to `width` significant bits, ties to even; the fuel bounds the bits that are dropped.
unfoldable pub round_bits : ℕ → ℕ → ℕ → ℕ
unfolding excess_bits
round_bits width fuel n =
    let s = excess_bits width fuel n in
    let unit = 2 ^ s in
    let q = n / unit in
    let r = 2 * (n % unit) in
    if ltb unit r || (r == unit && q % 2 == 1) then (q + 1) * unit else q * unit

-- `n as f64` for a 64-bit `n`.
round_f64 : ℕ → ℕ
unfolding round_bits
round_f64 n = round_bits 53 11 n

-- `n as f64`; for a small `n` it is `n` itself.
unfoldable pub f64_of : ℤ → F64
unfolding round_f64
f64_of (pos n) = finite (pos (round_f64 n * 2 ^ 1074))
f64_of (negsuc n) = finite (negsuc (round_f64 (suc n) * 2 ^ 1074 - 1))

-- `serde_json::Number`. `neg_int n` is -(n + 1).
pub data Number : Type 0 where
  pos_int : ℕ → Number
  neg_int : ℕ → Number
  float : F64 → Number

mutual
  pub data Value : Type 0 where
    null : Value
    boolean : Bool → Value
    number : Number → Value
    string : String → Value
    array : Items → Value
    object : Fields → Value

  pub data Items : Type 0 where
    nil : Items
    cons : Value → Items → Items

  pub data Fields : Type 0 where
    end : Fields
    field : String → Value → Fields → Fields

-- An object's map, and back.
unfoldable pub to_map : Fields → BTreeMap Value
to_map end = []
to_map (field k v fs) = (k, v) ∷ to_map fs

unfoldable pub of_map : BTreeMap Value → Fields
of_map [] = end
of_map ((k, v) ∷ m) = field k v (of_map m)

pub to_map-of_map : (m : BTreeMap Value) → to_map (of_map m) ≡ m
unfolding to_map of_map
to_map-of_map [] = refl
to_map-of_map ((k, v) ∷ m) = ap (λ r. (k, v) ∷ r) (to_map-of_map m)

unfoldable pub as_object : Value → Option (BTreeMap Value)
unfolding to_map
as_object (object fs) = some (to_map fs)
as_object _ = none

unfoldable pub as_str : Value → Option String
as_str (string s) = some s
as_str _ = none

abbrev pub insert_all : List (String × Value) → BTreeMap Value → BTreeMap Value
insert_all [] m = m
insert_all ((k, v) ∷ fields) m = insert_all fields (Assoc.insert k v m)

-- `json!` of an object, from its fields.
unfoldable pub json_object : List (String × Value) → Value
unfolding Assoc.insert of_map
json_object fields = object (of_map (insert_all fields []))

-- `Value::get` with a name: a field of an object, and nothing else.
unfoldable pub get : String → Value → Option Value
unfolding Assoc.lookup to_map
get k (object fs) = Assoc.lookup k (to_map fs)
get k _ = none

unfoldable pub is_null : Value → Bool
is_null null = true
is_null _ = false

unfoldable pub is_string : Value → Bool
is_string (string s) = true
is_string _ = false

unfoldable pub is_boolean : Value → Bool
is_boolean (boolean b) = true
is_boolean _ = false

unfoldable pub as_i64 : Value → Option ℤ
as_i64 (number (pos_int n)) = if ltb n (2 ^ 63) then some (pos n) else none
as_i64 (number (neg_int n)) = some (negsuc n)
as_i64 _ = none

unfoldable pub as_f64 : Value → Option F64
unfolding f64_of
as_f64 (number (pos_int n)) = some (f64_of (pos n))
as_f64 (number (neg_int n)) = some (f64_of (negsuc n))
as_f64 (number (float x)) = some x
as_f64 _ = none

unfoldable pub Value-discrete : Discrete Value
unfolding String_discrete ℕ_discrete
Value-discrete = hlevel (ℕ_discrete, String_discrete)

-- `==` of values, and of options of them.
unfoldable pub same_value : Value → Value → Bool
unfolding Value-discrete
same_value a b = holds (Value-discrete a b)

pub same_value_iff : (a b : Value) → (same_value a b ≡ true) ↔ (a ≡ b)
unfolding same_value
same_value_iff a b = holds_iff (Value-discrete a b)

same_value_runs :
    same_value
      (object (field "a" (number (pos_int 3)) end))
      (object (field "a" (number (pos_int 3)) end))
    ≡ true
unfolding same_value
same_value_runs = refl
