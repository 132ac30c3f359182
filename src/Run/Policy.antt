-- ===== src/Run/Policy.antt =====
-- crates/run/src/run_policy.rs: whether a run waits for a confirmation, and the limit on automatic
-- retries. What the environment holds is an argument.
use helixflow.Base.{
  ℕ, ◌+◌, ◌-◌, ◌*◌, ◌<◌, ◌≤◌, String, Bool, true, false, not, ◌&&◌, ◌||◌, Option, none, some, [],
  ◌∷◌, ok, ok_or, ◌>>=◌, ◌>>◌, ◌≡◌, ◌≢◌, ◌⊎◌, ◌↔◌, inl, inr, refl, ap, ◌∙◌, arith, ltb, leb, ◌==◌,
  if◌then◌else◌, same, same_iff, all, ensure, ensure-eq-ok, >>=-eq-ok, >>-eq-ok, ok_or-eq-ok,
  ok-injective, Bool-cases,
}
use helixflow.Json.{ℤ, F64, is_finite, ltb_F64}
use helixflow.Registry.Names.{Text, codes}
use helixflow.Run.Errors.{RunError, RunResult, invalid_configuration}

-- crates/run/src/cost_types.rs
pub record CostSummary : Type 0 where
  pub amount : F64
  pub currency : String
  pub estimated : Bool
  pub unknown : Bool

abbrev pub zero_amount : F64
zero_amount = F64.finite (ℤ.pos 0)

-- `threshold` is `run_confirmation_threshold_usd()`.
unfoldable pub run_requires_confirmation : RunResult F64 → CostSummary → RunResult Bool
unfolding is_finite ltb_F64 same
run_requires_confirmation threshold cost =
    let over = threshold >>= λ limit. ok (ltb_F64 limit cost.amount) in
    if cost.unknown || not (is_finite cost.amount) || ltb_F64 cost.amount zero_amount
    then ok true
    else if not (same cost.currency "USD")
    then ok (ltb_F64 zero_amount cost.amount)
    else over

abbrev pub max_automatic_run_retries : ℕ
max_automatic_run_retries = 10

abbrev pub retry_limit_error : RunError
retry_limit_error =
    invalid_configuration "HELIXFLOW_RUN_MAX_RETRIES must be an integer from 0 to 10"

abbrev pub is_digit : ℕ → Bool
is_digit c = leb b'0' c && leb c b'9'

-- The digits of `u32::from_str`, with the number so far.
unfoldable pub parse_digits : ℕ → Text → Option ℕ
parse_digits acc [] = some acc
parse_digits acc (c ∷ cs) = elim (is_digit c && ltb (acc * 10 + (c - b'0')) 4294967296) [
  | true ↦ parse_digits (acc * 10 + (c - b'0')) cs
  | false ↦ none
]

-- `u32::from_str`: digits, behind an optional plus sign.
unfoldable pub parse_u32 : Text → Option ℕ
unfolding parse_digits
parse_u32 [] = none
parse_u32 (c ∷ []) = if is_digit c then some (c - b'0') else none
parse_u32 (c ∷ d ∷ ds) = if c == b'+' then parse_digits 0 (d ∷ ds) else parse_digits 0 (c ∷ d ∷ ds)

unfoldable pub parse_max_run_retries : Option String → RunResult ℕ
unfolding parse_u32
parse_max_run_retries none = ok 1
parse_max_run_retries (some raw) = do
  value ← ok_or (parse_u32 (codes raw)) retry_limit_error
  ensure (not (ltb max_automatic_run_retries value)) retry_limit_error
  ok value

-- A run that starts without a confirmation has a known, finite cost that is not negative, and
-- that is in dollars and not above the threshold, or not above zero.
pub run_requires_confirmation-false :
    (threshold : RunResult F64) (cost : CostSummary)
    → run_requires_confirmation threshold cost ≡ ok false
    → (cost.unknown ≡ false)
      × (is_finite cost.amount ≡ true)
      × (ltb_F64 cost.amount zero_amount ≡ false)
      × (((cost.currency ≡ "USD")
            × ((limit : F64) × (threshold ≡ ok limit) × (ltb_F64 limit cost.amount ≡ false)))
          ⊎ (ltb_F64 zero_amount cost.amount ≡ false))
unfolding run_requires_confirmation
run_requires_confirmation-false threshold cost h =
    elim (Bool-cases
      (cost.unknown || not (is_finite cost.amount) || ltb_F64 cost.amount zero_amount)) [
        | inl must ↦ cc (rw (must, run_requires_confirmation) at h)
        | inr may ↦ (
          ground (arith, may),
          ground (arith, may),
          ground (arith, may),
          elim (Bool-cases (same cost.currency "USD")) [
            | inl usd ↦
                let (limit, is_limit, last) =
                  >>=-eq-ok threshold (λ l. ok (ltb_F64 l cost.amount))
                    (rw (may, usd, run_requires_confirmation) at h) in
                inl ((same_iff cost.currency "USD").0 usd, (limit, is_limit, ok-injective last))
            | inr other ↦ inr (ok-injective (rw (may, other, run_requires_confirmation) at h))
          ],
        )
      ]

-- The value of a list of digits.
abbrev pub decimal : ℕ → Text → ℕ
decimal acc [] = acc
decimal acc (c ∷ cs) = decimal (acc * 10 + (c - b'0')) cs

decimal-le : (acc : ℕ) (cs : Text) → acc ≤ decimal acc cs
decimal-le acc [] = omega arith
decimal-le acc (c ∷ cs) = omega (arith, decimal-le (acc * 10 + (c - b'0')) cs)

parse_digits_iff :
    (acc : ℕ) (cs : Text) (n : ℕ)
    → acc < 4294967296
    → (parse_digits acc cs ≡ some n)
      ↔ ((all is_digit cs ≡ true) × (decimal acc cs ≡ n) × (n < 4294967296))
unfolding parse_digits
parse_digits_iff acc [] n b = (λ h. ground arith, λ h. ground arith)
parse_digits_iff acc (c ∷ cs) n b =
    elim (Bool-cases (is_digit c && ltb (acc * 10 + (c - b'0')) 4294967296)) [
      | inl t ↦
          let next : acc * 10 + (c - b'0') < 4294967296 = ground (arith, t) in
          let (there, back) = parse_digits_iff (acc * 10 + (c - b'0')) cs n next in
          (
            λ h.
                let (ds, value, fits) = there (rw (t, parse_digits) at h) in
                (ground (arith, t, ds), value, fits),
            λ (ds, value, fits). rw (t, parse_digits) (back (ground (arith, ds), value, fits)),
          )
      | inr f ↦ (
        λ h. cc (rw (f, parse_digits) at h),
        λ (ds, value, fits).
            let yes : (is_digit c && ltb (acc * 10 + (c - b'0')) 4294967296) ≡ true =
              ground (arith, ds, value, fits, decimal-le (acc * 10 + (c - b'0')) cs) in
            cc (f, yes),
      )
    ]

-- The digits of a text, behind its plus sign if it has one and more than that.
abbrev pub digits_of : Text → Text
digits_of [] = []
digits_of (c ∷ []) = c ∷ []
digits_of (c ∷ d ∷ ds) = if c == b'+' then d ∷ ds else c ∷ d ∷ ds

not_nil : (c : ℕ) (cs : Text) → (c ∷ cs) ≢ []
not_nil c cs e = cc

parse_u32_iff :
    (t : Text) (n : ℕ)
    → n ≤ 10
    → (parse_u32 t ≡ some n)
      ↔ ((t ≢ []) × (all is_digit (digits_of t) ≡ true) × (decimal 0 (digits_of t) ≡ n))
unfolding parse_u32
parse_u32_iff [] n b = (λ h. cc, λ (ne, ds, v). elim (ne refl) [ ])
parse_u32_iff (c ∷ []) n b = elim (Bool-cases (is_digit c)) [
  | inl t ↦ (
    λ h. (not_nil c [], ground (arith, t), ground (arith, t, h)),
    λ (ne, digits, v). rw t (ap some (omega (arith, v))),
  )
  | inr f ↦ (λ h. cc (rw f at h), λ (ne, digits, v). ground (arith, f, digits))
]
parse_u32_iff (c ∷ d ∷ ds) n b = elim (Bool-cases (c == b'+')) [
  | inl plus ↦
      let (there, back) = parse_digits_iff 0 (d ∷ ds) n (omega arith) in
      rw plus (
        λ h. let (a, v, m) = there h in (not_nil c (d ∷ ds), a, v),
        λ (ne, a, v). back (a, v, omega arith),
      )
  | inr first ↦
      let (there, back) = parse_digits_iff 0 (c ∷ d ∷ ds) n (omega arith) in
      rw first (
        λ h. let (a, v, m) = there h in (not_nil c (d ∷ ds), a, v),
        λ (ne, a, v). back (a, v, omega arith),
      )
]

-- A limit on retries that is set is accepted exactly if it is a decimal number of at most 10, with an
-- optional plus sign, and is then that number.
pub parse_max_run_retries_iff :
    (raw : String) (n : ℕ)
    → (parse_max_run_retries (some raw) ≡ ok n) ↔ (
        (codes raw ≢ [])
        × (all is_digit (digits_of (codes raw)) ≡ true)
        × (decimal 0 (digits_of (codes raw)) ≡ n)
        × (n ≤ 10))
unfolding parse_max_run_retries
parse_max_run_retries_iff raw n = (
  λ h.
      let (v, found, h1) = >>=-eq-ok (ok_or (parse_u32 (codes raw)) retry_limit_error) _ h in
      let (fits, last) =
        >>-eq-ok (ensure (not (ltb max_automatic_run_retries v)) retry_limit_error) _ h1 in
      let at_most : v ≤ 10 = ground (arith, ensure-eq-ok _ _ fits) in
      let (ne, ds, value) = (parse_u32_iff (codes raw) v at_most).0 (ok_or-eq-ok _ _ found) in
      (ne, ds, value ∙ ok-injective last, omega (arith, at_most, ok-injective last)),
  λ (ne, ds, value, fits).
      rw ((parse_u32_iff (codes raw) n fits).1 (ne, ds, value)) (elim (Bool-cases (ltb 10 n)) [
        | inl high ↦ ground (arith, high, fits)
        | inr low ↦ rw low refl
      ]),
)
