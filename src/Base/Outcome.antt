-- ===== src/Base/Outcome.antt =====
-- Rust's `Result` with `?`: a chain of fallible steps is a `do` block.
use mathlib.Core.Path.{◌≡◌, refl}
use mathlib.Core.Logic.{◌⊎◌, inl, inr}
use mathlib.Core.Bool.{Bool, true, false}
use mathlib.Core.List.{List, [], ◌∷◌}
use helixflow.Base.Lists.{All}
use mathlib.Core.Option.{Option, none, some}

pub data Result {ℓ κ} (A : Type ℓ) (E : Type κ) : Type (ℓ ⊔ κ) where
  ok : A → Result A E
  err : E → Result A E

infixl 5 ◌>>=◌ ◌>>◌
abbrev pub ◌>>=◌ {ℓ κ μ} :
    {A : Type ℓ} {B : Type κ} {E : Type μ} → Result A E → (A → Result B E) → Result B E
ok value >>= next = next value
err e >>= next = err e

abbrev pub ◌>>◌ {κ μ} : {B : Type κ} {E : Type μ} → Result (Unit {0}) E → Result B E → Result B E
first >> second = first >>= λ done. second

-- `if !b { return Err(e) }`
abbrev pub ensure {μ} : {E : Type μ} → Bool → E → Result (Unit {0}) E
ensure true e = ok tt
ensure false e = err e

-- `Option::ok_or`
abbrev pub ok_or {ℓ μ} : {A : Type ℓ} {E : Type μ} → Option A → E → Result A E
ok_or none e = err e
ok_or (some a) e = ok a

abbrev pub map_err {ℓ κ μ} :
    {A : Type ℓ} {E : Type κ} {F : Type μ} → (E → F) → Result A E → Result A F
map_err f (ok a) = ok a
map_err f (err e) = err (f e)

-- A loop of checks, each of which may end the function.
abbrev pub for_each {ℓ μ} :
    {A : Type ℓ} {E : Type μ} → (A → Result (Unit {0}) E) → List A → Result (Unit {0}) E
for_each f [] = ok tt
for_each f (x ∷ xs) = f x >> for_each f xs

pub Result-cases {ℓ κ} :
    {A : Type ℓ} {E : Type κ} (r : Result A E) → ((a : A) × (r ≡ ok a)) ⊎ ((e : E) × (r ≡ err e))
Result-cases (ok a) = inl (a, refl)
Result-cases (err e) = inr (e, refl)

pub >>=-eq-ok {ℓ κ μ} :
    {A : Type ℓ} {B : Type κ} {E : Type μ} (first : Result A E) (next : A → Result B E) {y : B}
    → (first >>= next) ≡ ok y
    → (x : A) × (first ≡ ok x) × (next x ≡ ok y)
>>=-eq-ok (ok x) next h = (x, refl, h)
>>=-eq-ok (err e) next h = cc

pub >>-eq-ok {κ μ} :
    {B : Type κ} {E : Type μ} (check : Result (Unit {0}) E) (rest : Result B E) {y : B}
    → (check >> rest) ≡ ok y
    → (check ≡ ok tt) × (rest ≡ ok y)
>>-eq-ok (ok tt) rest h = (refl, h)
>>-eq-ok (err e) rest h = cc

pub ensure-eq-ok {μ} : {E : Type μ} (b : Bool) (e : E) → ensure b e ≡ ok tt → b ≡ true
ensure-eq-ok true e h = refl
ensure-eq-ok false e h = cc

-- A loop of checks passes exactly when each check does.
pub for_each-eq-ok {ℓ μ} :
    {A : Type ℓ} {E : Type μ} (f : A → Result (Unit {0}) E) (xs : List A)
    → for_each f xs ≡ ok tt
    → All (λ x. f x ≡ ok tt) xs
for_each-eq-ok f [] h = tt
for_each-eq-ok f (x ∷ xs) h =
    let (first, rest) = >>-eq-ok (f x) (for_each f xs) h in (first, for_each-eq-ok f xs rest)

pub for_each_of_All {ℓ μ} :
    {A : Type ℓ} {E : Type μ} (f : A → Result (Unit {0}) E) (xs : List A)
    → All (λ x. f x ≡ ok tt) xs
    → for_each f xs ≡ ok tt
for_each_of_All f [] h = refl
for_each_of_All f (x ∷ xs) h = rw (h.0) (for_each_of_All f xs h.1)

pub ok_or-eq-ok {ℓ μ} :
    {A : Type ℓ} {E : Type μ} (o : Option A) (e : E) {a : A} → ok_or o e ≡ ok a → o ≡ some a
ok_or-eq-ok none e h = cc
ok_or-eq-ok (some b) e h = cc

pub map_err-eq-ok {ℓ κ μ} :
    {A : Type ℓ} {E : Type κ} {F : Type μ} (f : E → F) (m : Result A E) {a : A}
    → map_err f m ≡ ok a
    → m ≡ ok a
map_err-eq-ok f (ok b) h = cc
map_err-eq-ok f (err e) h = cc

pub ok-injective {ℓ μ} :
    {A : Type ℓ} {E : Type μ} {a b : A} → ◌≡◌ {A = Result A E} (ok a) (ok b) → a ≡ b
ok-injective h = cc
