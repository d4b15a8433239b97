-- ===== src/Errors.antt =====
-- internal/domain/errors/errors.go, and what `errors.Is` and `fmt.Errorf` make of its values.
use go_rate_limiter.Prelude.{ℕ, ◌≡◌, refl, ◌⊎◌, inl, inr, Bool, false, String, ◌==◌}

-- The sentinel values.
pub data DomainError : Type 0 where
  tenant_not_found tenant_suspended api_key_not_found api_key_revoked : DomainError
  invalid_rule rate_limit_backend project_exists invalid_input : DomainError

-- An error keeps the format string of its message; the values put into it are left out.
-- `wrap` is `fmt.Errorf` with a `%w` verb, `other` any error that wraps nothing.
pub data Error : Type 0 where
  sentinel : DomainError → Error
  other : String → Error
  wrap : String → Error → Error

abbrev pub code : DomainError → ℕ
code tenant_not_found = 0
code tenant_suspended = 1
code api_key_not_found = 2
code api_key_revoked = 3
code invalid_rule = 4
code rate_limit_backend = 5
code project_exists = 6
code invalid_input = 7

-- `errors.Is(err, target)`
abbrev pub is : Error → DomainError → Bool
is (sentinel d) target = code d == code target
is (other message) target = false
is (wrap message e) target = is e target

-- A Go result with an error value.
pub data Result {ℓ} (A : Type ℓ) : Type ℓ where
  ok : A → Result A
  err : Error → Result A

infixl 5 ◌>>=◌
abbrev pub ◌>>=◌ {ℓ κ} : {A : Type ℓ} {B : Type κ} → Result A → (A → Result B) → Result B
ok a >>= f = f a
err e >>= f = err e

-- To split on a computed result and keep the equation.
pub Result-cases {ℓ} :
    {A : Type ℓ} (r : Result A) → ((a : A) × (r ≡ ok a)) ⊎ ((e : Error) × (r ≡ err e))
Result-cases (ok a) = inl (a, refl)
Result-cases (err e) = inr (e, refl)

-- What a chain that has succeeded has gone through.
pub before_ok :
    {A B : Type 0} (f : A → Result B) {c : B} (m : Result A)
    → (m >>= f) ≡ ok c
    → (a : A) × (f a ≡ ok c) × (m ≡ ok a)
before_ok f (err e) h = cc
before_ok f (ok a) h = (a, h, refl)
