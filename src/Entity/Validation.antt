-- ===== src/Entity/Validation.antt =====
-- What `Rule.Validate` accepts.
use text.Mathlib.TextEquality.{eq_iff}
use go_rate_limiter.Prelude.{◌<◌, ◌≡◌, ◌≢◌, refl, ◌↔◌, ◌⊎◌, inl, inr, true, false, arith, none, []}
use go_rate_limiter.Prelude.Int.{ℤ, pos, pos_part, leb_ℤ}
use go_rate_limiter.Prelude.Text.{trim_space, text_eq_iff}
use go_rate_limiter.Entity.{
  Rule, uuid_nil, sliding_window, token_bucket, is_valid_algorithm, validate_parameters, validate,
}

-- The parameters that the rule's algorithm uses are positive.
abbrev pub IsLimited : Rule → Type 0
IsLimited r =
    ((r.algorithm ≡ sliding_window)
      × (0 < pos_part r.limit_count)
      × (0 < pos_part r.window_seconds))
    ⊎ ((r.algorithm ≡ token_bucket)
        × (0 < pos_part r.bucket_capacity)
        × (0 < pos_part r.refill_rate))

-- A rule with a tenant, a pattern that is not blank and positive parameters of its algorithm.
pub record IsValid (r : Rule) : Type 0 where
  pub owned : r.tenant_id ≢ uuid_nil
  pub routed : trim_space r.route_pattern ≢ []
  pub limited : IsLimited r

positive : (a : ℤ) → (leb_ℤ a (pos 0) ≡ false) ↔ (0 < pos_part a)
positive (pos n) = ground arith
positive (ℤ.negsuc n) = ground arith

validate→ : (r : Rule) → validate r ≡ none → IsValid r
unfolding validate is_valid_algorithm
validate→ r h = record {
  owned = ground arith;
  routed = ground (arith, text_eq_iff (trim_space r.route_pattern) []);
  limited = ground (
    arith,
    positive r.limit_count,
    positive r.window_seconds,
    positive r.bucket_capacity,
    positive r.refill_rate,
    eq_iff r.algorithm sliding_window,
    eq_iff r.algorithm token_bucket,
  );
}

parameters_ok :
    (r : Rule)
    → IsLimited r
    → (validate_parameters r ≡ none) × (is_valid_algorithm r.algorithm ≡ true)
unfolding validate_parameters is_valid_algorithm
parameters_ok r (inl (a, l, w)) =
    rw a (ground (arith, positive r.limit_count, positive r.window_seconds), refl)
parameters_ok r (inr (a, c, f)) =
    rw a (ground (arith, positive r.bucket_capacity, positive r.refill_rate), refl)

validate← : (r : Rule) → IsValid r → validate r ≡ none
unfolding validate
validate← r v =
    let (parameters, known) = parameters_ok r v.limited in
    ground (arith, text_eq_iff (trim_space r.route_pattern) [])

-- `Validate` accepts exactly the rules with a tenant, a pattern that is not blank, and one of the two
-- algorithms with the two parameters that it uses positive.
pub validate_iff : (r : Rule) → (validate r ≡ none) ↔ IsValid r
validate_iff r = (validate→ r, validate← r)
