-- ===== src/Postgres/Projects/Scanned.antt =====
-- What is read back of a rule that `CreateProject` has inserted.
use go_rate_limiter.Prelude.{
  ℕ, ◌<◌, ap, sym, ◌∙◌, inl, inr, ◌≡◌, ◌≢◌, refl, true, arith, none, some,
}
use go_rate_limiter.Prelude.Int.{ℤ, pos, negsuc}
use go_rate_limiter.Errors.{ok}
use go_rate_limiter.Entity.{Uuid, Rule, token_bucket, parse_algorithm, is_valid_algorithm, validate}
use go_rate_limiter.Entity.Validation.{validate_iff}
use go_rate_limiter.Postgres.{RuleRow, rounded, to_hundredths, null_if_zero, coalesce, scan_rule}
use go_rate_limiter.Postgres.Rows.{coalesce-null_if_zero}
use go_rate_limiter.Postgres.Projects.{rule_row}

-- The row of a rule in the table.
abbrev pub table_row : Uuid → Uuid → Rule → RuleRow
table_row id tenant_id r =
    let row = rule_row id tenant_id r in record row { refill_rate = rounded row.refill_rate }

coalesce-rounded : (v : ℤ) → coalesce (rounded (null_if_zero v)) ≡ to_hundredths v
unfolding null_if_zero
coalesce-rounded (pos n) = ground arith
coalesce-rounded (negsuc n) = ground arith

parse_valid :
    (r : Rule)
    → is_valid_algorithm r.algorithm ≡ true
    → parse_algorithm r.algorithm ≡ some r.algorithm
unfolding parse_algorithm is_valid_algorithm
parse_valid r h = ground arith

-- A rule with a known algorithm is read back as it was given to `CreateProject`, with the zeros that
-- the table keeps as NULL, under its new id and tenant, and with its refill rate rounded to
-- hundredths.
pub scan_rule-table_row :
    (id tenant_id : Uuid) (r : Rule)
    → is_valid_algorithm r.algorithm ≡ true
    → scan_rule (table_row id tenant_id r)
      ≡ ok (record r { id = id; tenant_id = tenant_id; refill_rate = to_hundredths r.refill_rate })
unfolding scan_rule
scan_rule-table_row id tenant_id r h =
    rw
      (
        parse_valid r h,
        scan_rule,
        coalesce-null_if_zero r.limit_count,
        coalesce-null_if_zero r.window_seconds,
        coalesce-null_if_zero r.bucket_capacity,
        coalesce-rounded r.refill_rate,
      )
      refl

known : is_valid_algorithm token_bucket ≡ true
unfolding is_valid_algorithm
known = refl

zero_rate-invalid :
    (r : Rule) → r.algorithm ≡ token_bucket → r.refill_rate ≡ pos 0 → validate r ≢ none
zero_rate-invalid r a z v = elim ((validate_iff r).0 v).limited [
  | inl (b, _, _) ↦ let e = sym b ∙ a in cc
  | inr (_, _, p) ↦ absurd (ground (arith, z, p))
]

-- A token bucket rule with a refill rate below five thousandths of a token per second, which need not
-- be 0, is read back with the rate 0, with which no rule is valid.
pub small_rate_lost :
    (id tenant_id : Uuid) (r : Rule) (n : ℕ)
    → r.algorithm ≡ token_bucket
    → r.refill_rate ≡ pos n
    → n < 5000
    → (q : Rule) × (scan_rule (table_row id tenant_id r) ≡ ok q)
      × (q.refill_rate ≡ pos 0)
      × (validate q ≢ none)
small_rate_lost id tenant_id r n a rate small =
    let zero_rate : to_hundredths r.refill_rate ≡ pos 0 = rw rate (ap pos (omega arith)) in
    let lost_rule : Rule = record r {
      id = id;
      tenant_id = tenant_id;
      refill_rate = to_hundredths r.refill_rate;
    } in
    (
      lost_rule,
      scan_rule-table_row id tenant_id r (rw a known),
      zero_rate,
      λ v. zero_rate-invalid lost_rule a zero_rate v,
    )
