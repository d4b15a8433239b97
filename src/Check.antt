-- ===== src/Check.antt =====
-- internal/application/check_service.go, over the ports for rules and for the limiter. `S` is the
-- state that the limiter keeps.
pub mod Outcomes
use go_rate_limiter.Prelude.{Bool, true, false, List, Option, none, some, if◌then◌else◌}
use go_rate_limiter.Prelude.Int.{ℤ, pos, leb_ℤ}
use go_rate_limiter.Prelude.Text.{Text}
use go_rate_limiter.Errors.{Error, Result, ok, err, sentinel, wrap, is, rate_limit_backend}
use go_rate_limiter.Entity.{Uuid, Rule, RateLimitKey, RateLimitDecision}
use go_rate_limiter.Resolver.{resolve}

abbrev pub ListByTenant : Type 0
ListByTenant = Uuid → Result (List Rule)

abbrev pub RateLimiter : Type 0 → Type 0
RateLimiter S = RateLimitKey → Rule → ℤ → S → Result RateLimitDecision × S

-- The decision where no rule applies; the other fields keep their zero values.
abbrev pub unlimited : RateLimitDecision
unlimited = record {
  allowed = true;
  limit = pos 0;
  remaining = pos 0;
  reset_at = pos 0;
  retry_after = pos 0;
  algorithm = "";
}

-- An error of the limiter that is not marked as the backend's is marked so.
unfoldable pub as_backend_error : Error → Error
as_backend_error e =
    if is e rate_limit_backend then e else wrap "%w: %v" (sentinel rate_limit_backend)

abbrev pub backend_result :
    {S : Type 0} → Result RateLimitDecision × S → Result RateLimitDecision × S
backend_result (ok d, s) = (ok d, s)
backend_result (err e, s) = (err (as_backend_error e), s)

module _ {S : Type 0} (list_by_tenant : ListByTenant) (limiter : RateLimiter S) where
  -- The limiter's part, for the rule that was resolved.
  unfoldable pub apply_rule :
      Uuid → Text → Text → ℤ → Option Rule → S → Result RateLimitDecision × S
  apply_rule tenant_id route subject cost none s = (ok unlimited, s)
  apply_rule tenant_id route subject cost (some rule) s =
      backend_result
        (limiter (record { tenant_id = tenant_id; route = route; subject = subject }) rule cost s)

  unfoldable pub check_service : Uuid → Text → Text → ℤ → S → Result RateLimitDecision × S
  unfolding apply_rule
  check_service tenant_id route subject cost s =
      let charged = if leb_ℤ cost (pos 0) then pos 1 else cost in
      elim (list_by_tenant tenant_id) [
        | err e ↦ (err (wrap "load rules: %w" e), s)
        | ok rules ↦ apply_rule tenant_id route subject charged (resolve rules route) s
      ]
