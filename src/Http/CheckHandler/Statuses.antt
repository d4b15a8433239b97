-- ===== src/Http/CheckHandler/Statuses.antt =====
-- The statuses of the decisions of internal/transport/http/handlers/check.go.
use go_rate_limiter.Prelude.{◌≡◌, refl, ◌⊎◌, inl, inr, Bool-cases}
use go_rate_limiter.Errors.{ok}
use go_rate_limiter.Entity.{RateLimitDecision}
use go_rate_limiter.Http.{Headers, write_json, check_status_code}
use go_rate_limiter.Http.CheckHandler.{respond}

pub decided :
    (hs : Headers) (d : RateLimitDecision)
    → ((respond hs (ok d)).status ≡ 200) ⊎ ((respond hs (ok d)).status ≡ 429)
unfolding respond write_json check_status_code
decided hs d = elim (Bool-cases d.allowed) [
  | inl e ↦ inl (rw (e, respond) refl)
  | inr e ↦ inr (rw (e, respond) refl)
]
