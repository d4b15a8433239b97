-- ===== src/Http/Health.antt =====
-- internal/transport/http/handlers/health.go, with the pings of redis/health.go and
-- postgres/health.go as functions of the state. `none` is a ping without an error.
pub mod Readiness
use go_rate_limiter.Prelude.{Option, none, some, List, [], ◌∷◌}
use go_rate_limiter.Errors.{Error}
use go_rate_limiter.Http.{Headers, Response, Handler, status_body, not_ready_body, write_json}

abbrev pub HealthChecker : Type 0 → Type 0
HealthChecker S = S → Option Error

module _ {S : Type 0} where
  unfoldable pub live : Handler S
  live hs r s = (write_json 200 (status_body "ok") hs, s)

  unfoldable pub ready : List (HealthChecker S) → Handler S
  ready [] hs r s = (write_json 200 (status_body "ready") hs, s)
  ready (checker ∷ checkers) hs r s =
      let rest = ready checkers hs r s in
      elim (checker s) [ some e ↦ (write_json 503 (not_ready_body e) hs, s) | none ↦ rest ]
