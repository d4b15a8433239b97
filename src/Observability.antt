-- ===== src/Observability.antt =====
-- internal/observability: the labels of the metrics and the level of the log. A metric is the list of
-- the label sets that were counted, the last one first; durations are left out.
pub mod Labels
use text.Mathlib.Text.{◌==◌ as str_eq}
use go_rate_limiter.Prelude.{
  ℕ, Bool, true, false, ◌&&◌, ◌||◌, String, List, ◌∷◌, if◌then◌else◌, leb,
}
use go_rate_limiter.Prelude.Int.{pos, leb_ℤ}
use go_rate_limiter.Prelude.Text.{Text, txt, text_eq, has_prefix, has_suffix, trim_space, to_lower}
use go_rate_limiter.Errors.{Result, ok, err}
use go_rate_limiter.Entity.{RateLimitDecision}

pub data Level : Type 0 where
  debug info warn error : Level

unfoldable pub parse_level : (Text → Text) → Text → Level
unfolding text_eq
parse_level unicode_lower level =
    let word = to_lower unicode_lower (trim_space level) in
    if text_eq word (txt "debug")
    then debug
    else if text_eq word (txt "warn") || text_eq word (txt "warning")
    then warn
    else if text_eq word (txt "error")
    then error
    else info

unfoldable pub classify_check_result : Result RateLimitDecision → String
classify_check_result (err e) = "error"
classify_check_result (ok decision) =
    if str_eq decision.algorithm "" && leb_ℤ decision.limit (pos 0)
    then "no_rule"
    else if decision.allowed
    then "allowed"
    else "denied"

unfoldable pub normalize_route : Text → Text
unfolding text_eq has_prefix has_suffix
normalize_route path =
    if text_eq path (txt "/health/live")
      || text_eq path (txt "/health/ready")
      || text_eq path (txt "/metrics")
    then path
    else if text_eq path (txt "/v1/check") || text_eq path (txt "/v1/config/tenants")
    then path
    else if has_prefix path (txt "/v1/config/tenants/") && has_suffix path (txt "/rules")
    then txt "/v1/config/tenants/{id}/rules"
    else txt "unknown"

unfoldable pub status_class : ℕ → String
status_class code =
    if leb 500 code
    then "5xx"
    else if leb 400 code
    then "4xx"
    else if leb 300 code
    then "3xx"
    else if leb 200 code
    then "2xx"
    else "other"

-- The counters `http_requests_total` and `ratelimit_checks_total`.
pub record Metrics : Type 0 where
  pub requests : List (String × Text × String)
  pub checks : List String

unfoldable pub record_http_request : String → Text → ℕ → Metrics → Metrics
unfolding normalize_route status_class
record_http_request method path status m = record m {
  requests = (method, normalize_route path, status_class status) ∷ m.requests;
}

unfoldable pub record_rate_limit_check : Result RateLimitDecision → Metrics → Metrics
unfolding classify_check_result
record_rate_limit_check decision m = record m { checks = classify_check_result decision ∷ m.checks }
