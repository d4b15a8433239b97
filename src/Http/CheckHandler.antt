-- ===== src/Http/CheckHandler.antt =====
-- internal/transport/http/handlers/check.go. `unmarshal` is `json.Unmarshal` into a request whose
-- fields are zero, with `none` for its error.
pub mod Answers
pub mod Statuses
use text.Mathlib.Text.{◌==◌ as str_eq}
use go_rate_limiter.Prelude.{
  ℕ, Bool, true, false, ◌||◌, not, Option, none, some, List, [], ◌∷◌, if◌then◌else◌, ltb, length,
  take,
}
use go_rate_limiter.Prelude.Int.{ℤ, pos, leb_ℤ}
use go_rate_limiter.Prelude.Text.{Text, text_eq, trim_space}
use go_rate_limiter.Errors.{Result, ok, err}
use go_rate_limiter.Entity.{Uuid, RateLimitDecision}
use go_rate_limiter.Observability.{Metrics, record_rate_limit_check}
use go_rate_limiter.Http.{
  Request, Response, Headers, Handler, CheckResponse, check_body, write_json, write_error,
  apply_rate_limit_headers, check_status_code, format_retry_after,
}

abbrev pub max_route_len : ℕ
max_route_len = 512

abbrev pub max_subject_len : ℕ
max_subject_len = 256

abbrev pub max_cost : ℕ
max_cost = 1_000_000

abbrev pub max_body : ℕ
max_body = 1_048_576

pub record CheckRequest : Type 0 where
  pub route : Text
  pub subject : Text
  pub cost : ℤ

abbrev pub zero_request : CheckRequest
zero_request = record { route = []; subject = []; cost = pos 0 }

abbrev pub RateLimitChecker : Type 0 → Type 0
RateLimitChecker S = Uuid → Text → Text → ℤ → S → Result RateLimitDecision × S

-- The checks of the fields; `none` is an invalid request.
unfoldable pub bounded_request : CheckRequest → Option CheckRequest
bounded_request req =
    let route = trim_space req.route in
    let subject = trim_space req.subject in
    let cost = if leb_ℤ req.cost (pos 0) then pos 1 else req.cost in
    if text_eq route [] || ltb max_route_len (length route)
    then none
    else if ltb max_subject_len (length subject)
    then none
    else if not (leb_ℤ cost (pos max_cost))
    then none
    else some (record { route = route; subject = subject; cost = cost })

abbrev pub check_response : RateLimitDecision → CheckResponse
check_response d = record {
  allowed = d.allowed;
  limit = d.limit;
  remaining = d.remaining;
  reset_at = d.reset_at;
  retry_after = format_retry_after d;
  algorithm = d.algorithm;
}

-- What is made of the checker's answer.
unfoldable pub respond : Headers → Result RateLimitDecision → Response
respond hs (err e) = write_error 503 "service_unavailable" hs
respond hs (ok d) =
    write_json (check_status_code d) (check_body (check_response d)) (apply_rate_limit_headers d hs)

module _ (unmarshal : Text → Option CheckRequest) where
  abbrev pub decoded : Text → Option CheckRequest
  decoded [] = some zero_request
  decoded (c ∷ s) = unmarshal (c ∷ s)

  -- The body is read up to a limit.
  unfoldable pub read_request : Request → Option CheckRequest
  unfolding bounded_request
  read_request r = elim r.body [
    | none ↦ none
    | some body ↦ elim (decoded (take max_body body)) [
      | none ↦ none
      | some req ↦ bounded_request req
    ]
  ]

  module _ {S : Type 0} (checker : RateLimitChecker S) where
    unfoldable pub run_check :
        Headers → Uuid → CheckRequest → Metrics × S → Response × (Metrics × S)
    unfolding respond
    run_check hs tenant_id req (m, s) =
        let (result, left) = checker tenant_id req.route req.subject req.cost s in
        (respond hs result, (record_rate_limit_check result m, left))

    unfoldable pub check_handler : Handler (Metrics × S)
    unfolding run_check read_request
    check_handler hs r state =
        if not (str_eq r.method "POST")
        then (write_error 405 "method_not_allowed" hs, state)
        else elim r.tenant [
          | none ↦ (write_error 401 "unauthorized" hs, state)
          | some tenant_id ↦ elim (read_request r) [
            | none ↦ (write_error 400 "invalid_request" hs, state)
            | some req ↦ run_check hs tenant_id req state
          ]
        ]
