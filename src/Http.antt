-- ===== src/Http.antt =====
-- pkg/httputil, and what the handlers use of net/http. A handler gets the headers that have been set
-- so far, and answers once. `S` is the state outside it.
pub mod HeaderLaws
pub mod CheckHandler
pub mod ConfigHandler
pub mod ProjectHandler
pub mod Middleware
pub mod SignupLimit
pub mod Health
pub mod Logging
pub mod Mux
pub mod Server
use text.Mathlib.Text.{◌==◌ as str_eq}
use go_rate_limiter.Prelude.{
  ℕ, Bool, true, false, ◌&&◌, ◌||◌, not, String, Option, none, some, List, [], ◌∷◌, ◌++◌, take,
  if◌then◌else◌,
}
use go_rate_limiter.Prelude.Int.{ℤ, pos, leb_ℤ}
use go_rate_limiter.Prelude.Text.{Text}
use go_rate_limiter.Errors.{Error}
use go_rate_limiter.Entity.{Uuid, Rule, Tenant, RateLimitDecision}

-- `header` gives "" for a header that is missing. A body is `none` where it cannot be read. `tenant`
-- is the value of the request's context.
pub record Request : Type 0 where
  pub method : String
  pub path : Text
  pub header : String → Text
  pub body : Option Text
  pub remote_addr : Text
  pub path_value : String → Text
  pub tenant : Option Uuid

-- A value of a header: a literal, a text or a number in decimal.
pub data HeaderValue : Type 0 where
  word : String → HeaderValue
  bytes : Text → HeaderValue
  number : ℤ → HeaderValue

abbrev pub Headers : Type 0
Headers = List (String × HeaderValue)

-- The fields of the JSON object that a check is answered with; `none` is an omitted one.
pub record CheckResponse : Type 0 where
  pub allowed : Bool
  pub limit : ℤ
  pub remaining : ℤ
  pub reset_at : ℤ
  pub retry_after : Option ℤ
  pub algorithm : String

-- The fields of the JSON objects that show a rule, a key and a project. A time is kept as a number
-- and a UUID as it is.
pub record RuleView : Type 0 where
  pub id : Uuid
  pub route_pattern : Text
  pub algorithm : String
  pub enabled : Bool
  pub limit_count : ℤ
  pub window_seconds : ℤ
  pub bucket_capacity : ℤ
  pub refill_rate : ℤ

pub record KeyView : Type 0 where
  pub id : Uuid
  pub prefix : Text
  pub status : String
  pub role : String
  pub created_at : ℕ

pub record ProjectView : Type 0 where
  pub id : Uuid
  pub name : Text
  pub status : String
  pub created_at : ℕ
  pub rule_count : ℕ
  pub rules : List RuleView
  pub keys : List KeyView

-- `error_text` is an error's own message.
pub data Body : Type 0 where
  no_body : Body
  error_message : String → Body
  error_text : Error → Body
  check_body : CheckResponse → Body
  tenants_body : List Tenant → Body
  rules_body : List RuleView → Body
  created_body : Uuid → Text → ℕ → Body
  project_body : ProjectView → Body
  projects_body : List ProjectView → Body
  status_body : String → Body
  not_ready_body : Error → Body
  plain_text : String → Body
  moved_body : Text → Body
  service_body : String → String → Body
  enforced_body : String → String → Body
  limited_body : String → Text → String → Body
  order_body : String → String → ℤ → Body
  payment_body : Text → String → ℤ → Body

pub record Response : Type 0 where
  pub status : ℕ
  pub headers : Headers
  pub body : Body

abbrev pub Handler : Type 0 → Type 0
Handler S = Headers → Request → S → Response × S

abbrev pub without : String → Headers → Headers
without name [] = []
without name ((n, v) ∷ hs) = if str_eq n name then without name hs else (n, v) ∷ without name hs

-- `Header().Set` and `Header().Add`
abbrev pub set_header : String → HeaderValue → Headers → Headers
set_header name v hs = (name, v) ∷ without name hs

abbrev pub add_header : String → HeaderValue → Headers → Headers
add_header name v hs = hs ++ (name, v) ∷ []

-- `Header().Get` of a response.
abbrev pub get_header : String → Headers → Option HeaderValue
get_header name [] = none
get_header name ((n, v) ∷ hs) = if str_eq n name then some v else get_header name hs

unfoldable pub write_json : ℕ → Body → Headers → Response
write_json status body hs = record {
  status = status;
  headers = set_header "Content-Type" (word "application/json") hs;
  body = body;
}

unfoldable pub write_error : ℕ → String → Headers → Response
unfolding write_json
write_error status message hs = write_json status (error_message message) hs

-- `WriteHeader` alone.
abbrev pub write_header : ℕ → Headers → Response
write_header status hs = record { status = status; headers = hs; body = no_body }

abbrev pub with_tenant_id : Uuid → Request → Request
with_tenant_id t r = record r { tenant = some t }

abbrev pub rate_limit_headers : RateLimitDecision → Headers → Headers
rate_limit_headers dec hs = set_header "X-RateLimit-Reset" (number dec.reset_at) (
    set_header "X-RateLimit-Remaining" (number dec.remaining)
      (set_header "X-RateLimit-Limit" (number dec.limit) hs))

unfoldable pub apply_rate_limit_headers : RateLimitDecision → Headers → Headers
apply_rate_limit_headers dec hs =
    if leb_ℤ dec.limit (pos 0) && str_eq dec.algorithm ""
    then hs
    else if not dec.allowed && not (leb_ℤ dec.retry_after (pos 0))
    then set_header "Retry-After" (number dec.retry_after) (rate_limit_headers dec hs)
    else rate_limit_headers dec hs

unfoldable pub check_status_code : RateLimitDecision → ℕ
check_status_code dec = if dec.allowed then 200 else 429

unfoldable pub format_retry_after : RateLimitDecision → Option ℤ
format_retry_after dec =
    if dec.allowed || leb_ℤ dec.retry_after (pos 0) then none else some dec.retry_after

abbrev pub rule_view : Rule → RuleView
rule_view r = record {
  id = r.id;
  route_pattern = r.route_pattern;
  algorithm = r.algorithm;
  enabled = r.enabled;
  limit_count = r.limit_count;
  window_seconds = r.window_seconds;
  bucket_capacity = r.bucket_capacity;
  refill_rate = r.refill_rate;
}

-- The body up to a limit, decoded; `none` where it cannot be read or decoded.
unfoldable pub decode_body : {A : Type 0} → (Text → Option A) → ℕ → Request → Option A
decode_body unmarshal limit r = elim r.body [
  | none ↦ none
  | some body ↦ unmarshal (take limit body)
]
