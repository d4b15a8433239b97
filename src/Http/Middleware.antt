-- ===== src/Http/Middleware.antt =====
-- internal/transport/http/middleware: what stands in front of the handlers. `auth` is `Authenticate`
-- of the authentication service.
pub mod Guards
pub mod Origins
use text.Mathlib.Text.{◌==◌ as str_eq}
use go_rate_limiter.Prelude.{
  ℕ, Bool, true, false, ◌&&◌, ◌||◌, not, Option, none, some, List, [], ◌∷◌, ◌++◌, if◌then◌else◌,
}
use go_rate_limiter.Prelude.Text.{
  Text, txt, text_eq, has_prefix, cut_prefix, trim_space, trim_suffix,
}
use go_rate_limiter.Errors.{Error, Result, ok, err}
use go_rate_limiter.Entity.{can_manage_project, role_admin}
use go_rate_limiter.Auth.{TenantContext, map_auth_error}
use go_rate_limiter.Observability.{Metrics, record_http_request}
use go_rate_limiter.Http.{
  Request, Response, Headers, Handler, word, bytes, no_body, set_header, add_header, write_error,
  with_tenant_id,
}

abbrev pub admin_path_prefix : Text
admin_path_prefix = txt "/v1/admin/"

unfoldable pub is_admin_path : Text → Bool
is_admin_path path = has_prefix path admin_path_prefix

abbrev pub project_path_prefix : Text
project_path_prefix = txt "/v1/projects"

unfoldable pub is_project_path : Text → Bool
is_project_path path =
    text_eq path project_path_prefix || has_prefix path (project_path_prefix ++ txt "/")

unfoldable pub public_paths : Text → Bool
public_paths path =
    text_eq path (txt "/health/live")
    || text_eq path (txt "/health/ready")
    || text_eq path (txt "/metrics")

abbrev pub bearer : Text
bearer = txt "Bearer "

unfoldable pub bearer_token : Request → Option Text
bearer_token r = elim (cut_prefix (r.header "Authorization") bearer) [
  | none ↦ none
  | some presented ↦ if text_eq (trim_space presented) [] then none else some (trim_space presented)
]

module _ {S : Type 0} where
  -- The answer to an error of the authentication.
  abbrev pub refuse_auth : Error → Headers → S → Response × S
  refuse_auth e hs s = (write_error (map_auth_error e).0 (map_auth_error e).1 hs, s)

  unfoldable pub admin_auth : Text → Handler S → Handler S
  unfolding text_eq
  admin_auth token next hs r s =
      if text_eq token []
      then (write_error 503 "admin_api_disabled" hs, s)
      else elim (cut_prefix (r.header "Authorization") bearer) [
        | none ↦ (write_error 401 "unauthorized" hs, s)
        | some presented ↦
            if not (text_eq (trim_space presented) token)
            then (write_error 401 "unauthorized" hs, s)
            else next hs r s
      ]

  module _ (auth : Text → Result TenantContext) (next : Handler S) where
    unfoldable pub auth_wrap : Handler S
    auth_wrap hs r s = elim (auth (r.header "X-API-Key")) [
      | err e ↦ refuse_auth e hs s
      | ok tc ↦ next hs (with_tenant_id tc.tenant.id r) s
    ]

    unfoldable pub auth_or_public : Handler S
    unfolding auth_wrap
    auth_or_public hs r s =
        if public_paths r.path || is_admin_path r.path || is_project_path r.path
        then next hs r s
        else auth_wrap hs r s

    unfoldable pub project_auth : Handler S
    project_auth hs r s = elim (bearer_token r) [
      | none ↦ (write_error 401 "unauthorized" hs, s)
      | some raw ↦ elim (auth raw) [
        | err e ↦ refuse_auth e hs s
        | ok tc ↦
            if not (can_manage_project tc.api_key)
            then (write_error 401 "unauthorized" hs, s)
            else next hs (with_tenant_id tc.tenant.id r) s
      ]
    ]

    unfoldable pub require_check_role : Handler S
    require_check_role hs r s = elim (auth (r.header "X-API-Key")) [
      | err e ↦ refuse_auth e hs s
      | ok tc ↦
          if str_eq tc.api_key.role role_admin
          then (write_error 403 "admin_key_cannot_check" hs, s)
          else next hs r s
    ]

-- The set `allowed`, as the list of its members.
unfoldable pub allowed_origins : List Text → List Text
unfolding text_eq
allowed_origins [] = []
allowed_origins (o ∷ os) =
    let trimmed = trim_space (trim_suffix o (txt "/")) in
    if text_eq trimmed [] then allowed_origins os else trimmed ∷ allowed_origins os

abbrev pub is_listed : Text → List Text → Bool
is_listed o [] = false
is_listed o (a ∷ as') = text_eq o a || is_listed o as'

abbrev pub cors_headers : Text → Headers → Headers
cors_headers origin hs = add_header "Vary" (word "Origin") (
    set_header "Access-Control-Max-Age" (word "600") (
      set_header "Access-Control-Allow-Headers" (word "Authorization, Content-Type, X-API-Key") (
        set_header "Access-Control-Allow-Methods" (word "GET, POST, DELETE, OPTIONS")
          (set_header "Access-Control-Allow-Origin" (bytes origin) hs))))

-- The headers that go on to the answer.
unfoldable pub with_cors : List Text → Text → Headers → Headers
unfolding text_eq
with_cors origins origin hs =
    if is_listed origin (allowed_origins origins) && not (text_eq origin [])
    then cors_headers origin hs
    else hs

abbrev pub is_preflight : Request → Bool
is_preflight r =
    str_eq r.method "OPTIONS" && not (text_eq (r.header "Access-Control-Request-Method") [])

unfoldable pub cors : {S : Type 0} → List Text → Handler S → Handler S
unfolding with_cors
cors origins next hs r s =
    let answered = with_cors origins (r.header "Origin") hs in
    if is_preflight r
    then (record { status = 204; headers = answered; body = no_body }, s)
    else next answered r s

-- `Metrics`, around a handler that answers once.
unfoldable pub count_requests : {S : Type 0} → Handler (Metrics × S) → Handler (Metrics × S)
count_requests next hs r state =
    let (response, (m, s)) = next hs r state in
    (response, (record_http_request r.method r.path response.status m, s))
