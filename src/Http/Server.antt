-- ===== src/Http/Server.antt =====
-- internal/transport/http/server.go. `W` is the state of the services and of what they keep; a nil
-- dependency is `none`. The tenants are read at that state.
use go_rate_limiter.Prelude.{
  ℕ, Bool, String, Option, none, some, List, [], ◌∷◌, ◌++◌, if◌then◌else◌,
}
use go_rate_limiter.Prelude.Text.{Text, txt, text_eq}
use go_rate_limiter.Errors.{Result}
use go_rate_limiter.Entity.{Uuid, Tenant}
use go_rate_limiter.Auth.{TenantContext}
use go_rate_limiter.Observability.{Metrics}
use go_rate_limiter.Http.{Request, Response, Headers, Handler}
use go_rate_limiter.Http.CheckHandler.{CheckRequest, RateLimitChecker, check_handler}
use go_rate_limiter.Http.ConfigHandler.{RuleReader, list_tenants, list_tenant_rules}
use go_rate_limiter.Http.ProjectHandler.{
  ProjectService, CreateProjectBody, AddKeyBody, console_create, console_me, console_add_key,
  console_revoke_key, admin_create, admin_list, admin_add_key, admin_revoke_key,
}
use go_rate_limiter.Http.Middleware.{
  admin_auth, auth_or_public, project_auth, require_check_role, cors, count_requests,
}
use go_rate_limiter.Http.SignupLimit.{Seen, signup_limit}
use go_rate_limiter.Http.Health.{HealthChecker, live, ready}
use go_rate_limiter.Http.Logging.{Log, logging}
use go_rate_limiter.Http.Mux.{Route, serve_mux}

abbrev pub Authenticator : Type 0 → Type 0
Authenticator W = W → Text → Result TenantContext

pub record Dependencies (W : Type 0) : Type 0 where
  pub health_checkers : List (HealthChecker W)
  pub auth : Option (Authenticator W)
  pub tenants : W → Uuid → Result Tenant
  pub rules : RuleReader W
  pub check : Option (RateLimitChecker W)
  pub projects : Option (ProjectService W)
  pub admin_token : Text
  pub dashboard_origins : List Text
  pub console : Option (ProjectService W)
  pub auth_service : Option (Authenticator W)
  pub behind_proxy : Bool

-- The decoders of the handlers, and the page of the package promhttp.
pub record Library : Type 0 where
  pub parse_uuid : Text → Option Uuid
  pub unmarshal_check : Text → Option CheckRequest
  pub unmarshal_project : Text → Option CreateProjectBody
  pub unmarshal_key : Text → Option AddKeyBody
  pub metrics_page : Metrics → Headers → Request → Response

-- A handler that leaves the first part of a state alone.
abbrev pub beside : {A B : Type 0} → Handler B → Handler (A × B)
beside h hs r (a, b) = let (response, left) = h hs r b in (response, (a, left))

-- A handler that reads the state and changes none of it.
abbrev pub reading : {S : Type 0} → (S → Headers → Request → Response) → Handler S
reading h hs r s = (h s hs r, s)

-- A handler that is made of the state at the time of the request.
abbrev pub at_state : {S : Type 0} → (S → Handler S) → Handler S
at_state h hs r s = h s hs r s

abbrev pub checker_beside : {A B : Type 0} → RateLimitChecker B → RateLimitChecker (A × B)
checker_beside check t route subject cost (a, b) =
    let (result, left) = check t route subject cost b in (result, (a, left))

abbrev pub signup_quota : ℕ
signup_quota = 5

-- `time.Hour`
abbrev pub hour : ℕ
hour = 3_600_000_000_000

-- What is behind the middleware: the counts, the sign-ups and the services.
abbrev pub Inner : Type 0 → Type 0
Inner W = Metrics × (Seen × W)

abbrev pub handle : {S : Type 0} → String → String → Handler S → Route S
handle method pattern h = record { method = method; pattern = txt pattern; handler = h }

module _ (lib : Library) {W : Type 0} (deps : Dependencies W) where
  -- On the state of the services.
  abbrev pub service : Handler W → Handler (Inner W)
  service h = beside (beside h)

  abbrev pub health_routes : List (Route (Inner W))
  health_routes =
      handle "GET" "/health/live" (service live)
      ∷ handle "GET" "/health/ready" (service (ready deps.health_checkers))
      ∷ []

  abbrev pub guarded_check : Option (Authenticator W) → RateLimitChecker W → Handler (Inner W)
  guarded_check none check = check_handler lib.unmarshal_check (checker_beside check)
  guarded_check (some auth) check = at_state λ s.
      require_check_role (auth s.1.1) (check_handler lib.unmarshal_check (checker_beside check))

  abbrev pub check_routes : Option (RateLimitChecker W) → List (Route (Inner W))
  check_routes none = []
  check_routes (some check) = handle "POST" "/v1/check" (guarded_check deps.auth_service check) ∷ []

  abbrev pub config_routes : List (Route (Inner W))
  config_routes =
      handle "GET" "/v1/config/tenants"
        (service (list_tenants lib.parse_uuid deps.tenants deps.rules))
      ∷ handle "GET" "/v1/config/tenants/{id}/rules"
          (service (list_tenant_rules lib.parse_uuid deps.tenants deps.rules))
      ∷ []

  -- `scoped`
  abbrev pub scoped : Authenticator W → Handler W → Handler (Inner W)
  scoped auth h = service (at_state λ w. project_auth (auth w) h)

  abbrev pub signup : ℕ → ProjectService W → Handler (Inner W)
  signup now console = beside (
      signup_limit signup_quota hour deps.behind_proxy now
        (console_create lib.parse_uuid lib.unmarshal_project lib.unmarshal_key console))

  abbrev pub console_routes :
      ℕ → Option (ProjectService W) → Option (Authenticator W) → List (Route (Inner W))
  console_routes now (some console) (some auth) =
      handle "POST" "/v1/projects" (signup now console)
      ∷ handle "GET" "/v1/projects/me"
          (scoped auth (console_me lib.parse_uuid lib.unmarshal_project lib.unmarshal_key console))
      ∷ handle "POST" "/v1/projects/me/keys" (
          scoped auth
            (console_add_key lib.parse_uuid lib.unmarshal_project lib.unmarshal_key console))
      ∷ handle "DELETE" "/v1/projects/me/keys/{keyId}" (
          scoped auth
            (console_revoke_key lib.parse_uuid lib.unmarshal_project lib.unmarshal_key console))
      ∷ []
  console_routes now _ _ = []

  -- `guard`
  abbrev pub guard : Handler W → Handler (Inner W)
  guard h = service (admin_auth deps.admin_token h)

  abbrev pub admin_routes : Option (ProjectService W) → List (Route (Inner W))
  admin_routes none = []
  admin_routes (some admin) =
      if text_eq deps.admin_token []
      then []
      else handle "GET" "/v1/admin/projects"
          (guard (admin_list lib.parse_uuid lib.unmarshal_project lib.unmarshal_key admin))
        ∷ handle "POST" "/v1/admin/projects"
            (guard (admin_create lib.parse_uuid lib.unmarshal_project lib.unmarshal_key admin))
        ∷ handle "POST" "/v1/admin/projects/{id}/keys"
            (guard (admin_add_key lib.parse_uuid lib.unmarshal_project lib.unmarshal_key admin))
        ∷ handle "DELETE" "/v1/admin/projects/{id}/keys/{keyId}"
            (guard (admin_revoke_key lib.parse_uuid lib.unmarshal_project lib.unmarshal_key admin))
        ∷ []

  abbrev pub metrics_routes : List (Route (Inner W))
  metrics_routes = handle "GET" "/metrics" (reading λ s. lib.metrics_page s.0) ∷ []

  abbrev pub routes : ℕ → List (Route (Inner W))
  routes now =
      health_routes
      ++ (check_routes deps.check
          ++ (config_routes
              ++ (console_routes now deps.console deps.auth_service
                  ++ (admin_routes deps.projects ++ metrics_routes))))

  -- The state of the server.
  abbrev pub State : Type 0
  State = Log × Inner W

  abbrev pub world : State → W
  world s = s.1.1.1

  unfoldable pub logged_mux : ℕ → Handler State
  logged_mux now = logging (count_requests (serve_mux (routes now)))

  unfoldable pub authenticated : ℕ → Handler State
  unfolding logged_mux
  authenticated now hs r s = elim deps.auth [
    | none ↦ logged_mux now hs r s
    | some auth ↦ auth_or_public (auth (world s)) (logged_mux now) hs r s
  ]

  abbrev pub with_origins : List Text → Handler State → Handler State
  with_origins [] next = next
  with_origins (o ∷ os) next = cors (o ∷ os) next

  -- `NewMux`, at the time of a request in nanoseconds.
  unfoldable pub new_mux : ℕ → Handler State
  unfolding authenticated
  new_mux now = with_origins deps.dashboard_origins (authenticated now)
