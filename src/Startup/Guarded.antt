-- ===== src/Startup/Guarded.antt =====
-- Which requests to the server of cmd/server/main.go change what the services keep.
pub mod Routes
pub mod Front
use go_rate_limiter.Prelude.{
  ℕ, ◌≡◌, ◌≢◌, refl, sym, ◌∙◌, ap, subst, ◌⊎◌, inl, inr, Bool, true, false, String, Option, none,
  some, List, [], ◌∷◌, ◌++◌, Bool-cases, Option-cases, All, All-append, All-lookup, Member,
  if◌then◌else◌,
}
use go_rate_limiter.Prelude.Text.{Text, txt, text_eq, trim_space, cut_prefix}
use go_rate_limiter.Errors.{Error, Result, ok, err}
use go_rate_limiter.Entity.{role_admin}
use go_rate_limiter.Auth.{TenantContext, AuthPorts, authenticate}
use go_rate_limiter.Auth.Soundness.{IsGenuine}
use go_rate_limiter.Config.{Config}
use go_rate_limiter.Http.{Request, Response, Headers, Handler, with_tenant_id}
use go_rate_limiter.Http.CheckHandler.{check_handler}
use go_rate_limiter.Http.Middleware.{
  bearer, bearer_token, project_auth, require_check_role, admin_auth,
}
use go_rate_limiter.Http.Middleware.Guards.{
  Refuses, project_auth-cases, require_check_role-cases, admin_auth-cases, auth_or_public-cases,
}
use go_rate_limiter.Http.SignupLimit.{allow, client_of, signup_limit, Seen}
use go_rate_limiter.Http.Mux.{Route, Values, with_values, serve_mux}
use go_rate_limiter.Http.Mux.Routing.{IsRouted, serve_mux-cases}
use go_rate_limiter.Http.ConfigHandler.{list_tenant_rules}
use go_rate_limiter.Http.ConfigHandler.Scoping.{list_tenants_kept, list_tenant_rules_closed}
use go_rate_limiter.Http.Health.{live, ready}
use go_rate_limiter.Http.Health.Readiness.{ready-cases}
use go_rate_limiter.Http.Server.{
  Library, Dependencies, Inner, State, world, hour, signup_quota, routes, guarded_check, signup,
  scoped, guard, service, checker_beside, beside, handle, admin_routes, metrics_routes,
}
use go_rate_limiter.Startup.{Services, dependencies}

module _ {W : Type 0} (cfg : Config) (services : Services W) (now : ℕ) where
  abbrev pub ports : Inner W → AuthPorts
  ports s = services.auth_ports s.1.1

  -- What a request must have to change anything: a genuine key and the route of a tenant's rules, whose
  -- reading may fill the cache, the route of the checks and a genuine key that is not for administration, the route of the sign-ups and a client below its quota, a bearer token that is a genuine
  -- key for administration, or the token of the operator.
  pub data Permitted (r : Request) (s : Inner W) : Type 0 where
    reading_rules :
        (tc : TenantContext) (vs : Values)
        → IsRouted "GET" (txt "/v1/config/tenants/{id}/rules") r vs
        → IsGenuine services.platform (services.auth_ports s.1.1) (r.header "X-API-Key") tc
        → Permitted r s
    checking :
        (tc : TenantContext) (vs : Values)
        → IsRouted "POST" (txt "/v1/check") r vs
        → IsGenuine services.platform (services.auth_ports s.1.1) (r.header "X-API-Key") tc
        → tc.api_key.role ≢ role_admin
        → Permitted r s
    signing_up :
        (vs : Values)
        → IsRouted "POST" (txt "/v1/projects") r vs
        → (allow hour now signup_quota (client_of cfg.behind_proxy r) s.1.0).0 ≡ true
        → Permitted r s
    managing :
        (raw : Text) (tc : TenantContext)
        → bearer_token r ≡ some raw
        → IsGenuine services.platform (services.auth_ports s.1.1) raw tc
        → tc.api_key.role ≡ role_admin
        → Permitted r s
    administering :
        (presented : Text)
        → cfg.admin_token ≢ []
        → cut_prefix (r.header "Authorization") bearer ≡ some presented
        → trim_space presented ≡ cfg.admin_token
        → Permitted r s

  -- The services keep what they had, or the request was permitted.
  abbrev pub Safe : Request → Inner W → Response × Inner W → Type 0
  Safe r s result = (result.1.1.1 ≡ s.1.1) ⊎ Permitted r s

  -- A request that carries a tenant has been authenticated.
  abbrev pub Known : Request → Inner W → Type 0
  Known r s =
      (r.tenant ≡ none)
      ⊎ ((tc : TenantContext) × IsGenuine services.platform (services.auth_ports s.1.1)
            (r.header "X-API-Key") tc)

  -- A route that is safe for the requests that come to it.
  abbrev pub IsSafe : Route (Inner W) → Type 0
  IsSafe route =
      (hs : Headers) (r : Request) (vs : Values) (s : Inner W)
      → Known r s
      → IsRouted route.method route.pattern r vs
      → Safe r s (route.handler hs (with_values vs r) s)
