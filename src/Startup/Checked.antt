-- ===== src/Startup/Checked.antt =====
-- A check on its way through the whole server of cmd/server/main.go.
use text.Mathlib.Text.{◌==◌ as str_eq}
use text.Mathlib.TextEquality.{eq_iff}
use go_rate_limiter.Prelude.{
  ℕ, ◌≡◌, ◌≢◌, refl, sym, subst, inl, inr, false, ◌||◌, some, List, [], ◌∷◌, Bool-cases,
}
use go_rate_limiter.Prelude.Text.{Text, txt, text_eq, has_prefix}
use go_rate_limiter.Errors.{Result, ok}
use go_rate_limiter.Entity.{role_admin, RateLimitDecision}
use go_rate_limiter.Auth.{TenantContext, authenticate}
use go_rate_limiter.Auth.Soundness.{IsGenuine, authenticate_iff}
use go_rate_limiter.Config.{Config}
use go_rate_limiter.Http.{Request, Response, Headers, Handler, with_tenant_id}
use go_rate_limiter.Http.CheckHandler.{
  CheckRequest, read_request, check_handler, run_check, respond,
}
use go_rate_limiter.Http.Middleware.{
  public_paths, is_admin_path, is_project_path, with_cors, auth_or_public, auth_wrap,
  count_requests, require_check_role,
}
use go_rate_limiter.Http.Middleware.Origins.{cors-cases}
use go_rate_limiter.Http.Logging.{logging}
use go_rate_limiter.Http.Mux.{serve_mux, with_values}
use go_rate_limiter.Http.Server.{
  Library, Dependencies, Inner, State, routes, guarded_check, logged_mux, authenticated,
  with_origins, new_mux,
}
use go_rate_limiter.Startup.{Services, dependencies}

abbrev check_path : Text
check_path = txt "/v1/check"

closed_path :
    (public_paths check_path || is_admin_path check_path || is_project_path check_path) ≡ false
unfolding public_paths is_admin_path is_project_path text_eq txt has_prefix
closed_path = refl

-- A request, as a POST to the route of the checks.
abbrev pub to_check : Request → Request
to_check r = record r { method = "POST"; path = check_path }

module _ {W : Type 0} (cfg : Config) (services : Services W) (now : ℕ) (lib : Library) where
  abbrev deps : Dependencies W
  deps = dependencies cfg services

  abbrev check_route : Handler (Inner W)
  check_route = guarded_check lib deps deps.auth_service services.check

  -- A POST to the route with a genuine key that is not for administration, and with a body that is
  -- read.
  module _ (r : Request) (s : State lib deps) (tc : TenantContext) (req : CheckRequest)
      (genuine : IsGenuine services.platform
        (services.auth_ports s.1.1.1)
        (r.header "X-API-Key")
        tc)
      (for_checks : tc.api_key.role ≢ role_admin)
      (asked : read_request lib.unmarshal_check r ≡ some req) where
    abbrev sent : Request
    sent = to_check r

    abbrev inside : Request
    inside = with_tenant_id tc.tenant.id sent

    known :
        authenticate services.platform (services.auth_ports s.1.1.1) (r.header "X-API-Key") ≡ ok tc
    known =
        (authenticate_iff services.platform (services.auth_ports s.1.1.1) (r.header "X-API-Key")
            tc).1
          genuine

    not_admin : str_eq tc.api_key.role role_admin ≡ false
    not_admin = elim (Bool-cases (str_eq tc.api_key.role role_admin)) [
      | inl e ↦ absurd (for_checks ((eq_iff tc.api_key.role role_admin).0 e))
      | inr e ↦ e
    ]

    abbrev limited : Result RateLimitDecision × W
    limited = services.check tc.tenant.id req.route req.subject req.cost s.1.1.1

    abbrev Served : Type 0
    Served = Response × State lib deps

    -- The handler has answered with the decision, and the services have what the checker left.
    abbrev IsAnswered : Served → Type 0
    IsAnswered result =
        ((hs : Headers) × (result.0 ≡ respond hs limited.0)) × (result.1.1.1.1 ≡ limited.1)

    handled :
        (hs : Headers)
        → let result = check_route hs (with_values [] inside) s.1 in
          (result.0 ≡ respond hs limited.0) × (result.1.1.1 ≡ limited.1)
    unfolding require_check_role check_handler run_check read_request
    handled hs =
        rw (known, not_admin, require_check_role, check_handler)
          (rw (asked, check_handler) (refl, refl))

    muxed :
        (hs : Headers)
        → serve_mux (routes lib deps now) hs inside s.1 ≡ check_route hs (with_values [] inside) s.1
    unfolding serve_mux
    muxed hs = refl

    logged : (hs : Headers) → IsAnswered (logged_mux lib deps now hs inside s)
    unfolding logged_mux logging count_requests
    logged hs = let (answer, left) = handled hs in rw (muxed hs) ((hs, answer), left)

    passed : (hs : Headers) → IsAnswered (authenticated lib deps now hs sent s)
    unfolding authenticated auth_or_public auth_wrap
    passed hs = rw (closed_path, auth_or_public) (rw (known, auth_wrap) (logged hs))

    fronted :
        (origins : List Text) (hs : Headers)
        → IsAnswered (with_origins lib deps origins (authenticated lib deps now) hs sent s)
    fronted [] hs = passed hs
    fronted (o ∷ os) hs = elim (cors-cases (o ∷ os) (authenticated lib deps now) hs sent s) [
      | inl (preflight, _) ↦ absurd (cc)
      | inr (_, same) ↦
          subst IsAnswered (sym same) (passed (with_cors (o ∷ os) (r.header "Origin") hs))
    ]

    -- A POST to /v1/check with a genuine key that is not for administration, and with a body that is read
    -- as a request, is answered with the decision of the checker for the key's tenant and the
    -- request's route, subject and cost, through the whole stack of middleware, and the services are left as the checker leaves
    -- them.
    pub new_mux-IsAnswered : (hs : Headers) → IsAnswered (new_mux lib deps now hs sent s)
    unfolding new_mux
    new_mux-IsAnswered hs = fronted cfg.dashboard_origins hs
