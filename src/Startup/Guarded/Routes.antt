-- ===== src/Startup/Guarded/Routes.antt =====
-- The routes of internal/transport/http/server.go, and what they leave alone.
use go_rate_limiter.Prelude.{
  ℕ, ◌≡◌, refl, sym, ◌∙◌, ap, subst, inl, inr, String, some, [], ◌∷◌, Bool-cases, All, All-append,
  All-lookup,
}
use go_rate_limiter.Prelude.Text.{txt, text_eq}
use go_rate_limiter.Auth.{authenticate}
use go_rate_limiter.Config.{Config}
use go_rate_limiter.Http.{Request, Response, Headers, Handler}
use go_rate_limiter.Http.CheckHandler.{check_handler}
use go_rate_limiter.Http.Middleware.{bearer_token}
use go_rate_limiter.Http.Middleware.Guards.{
  Refuses, project_auth-cases, require_check_role-cases, admin_auth-cases,
}
use go_rate_limiter.Http.SignupLimit.{allow, client_of, signup_limit}
use go_rate_limiter.Http.Mux.{Values, with_values, serve_mux}
use go_rate_limiter.Http.Mux.Routing.{serve_mux-cases}
use go_rate_limiter.Http.ConfigHandler.{list_tenant_rules}
use go_rate_limiter.Http.ConfigHandler.Scoping.{list_tenants_kept, list_tenant_rules_closed}
use go_rate_limiter.Http.Health.{live, ready}
use go_rate_limiter.Http.Health.Readiness.{ready-cases}
use go_rate_limiter.Http.Server.{
  Library, Dependencies, Inner, hour, signup_quota, routes, guarded_check, signup, scoped, guard,
  service, checker_beside, handle, admin_routes, metrics_routes,
}
use go_rate_limiter.Startup.{Services, dependencies}
use go_rate_limiter.Startup.Guarded.{
  reading_rules, checking, signing_up, managing, administering, ports, Known, Safe, IsSafe,
}

module _ {W : Type 0} (cfg : Config) (services : Services W) (now : ℕ) where
  Refuses-kept :
      (hs : Headers) (s : Inner W) (result : Response × Inner W)
      → Refuses hs s result
      → result.1.1.1 ≡ s.1.1
  Refuses-kept hs s result (status, message, _, e) = ap (λ (x : Response × Inner W). x.1.1.1) e

  module _ (lib : Library) where
    abbrev deps : Dependencies W
    deps = dependencies cfg services

    check-IsSafe : IsSafe cfg services now (record {
      method = "POST";
      pattern = txt "/v1/check";
      handler = guarded_check lib deps deps.auth_service services.check;
    })
    check-IsSafe hs r vs s known routed =
        elim (require_check_role-cases services.platform (ports cfg services now s)
          (check_handler lib.unmarshal_check (checker_beside services.check)) hs (with_values vs r)
          s) [
            | inl (tc, genuine, n, e) ↦ inr (checking tc vs routed genuine n)
            | inr refused ↦ inl (Refuses-kept hs s _ refused)
          ]

    bearer_token-values :
        (r : Request) (vs : Values) → bearer_token (with_values vs r) ≡ bearer_token r
    unfolding bearer_token
    bearer_token-values r vs = refl

    client_of-values :
        (r : Request) (vs : Values)
        → client_of cfg.behind_proxy (with_values vs r) ≡ client_of cfg.behind_proxy r
    unfolding client_of
    client_of-values r vs = refl

    signup-IsSafe : IsSafe cfg services now (record {
      method = "POST";
      pattern = txt "/v1/projects";
      handler = signup lib deps now services.provisioning;
    })
    unfolding signup_limit
    signup-IsSafe hs r vs s known routed =
        let client = client_of cfg.behind_proxy (with_values vs r) in
        elim (Bool-cases (allow hour now signup_quota client s.1.0).0) [
          | inl e ↦ inr (signing_up vs routed (rw (client_of-values r vs) at e))
          | inr e ↦ inl (rw (e, signup_limit) refl)
        ]

    -- The routes of a project.
    scoped-Safe :
        (h : Handler W) (hs : Headers) (r : Request) (vs : Values) (s : Inner W)
        → Safe cfg services now r s (
            scoped lib deps
              (λ w. authenticate services.platform (services.auth_ports w))
              h
              hs
              (with_values vs r)
              s)
    scoped-Safe h hs r vs s =
        elim (project_auth-cases services.platform (ports cfg services now s) h hs
          (with_values vs r) s.1.1) [
            | inl (raw, tc, b, genuine, a, e) ↦
                inr (managing raw tc (sym (bearer_token-values r vs) ∙ b) genuine a)
            | inr (status, message, _, e) ↦ inl (ap (λ (x : Response × W). x.1) e)
          ]

    -- The routes of the operator.
    guard-Safe :
        (h : Handler W) (hs : Headers) (r : Request) (vs : Values) (s : Inner W)
        → Safe cfg services now r s (guard lib deps h hs (with_values vs r) s)
    guard-Safe h hs r vs s =
        elim (admin_auth-cases services.platform (ports cfg services now s) h hs (with_values vs r)
          s.1.1 cfg.admin_token) [
            | inl (presented, given, cut, same, e) ↦ inr (administering presented given cut same)
            | inr (status, message, _, e) ↦ inl (ap (λ (x : Response × W). x.1) e)
          ]

    rules-IsSafe : IsSafe cfg services now (
        handle "GET" "/v1/config/tenants/{id}/rules"
          (service lib deps (list_tenant_rules lib.parse_uuid services.tenants services.rules)))
    rules-IsSafe hs r vs s (inl e) routed = inl (
        list_tenant_rules_closed lib.parse_uuid services.tenants services.rules hs
          (with_values vs r) s.1.1 e)
    rules-IsSafe hs r vs s (inr (tc, genuine)) routed = inr (reading_rules tc vs routed genuine)

    health-kept :
        (hs : Headers) (r : Request) (w : W)
        → ((live hs r w).1 ≡ w)
          × ((ready (services.ping_postgres ∷ services.ping_redis ∷ []) hs r w).1 ≡ w)
    unfolding live
    health-kept hs r w = (
      refl,
      elim (ready-cases hs r w (services.ping_postgres ∷ services.ping_redis ∷ [])) [
        | inl (_, e) ↦ ap (λ (x : Response × W). x.1) e
        | inr (_, _, _, _, e) ↦ ap (λ (x : Response × W). x.1) e
      ],
    )

    guarded-IsSafe :
        (method pattern : String) (h : Handler W)
        → IsSafe cfg services now (handle method pattern (guard lib deps h))
    guarded-IsSafe method pattern h hs r vs s known _ = guard-Safe h hs r vs s

    scoped-IsSafe :
        (method pattern : String) (h : Handler W)
        → IsSafe cfg services now (
            handle method pattern
              (scoped lib deps (λ w. authenticate services.platform (services.auth_ports w)) h))
    scoped-IsSafe method pattern h hs r vs s known _ = scoped-Safe h hs r vs s

    admin-IsSafe :
        All (IsSafe cfg services now) (admin_routes lib deps (some services.provisioning))
    admin-IsSafe = elim (Bool-cases (text_eq cfg.admin_token [])) [
      | inl e ↦ rw e tt
      | inr e ↦ rw e (
        guarded-IsSafe "GET" "/v1/admin/projects" _,
        (
          guarded-IsSafe "POST" "/v1/admin/projects" _,
          (
            guarded-IsSafe "POST" "/v1/admin/projects/{id}/keys" _,
            (guarded-IsSafe "DELETE" "/v1/admin/projects/{id}/keys/{keyId}" _, tt),
          ),
        ),
      )
    ]

    metrics-IsSafe : All (IsSafe cfg services now) (metrics_routes lib deps)
    metrics-IsSafe = ((λ hs r vs s known _. inl refl), tt)

    routes-IsSafe : All (IsSafe cfg services now) (routes lib deps now)
    routes-IsSafe = (
      λ hs r vs s known _. inl (health-kept hs (with_values vs r) s.1.1).0,
      (
        λ hs r vs s known _. inl (health-kept hs (with_values vs r) s.1.1).1,
        (
          check-IsSafe,
          (
            λ hs r vs s known _. inl (
                list_tenants_kept lib.parse_uuid services.tenants services.rules hs
                  (with_values vs r) s.1.1),
            (
              rules-IsSafe,
              (
                signup-IsSafe,
                (
                  scoped-IsSafe "GET" "/v1/projects/me" _,
                  (
                    scoped-IsSafe "POST" "/v1/projects/me/keys" _,
                    (
                      scoped-IsSafe "DELETE" "/v1/projects/me/keys/{keyId}" _,
                      All-append (IsSafe cfg services now)
                          (admin_routes lib deps (some services.provisioning))
                          (metrics_routes lib deps) admin-IsSafe metrics-IsSafe,
                    ),
                  ),
                ),
              ),
            ),
          ),
        ),
      ),
    )

    pub mux-Safe :
        (hs : Headers) (r : Request) (s : Inner W)
        → Known cfg services now r s
        → Safe cfg services now r s (serve_mux (routes lib deps now) hs r s)
    mux-Safe hs r s known = elim (serve_mux-cases (routes lib deps now) hs r s) [
      | inl (kept, _) ↦ inl (ap (λ (x : Inner W). x.1.1) kept)
      | inr (route, vs, member, routed, e) ↦
          subst (Safe cfg services now r s) (sym e)
            (All-lookup (IsSafe cfg services now) member routes-IsSafe hs r vs s known routed)
    ]
