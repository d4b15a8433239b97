-- ===== src/Startup/Guarded/Front.antt =====
-- The middleware in front of the routes of internal/transport/http/server.go.
use go_rate_limiter.Prelude.{
  ℕ, ◌≡◌, ◌≢◌, refl, sym, ◌∙◌, ap, subst, ◌⊎◌, inl, inr, Bool, true, false, ◌||◌, none, List, [],
  ◌∷◌, Bool-cases,
}
use go_rate_limiter.Prelude.Text.{Text}
use go_rate_limiter.Entity.{Uuid}
use go_rate_limiter.Auth.{TenantContext}
use go_rate_limiter.Auth.Soundness.{IsGenuine}
use go_rate_limiter.Config.{Config}
use go_rate_limiter.Http.{Request, Response, Headers, with_tenant_id, write_error, write_json}
use go_rate_limiter.Http.Middleware.{
  public_paths, is_admin_path, is_project_path, is_preflight, with_cors, auth_or_public,
  count_requests, bearer_token,
}
use go_rate_limiter.Http.Middleware.Guards.{Refuses, auth_or_public-cases}
use go_rate_limiter.Http.Middleware.Origins.{cors-cases}
use go_rate_limiter.Http.SignupLimit.{client_of}
use go_rate_limiter.Http.Logging.{logging, skip_request_log}
use go_rate_limiter.Http.Mux.{serve_mux}
use go_rate_limiter.Http.Server.{
  Library, Dependencies, Inner, State, routes, logged_mux, authenticated, with_origins, new_mux,
}
use go_rate_limiter.Startup.{Services, dependencies}
use go_rate_limiter.Startup.Guarded.{
  Permitted, Known, reading_rules, checking, signing_up, managing, administering,
}
use go_rate_limiter.Startup.Guarded.Routes.{mux-Safe}

module _ {W : Type 0} (cfg : Config) (services : Services W) (now : ℕ) (lib : Library) where
  abbrev deps : Dependencies W
  deps = dependencies cfg services

  -- What the path of a request is open for.
  abbrev pub is_open : Request → Bool
  is_open r = public_paths r.path || is_admin_path r.path || is_project_path r.path

  -- The tenant of the context gives no permission.
  Permitted-tenant :
      (t : Uuid) (r : Request) (s : Inner W)
      → Permitted cfg services now (with_tenant_id t r) s
      → Permitted cfg services now r s
  unfolding bearer_token client_of
  Permitted-tenant t r s (reading_rules tc vs routed genuine) =
      reading_rules tc vs (record { by_method = routed.by_method; by_path = routed.by_path })
        genuine
  Permitted-tenant t r s (checking tc vs routed genuine n) =
      checking tc vs (record { by_method = routed.by_method; by_path = routed.by_path }) genuine n
  Permitted-tenant t r s (signing_up vs routed passes) =
      signing_up vs (record { by_method = routed.by_method; by_path = routed.by_path }) passes
  Permitted-tenant t r s (managing raw tc b genuine a) = managing raw tc b genuine a
  Permitted-tenant t r s (administering presented given cut same) =
      administering presented given cut same

  abbrev Served : Type 0
  Served = Response × State lib deps

  -- As `Safe`, on the state of the server.
  abbrev Kept : Request → State lib deps → Served → Type 0
  Kept r s result = (result.1.1.1.1 ≡ s.1.1.1) ⊎ Permitted cfg services now r s.1

  -- The log and the counts are written beside what the services keep.
  logged_mux-world :
      (hs : Headers) (r : Request) (s : State lib deps)
      → (logged_mux lib deps now hs r s).1.1.1.1 ≡ (serve_mux (routes lib deps now) hs r s.1).1.1.1
  unfolding logged_mux logging count_requests
  logged_mux-world hs r s = elim (Bool-cases (skip_request_log r.path)) [
    | inl e ↦ rw (e, logging) refl
    | inr e ↦ rw (e, logging) refl
  ]

  logged_mux-Kept :
      (hs : Headers) (r : Request) (s : State lib deps)
      → Known cfg services now r s.1
      → Kept r s (logged_mux lib deps now hs r s)
  logged_mux-Kept hs r s known = elim (mux-Safe cfg services now lib hs r s.1 known) [
    | inl e ↦ inl (logged_mux-world hs r s ∙ e)
    | inr permitted ↦ inr permitted
  ]

  authenticated-Kept :
      (hs : Headers) (r : Request) (s : State lib deps)
      → r.tenant ≡ none
      → Kept r s (authenticated lib deps now hs r s)
  unfolding authenticated auth_or_public
  authenticated-Kept hs r s fresh = elim (Bool-cases (is_open r)) [
    | inl e ↦ rw (e, auth_or_public) (logged_mux-Kept hs r s (inl fresh))
    | inr e ↦
        elim (auth_or_public-cases services.platform (services.auth_ports s.1.1.1)
          (logged_mux lib deps now) hs r s e) [
            | inr (status, message, _, same) ↦ inl (ap (λ (x : Served). x.1.1.1.1) same)
            | inl (tc, genuine, same) ↦
                let moved = ap (λ (x : Served). x.1.1.1.1) same in
                elim (logged_mux-Kept hs (with_tenant_id tc.tenant.id r) s (inr (tc, genuine))) [
                  | inl kept ↦ inl (moved ∙ kept)
                  | inr permitted ↦ inr (Permitted-tenant tc.tenant.id r s.1 permitted)
                ]
          ]
  ]

  with_origins-Kept :
      (origins : List Text) (hs : Headers) (r : Request) (s : State lib deps)
      → r.tenant ≡ none
      → Kept r s (with_origins lib deps origins (authenticated lib deps now) hs r s)
  with_origins-Kept [] hs r s fresh = authenticated-Kept hs r s fresh
  with_origins-Kept (o ∷ os) hs r s fresh =
      elim (cors-cases (o ∷ os) (authenticated lib deps now) hs r s) [
        | inl (_, same) ↦ inl (ap (λ (x : Served). x.1.1.1.1) same)
        | inr (_, same) ↦
            subst (Kept r s) (sym same)
              (authenticated-Kept (with_cors (o ∷ os) (r.header "Origin") hs) r s fresh)
      ]

  -- Whatever the server is sent, with no tenant in its context yet, the services keep what they had, unless
  -- the request is permitted: it has a genuine key and is for the route of a tenant's rules; or it is for
  -- the route of the checks with a genuine key that is not for administration, or for the route of the
  -- sign-ups from a client below its quota; or it carries a genuine key for administration as a bearer
  -- token, or the token of the operator, which is then not empty.
  pub new_mux-Permitted :
      (hs : Headers) (r : Request) (s : State lib deps)
      → r.tenant ≡ none
      → ((new_mux lib deps now hs r s).1.1.1.1 ≡ s.1.1.1) ⊎ Permitted cfg services now r s.1
  unfolding new_mux
  new_mux-Permitted hs r s fresh = with_origins-Kept cfg.dashboard_origins hs r s fresh

  -- What becomes of a request that is turned away.
  abbrev pub IsRefused : Request → State lib deps → List Text → Served → Type 0
  IsRefused r s origins result =
      (result.1 ≡ s)
      × (((result.0.status ≡ 204) × (is_preflight r ≡ true) × (origins ≢ []))
          ⊎ (result.0.status ≡ 401)
          ⊎ (result.0.status ≡ 403)
          ⊎ (result.0.status ≡ 503))

  -- A request without a genuine key.
  module _ (r : Request) (s : State lib deps) (closed : is_open r ≡ false)
      (unknown : (tc : TenantContext)
        → ¬ IsGenuine services.platform
            (services.auth_ports s.1.1.1)
            (r.header "X-API-Key")
            tc) where
    authenticated-Refuses : (hs : Headers) → Refuses hs s (authenticated lib deps now hs r s)
    unfolding authenticated
    authenticated-Refuses hs =
        elim (auth_or_public-cases services.platform (services.auth_ports s.1.1.1)
          (logged_mux lib deps now) hs r s closed) [
            | inl (tc, genuine, _) ↦ absurd (unknown tc genuine)
            | inr refused ↦ refused
          ]

    Refuses-IsRefused :
        (origins : List Text) (hs : Headers) (result : Served)
        → Refuses hs s result
        → IsRefused r s origins result
    unfolding write_error write_json
    Refuses-IsRefused origins hs result (status, message, known, same) =
        let sent : result.0.status ≡ status = ap (λ (x : Served). x.0.status) same in
        (
          ap (λ (x : Served). x.1) same,
          elim known [
            | inl e ↦ inr (inl (sent ∙ e))
            | inr (inl e) ↦ inr (inr (inl (sent ∙ e)))
            | inr (inr e) ↦ inr (inr (inr (sent ∙ e)))
          ],
        )

    with_origins-IsRefused :
        (origins : List Text) (hs : Headers)
        → IsRefused r s origins (with_origins lib deps origins (authenticated lib deps now) hs r s)
    with_origins-IsRefused [] hs = Refuses-IsRefused [] hs _ (authenticated-Refuses hs)
    with_origins-IsRefused (o ∷ os) hs =
        elim (cors-cases (o ∷ os) (authenticated lib deps now) hs r s) [
          | inl (preflight, same) ↦ (
            ap (λ (x : Served). x.1) same,
            inl (ap (λ (x : Served). x.0.status) same, preflight, λ e. cc),
          )
          | inr (_, same) ↦
              let sent = with_cors (o ∷ os) (r.header "Origin") hs in
              subst (IsRefused r s (o ∷ os)) (sym same)
                (Refuses-IsRefused (o ∷ os) sent _ (authenticated-Refuses sent))
        ]

    -- On any other path than the health, metrics, admin and project routes, a request without a genuine
    -- key is answered with 204 where it is a preflight and origins are configured, and with 401, 403
    -- or 503 otherwise, and nothing at all changes: it is not even counted.
    pub new_mux-IsRefused :
        (hs : Headers) → IsRefused r s cfg.dashboard_origins (new_mux lib deps now hs r s)
    unfolding new_mux
    new_mux-IsRefused hs = with_origins-IsRefused cfg.dashboard_origins hs
