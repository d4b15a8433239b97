-- ===== src/Http/Middleware/Guards.antt =====
-- Which requests the middleware of auth.go, project_auth.go and admin.go passes on.
use text.Mathlib.Text.{◌==◌ as str_eq}
use text.Mathlib.TextEquality.{eq_iff}
use go_rate_limiter.Prelude.{
  ℕ, ◌≡◌, ◌≢◌, refl, ◌⊎◌, inl, inr, false, ◌||◌, String, some, [], Bool-cases, Option-cases,
}
use go_rate_limiter.Prelude.Text.{Text, text_eq, text_eq_iff, trim_space, cut_prefix}
use go_rate_limiter.Errors.{Error, Result-cases}
use go_rate_limiter.Entity.{role_admin, can_manage_project}
use go_rate_limiter.Redis.Keys.{Platform}
use go_rate_limiter.Auth.{AuthPorts, TenantContext, authenticate, map_auth_error}
use go_rate_limiter.Auth.Soundness.{IsGenuine, authenticate_iff, map_auth_error-status}
use go_rate_limiter.Http.{Request, Response, Headers, Handler, write_error, with_tenant_id}
use go_rate_limiter.Http.Middleware.{
  bearer, bearer_token, public_paths, is_admin_path, is_project_path, admin_auth, auth_wrap,
  auth_or_public, project_auth, require_check_role, refuse_auth,
}

-- A request that is refused: the handler behind is not called, and the state is left.
abbrev pub Refuses : {S : Type 0} → Headers → S → Response × S → Type 0
Refuses hs s result =
    (status : ℕ) × (message : String) × ((status ≡ 401) ⊎ (status ≡ 403) ⊎ (status ≡ 503))
    × (result ≡ (write_error status message hs, s))

auth-Refuses : {S : Type 0} (hs : Headers) (s : S) (e : Error) → Refuses hs s (refuse_auth e hs s)
auth-Refuses hs s e = ((map_auth_error e).0, (map_auth_error e).1, map_auth_error-status e, refl)

module _ (p : Platform) (ports : AuthPorts) {S : Type 0} (next : Handler S) (hs : Headers)
    (r : Request) (s : S) where
  abbrev key : Text
  key = r.header "X-API-Key"

  -- On a path that is not public and not of the admin or the project routes, a request is passed on
  -- as the tenant of its genuine key, or it is refused with 401, 403 or 503.
  pub auth_or_public-cases :
      (public_paths r.path || is_admin_path r.path || is_project_path r.path) ≡ false
      → let result = auth_or_public (authenticate p ports) next hs r s in
        ((tc : TenantContext) × IsGenuine p ports key tc
          × (result ≡ next hs (with_tenant_id tc.tenant.id r) s))
        ⊎ Refuses hs s result
  unfolding auth_or_public auth_wrap
  auth_or_public-cases closed = elim (Result-cases (authenticate p ports key)) [
    | inl (tc, e) ↦ inl (
      tc,
      (authenticate_iff p ports key tc).0 e,
      rw (closed, auth_or_public) (rw (e, auth_wrap) refl),
    )
    | inr (f, e) ↦ inr (rw (closed, auth_or_public) (rw (e, auth_wrap) (auth-Refuses hs s f)))
  ]

  -- The routes of a project are passed on for a bearer token that is a genuine key with the role
  -- "admin", as the tenant of that key, or refused with 401, 403 or 503.
  pub project_auth-cases :
      let result = project_auth (authenticate p ports) next hs r s in
      ((raw : Text) × (tc : TenantContext) × (bearer_token r ≡ some raw)
        × IsGenuine p ports raw tc
        × (tc.api_key.role ≡ role_admin)
        × (result ≡ next hs (with_tenant_id tc.tenant.id r) s))
      ⊎ Refuses hs s result
  unfolding project_auth can_manage_project
  project_auth-cases = elim (Option-cases (bearer_token r)) [
    | inl e ↦ inr (401, "unauthorized", inl refl, rw (e, project_auth) refl)
    | inr (raw, e) ↦ elim (Result-cases (authenticate p ports raw)) [
      | inr (f, g) ↦ inr (rw (e, g, project_auth) (auth-Refuses hs s f))
      | inl (tc, g) ↦ elim (Bool-cases (str_eq tc.api_key.role role_admin)) [
        | inr n ↦ inr (401, "unauthorized", inl refl, rw (e, g, n, project_auth) refl)
        | inl a ↦ inl (
          raw,
          tc,
          e,
          (authenticate_iff p ports raw tc).0 g,
          (eq_iff tc.api_key.role role_admin).0 a,
          rw (e, g, a, project_auth) refl,
        )
      ]
    ]
  ]

  -- A check is passed on for a genuine key whose role is not "admin", or refused with 401, 403 or
  -- 503.
  pub require_check_role-cases :
      let result = require_check_role (authenticate p ports) next hs r s in
      ((tc : TenantContext) × IsGenuine p ports key tc
        × (tc.api_key.role ≢ role_admin)
        × (result ≡ next hs r s))
      ⊎ Refuses hs s result
  unfolding require_check_role
  require_check_role-cases = elim (Result-cases (authenticate p ports key)) [
    | inr (f, g) ↦ inr (rw (g, require_check_role) (auth-Refuses hs s f))
    | inl (tc, g) ↦ elim (Bool-cases (str_eq tc.api_key.role role_admin)) [
      | inl a ↦
          inr (403, "admin_key_cannot_check", inr (inl refl), rw (g, a, require_check_role) refl)
      | inr n ↦ inl (
        tc,
        (authenticate_iff p ports key tc).0 g,
        (λ e. let yes = (eq_iff tc.api_key.role role_admin).1 e in cc),
        rw (g, n, require_check_role) refl,
      )
    ]
  ]

  -- The admin routes are passed on exactly as they came, for a token that is not empty and that the
  -- header "Authorization" carries after "Bearer ", up to white space, or refused with 401 or 503.
  pub admin_auth-cases :
      (token : Text)
      → let result = admin_auth token next hs r s in
        ((presented : Text) × (token ≢ [])
          × (cut_prefix (r.header "Authorization") bearer ≡ some presented)
          × (trim_space presented ≡ token)
          × (result ≡ next hs r s))
        ⊎ Refuses hs s result
  unfolding admin_auth
  admin_auth-cases token = elim (Bool-cases (text_eq token [])) [
    | inl e ↦ inr (503, "admin_api_disabled", inr (inr refl), rw (e, admin_auth) refl)
    | inr e ↦ elim (Option-cases (cut_prefix (r.header "Authorization") bearer)) [
      | inl f ↦ inr (401, "unauthorized", inl refl, rw (e, f, admin_auth) refl)
      | inr (presented, f) ↦ elim (Bool-cases (text_eq (trim_space presented) token)) [
        | inr g ↦ inr (401, "unauthorized", inl refl, rw (e, f, g, admin_auth) refl)
        | inl g ↦ inl (
          presented,
          (λ z. let yes = (text_eq_iff token []).1 z in cc),
          f,
          (text_eq_iff (trim_space presented) token).0 g,
          rw (e, f, g, admin_auth) refl,
        )
      ]
    ]
  ]
