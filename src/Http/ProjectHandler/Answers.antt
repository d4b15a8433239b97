-- ===== src/Http/ProjectHandler/Answers.antt =====
-- What the console of internal/transport/http/handlers/project.go changes, and how it answers.
use go_rate_limiter.Prelude.{
  ◌≡◌, refl, ◌↔◌, ◌⊎◌, inl, inr, true, false, Option, some, arith, ==_iff, Option-cases,
}
use go_rate_limiter.Prelude.Text.{Text}
use go_rate_limiter.Errors.{
  Error, Result, ok, err, is, DomainError, code, sentinel, other, wrap, project_exists,
  tenant_not_found, invalid_input,
}
use go_rate_limiter.Entity.{Uuid, role_admin}
use go_rate_limiter.Redis.Keys.{Platform}
use go_rate_limiter.Auth.{AuthPorts, TenantContext, authenticate}
use go_rate_limiter.Auth.Soundness.{IsGenuine}
use go_rate_limiter.Http.{Request, Headers, Handler, write_json, write_error, with_tenant_id}
use go_rate_limiter.Http.Middleware.{project_auth, bearer_token}
use go_rate_limiter.Http.Middleware.Guards.{project_auth-cases}
use go_rate_limiter.Http.ProjectHandler.{
  ProjectService, CreateProjectBody, AddKeyBody, answered, revoke_error, write_project_error,
  console_revoke_key,
}

module _ (parse_uuid : Text → Option Uuid) (unmarshal_project : Text → Option CreateProjectBody)
    (unmarshal_key : Text → Option AddKeyBody) {S : Type 0} (projects : ProjectService S)
    (p : Platform) (ports : AuthPorts) (hs : Headers) (r : Request) (s : S) where
  abbrev revoke_handler : Handler S
  revoke_handler = console_revoke_key parse_uuid unmarshal_project unmarshal_key projects

  revoke_key-left :
      (t : Uuid)
      → let left = (revoke_handler hs (with_tenant_id t r) s).1 in
        (left ≡ s)
        ⊎ ((k : Uuid) × (parse_uuid (r.path_value "keyId") ≡ some k)
            × (left ≡ (projects.revoke_api_key t k s).1))
  unfolding console_revoke_key
  revoke_key-left t = elim (Option-cases (parse_uuid (r.path_value "keyId"))) [
    | inl e ↦ inl (rw (e, console_revoke_key) refl)
    | inr (k, e) ↦ inr (k, e, rw (e, console_revoke_key) (answered-left _))
  ]
    where
      answered-left :
          (result : Result (Unit {0}) × S) → (answered 204 revoke_error hs result).1 ≡ result.1
      answered-left (ok _, left) = refl
      answered-left (err e, left) = refl

  -- The route that revokes keys changes nothing, or it revokes the key that the path names in the
  -- name of the tenant of the bearer token, which is a genuine key with the role "admin".
  pub console_revoke-scoped :
      let left = (project_auth (authenticate p ports) revoke_handler hs r s).1 in
      (left ≡ s)
      ⊎ ((raw : Text) × (tc : TenantContext) × (k : Uuid) × (bearer_token r ≡ some raw)
          × IsGenuine p ports raw tc
          × (tc.api_key.role ≡ role_admin)
          × (parse_uuid (r.path_value "keyId") ≡ some k)
          × (left ≡ (projects.revoke_api_key tc.tenant.id k s).1))
  console_revoke-scoped = elim (project_auth-cases p ports revoke_handler hs r s) [
    | inr (status, message, _, e) ↦ inl (rw e refl)
    | inl (raw, tc, b, g, a, e) ↦ elim (revoke_key-left tc.tenant.id) [
      | inl f ↦ inl (rw e f)
      | inr (k, f, left) ↦ inr (raw, tc, k, b, g, a, f, rw e left)
    ]
  ]

is-one : (e : Error) (a b : DomainError) → is e a ≡ true → is e b ≡ true → code a ≡ code b
is-one (sentinel d) a b h k = ground (arith, ==_iff (code d) (code a), ==_iff (code d) (code b))
is-one (other message) a b h k = cc
is-one (wrap message e) a b h k = is-one e a b h k

-- An error of the provisioning service is answered with 409 exactly if it says that the project
-- exists, with 404 exactly if it says that the tenant is not found, with 400 exactly if it says that
-- the input is invalid, and with 503 exactly if it says none of these.
write_project_error-status :
    (e : Error) (hs : Headers)
    → let status = (write_project_error e hs).status in
      ((status ≡ 409) ↔ (is e project_exists ≡ true))
      × ((status ≡ 404) ↔ (is e tenant_not_found ≡ true))
      × ((status ≡ 400) ↔ (is e invalid_input ≡ true))
      × ((status ≡ 503) ↔ (
          (is e project_exists ≡ false)
          × (is e tenant_not_found ≡ false)
          × (is e invalid_input ≡ false)))
unfolding write_project_error write_error write_json
write_project_error-status e hs =
    let a = is-one e project_exists tenant_not_found in
    let b = is-one e project_exists invalid_input in
    let c = is-one e tenant_not_found invalid_input in
    (
      ((λ h. ground arith), λ h. ground arith),
      ((λ h. ground arith), λ h. ground (arith, h, a)),
      ((λ h. ground arith), λ h. ground (arith, h, b, c)),
      (
        (λ h. (ground arith, ground arith, ground arith)),
        λ h. let x = h.0 in let y = h.1 in let z = h.2 in ground (arith, x, y, z),
      ),
    )
