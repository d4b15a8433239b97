-- ===== src/Auth/Soundness.antt =====
-- Whom internal/application/auth_service.go authenticates, and how a refusal is answered.
use go_rate_limiter.Prelude.{String, ℕ, ◌≡◌, ◌≢◌, refl, ◌↔◌, ◌⊎◌, true, false, arith, []}
use go_rate_limiter.Prelude.Text.{Text, text_eq_iff}
use go_rate_limiter.Errors.{Error, ok, err, sentinel, wrap, tenant_suspended, api_key_revoked}
use go_rate_limiter.Entity.{ApiKey, Tenant, is_key_active, is_tenant_active}
use go_rate_limiter.Redis.Keys.{Platform}
use go_rate_limiter.Auth.{
  AuthPorts, TenantContext, hash_api_key, authenticate, authenticate_or_error, map_auth_error,
}

module _ (p : Platform) (ports : AuthPorts) where
  -- The key that hashes to what is stored, with its status, and the key's tenant with its status.
  pub record IsGenuine (raw : Text) (tc : TenantContext) : Type 0 where
    pub given : raw ≢ []
    pub stored : ports.find_by_hash (hash_api_key p raw) ≡ ok tc.api_key
    pub key_on : is_key_active tc.api_key ≡ true
    pub owner : ports.get_by_id tc.api_key.tenant_id ≡ ok tc.tenant
    pub tenant_on : is_tenant_active tc.tenant ≡ true

  authenticate← :
      (raw : Text) (tc : TenantContext) → IsGenuine raw tc → authenticate p ports raw ≡ ok tc
  unfolding authenticate
  authenticate← raw tc g = ground (arith, text_eq_iff raw [])

  authenticate→ :
      (raw : Text) (tc : TenantContext) → authenticate p ports raw ≡ ok tc → IsGenuine raw tc
  unfolding authenticate
  authenticate→ raw tc e = record {
    given = ground (arith, text_eq_iff raw []);
    stored = ground arith;
    key_on = ground arith;
    owner = ground arith;
    tenant_on = ground arith;
  }

  -- A raw key is authenticated as a tenant exactly when it is not empty, its hash is stored for a key
  -- that is active, and that key's tenant is there and active.
  pub authenticate_iff :
      (raw : Text) (tc : TenantContext) → (authenticate p ports raw ≡ ok tc) ↔ IsGenuine raw tc
  authenticate_iff raw tc = (authenticate→ raw tc, authenticate← raw tc)

  abbrev pub Refused : Text → ℕ × String → Type 0
  Refused raw answer =
      (e : Error) × (authenticate p ports raw ≡ err e) × (map_auth_error e ≡ answer)

  -- A stored key that is not active is refused with 401, whoever owns it.
  pub revoked_status :
      (raw : Text) (key : ApiKey)
      → raw ≢ []
      → ports.find_by_hash (hash_api_key p raw) ≡ ok key
      → is_key_active key ≡ false
      → Refused raw (401, "unauthorized")
  unfolding authenticate map_auth_error
  revoked_status raw key n found off =
      (sentinel api_key_revoked, ground (arith, text_eq_iff raw []), refl)

  -- An active key of a tenant that is not active is refused with 403.
  pub suspended_status :
      (raw : Text) (key : ApiKey) (tenant : Tenant)
      → raw ≢ []
      → ports.find_by_hash (hash_api_key p raw) ≡ ok key
      → is_key_active key ≡ true
      → ports.get_by_id key.tenant_id ≡ ok tenant
      → is_tenant_active tenant ≡ false
      → Refused raw (403, "tenant_suspended")
  unfolding authenticate map_auth_error
  suspended_status raw key tenant n found on owner off =
      (sentinel tenant_suspended, ground (arith, text_eq_iff raw []), refl)

-- The message that `AuthenticateOrError` puts before an error does not change the answer.
pub authenticate_or_error-status :
    (p : Platform) (ports : AuthPorts) (raw : Text) (e : Error)
    → authenticate p ports raw ≡ err e
    → (d : Error) × (authenticate_or_error p ports raw ≡ err d)
      × (map_auth_error d ≡ map_auth_error e)
unfolding authenticate_or_error map_auth_error
authenticate_or_error-status p ports raw e h = (wrap "authenticate: %w" e, ground arith, refl)

-- Every error is answered by 401, 403 or 503: none lets a request through.
pub map_auth_error-status :
    (e : Error)
    → ((map_auth_error e).0 ≡ 401) ⊎ ((map_auth_error e).0 ≡ 403) ⊎ ((map_auth_error e).0 ≡ 503)
unfolding map_auth_error
map_auth_error-status e = ground arith
