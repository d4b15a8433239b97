-- ===== src/Auth.antt =====
-- internal/application/auth_service.go and `HashAPIKey` of pkg/httputil/response.go. The repositories
-- are the ports of internal/domain/ports.
pub mod Soundness
use go_rate_limiter.Prelude.{ℕ, Bool, true, false, ◌||◌, not, String, List, [], ◌∷◌, if◌then◌else◌}
use go_rate_limiter.Prelude.Text.{Text, text_eq}
use go_rate_limiter.Errors.{
  Error, Result, ok, err, ◌>>=◌, sentinel, wrap, is, tenant_not_found, tenant_suspended,
  api_key_not_found, api_key_revoked,
}
use go_rate_limiter.Entity.{Uuid, ApiKey, Tenant, is_key_active, is_tenant_active}
use go_rate_limiter.Redis.Keys.{Platform, hex_encode}

pub record AuthPorts : Type 0 where
  pub find_by_hash : Text → Result ApiKey
  pub get_by_id : Uuid → Result Tenant

pub record TenantContext : Type 0 where
  pub tenant : Tenant
  pub api_key : ApiKey

unfoldable pub hash_api_key : Platform → Text → Text
hash_api_key p raw = hex_encode (p.sha256 raw)

module _ (p : Platform) (ports : AuthPorts) where
  unfoldable pub authenticate : Text → Result TenantContext
  authenticate raw_api_key = if text_eq raw_api_key [] then err (sentinel api_key_not_found) else do
    key ← ports.find_by_hash (hash_api_key p raw_api_key)
    if not (is_key_active key) then err (sentinel api_key_revoked) else do
      tenant ← ports.get_by_id key.tenant_id
      if not (is_tenant_active tenant)
          then err (sentinel tenant_suspended)
          else ok (record { tenant = tenant; api_key = key })

  unfoldable pub authenticate_or_error : Text → Result TenantContext
  authenticate_or_error raw_api_key = elim (authenticate raw_api_key) [
    | ok tc ↦ ok tc
    | err e ↦ err (wrap "authenticate: %w" e)
  ]

-- The status and the message of the answer.
unfoldable pub map_auth_error : Error → ℕ × String
map_auth_error e =
    if is e api_key_not_found || is e api_key_revoked
    then (401, "unauthorized")
    else if is e tenant_suspended
    then (403, "tenant_suspended")
    else if is e tenant_not_found
    then (401, "unauthorized")
    else (503, "service_unavailable")
