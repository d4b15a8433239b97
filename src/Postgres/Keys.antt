-- ===== src/Postgres/Keys.antt =====
-- `AddAPIKey` and `RevokeAPIKey` of internal/infrastructure/postgres/project_repository.go, and
-- authentication on the tables that they leave.
pub mod Revoked
pub mod Final
use go_rate_limiter.Prelude.{
  ℕ, Bool, true, false, ◌&&◌, not, String, List, [], ◌∷◌, map, if◌then◌else◌, ◌==◌,
}
use go_rate_limiter.Prelude.Text.{Text}
use go_rate_limiter.Errors.{
  Error, Result, ok, err, sentinel, wrap, other, tenant_not_found, api_key_not_found,
}
use go_rate_limiter.Entity.{Uuid, key_active, key_revoked}
use go_rate_limiter.Auth.{AuthPorts}
use go_rate_limiter.Postgres.{
  Db, TenantRow, KeyRow, PgError, failure, Outcome, done, failed, exists, insert_key, wrap_unique,
  find_api_key, get_tenant,
}
use go_rate_limiter.Postgres.Projects.{Fault, works, fails, lost}

-- What a statement outside a transaction returns and leaves; the error is made by `mark`.
abbrev pub settled : Fault → (PgError → Error) → Db → Outcome → Result (Unit {0}) × Db
settled works mark db (done after) = (ok tt, after)
settled works mark db (failed e) = (err (mark e), db)
settled fails mark db o = (err (mark failure), db)
settled lost mark db (done after) = (err (mark failure), after)
settled lost mark db (failed e) = (err (mark failure), db)

-- `RowsAffected() == 0`
abbrev pub none_affected : Fault → (PgError → Error) → Error → Db → Result (Unit {0}) × Db
none_affected works mark e db = (err e, db)
none_affected _ mark e db = (err (mark failure), db)

abbrev pub mark_revoke : PgError → Error
mark_revoke e = wrap "revoke key: %w" (other "postgres")

abbrev pub is_row : Uuid → Uuid → KeyRow → Bool
is_row tenant_id key_id k = k.id == key_id && k.tenant_id == tenant_id

-- `UPDATE api_keys SET status = 'revoked' WHERE id = $1 AND tenant_id = $2`
abbrev pub revoke_row : Uuid → Uuid → KeyRow → KeyRow
revoke_row tenant_id key_id k =
    if is_row tenant_id key_id k then record k { status = key_revoked } else k

-- `fresh` is the id that the server makes for the key, `now` its clock.
unfoldable pub store_key :
    Fault → Uuid → ℕ → Uuid → Text → Text → String → Db → Result (Unit {0}) × Db
unfolding wrap_unique
store_key fault fresh now tenant_id key_hash key_prefix role db =
    if exists (λ (t : TenantRow). t.id == tenant_id) db.tenants
    then settled fault wrap_unique db (
        insert_key
          (record {
            id = fresh;
            tenant_id = tenant_id;
            key_hash = key_hash;
            key_prefix = key_prefix;
            status = key_active;
            role = role;
            created_at = now;
          })
          db)
    else none_affected fault wrap_unique (sentinel tenant_not_found) db

unfoldable pub revoke_key : Fault → Uuid → Uuid → Db → Result (Unit {0}) × Db
revoke_key fault tenant_id key_id db =
    if exists (is_row tenant_id key_id) db.keys
    then settled fault mark_revoke db
        (done (record db { keys = map (revoke_row tenant_id key_id) db.keys }))
    else none_affected fault mark_revoke (sentinel api_key_not_found) db

-- The ports of the authentication service, on the tables of a server that is reached.
abbrev pub auth_ports : Db → AuthPorts
auth_ports db = record { find_by_hash = find_api_key true db; get_by_id = get_tenant true db }
