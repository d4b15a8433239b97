-- ===== src/Postgres.antt =====
-- The tables of migrations/*.sql, and the statements of internal/infrastructure/postgres on them.
-- A table is the list of its rows in the order of their insertion.
pub mod Rows
pub mod Projects
pub mod Keys
pub mod Dashboard
pub mod History
pub mod Consistency
use text.Mathlib.Text.{◌==◌ as str_eq}
use go_rate_limiter.Prelude.{
  ℕ, ◌+◌, ◌*◌, ◌/◌, ◌^◌, Bool, true, false, ◌&&◌, ◌||◌, not, String, Option, none, some, List, [],
  ◌∷◌, ◌++◌, if◌then◌else◌, ltb, leb, ◌==◌,
}
use go_rate_limiter.Prelude.Int.{ℤ, pos, negsuc, pos_part, leb_ℤ, eqb_ℤ}
use go_rate_limiter.Prelude.Sorting.{filter}
use go_rate_limiter.Prelude.Text.{Text, text_eq}
use go_rate_limiter.Errors.{
  Error, Result, ok, err, ◌>>=◌, sentinel, wrap, other, project_exists, tenant_not_found,
  api_key_not_found,
}
use go_rate_limiter.Entity.{
  Uuid, Rule, ApiKey, Tenant, parse_algorithm, is_valid_algorithm, key_active, key_revoked,
  tenant_active, role_admin, role_check,
}
use go_rate_limiter.Provisioning.{NewProject, is_role}

pub record TenantRow : Type 0 where
  pub id : Uuid
  pub name : Text
  pub status : String
  pub created_at : ℕ

pub record KeyRow : Type 0 where
  pub id : Uuid
  pub tenant_id : Uuid
  pub key_hash : Text
  pub key_prefix : Text
  pub status : String
  pub role : String
  pub created_at : ℕ

-- `none` is NULL.
pub record RuleRow : Type 0 where
  pub id : Uuid
  pub tenant_id : Uuid
  pub route_pattern : Text
  pub algorithm : String
  pub limit_count : Option ℤ
  pub window_seconds : Option ℤ
  pub bucket_capacity : Option ℤ
  pub refill_rate : Option ℤ
  pub enabled : Bool

pub record Db : Type 0 where
  pub tenants : List TenantRow
  pub keys : List KeyRow
  pub rules : List RuleRow

-- What the code tells apart of the server's errors: the code 23505, and any other.
pub data PgError : Type 0 where
  unique_violation failure : PgError

pub data Outcome : Type 0 where
  done : Db → Outcome
  failed : PgError → Outcome

-- `find p rows` is the row that a query for at most one gives.
abbrev pub find {ℓ} : {A : Type ℓ} → (A → Bool) → List A → Option A
find p [] = none
find p (x ∷ xs) = if p x then some x else find p xs

abbrev pub exists {ℓ} : {A : Type ℓ} → (A → Bool) → List A → Bool
exists p [] = false
exists p (x ∷ xs) = p x || exists p xs

unfoldable pub insert_tenant : TenantRow → Db → Outcome
insert_tenant row db =
    if exists (λ (t : TenantRow). t.id == row.id || text_eq t.name row.name) db.tenants
    then failed unique_violation
    else done (record db { tenants = db.tenants ++ row ∷ [] })

-- The role is checked, the tenant referred to, and the hash unique.
unfoldable pub insert_key : KeyRow → Db → Outcome
insert_key row db =
    if not (is_role row.role)
    then failed failure
    else if exists (λ (k : KeyRow). k.id == row.id || text_eq k.key_hash row.key_hash) db.keys
    then failed unique_violation
    else if exists (λ (t : TenantRow). t.id == row.tenant_id) db.tenants
    then done (record db { keys = db.keys ++ row ∷ [] })
    else failed failure

-- A column of the type INT.
abbrev pub fits_int : Option ℤ → Bool
fits_int none = true
fits_int (some a) = leb_ℤ a (pos 2_147_483_647) && leb_ℤ (negsuc 2_147_483_647) a

-- A column of the type NUMERIC(10, 2) rounds to hundredths, half of one up. A rule that is inserted
-- has been validated, so no rate is negative.
abbrev pub to_hundredths : ℤ → ℤ
to_hundredths (pos n) = pos ((n + 5000) / 10_000 * 10_000)
to_hundredths (negsuc n) = negsuc n

abbrev pub rounded : Option ℤ → Option ℤ
rounded none = none
rounded (some a) = some (to_hundredths a)

-- Less than a hundred million.
abbrev pub fits_numeric : Option ℤ → Bool
fits_numeric none = true
fits_numeric (some a) = ltb (pos_part a) 100_000_000_000_000

unfoldable pub insert_rule : RuleRow → Db → Outcome
insert_rule row db =
    if not (
      is_valid_algorithm row.algorithm
      && fits_int row.limit_count
      && fits_int row.window_seconds
      && fits_int row.bucket_capacity
      && fits_numeric (rounded row.refill_rate))
    then failed failure
    else if exists
        (λ (r : RuleRow).
          r.id == row.id
          || (r.tenant_id == row.tenant_id && text_eq r.route_pattern row.route_pattern))
        db.rules
    then failed unique_violation
    else if exists (λ (t : TenantRow). t.id == row.tenant_id) db.tenants
    then done (record db {
      rules = db.rules ++ record row { refill_rate = rounded row.refill_rate } ∷ [];
    })
    else failed failure

unfoldable pub null_if_zero : ℤ → Option ℤ
null_if_zero v = if eqb_ℤ v (pos 0) then none else some v

unfoldable pub wrap_unique : PgError → Error
wrap_unique unique_violation = wrap "%s: %w" (sentinel project_exists)
wrap_unique failure = wrap "%s: %w" (other "postgres")

-- `COALESCE(column, 0)`
abbrev pub coalesce : Option ℤ → ℤ
coalesce none = pos 0
coalesce (some a) = a

unfoldable pub scan_rule : RuleRow → Result Rule
scan_rule row = elim (parse_algorithm row.algorithm) [
  | none ↦ err (other "unknown algorithm %q")
  | some algorithm ↦ ok (record {
    id = row.id;
    tenant_id = row.tenant_id;
    route_pattern = row.route_pattern;
    algorithm = algorithm;
    enabled = row.enabled;
    limit_count = coalesce row.limit_count;
    window_seconds = coalesce row.window_seconds;
    bucket_capacity = coalesce row.bucket_capacity;
    refill_rate = coalesce row.refill_rate;
  })
]

abbrev pub scan_rules : List RuleRow → Result (List Rule)
scan_rules [] = ok []
scan_rules (row ∷ rows) = do rule ← scan_rule row; rules ← scan_rules rows; ok (rule ∷ rules)

-- A query whose rows do not come back, with the message put before the error.
abbrev pub query {ℓ} : {A : Type ℓ} → Bool → String → Result A → Result A
query reached message answer = if reached then answer else err (wrap message (other "postgres"))

-- `by_pattern` is the order that the database gives to texts.
unfoldable pub list_by_tenant :
    (List RuleRow → List RuleRow) → Bool → Db → Uuid → Result (List Rule)
list_by_tenant by_pattern reached db tenant_id =
    query reached "list rules by tenant: %w"
      (scan_rules (by_pattern (filter (λ (r : RuleRow). r.tenant_id == tenant_id) db.rules)))

-- `ListAll`, in the order of the tenants and their patterns.
unfoldable pub list_all : (List RuleRow → List RuleRow) → Bool → Db → Result (List Rule)
list_all by_tenant_and_pattern reached db =
    query reached "list all rules: %w" (scan_rules (by_tenant_and_pattern db.rules))

abbrev pub api_key_of : KeyRow → ApiKey
api_key_of row = record {
  id = row.id;
  tenant_id = row.tenant_id;
  key_prefix = row.key_prefix;
  status = row.status;
  role = row.role;
}

-- The row of a key with the hash.
unfoldable pub find_by_hash : Db → Text → Result ApiKey
find_by_hash db hash = elim (find (λ (k : KeyRow). text_eq k.key_hash hash) db.keys) [
  | none ↦ err (sentinel api_key_not_found)
  | some row ↦ ok (api_key_of row)
]

-- The row of a tenant with the id.
unfoldable pub get_by_id : Db → Uuid → Result Tenant
get_by_id db tenant_id = elim (find (λ (t : TenantRow). t.id == tenant_id) db.tenants) [
  | none ↦ err (sentinel tenant_not_found)
  | some row ↦ ok (record { id = row.id; name = row.name; status = row.status })
]

-- The repositories of keys and tenants, where the server is reached or not.
abbrev pub find_api_key : Bool → Db → Text → Result ApiKey
find_api_key reached db hash = query reached "find api key: %w" (find_by_hash db hash)

abbrev pub get_tenant : Bool → Db → Uuid → Result Tenant
get_tenant reached db tenant_id = query reached "get tenant: %w" (get_by_id db tenant_id)
