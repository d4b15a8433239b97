-- ===== src/Postgres/Keys/Revoked.antt =====
-- Authentication after `RevokeAPIKey` and `CreateProject` of project_repository.go.
use go_rate_limiter.Prelude.{
  ◌≡◌, ap, ◌≢◌, refl, ◌⊎◌, inl, inr, Bool, true, some, List, [], ◌∷◌, map, arith, ◌==◌,
  Option-cases, Bool-cases, ==_iff,
}
use go_rate_limiter.Prelude.Text.{Text, text_eq}
use go_rate_limiter.Errors.{ok}
use go_rate_limiter.Entity.{Uuid, ApiKey, Tenant, tenant_active, is_key_active, is_tenant_active}
use go_rate_limiter.Redis.Keys.{Platform}
use go_rate_limiter.Auth.{hash_api_key, authenticate}
use go_rate_limiter.Auth.Soundness.{authenticate_iff}
use go_rate_limiter.Provisioning.{NewProject}
use go_rate_limiter.Postgres.{
  Db, KeyRow, TenantRow, find, exists, api_key_of, find_by_hash, get_by_id,
}
use go_rate_limiter.Postgres.Projects.{Fault, works, fails, lost, Session, store_project, key_row}
use go_rate_limiter.Postgres.Projects.Atomic.{store_project-found}
use go_rate_limiter.Postgres.Keys.{is_row, revoke_row, revoke_key, auth_ports}

module _ (tenant_id key_id : Uuid) (hash : Text) where
  abbrev pub has_hash : KeyRow → Bool
  has_hash k = text_eq k.key_hash hash

  pub find-revoke_row :
      (rows : List KeyRow) (k : KeyRow)
      → find has_hash rows ≡ some k
      → find has_hash (map (revoke_row tenant_id key_id) rows)
        ≡ some (revoke_row tenant_id key_id k)
  find-revoke_row [] k h = cc
  find-revoke_row (r ∷ rows) k h = ground (arith, find-revoke_row rows k)

  pub exists-row :
      (rows : List KeyRow) (k : KeyRow)
      → find has_hash rows ≡ some k
      → is_row tenant_id key_id k ≡ true
      → exists (is_row tenant_id key_id) rows ≡ true
  exists-row [] k h e = cc
  exists-row (r ∷ rows) k h e = ground (arith, exists-row rows k)

pub find_by_hash-row :
    (db : Db) (hash : Text) (key : ApiKey)
    → find_by_hash db hash ≡ ok key
    → (k : KeyRow) × (find (λ (x : KeyRow). text_eq x.key_hash hash) db.keys ≡ some k)
      × (api_key_of k ≡ key)
unfolding find_by_hash
find_by_hash-row db hash key h =
    elim (Option-cases (find (λ (x : KeyRow). text_eq x.key_hash hash) db.keys)) [
      | inl e ↦ absurd (ground (arith, e))
      | inr (k, e) ↦ (k, e, ground (arith, e))
    ]

find-holds : {A : Type 0} (q : A → Bool) (xs : List A) (x : A) → find q xs ≡ some x → q x ≡ true
find-holds q [] x h = cc
find-holds q (y ∷ xs) x h = elim (Bool-cases (q y)) [
  | inl e ↦ let same : y ≡ x = ground (arith, e) in rw (← same) e
  | inr e ↦ find-holds q xs x (ground (arith, e))
]

pub get_by_id-id : (db : Db) (id : Uuid) (t : Tenant) → get_by_id db id ≡ ok t → t.id ≡ id
unfolding get_by_id
get_by_id-id db id t h = elim (Option-cases (find (λ (x : TenantRow). x.id == id) db.tenants)) [
  | inl e ↦ absurd (ground (arith, e))
  | inr (row, e) ↦
      let same = (==_iff row.id id).0 (find-holds _ db.tenants row e) in ground (arith, e, same)
]

pub row_of :
    (k : KeyRow) (key : ApiKey) (tenant_id : Uuid)
    → api_key_of k ≡ key
    → tenant_id ≡ key.tenant_id
    → is_row tenant_id key.id k ≡ true
row_of k key tenant_id same owner =
    ground (arith, ap (λ (x : ApiKey). x.id) same, ap (λ (x : ApiKey). x.tenant_id) same, owner)

revoke_row-other :
    (tenant_id key_id : Uuid) (k : KeyRow)
    → k.tenant_id ≢ tenant_id
    → revoke_row tenant_id key_id k ≡ k
revoke_row-other tenant_id key_id k n = ground arith

-- The table of the keys is left as it is, or each row of the key is revoked.
pub revoke_key-keys :
    (fault : Fault) (tenant_id key_id : Uuid) (db : Db)
    → let after = (revoke_key fault tenant_id key_id db).1 in
      (after.keys ≡ db.keys) ⊎ (after.keys ≡ map (revoke_row tenant_id key_id) db.keys)
unfolding revoke_key
revoke_key-keys works tenant_id key_id db =
    elim (Bool-cases (exists (is_row tenant_id key_id) db.keys)) [
      | inl e ↦ inr (rw e refl)
      | inr e ↦ inl (rw e refl)
    ]
revoke_key-keys fails tenant_id key_id db =
    elim (Bool-cases (exists (is_row tenant_id key_id) db.keys)) [
      | inl e ↦ inl (rw e refl)
      | inr e ↦ inl (rw e refl)
    ]
revoke_key-keys lost tenant_id key_id db =
    elim (Bool-cases (exists (is_row tenant_id key_id) db.keys)) [
      | inl e ↦ inr (rw e refl)
      | inr e ↦ inl (rw e refl)
    ]

find_by_hash-keys :
    (a b : Db) (hash : Text) → a.keys ≡ b.keys → find_by_hash a hash ≡ find_by_hash b hash
unfolding find_by_hash
find_by_hash-keys a b hash e = rw e refl

find_by_hash-some :
    (db : Db) (hash : Text) (key : ApiKey) (k : KeyRow)
    → find (λ (x : KeyRow). text_eq x.key_hash hash) db.keys ≡ some k
    → api_key_of k ≡ key
    → find_by_hash db hash ≡ ok key
unfolding find_by_hash
find_by_hash-some db hash key k found same = rw (found, find_by_hash) (ap ok same)

-- Revoking in the name of one tenant changes nothing for a key of another, whatever key id is named.
revoke_key-other :
    (fault : Fault) (tenant_id key_id : Uuid) (db : Db) (hash : Text) (key : ApiKey)
    → find_by_hash db hash ≡ ok key
    → key.tenant_id ≢ tenant_id
    → find_by_hash (revoke_key fault tenant_id key_id db).1 hash ≡ ok key
revoke_key-other fault tenant_id key_id db hash key h n =
    elim (revoke_key-keys fault tenant_id key_id db) [
      | inl e ↦ rw (find_by_hash-keys (revoke_key fault tenant_id key_id db).1 db hash e) h
      | inr e ↦
          let (k, found, same) = find_by_hash-row db hash key h in
          let owner = ap (λ (x : ApiKey). x.tenant_id) same in
          let kept = revoke_row-other tenant_id key_id k (λ o. let o' = o in n (cc)) in
          let moved = find-revoke_row tenant_id key_id hash db.keys k found in
          find_by_hash-some (revoke_key fault tenant_id key_id db).1 hash key k
            (rw e (rw kept at moved)) same
    ]

-- The key of a project that has just been created authenticates as its tenant.
pub store_project-authenticates :
    (platform : Platform) (session : Session) (p : NewProject) (raw : Text) (db : Db)
    → raw ≢ []
    → hash_api_key platform raw ≡ p.key_hash
    → (store_project session p db).0 ≡ ok tt
    → authenticate platform (auth_ports (store_project session p db).1) raw
      ≡ ok (record {
        tenant = record { id = p.tenant_id; name = p.name; status = tenant_active };
        api_key = api_key_of (key_row session p);
      })
unfolding is_key_active is_tenant_active
store_project-authenticates platform session p raw db given hashed h =
    let (key, tenant) = store_project-found session p db h in
    (authenticate_iff platform (auth_ports (store_project session p db).1) raw _).1 (record {
      given = given;
      stored = rw hashed key;
      key_on = refl;
      owner = tenant;
      tenant_on = refl;
    })
