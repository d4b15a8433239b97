-- ===== src/Postgres/Keys/Final.antt =====
-- A key that has been revoked never comes back, whatever calls of project_repository.go follow.
use go_rate_limiter.Prelude.{
  ℕ, ◌≡◌, refl, sym, subst, inl, inr, Bool, true, some, List, [], ◌∷◌, ◌++◌, map, arith, ◌==◌,
  Bool-cases, String,
}
use go_rate_limiter.Prelude.Text.{Text, text_eq}
use go_rate_limiter.Errors.{ok}
use go_rate_limiter.Entity.{Uuid, key_active, key_revoked, is_key_active}
use go_rate_limiter.Redis.Keys.{Platform}
use go_rate_limiter.Auth.{TenantContext, hash_api_key, authenticate}
use go_rate_limiter.Auth.Soundness.{authenticate_iff, revoked_status, Refused}
use go_rate_limiter.Postgres.{
  Db, KeyRow, TenantRow, find, exists, insert_key, wrap_unique, api_key_of, find_by_hash,
}
use go_rate_limiter.Postgres.Rows.{insert_key-done}
use go_rate_limiter.Postgres.Projects.{Fault, works, Session, store_project, key_row}
use go_rate_limiter.Postgres.Projects.Atomic.{store_project-state}
use go_rate_limiter.Postgres.History.{
  Later, unchanged, creates, adds_key, revokes, settled-state, none_affected-state,
}
use go_rate_limiter.Postgres.Keys.{store_key, revoke_key, revoke_row, is_row, auth_ports}
use go_rate_limiter.Postgres.Keys.Revoked.{
  find-revoke_row, exists-row, find_by_hash-row, get_by_id-id, row_of, revoke_key-keys,
}

-- The row with the hash is that of a key which has been revoked.
pub record IsRevoked (hash : Text) (keys : List KeyRow) : Type 0 where
  pub row : KeyRow
  pub found : find (λ (k : KeyRow). text_eq k.key_hash hash) keys ≡ some row
  pub off : row.status ≡ key_revoked

find-append :
    {A : Type 0} (q : A → Bool) (xs ys : List A) (x : A)
    → find q xs ≡ some x
    → find q (xs ++ ys) ≡ some x
find-append q [] ys x h = cc
find-append q (z ∷ xs) ys x h = ground (arith, find-append q xs ys x)

module _ (hash : Text) where
  append-IsRevoked : (keys more : List KeyRow) → IsRevoked hash keys → IsRevoked hash (keys ++ more)
  append-IsRevoked keys more i = record {
    row = i.row;
    found = find-append (λ (k : KeyRow). text_eq k.key_hash hash) keys more i.row i.found;
    off = i.off;
  }

  revoke_row-off :
      (owner key_id : Uuid) (k : KeyRow)
      → k.status ≡ key_revoked
      → (revoke_row owner key_id k).status ≡ key_revoked
  revoke_row-off owner key_id k h = ground (arith, h)

  map-IsRevoked :
      (owner key_id : Uuid) (keys : List KeyRow)
      → IsRevoked hash keys
      → IsRevoked hash (map (revoke_row owner key_id) keys)
  map-IsRevoked owner key_id keys i = record {
    row = revoke_row owner key_id i.row;
    found = find-revoke_row owner key_id hash keys i.row i.found;
    off = revoke_row-off owner key_id i.row i.off;
  }

  store_project-IsRevoked :
      (session : Session) (p : _) (db : Db)
      → IsRevoked hash db.keys
      → IsRevoked hash (store_project session p db).1.keys
  store_project-IsRevoked session p db i = elim (store_project-state session p db) [
    | inl e ↦ rw e i
    | inr (e, _) ↦ rw e (append-IsRevoked db.keys (key_row session p ∷ []) i)
  ]

  store_key-IsRevoked :
      (fault : Fault) (fresh : Uuid) (now : ℕ) (owner : Uuid) (h prefix : Text) (role : String)
      (db : Db)
      → IsRevoked hash db.keys
      → IsRevoked hash (store_key fault fresh now owner h prefix role db).1.keys
  unfolding store_key
  store_key-IsRevoked fault fresh now owner h prefix role db i =
      let row : KeyRow = record {
        id = fresh;
        tenant_id = owner;
        key_hash = h;
        key_prefix = prefix;
        status = key_active;
        role = role;
        created_at = now;
      } in
      elim (Bool-cases (exists (λ (t : TenantRow). t.id == owner) db.tenants)) [
        | inr e ↦ rw (e, store_key) (rw (none_affected-state fault wrap_unique _ db) i)
        | inl e ↦
            rw (e, store_key)
              (elim (settled-state fault wrap_unique db (insert_key row db)) [
                | inl kept ↦ rw kept i
                | inr (after, f, moved) ↦
                    rw (moved, (insert_key-done row db after f).0)
                      (append-IsRevoked db.keys (row ∷ []) i)
              ])
      ]

  revoke_key-IsRevoked :
      (fault : Fault) (owner key_id : Uuid) (db : Db)
      → IsRevoked hash db.keys
      → IsRevoked hash (revoke_key fault owner key_id db).1.keys
  revoke_key-IsRevoked fault owner key_id db i = elim (revoke_key-keys fault owner key_id db) [
    | inl e ↦ rw e i
    | inr e ↦ rw e (map-IsRevoked owner key_id db.keys i)
  ]

  Later-IsRevoked : {a b : Db} → Later a b → IsRevoked hash a.keys → IsRevoked hash b.keys
  Later-IsRevoked unchanged i = i
  Later-IsRevoked (creates session p later) i =
      store_project-IsRevoked session p _ (Later-IsRevoked later i)
  Later-IsRevoked (adds_key fault fresh now owner h prefix role later) i =
      store_key-IsRevoked fault fresh now owner h prefix role _ (Later-IsRevoked later i)
  Later-IsRevoked (revokes fault owner key_id later) i =
      revoke_key-IsRevoked fault owner key_id _ (Later-IsRevoked later i)

works_keys :
    (owner key_id : Uuid) (db : Db)
    → exists (is_row owner key_id) db.keys ≡ true
    → (revoke_key works owner key_id db).1.keys ≡ map (revoke_row owner key_id) db.keys
unfolding revoke_key
works_keys owner key_id db e = rw (e, revoke_key) refl

module _ (p : Platform) (raw : Text) (tc : TenantContext) (db : Db)
    (known : authenticate p (auth_ports db) raw ≡ ok tc) where
  abbrev pub revoked : Db
  revoked = (revoke_key works tc.tenant.id tc.api_key.id db).1

  now_IsRevoked : IsRevoked (hash_api_key p raw) revoked.keys
  now_IsRevoked =
      let g = (authenticate_iff p (auth_ports db) raw tc).0 known in
      let hash = hash_api_key p raw in
      let (k, found, is_it) = find_by_hash-row db hash tc.api_key g.stored in
      let owner = get_by_id-id db tc.api_key.tenant_id tc.tenant g.owner in
      let row = row_of k tc.api_key tc.tenant.id is_it owner in
      let there = exists-row tc.tenant.id tc.api_key.id hash db.keys k found row in
      subst (IsRevoked hash) (sym (works_keys tc.tenant.id tc.api_key.id db there)) (record {
        row = revoke_row tc.tenant.id tc.api_key.id k;
        found = find-revoke_row tc.tenant.id tc.api_key.id hash db.keys k found;
        off = rw row refl;
      })

  -- Whoever has been authenticated is refused with 401 once the key has been revoked for the tenant of the
  -- authentication by a statement that works, and also after whatever projects are created, keys
  -- added and keys revoked from then on.
  pub revoked_forever :
      (after : Db) → Later revoked after → Refused p (auth_ports after) raw (401, "unauthorized")
  unfolding find_by_hash is_key_active
  revoked_forever after later =
      let g = (authenticate_iff p (auth_ports db) raw tc).0 known in
      let i = Later-IsRevoked (hash_api_key p raw) later now_IsRevoked in
      revoked_status p (auth_ports after) raw (api_key_of i.row) g.given
        (rw (i.found, find_by_hash) refl) (rw i.off refl)
