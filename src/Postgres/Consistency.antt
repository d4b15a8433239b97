-- ===== src/Postgres/Consistency.antt =====
-- The references between the tables of migrations/*.sql, which the statements of
-- project_repository.go keep.
use go_rate_limiter.Prelude.{
  ℕ, suc, ◌≡◌, refl, sym, subst, ◌∙◌, inl, inr, true, false, ◌||◌, List, [], ◌∷◌, ◌++◌, map, ◌==◌,
  ==_refl, arith, All, All-append, All-map, Bool-cases, String,
}
use go_rate_limiter.Prelude.Text.{Text, text_eq}
use go_rate_limiter.Prelude.Distinct.{Distinct}
use go_rate_limiter.Entity.{Uuid, Rule, key_active}
use go_rate_limiter.Provisioning.{NewProject}
use go_rate_limiter.Postgres.{Db, TenantRow, KeyRow, RuleRow, done, exists, insert_key, wrap_unique}
use go_rate_limiter.Postgres.Rows.{insert_key-done}
use go_rate_limiter.Postgres.Projects.{
  Fault, Session, tenant_row, key_row, rule_rows, with_project, store_project,
}
use go_rate_limiter.Postgres.Projects.Atomic.{IsNew, store_project-state}
use go_rate_limiter.Postgres.Keys.{store_key, revoke_key, revoke_row, is_row, mark_revoke}
use go_rate_limiter.Postgres.History.{
  Later, unchanged, creates, adds_key, revokes, settled-state, none_affected-state,
}

abbrev pub tenant_id : TenantRow → ℕ
tenant_id t = t.id

-- A row's tenant is in the table.
abbrev pub HasTenant : List TenantRow → Uuid → Type 0
HasTenant tenants id = exists (λ (t : TenantRow). t.id == id) tenants ≡ true

-- No two tenants have the same id, and every key and every rule belongs to a tenant.
pub record IsConsistent (db : Db) : Type 0 where
  pub tenants_distinct : Distinct tenant_id db.tenants
  pub keys_owned : All (λ (k : KeyRow). HasTenant db.tenants k.tenant_id) db.keys
  pub rules_owned : All (λ (row : RuleRow). HasTenant db.tenants row.tenant_id) db.rules

HasTenant-append :
    (id : Uuid) (tenants : List TenantRow) (t : TenantRow)
    → HasTenant tenants id
    → HasTenant (tenants ++ t ∷ []) id
HasTenant-append id [] t h = cc
HasTenant-append id (u ∷ us) t h = ground (arith, HasTenant-append id us t)

HasTenant-last : (tenants : List TenantRow) (t : TenantRow) → HasTenant (tenants ++ t ∷ []) t.id
HasTenant-last [] t = rw (==_refl t.id) refl
HasTenant-last (u ∷ us) t = ground (arith, HasTenant-last us t)

Distinct-last :
    (tenants : List TenantRow) (t : TenantRow)
    → Distinct tenant_id tenants
    → exists (λ (u : TenantRow). u.id == t.id || text_eq u.name t.name) tenants ≡ false
    → Distinct tenant_id (tenants ++ t ∷ [])
Distinct-last [] t d n = (tt, tt)
Distinct-last (u ∷ us) t (h, hs) n = (
  All-append (λ (v : TenantRow). (v.id == u.id) ≡ false) us (t ∷ []) h (ground arith, tt),
  Distinct-last us t hs (ground arith),
)

module _ (session : Session) (p : NewProject) where
  rule_rows-owned :
      (tenants : List TenantRow) (i : ℕ) (rules : List Rule)
      → HasTenant tenants p.tenant_id
      → All
          (λ (row : RuleRow). HasTenant tenants row.tenant_id)
          (rule_rows session p.tenant_id i rules)
  rule_rows-owned tenants i [] h = tt
  rule_rows-owned tenants i (r ∷ rs) h = (h, rule_rows-owned tenants (suc i) rs h)

  with_project-IsConsistent :
      (db : Db) → IsNew session p db → IsConsistent db → IsConsistent (with_project session p db)
  with_project-IsConsistent db new c =
      let t = tenant_row session p in
      let tenants = db.tenants ++ t ∷ [] in
      let own = HasTenant-last db.tenants t in
      record {
        tenants_distinct = Distinct-last db.tenants t c.tenants_distinct new.new_tenant;
        keys_owned =
            All-append (λ (k : KeyRow). HasTenant tenants k.tenant_id) db.keys
              (key_row session p ∷ [])
              (All-map (λ (k : KeyRow). HasTenant-append k.tenant_id db.tenants t) db.keys
                c.keys_owned)
              (own, tt);
        rules_owned =
            All-append (λ (row : RuleRow). HasTenant tenants row.tenant_id) db.rules
              (rule_rows session p.tenant_id 0 p.rules)
              (All-map (λ (row : RuleRow). HasTenant-append row.tenant_id db.tenants t) db.rules
                c.rules_owned)
              (rule_rows-owned tenants 0 p.rules own);
      }

  store_project-IsConsistent :
      (db : Db) → IsConsistent db → IsConsistent (store_project session p db).1
  store_project-IsConsistent db c = elim (store_project-state session p db) [
    | inl e ↦ subst IsConsistent (sym e) c
    | inr (e, new) ↦ subst IsConsistent (sym e) (with_project-IsConsistent db new c)
  ]

store_key-IsConsistent :
    (fault : Fault) (fresh : Uuid) (now : ℕ) (owner : Uuid) (hash prefix : Text) (role : String)
    (db : Db)
    → IsConsistent db
    → IsConsistent (store_key fault fresh now owner hash prefix role db).1
unfolding store_key
store_key-IsConsistent fault fresh now owner hash prefix role db c =
    let row : KeyRow = record {
      id = fresh;
      tenant_id = owner;
      key_hash = hash;
      key_prefix = prefix;
      status = key_active;
      role = role;
      created_at = now;
    } in
    elim (Bool-cases (exists (λ (t : TenantRow). t.id == owner) db.tenants)) [
      | inr e ↦
          rw (e, store_key)
            (subst IsConsistent (sym (none_affected-state fault wrap_unique _ db)) c)
      | inl e ↦
          rw (e, store_key)
            (elim (settled-state fault wrap_unique db (insert_key row db)) [
              | inl same ↦ subst IsConsistent (sym same) c
              | inr (after, f, same) ↦
                  subst IsConsistent (sym (same ∙ (insert_key-done row db after f).0)) (record {
                    tenants_distinct = c.tenants_distinct;
                    keys_owned =
                        All-append (λ (k : KeyRow). HasTenant db.tenants k.tenant_id) db.keys
                          (row ∷ []) c.keys_owned (e, tt);
                    rules_owned = c.rules_owned;
                  })
            ])
    ]

revoke_row-tenant :
    (owner key_id : Uuid) (k : KeyRow) → (revoke_row owner key_id k).tenant_id ≡ k.tenant_id
revoke_row-tenant owner key_id k = ground arith

revoked-owned :
    (tenants : List TenantRow) (owner key_id : Uuid) (keys : List KeyRow)
    → All (λ (k : KeyRow). HasTenant tenants k.tenant_id) keys
    → All (λ (k : KeyRow). HasTenant tenants k.tenant_id) (map (revoke_row owner key_id) keys)
revoked-owned tenants owner key_id [] h = tt
revoked-owned tenants owner key_id (k ∷ ks) (h, hs) = (
  subst (HasTenant tenants) (sym (revoke_row-tenant owner key_id k)) h,
  revoked-owned tenants owner key_id ks hs,
)

revoke_key-IsConsistent :
    (fault : Fault) (owner key_id : Uuid) (db : Db)
    → IsConsistent db
    → IsConsistent (revoke_key fault owner key_id db).1
unfolding revoke_key
revoke_key-IsConsistent fault owner key_id db c =
    elim (Bool-cases (exists (is_row owner key_id) db.keys)) [
      | inr e ↦
          rw (e, revoke_key)
            (subst IsConsistent (sym (none_affected-state fault mark_revoke _ db)) c)
      | inl e ↦
          let after : Db = record db { keys = map (revoke_row owner key_id) db.keys } in
          rw (e, revoke_key)
            (elim (settled-state fault mark_revoke db (done after)) [
              | inl same ↦ subst IsConsistent (sym same) c
              | inr (end, f, same) ↦
                  let e' : end ≡ after = cc in
                  subst IsConsistent (sym (same ∙ e')) (record {
                    tenants_distinct = c.tenants_distinct;
                    keys_owned = revoked-owned db.tenants owner key_id db.keys c.keys_owned;
                    rules_owned = c.rules_owned;
                  })
            ])
    ]

-- Whatever projects are created, keys added and keys revoked, with whatever faults, consistent tables stay
-- consistent: no two tenants have the same id, and every key and every rule belongs to a tenant.
pub Later-IsConsistent : {a b : Db} → Later a b → IsConsistent a → IsConsistent b
Later-IsConsistent unchanged c = c
Later-IsConsistent (creates session p later) c =
    store_project-IsConsistent session p _ (Later-IsConsistent later c)
Later-IsConsistent (adds_key fault fresh now owner hash prefix role later) c =
    store_key-IsConsistent fault fresh now owner hash prefix role _ (Later-IsConsistent later c)
Later-IsConsistent (revokes fault owner key_id later) c =
    revoke_key-IsConsistent fault owner key_id _ (Later-IsConsistent later c)

pub empty-IsConsistent : IsConsistent (record { tenants = []; keys = []; rules = [] })
empty-IsConsistent = record { tenants_distinct = tt; keys_owned = tt; rules_owned = tt }
