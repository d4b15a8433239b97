-- ===== src/Postgres/Projects/Atomic.antt =====
-- The outcomes of `CreateProject` of project_repository.go, and what is found after it.
use mathlib.Core.List.{append_assoc, append-nil}
use go_rate_limiter.Prelude.{
  ℕ, suc, ◌≡◌, refl, sym, ◌∙◌, ap, ◌⊎◌, inl, inr, true, false, ◌||◌, List, [], ◌∷◌, ◌++◌, arith,
  ◌==◌, ==_refl,
}
use go_rate_limiter.Prelude.Text.{text_eq, text_eq_refl}
use go_rate_limiter.Errors.{Error, ok, err, Result-cases, is, project_exists, wrap, sentinel}
use go_rate_limiter.Entity.{Uuid, Rule, tenant_active}
use go_rate_limiter.Provisioning.{NewProject}
use go_rate_limiter.Postgres.{
  Db, TenantRow, KeyRow, RuleRow, Outcome, done, failed, exists, insert_tenant, insert_key,
  insert_rule, api_key_of, find_by_hash, get_by_id, wrap_unique,
}
use go_rate_limiter.Postgres.Rows.{insert_tenant-done, insert_key-done, insert_rule-done, find-last}
use go_rate_limiter.Postgres.Projects.{
  Session, Fault, works, fails, lost, tenant_step, key_step, rule_step, commit_step, begin_step,
  exec, rule_row, tenant_row, key_row, insert_rules, send_batch, project_transaction, commit,
  store_project, rule_rows, with_project,
}

exec-ok : (fault : Fault) (o : Outcome) (tx : Db) → exec fault o ≡ ok tx → o ≡ done tx
exec-ok works (done db) tx h = cc
exec-ok works (failed e) tx h = cc
exec-ok fails o tx h = cc
exec-ok lost o tx h = cc

module _ (session : Session) where
  insert_rules-ok :
      (tenant_id : Uuid) (i : ℕ) (rs : List Rule) (tx after : Db)
      → insert_rules session tenant_id i rs tx ≡ ok after
      → after ≡ record tx { rules = tx.rules ++ rule_rows session tenant_id i rs }
  unfolding insert_rules
  insert_rules-ok tenant_id i [] tx after h =
      let e : after ≡ tx = cc in
      rw e (ap (λ (rows : List RuleRow). record tx { rules = rows }) (sym (append-nil tx.rules)))
  insert_rules-ok tenant_id i (r ∷ rs) tx after h =
      let row = rule_row (session.rule_id i) tenant_id r in
      elim (Result-cases (exec (session.fault (rule_step i)) (insert_rule row tx))) [
        | inr (e, f) ↦ absurd (ground (arith, f))
        | inl (next, f) ↦
            let ih = insert_rules-ok tenant_id (suc i) rs next after (ground (arith, f)) in
            let one =
              insert_rule-done row tx next (exec-ok (session.fault (rule_step i)) _ next f) in
            ih
            ∙ rw one (
                ap (λ (rows : List RuleRow). record tx { rules = rows })
                  (append_assoc tx.rules _ _))
      ]

  send_batch-ok :
      (tenant_id : Uuid) (rs : List Rule) (tx after : Db)
      → send_batch session tenant_id rs tx ≡ ok after
      → after ≡ record tx { rules = tx.rules ++ rule_rows session tenant_id 0 rs }
  send_batch-ok tenant_id [] tx after h =
      let e : after ≡ tx = cc in
      rw e (ap (λ (rows : List RuleRow). record tx { rules = rows }) (sym (append-nil tx.rules)))
  send_batch-ok tenant_id (r ∷ rs) tx after h =
      insert_rules-ok tenant_id 0 (r ∷ rs) tx after (ground arith)

  -- What the transaction has found of the tables before.
  pub record IsNew (p : NewProject) (db : Db) : Type 0 where
    pub new_tenant :
        exists (λ (t : TenantRow). t.id == p.tenant_id || text_eq t.name p.name) db.tenants ≡ false
    pub new_key :
        exists (λ (k : KeyRow). k.id == session.key_id || text_eq k.key_hash p.key_hash) db.keys
        ≡ false

  transaction-ok :
      (p : NewProject) (db tx : Db)
      → project_transaction session p db ≡ ok tx
      → (tx ≡ with_project session p db) × IsNew p db
  unfolding project_transaction
  transaction-ok p db tx h =
      elim (Result-cases
        (exec (session.fault tenant_step) (insert_tenant (tenant_row session p) db))) [
          | inr (e, f) ↦ absurd (ground (arith, f))
          | inl (one, f) ↦
              elim (Result-cases
                (exec (session.fault key_step) (insert_key (key_row session p) one))) [
                  | inr (e, g) ↦ absurd (ground (arith, f, g))
                  | inl (two, g) ↦
                      let (a, new_a) =
                        insert_tenant-done (tenant_row session p) db one
                          (exec-ok (session.fault tenant_step) _ one f) in
                      let (b, new_b) =
                        insert_key-done (key_row session p) one two
                          (exec-ok (session.fault key_step) _ two g) in
                      let c = send_batch-ok p.tenant_id p.rules two tx (ground (arith, f, g)) in
                      (c ∙ rw (b, a) refl, record { new_tenant = new_a; new_key = rw a at new_b })
                ]
        ]

  -- Either the call succeeds, and the tables gain the tenant, its key and all its rules, with an id, a
  -- name and a hash that no row had, or it fails and the tables are as they were, unless the answer
  -- to the commit was lost: then they have gained the whole project.
  pub store_project-atomic :
      (p : NewProject) (db : Db)
      → let r = store_project session p db in
        ((r.0 ≡ ok tt) × (r.1 ≡ with_project session p db) × IsNew p db)
        ⊎ ((e : Error) × (r.0 ≡ err e)
            × ((r.1 ≡ db)
                ⊎ ((session.fault commit_step ≡ lost) × (r.1 ≡ with_project session p db))))
  unfolding store_project
  store_project-atomic p db = elim (Result-cases (project_transaction session p db)) [
    | inr (e, f) ↦ rw (f, store_project) (inr (e, refl, inl refl))
    | inl (tx, f) ↦
        let (whole, new) = transaction-ok p db tx f in
        rw (f, store_project, whole) (committed (session.fault commit_step) new)
  ]
    where
      committed :
          (fault : Fault)
          → IsNew p db
          → let r = commit session fault db (with_project session p db) in
            ((r.0 ≡ ok tt) × (r.1 ≡ with_project session p db) × IsNew p db)
            ⊎ ((e : Error) × (r.0 ≡ err e)
                × ((r.1 ≡ db) ⊎ ((fault ≡ lost) × (r.1 ≡ with_project session p db))))
      committed works new = inl (refl, refl, new)
      committed fails new = inr (_, refl, inl refl)
      committed lost new = inr (_, refl, inr (refl, refl))

  found_key :
      (p : NewProject) (db : Db)
      → IsNew p db
      → find_by_hash (with_project session p db) p.key_hash ≡ ok (api_key_of (key_row session p))
  unfolding find_by_hash
  found_key p db new =
      let found =
        find-last (λ (k : KeyRow). k.id == session.key_id || text_eq k.key_hash p.key_hash)
          (λ (k : KeyRow). text_eq k.key_hash p.key_hash) (λ k h. ground arith) db.keys
          (key_row session p) new.new_key (text_eq_refl p.key_hash) in
      rw (found, find_by_hash) refl

  found_tenant :
      (p : NewProject) (db : Db)
      → IsNew p db
      → get_by_id (with_project session p db) p.tenant_id
        ≡ ok (record { id = p.tenant_id; name = p.name; status = tenant_active })
  unfolding get_by_id
  found_tenant p db new =
      let found =
        find-last (λ (t : TenantRow). t.id == p.tenant_id || text_eq t.name p.name)
          (λ (t : TenantRow). t.id == p.tenant_id) (λ k h. ground arith) db.tenants
          (tenant_row session p) new.new_tenant (==_refl p.tenant_id) in
      rw (found, get_by_id) refl

  -- After a project has been created, its key is found by its hash, active and of that tenant, and the
  -- tenant is found by its id, active.
  pub store_project-found :
      (p : NewProject) (db : Db)
      → (store_project session p db).0 ≡ ok tt
      → let after = (store_project session p db).1 in
        (find_by_hash after p.key_hash ≡ ok (api_key_of (key_row session p)))
        × (get_by_id after p.tenant_id
            ≡ ok (record { id = p.tenant_id; name = p.name; status = tenant_active }))
  store_project-found p db h = elim (store_project-atomic p db) [
    | inl (_, after, new) ↦ rw after (found_key p db new, found_tenant p db new)
    | inr (e, f, _) ↦ absurd (cc)
  ]

  -- A name that a tenant has already is refused as a project that exists, and the tables stay as they
  -- were, where the server is reached.
  pub store_project-exists :
      (p : NewProject) (db : Db)
      → exists (λ (t : TenantRow). t.id == p.tenant_id || text_eq t.name p.name) db.tenants ≡ true
      → session.fault begin_step ≡ works
      → session.fault tenant_step ≡ works
      → (e : Error) × (store_project session p db ≡ (err e, db)) × (is e project_exists ≡ true)
  unfolding store_project project_transaction insert_tenant wrap_unique
  store_project-exists p db taken b t =
      (wrap "%s: %w" (sentinel project_exists), ground arith, refl)

  -- What the tables can be afterwards.
  pub store_project-state :
      (p : NewProject) (db : Db)
      → ((store_project session p db).1 ≡ db)
        ⊎ (((store_project session p db).1 ≡ with_project session p db) × IsNew p db)
  unfolding store_project
  store_project-state p db = elim (Result-cases (project_transaction session p db)) [
    | inr (e, f) ↦ rw (f, store_project) (inl refl)
    | inl (tx, f) ↦
        let (whole, new) = transaction-ok p db tx f in
        rw (f, store_project, whole) (committed_state (session.fault commit_step) new)
  ]
    where
      committed_state :
          (fault : Fault)
          → IsNew p db
          → ((commit session fault db (with_project session p db)).1 ≡ db)
            ⊎ (((commit session fault db (with_project session p db)).1 ≡ with_project session p db)
                × IsNew p db)
      committed_state works new = inr (refl, new)
      committed_state fails new = inl refl
      committed_state lost new = inr (refl, new)
