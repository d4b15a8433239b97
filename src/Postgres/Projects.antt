-- ===== src/Postgres/Projects.antt =====
-- `CreateProject` of internal/infrastructure/postgres/project_repository.go.
pub mod Atomic
pub mod Scanned
use go_rate_limiter.Prelude.{
  ℕ, zero, suc, ◌≡◌, refl, ◌⊎◌, inl, inr, Bool, true, false, String, Option, none, some, List, [],
  ◌∷◌, ◌++◌, if◌then◌else◌, arith, length, ◌==◌, ltb,
}
use go_rate_limiter.Prelude.Int.{ℤ, pos}
use go_rate_limiter.Prelude.Text.{Text, text_eq}
use go_rate_limiter.Errors.{Error, Result, ok, err, ◌>>=◌, wrap, other}
use go_rate_limiter.Entity.{Uuid, Rule, tenant_active, key_active}
use go_rate_limiter.Provisioning.{NewProject}
use go_rate_limiter.Postgres.{
  Db, TenantRow, KeyRow, RuleRow, PgError, failure, Outcome, done, failed, insert_tenant,
  insert_key, insert_rule, rounded, null_if_zero, wrap_unique,
}
use go_rate_limiter.Postgres.Rows.{insert_tenant-done, insert_key-done, insert_rule-done}

-- The exchanges with the server.
pub data Step : Type 0 where
  begin_step tenant_step key_step close_step commit_step : Step
  rule_step : ℕ → Step

-- A statement is answered, or it fails for a reason of the connection: before or after its effect.
pub data Fault : Type 0 where
  works fails lost : Fault

-- The circumstances of a call: the faults, the ids that the server makes, and its clock, `now()`.
pub record Session : Type 0 where
  pub fault : Step → Fault
  pub key_id : Uuid
  pub rule_id : ℕ → Uuid
  pub now : ℕ

-- What the client sees of a statement.
abbrev pub seen : Fault → Outcome → Outcome
seen works o = o
seen _ o = failed failure

-- A statement inside the transaction, with its error.
abbrev pub exec : Fault → Outcome → Result Db
exec fault o = elim (seen fault o) [ done tx ↦ ok tx | failed e ↦ err (wrap_unique e) ]

-- `Begin` and the closing of the batch.
abbrev pub exchange : String → Fault → Result (Unit {0})
exchange message works = ok tt
exchange message _ = err (wrap message (other "postgres"))

abbrev pub rule_row : Uuid → Uuid → Rule → RuleRow
rule_row id tenant_id r = record {
  id = id;
  tenant_id = tenant_id;
  route_pattern = r.route_pattern;
  algorithm = r.algorithm;
  limit_count = null_if_zero r.limit_count;
  window_seconds = null_if_zero r.window_seconds;
  bucket_capacity = null_if_zero r.bucket_capacity;
  refill_rate = null_if_zero r.refill_rate;
  enabled = r.enabled;
}

module _ (session : Session) where
  abbrev pub tenant_row : NewProject → TenantRow
  tenant_row p = record {
    id = p.tenant_id;
    name = p.name;
    status = tenant_active;
    created_at = session.now;
  }

  abbrev pub key_row : NewProject → KeyRow
  key_row p = record {
    id = session.key_id;
    tenant_id = p.tenant_id;
    key_hash = p.key_hash;
    key_prefix = p.key_prefix;
    status = key_active;
    role = p.key_role;
    created_at = session.now;
  }

  -- The batch: the rules from the number `i` on.
  unfoldable pub insert_rules : Uuid → ℕ → List Rule → Db → Result Db
  insert_rules tenant_id i [] tx = ok tx
  insert_rules tenant_id i (r ∷ rs) tx = do
    next ←
        exec (session.fault (rule_step i))
          (insert_rule (rule_row (session.rule_id i) tenant_id r) tx)
    insert_rules tenant_id (suc i) rs next

  -- `if len(p.Rules) > 0`
  abbrev pub send_batch : Uuid → List Rule → Db → Result Db
  send_batch tenant_id [] tx = ok tx
  send_batch tenant_id (r ∷ rs) tx = do
    sent ← insert_rules tenant_id 0 (r ∷ rs) tx
    _ ← exchange "close rule batch: %w" (session.fault close_step)
    ok sent

  -- The transaction up to its commit, on a copy of the tables.
  unfoldable pub project_transaction : NewProject → Db → Result Db
  unfolding insert_rules
  project_transaction p db = do
    _ ← exchange "begin: %w" (session.fault begin_step)
    with_tenant ← exec (session.fault tenant_step) (insert_tenant (tenant_row p) db)
    with_key ← exec (session.fault key_step) (insert_key (key_row p) with_tenant)
    send_batch p.tenant_id p.rules with_key

  -- A commit whose answer is lost has taken effect.
  abbrev pub commit : Fault → Db → Db → Result (Unit {0}) × Db
  commit works db tx = (ok tt, tx)
  commit fails db tx = (err (wrap "commit: %w" (other "postgres")), db)
  commit lost db tx = (err (wrap "commit: %w" (other "postgres")), tx)

  -- Without a commit the deferred `Rollback` leaves the tables as they were.
  unfoldable pub store_project : NewProject → Db → Result (Unit {0}) × Db
  unfolding project_transaction
  store_project p db = elim (project_transaction p db) [
    | err e ↦ (err e, db)
    | ok tx ↦ commit (session.fault commit_step) db tx
  ]

  -- The rows of the rules, as the table keeps them.
  abbrev pub rule_rows : Uuid → ℕ → List Rule → List RuleRow
  rule_rows tenant_id i [] = []
  rule_rows tenant_id i (r ∷ rs) =
      let row = rule_row (session.rule_id i) tenant_id r in
      record row { refill_rate = rounded row.refill_rate } ∷ rule_rows tenant_id (suc i) rs

  -- The tables with the tenant, its key and all its rules.
  abbrev pub with_project : NewProject → Db → Db
  with_project p db = record {
    tenants = db.tenants ++ tenant_row p ∷ [];
    keys = db.keys ++ key_row p ∷ [];
    rules = db.rules ++ rule_rows p.tenant_id 0 p.rules;
  }
