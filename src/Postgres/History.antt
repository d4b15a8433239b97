-- ===== src/Postgres/History.antt =====
-- The sequences of calls of project_repository.go.
use go_rate_limiter.Prelude.{ℕ, ◌≡◌, refl, ◌⊎◌, inl, inr, String}
use go_rate_limiter.Prelude.Text.{Text}
use go_rate_limiter.Errors.{Error}
use go_rate_limiter.Entity.{Uuid}
use go_rate_limiter.Provisioning.{NewProject}
use go_rate_limiter.Postgres.{Db, Outcome, done, failed, PgError}
use go_rate_limiter.Postgres.Projects.{Fault, works, fails, lost, Session, store_project}
use go_rate_limiter.Postgres.Keys.{store_key, revoke_key, settled, none_affected}

-- The tables after calls of the repository, each with its faults.
pub data Later (from : Db) : Db → Type 0 where
  unchanged : Later from from
  creates :
      {db : Db} (session : Session) (p : NewProject)
      → Later from db
      → Later from (store_project session p db).1
  adds_key :
      {db : Db} (fault : Fault) (fresh : Uuid) (now : ℕ) (owner : Uuid) (hash prefix : Text)
      (role : String)
      → Later from db
      → Later from (store_key fault fresh now owner hash prefix role db).1
  revokes :
      {db : Db} (fault : Fault) (owner key_id : Uuid)
      → Later from db
      → Later from (revoke_key fault owner key_id db).1

-- A statement leaves the tables, or as its outcome has them.
pub settled-state :
    (fault : Fault) (mark : PgError → Error) (db : Db) (o : Outcome)
    → ((settled fault mark db o).1 ≡ db)
      ⊎ ((after : Db) × (o ≡ done after) × ((settled fault mark db o).1 ≡ after))
settled-state works mark db (done after) = inr (after, refl, refl)
settled-state works mark db (failed e) = inl refl
settled-state fails mark db o = inl refl
settled-state lost mark db (done after) = inr (after, refl, refl)
settled-state lost mark db (failed e) = inl refl

pub none_affected-state :
    (fault : Fault) (mark : PgError → Error) (e : Error) (db : Db)
    → (none_affected fault mark e db).1 ≡ db
none_affected-state works mark e db = refl
none_affected-state fails mark e db = refl
none_affected-state lost mark e db = refl
