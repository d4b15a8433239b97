-- ===== src/Migrate.antt =====
-- cmd/migrate/main.go. `S` is the database apart from the table schema_migrations; `exec` runs a file of
-- SQL on it, `none` being its error. A process that fails ends there, with its error.
pub mod Runs
pub mod Again
use text.Mathlib.Text.{◌==◌ as str_eq}
use go_rate_limiter.Prelude.{
  ℕ, zero, suc, Bool, true, false, ◌&&◌, ◌||◌, String, Option, none, some, List, [], ◌∷◌, ◌++◌,
  reverse, if◌then◌else◌, ltb, ◌==◌,
}
use go_rate_limiter.Prelude.Sorting.{sort}
use go_rate_limiter.Prelude.Text.{Text, txt, text_eq, trim_suffix, split}
use go_rate_limiter.Errors.{Error, Result, ok, err, wrap, other}
use go_rate_limiter.Postgres.Projects.{Fault, works, fails, lost}

-- The versions are `none` before their table is created.
pub record Tables (S : Type 0) : Type 0 where
  pub versions : Option (List Text)
  pub schema : S

pub data Exchange : Type 0 where
  connecting creating : Exchange
  checking beginning executing recording committing : Text → Exchange

-- `sort.Strings`: texts in the order of their bytes.
abbrev pub le_bytes : Text → Text → Bool
le_bytes [] t = true
le_bytes (a ∷ s) [] = false
le_bytes (a ∷ s) (b ∷ t) = ltb a b || (a == b && le_bytes s t)

-- `filepath.Base`, of a path with no slash at its end.
abbrev pub last_or : Text → List Text → Text
last_or d [] = d
last_or d (t ∷ ts) = last_or t ts

unfoldable pub version_of : Text → Text
unfolding split trim_suffix txt
version_of file = trim_suffix (last_or [] (split b'/' file)) (txt ".up.sql")

abbrev pub mem : Text → List Text → Bool
mem v [] = false
mem v (w ∷ ws) = text_eq w v || mem v ws

-- A statement that changes nothing, or whose effect is not kept.
abbrev pub passes : Fault → String → Result (Unit {0})
passes works message = ok tt
passes _ message = err (wrap message (other "postgres"))

module _ {S : Type 0} (exec : Text → S → Option S) (read_file : Text → Option Text)
    (fault : Exchange → Fault) where
  -- The transaction with what it has done so far; without a commit it is rolled back.
  abbrev pub committed : Fault → Tables S → Tables S → Result (Unit {0}) × Tables S
  committed works before after = (ok tt, after)
  committed fails before after = (err (other "commit"), before)
  committed lost before after = (err (other "commit"), after)

  -- `INSERT INTO schema_migrations`, where the version is the primary key.
  abbrev pub record_version : Text → S → Tables S → Result (Tables S)
  record_version version schema db = elim db.versions [
    | none ↦ err (wrap "record version: %w" (other "postgres"))
    | some vs ↦
        if mem version vs
        then err (wrap "record version: %w" (other "postgres"))
        else ok (record { versions = some (vs ++ version ∷ []); schema = schema })
  ]

  -- What the transaction makes of the tables, up to its commit.
  unfoldable pub migrated : Text → Text → Tables S → Result (Tables S)
  migrated version file db = elim (read_file file) [
    | none ↦ err (wrap "read: %w" (other "file"))
    | some sql ↦ elim (passes (fault (beginning version)) "begin: %w") [
      | err e ↦ err e
      | ok _ ↦ elim (passes (fault (executing version)) "exec: %w") [
        | err e ↦ err e
        | ok _ ↦ elim (exec sql db.schema) [
          | none ↦ err (wrap "exec: %w" (other "postgres"))
          | some schema ↦ elim (passes (fault (recording version)) "record version: %w") [
            | err e ↦ err e
            | ok _ ↦ record_version version schema db
          ]
        ]
      ]
    ]
  ]

  unfoldable pub apply_migration : Text → Text → Tables S → Result (Unit {0}) × Tables S
  unfolding migrated
  apply_migration version file db = elim (migrated version file db) [
    | err e ↦ (err e, db)
    | ok after ↦ committed (fault (committing version)) db after
  ]

  -- `SELECT EXISTS`, with its error.
  abbrev pub is_applied : Text → Tables S → Result Bool
  is_applied version db = elim (passes (fault (checking version)) "check %s: %v") [
    | err e ↦ err e
    | ok _ ↦ elim db.versions [
      | none ↦ err (wrap "check %s: %v" (other "postgres"))
      | some vs ↦ ok (mem version vs)
    ]
  ]

  -- One round of the loop.
  unfoldable pub migrate_file : Text → Tables S → Result (Unit {0}) × Tables S
  unfolding apply_migration version_of
  migrate_file file db = elim (is_applied (version_of file) db) [
    | err e ↦ (err e, db)
    | ok applied ↦ if applied then (ok tt, db) else apply_migration (version_of file) file db
  ]

  -- The loop ends at the first error.
  abbrev pub continued :
      (Tables S → Result (Unit {0}) × Tables S)
      → Result (Unit {0}) × Tables S
      → Result (Unit {0}) × Tables S
  continued rest (err e, db) = (err e, db)
  continued rest (ok _, db) = rest db

  unfoldable pub migrate_files : List Text → Tables S → Result (Unit {0}) × Tables S
  unfolding migrate_file
  migrate_files [] db = (ok tt, db)
  migrate_files (file ∷ files) db = continued (migrate_files files) (migrate_file file db)

  -- `CREATE TABLE IF NOT EXISTS schema_migrations`
  abbrev pub with_versions : Tables S → Tables S
  with_versions db = elim db.versions [ none ↦ record db { versions = some [] } | some vs ↦ db ]

  abbrev pub created_versions : Fault → Tables S → Result (Unit {0}) × Tables S
  created_versions works db = (ok tt, with_versions db)
  created_versions fails db = (err (wrap "create schema_migrations: %v" (other "postgres")), db)
  created_versions lost db =
      (err (wrap "create schema_migrations: %v" (other "postgres")), with_versions db)

  -- `found` is what `filepath.Glob` gives.
  abbrev pub sorted_files : List Text → Result (List Text)
  sorted_files [] = err (other "no migrations found in %s")
  sorted_files (f ∷ fs) = ok (sort le_bytes (f ∷ fs))

  -- Everything but the seed, which is optional.
  unfoldable pub migrate : List Text → Tables S → Result (Unit {0}) × Tables S
  unfolding migrate_files
  migrate found db = elim (passes (fault connecting) "connect: %v") [
    | err e ↦ (err e, db)
    | ok _ ↦
        continued
          (λ created. elim (sorted_files found) [
            | err e ↦ (err e, created)
            | ok files ↦ migrate_files files created
          ])
          (created_versions (fault creating) db)
  ]
