-- ===== src/Tests/Settings.antt =====
-- The environment of the server and of the migrations.
use go_rate_limiter.Prelude.{
  ◌≡◌, ◌⊎◌, refl, inl, true, false, Bool, String, some, none, Option, List, [], ◌∷◌, if◌then◌else◌,
}
use go_rate_limiter.Prelude.Int.{ℤ}
use go_rate_limiter.Prelude.Text.{Text, txt, text_eq, trim_space}
use go_rate_limiter.Errors.{Error, ok, err}
use go_rate_limiter.Postgres.Projects.{works, Fault}
use go_rate_limiter.Config.{Config, load, trimmed_parts}
use go_rate_limiter.Config.Loaded.{IsLoaded, IsRejected, load-cases}
use go_rate_limiter.Migrate.{
  Tables, Exchange, migrate, version_of, le_bytes, migrated, apply_migration, migrate_file,
  migrate_files,
}
use go_rate_limiter.Migrate.Runs.{IsBuilt, migrate-IsBuilt}
use go_rate_limiter.Migrate.Again.{migrate-again}

abbrev environment : String → Text
environment name = txt "80"

abbrev no_duration : Text → Option ℤ
no_duration text = none

load-cases_example :
    ((cfg : Config) × (load environment no_duration ≡ ok cfg)
      × IsLoaded environment no_duration cfg
      × ¬ IsRejected environment no_duration)
    ⊎ ((e : Error) × (load environment no_duration ≡ err e) × IsRejected environment no_duration)
load-cases_example = load-cases environment no_duration

parts : trimmed_parts (txt " a" ∷ txt " " ∷ []) ≡ txt "a" ∷ []
unfolding trimmed_parts trim_space txt text_eq
parts = refl

-- A schema is the list of the files that were run.
abbrev run_file : Text → List Text → Option (List Text)
run_file sql done = some (sql ∷ done)

abbrev same_text : Text → Option Text
same_text file = some file

abbrev all_work : Exchange → Fault
all_work x = works

abbrev fresh_tables : Tables (List Text)
fresh_tables = record { versions = none; schema = [] }

abbrev file_b : Text
file_b = txt "m/2_b.up.sql"

abbrev file_a : Text
file_a = txt "m/1_a.up.sql"

versions : version_of file_b ≡ txt "2_b"
unfolding version_of txt
versions = refl

in_order : le_bytes file_a file_b ≡ true
unfolding txt
in_order = refl

migrate-IsBuilt_example :
    IsBuilt run_file same_text []
      (migrate run_file same_text all_work (file_b ∷ file_a ∷ []) fresh_tables).1
migrate-IsBuilt_example =
    migrate-IsBuilt run_file same_text all_work [] (file_b ∷ file_a ∷ []) fresh_tables
      (inl (refl, refl))

first_run : (migrate run_file same_text all_work (file_b ∷ []) fresh_tables).0 ≡ ok tt
unfolding migrate migrate_files migrate_file apply_migration migrated version_of txt
    go_rate_limiter.Prelude.Sorting.sort
first_run = refl

migrate-again_example :
    let after = (migrate run_file same_text all_work (file_b ∷ []) fresh_tables).1 in
    migrate run_file same_text all_work (file_b ∷ []) after ≡ (ok tt, after)
migrate-again_example =
    migrate-again run_file same_text all_work all_work (file_b ∷ []) fresh_tables first_run refl
      refl λ v. refl
