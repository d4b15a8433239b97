-- ===== src/Migrate/Runs.antt =====
-- What the runs of cmd/migrate/main.go leave in the database.
use go_rate_limiter.Prelude.{
  ◌≡◌, refl, sym, subst, ◌⊎◌, inl, inr, true, false, Option, none, some, List, [], ◌∷◌, ◌++◌, arith,
  Option-cases,
}
use go_rate_limiter.Prelude.Sorting.{sort}
use go_rate_limiter.Prelude.Text.{Text}
use go_rate_limiter.Errors.{Result, ok, err, Result-cases}
use go_rate_limiter.Postgres.Projects.{Fault, works, fails, lost}
use go_rate_limiter.Migrate.{
  Tables, Exchange, connecting, creating, committing, version_of, passes, committed, migrated,
  apply_migration, is_applied, migrate_file, continued, migrate_files, with_versions,
  created_versions, sorted_files, migrate, le_bytes,
}

module _ {S : Type 0} (exec : Text → S → Option S) (read_file : Text → Option Text) where
  -- The schema that the files of the recorded versions make, run in that order from `s0` on.
  pub data Built (s0 : S) : List Text → S → Type 0 where
    start : Built s0 [] s0
    step :
        {vs : List Text} {s s' : S} (file sql : Text)
        → Built s0 vs s
        → read_file file ≡ some sql
        → exec sql s ≡ some s'
        → Built s0 (vs ++ version_of file ∷ []) s'

  -- The versions that are recorded are those whose files have been run, and no others have.
  abbrev pub IsBuilt : S → Tables S → Type 0
  IsBuilt s0 db =
      ((db.versions ≡ none) × (db.schema ≡ s0))
      ⊎ ((vs : List Text) × (db.versions ≡ some vs) × Built s0 vs db.schema)

  module _ (fault : Exchange → Fault) where
    -- A transaction that comes to its commit has run its file and recorded its version.
    pub migrated-ok :
        (version file : Text) (db after : Tables S)
        → migrated exec read_file fault version file db ≡ ok after
        → (sql : Text) × (schema : S) × (vs : List Text) × (read_file file ≡ some sql)
          × (exec sql db.schema ≡ some schema)
          × (db.versions ≡ some vs)
          × (after ≡ record { versions = some (vs ++ version ∷ []); schema = schema })
    unfolding migrated
    migrated-ok version file db after h = elim (Option-cases (read_file file)) [
      | inl e ↦ absurd (ground (arith, e))
      | inr (sql, e) ↦ elim (Option-cases (exec sql db.schema)) [
        | inl f ↦ absurd (ground (arith, e, f))
        | inr (schema, f) ↦ elim (Option-cases db.versions) [
          | inl g ↦ absurd (ground (arith, e, f, g))
          | inr (vs, g) ↦ (sql, schema, vs, e, f, g, ground (arith, e, f, g))
        ]
      ]
    ]

    Built-next :
        (s0 : S) (file sql : Text) (schema : S) (vs : List Text) (db : Tables S)
        → read_file file ≡ some sql
        → exec sql db.schema ≡ some schema
        → db.versions ≡ some vs
        → IsBuilt s0 db
        → Built s0 (vs ++ version_of file ∷ []) schema
    Built-next s0 file sql schema vs db r x v (inl (n, _)) = absurd (cc)
    Built-next s0 file sql schema vs db r x v (inr (ws, w, built)) =
        let same : ws ≡ vs = ground (arith, v, w) in
        subst (λ (us : List Text). Built s0 (us ++ version_of file ∷ []) schema) same
          (step file sql built r x)

    committed-IsBuilt :
        (s0 : S) (f : Fault) (db after : Tables S)
        → IsBuilt s0 db
        → IsBuilt s0 after
        → IsBuilt s0 (committed exec read_file fault f db after).1
    committed-IsBuilt s0 works db after b a = a
    committed-IsBuilt s0 fails db after b a = b
    committed-IsBuilt s0 lost db after b a = a

    apply-IsBuilt :
        (s0 : S) (file : Text) (db : Tables S)
        → IsBuilt s0 db
        → IsBuilt s0 (apply_migration exec read_file fault (version_of file) file db).1
    unfolding apply_migration
    apply-IsBuilt s0 file db b =
        elim (Result-cases (migrated exec read_file fault (version_of file) file db)) [
          | inr (e, f) ↦ rw (f, apply_migration) b
          | inl (after, f) ↦
              let (sql, schema, vs, r, x, v, same) =
                migrated-ok (version_of file) file db after f in
              rw (f, apply_migration)
                (committed-IsBuilt s0 (fault (committing (version_of file))) db after b (
                  subst (IsBuilt s0) (sym same) (
                    inr (
                      vs ++ version_of file ∷ [],
                      refl,
                      Built-next s0 file sql schema vs db r x v b,
                    ))))
        ]

    migrate_file-IsBuilt :
        (s0 : S) (file : Text) (db : Tables S)
        → IsBuilt s0 db
        → IsBuilt s0 (migrate_file exec read_file fault file db).1
    unfolding migrate_file
    migrate_file-IsBuilt s0 file db b =
        elim (Result-cases (is_applied exec read_file fault (version_of file) db)) [
          | inr (e, f) ↦ rw (f, migrate_file) b
          | inl (true, f) ↦ rw (f, migrate_file) b
          | inl (false, f) ↦ rw (f, migrate_file) (apply-IsBuilt s0 file db b)
        ]

    migrate_files-IsBuilt :
        (s0 : S) (files : List Text) (db : Tables S)
        → IsBuilt s0 db
        → IsBuilt s0 (migrate_files exec read_file fault files db).1
    unfolding migrate_files
    migrate_files-IsBuilt s0 [] db b = b
    migrate_files-IsBuilt s0 (file ∷ files) db b =
        let kept = migrate_file-IsBuilt s0 file db b in
        let after = (migrate_file exec read_file fault file db).1 in
        elim (Result-cases (migrate_file exec read_file fault file db).0) [
          | inr (e, f) ↦ rw (f, continued) kept
          | inl (_, f) ↦ rw (f, continued) (migrate_files-IsBuilt s0 files after kept)
        ]

    with_versions-IsBuilt :
        (s0 : S) (db : Tables S)
        → IsBuilt s0 db
        → IsBuilt s0 (with_versions exec read_file fault db)
    with_versions-IsBuilt s0 db (inl (n, e)) =
        rw n (inr ([], refl, subst (Built s0 []) (sym e) start))
    with_versions-IsBuilt s0 db (inr (vs, e, built)) = rw e (inr (vs, refl, built))

    created-IsBuilt :
        (s0 : S) (f : Fault) (db : Tables S)
        → IsBuilt s0 db
        → IsBuilt s0 (created_versions exec read_file fault f db).1
    created-IsBuilt s0 works db b = with_versions-IsBuilt s0 db b
    created-IsBuilt s0 fails db b = b
    created-IsBuilt s0 lost db b = with_versions-IsBuilt s0 db b

    files_run-IsBuilt :
        (s0 : S) (found : List Text) (r : Result (Unit {0}) × Tables S)
        → IsBuilt s0 r.1
        → IsBuilt s0
            (continued exec read_file fault
              (λ created. elim (sorted_files exec read_file fault found) [
                | err e ↦ (err e, created)
                | ok files ↦ migrate_files exec read_file fault files created
              ])
              r).1
    files_run-IsBuilt s0 found (err e, db) b = b
    files_run-IsBuilt s0 [] (ok _, db) b = b
    files_run-IsBuilt s0 (f ∷ fs) (ok _, db) b =
        migrate_files-IsBuilt s0 (sort le_bytes (f ∷ fs)) db b

    -- Whatever files a run finds and whatever fails in it, the versions that are recorded afterwards are
    -- those whose files have been run, in the order in which they were run, and nothing else has
    -- changed the schema, if that was so before.
    pub migrate-IsBuilt :
        (s0 : S) (found : List Text) (db : Tables S)
        → IsBuilt s0 db
        → IsBuilt s0 (migrate exec read_file fault found db).1
    unfolding migrate
    migrate-IsBuilt s0 found db b = elim (Result-cases (passes (fault connecting) "connect: %v")) [
      | inr (e, f) ↦ rw (f, migrate) b
      | inl (_, f) ↦
          rw (f, migrate)
            (files_run-IsBuilt s0 found (created_versions exec read_file fault (fault creating) db)
              (created-IsBuilt s0 (fault creating) db b))
    ]
