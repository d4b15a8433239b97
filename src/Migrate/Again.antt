-- ===== src/Migrate/Again.antt =====
-- A second run of cmd/migrate/main.go.
use go_rate_limiter.Prelude.{
  ◌≡◌, refl, sym, subst, ◌∙◌, inl, inr, true, false, Option, some, List, [], ◌∷◌, ◌++◌, arith, All,
  Option-cases,
}
use go_rate_limiter.Prelude.Sorting.{sort}
use go_rate_limiter.Prelude.Text.{Text, text_eq_refl}
use go_rate_limiter.Errors.{Result, ok, err, Result-cases}
use go_rate_limiter.Postgres.Projects.{Fault, works, fails, lost}
use go_rate_limiter.Migrate.{
  Tables, Exchange, connecting, creating, checking, committing, mem, version_of, passes, committed,
  migrated, apply_migration, is_applied, migrate_file, continued, migrate_files, with_versions,
  created_versions, sorted_files, migrate, le_bytes,
}
use go_rate_limiter.Migrate.Runs.{migrated-ok}

mem-append : (v : Text) (vs ws : List Text) → mem v vs ≡ true → mem v (vs ++ ws) ≡ true
mem-append v [] ws h = cc
mem-append v (u ∷ us) ws h = ground (arith, mem-append v us ws)

mem-last : (v : Text) (vs : List Text) → mem v (vs ++ v ∷ []) ≡ true
mem-last v [] = rw (text_eq_refl v) refl
mem-last v (u ∷ us) = ground (arith, mem-last v us)

module _ {S : Type 0} where
  -- A version that is recorded.
  abbrev Has : Tables S → Text → Type 0
  Has db v = (vs : List Text) × (db.versions ≡ some vs) × (mem v vs ≡ true)

  -- The table of the versions is there.
  abbrev HasTable : Tables S → Type 0
  HasTable db = (vs : List Text) × (db.versions ≡ some vs)

module _ {S : Type 0} (exec : Text → S → Option S) (read_file : Text → Option Text) where
  module _ (fault : Exchange → Fault) where
    -- A round that succeeds has its version recorded, and keeps those that were.
    abbrev Gains : Text → Tables S → Tables S → Type 0
    Gains v db after = Has after v × ((u : Text) → Has db u → Has after u)

    committed-works :
        (f : Fault) (db after : Tables S)
        → (committed exec read_file fault f db after).0 ≡ ok tt
        → (committed exec read_file fault f db after).1 ≡ after
    committed-works works db after h = refl
    committed-works fails db after h = cc
    committed-works lost db after h = cc

    apply-Gains :
        (version file : Text) (db : Tables S)
        → (apply_migration exec read_file fault version file db).0 ≡ ok tt
        → Gains version db (apply_migration exec read_file fault version file db).1
    unfolding apply_migration
    apply-Gains version file db h =
        elim (Result-cases (migrated exec read_file fault version file db)) [
          | inr (e, f) ↦ absurd (let g = rw (f, apply_migration) at h in cc)
          | inl (after, f) ↦
              let (_, schema, vs, _, _, v, same) =
                migrated-ok exec read_file fault version file db after f in
              let done =
                committed-works (fault (committing version)) db after
                  (rw (f, apply_migration) at h) in
              rw (f, apply_migration)
                (subst (Gains version db) (sym (done ∙ same)) (
                  (vs ++ version ∷ [], refl, mem-last version vs),
                  λ u has.
                      let w : has.0 ≡ vs = let e = has.1 in ground (arith, e, v) in
                      let m : mem u vs ≡ true =
                        subst (λ (us : List Text). mem u us ≡ true) w has.2 in
                      (vs ++ version ∷ [], refl, mem-append u vs (version ∷ []) m),
                ))
        ]

    is_applied-true :
        (v : Text) (db : Tables S) → is_applied exec read_file fault v db ≡ ok true → Has db v
    is_applied-true v db h = elim (Option-cases db.versions) [
      | inl n ↦ absurd (ground (arith, n, h))
      | inr (vs, e) ↦ (vs, e, ground (arith, e, h))
    ]

    migrate_file-Gains :
        (file : Text) (db : Tables S)
        → (migrate_file exec read_file fault file db).0 ≡ ok tt
        → Gains (version_of file) db (migrate_file exec read_file fault file db).1
    unfolding migrate_file
    migrate_file-Gains file db h =
        elim (Result-cases (is_applied exec read_file fault (version_of file) db)) [
          | inr (e, f) ↦ absurd (let g = rw (f, migrate_file) at h in cc)
          | inl (true, f) ↦
              rw (f, migrate_file) (is_applied-true (version_of file) db f, λ u has. has)
          | inl (false, f) ↦
              rw (f, migrate_file)
                (apply-Gains (version_of file) file db (rw (f, migrate_file) at h))
        ]

    migrate_files-recorded :
        (files : List Text) (db : Tables S)
        → (migrate_files exec read_file fault files db).0 ≡ ok tt
        → let after = (migrate_files exec read_file fault files db).1 in
          All (λ (f : Text). Has after (version_of f)) files
          × ((u : Text) → Has db u → Has after u)
          × (HasTable db → HasTable after)
    unfolding migrate_files
    migrate_files-recorded [] db h = (tt, (λ u has. has), λ has. has)
    migrate_files-recorded (file ∷ files) db h =
        let after = (migrate_file exec read_file fault file db).1 in
        elim (Result-cases (migrate_file exec read_file fault file db).0) [
          | inr (e, f) ↦ absurd (let g = rw (f, continued) at h in cc)
          | inl (_, f) ↦
              let (own, kept) = migrate_file-Gains file db f in
              let (rest, more, table) =
                migrate_files-recorded files after (rw (f, continued) at h) in
              let ends : migrate_files exec read_file fault (file ∷ files) db
                  ≡ migrate_files exec read_file fault files after =
                rw (f, continued) refl in
              subst
                (λ (end : Result (Unit {0}) × Tables S).
                  All (λ (g : Text). Has end.1 (version_of g)) (file ∷ files)
                  × ((u : Text) → Has db u → Has end.1 u)
                  × (HasTable db → HasTable end.1))
                (sym ends)
                (
                  (more (version_of file) own, rest),
                  (λ u has. more u (kept u has)),
                  λ has. table (own.0, own.1),
                )
        ]

  -- A later run, on tables in which the versions of its files are recorded.
  module _ (later : Exchange → Fault) (checks : (v : Text) → later (checking v) ≡ works) where
    is_applied-Has :
        (v : Text) (db : Tables S) → Has db v → is_applied exec read_file later v db ≡ ok true
    is_applied-Has v db (vs, e, m) = ground (arith, checks v, e, m)

    skips :
        (file : Text) (db : Tables S)
        → Has db (version_of file)
        → migrate_file exec read_file later file db ≡ (ok tt, db)
    unfolding migrate_file
    skips file db has = rw (is_applied-Has (version_of file) db has, migrate_file) refl

    skips-All :
        (files : List Text) (db : Tables S)
        → All (λ (f : Text). Has db (version_of f)) files
        → migrate_files exec read_file later files db ≡ (ok tt, db)
    unfolding migrate_files
    skips-All [] db h = refl
    skips-All (file ∷ files) db (h, hs) = rw (skips file db h, continued) (skips-All files db hs)

    with_versions-same :
        (db : Tables S) (vs : List Text)
        → db.versions ≡ some vs
        → with_versions exec read_file later db ≡ db
    with_versions-same db vs e = ground (arith, e)

    -- The second run, given what the first has left.
    again :
        (found : List Text) (db : Tables S)
        → later connecting ≡ works
        → later creating ≡ works
        → HasTable db
        → (files : List Text) → sorted_files exec read_file later found ≡ ok files
        → All (λ (f : Text). Has db (version_of f)) files
        → migrate exec read_file later found db ≡ (ok tt, db)
    unfolding migrate
    again found db c k (vs, e) files sorted recorded =
        let same = with_versions-same db vs e in
        rw (c, k, same, sorted, migrate) (skips-All files db recorded)

  -- A run that has succeeded.
  module _ (fault : Exchange → Fault) where
    created-HasTable :
        (f : Fault) (db : Tables S)
        → (created_versions exec read_file fault f db).0 ≡ ok tt
        → HasTable (created_versions exec read_file fault f db).1
    created-HasTable works db h = elim (Option-cases db.versions) [
      | inl e ↦ ([], ground (arith, e))
      | inr (vs, e) ↦ (vs, ground (arith, e))
    ]
    created-HasTable fails db h = cc
    created-HasTable lost db h = cc

    abbrev files_run : List Text → Result (Unit {0}) × Tables S → Result (Unit {0}) × Tables S
    files_run found = continued exec read_file fault λ created.
        elim (sorted_files exec read_file fault found) [
          | err e ↦ (err e, created)
          | ok files ↦ migrate_files exec read_file fault files created
        ]

    abbrev IsDone : List Text → Tables S → Type 0
    IsDone found after =
        HasTable after
        × ((files : List Text) × (sorted_files exec read_file fault found ≡ ok files)
            × All (λ (f : Text). Has after (version_of f)) files)

    files_run-IsDone :
        (found : List Text) (r : Result (Unit {0}) × Tables S)
        → (r.0 ≡ ok tt → HasTable r.1)
        → (files_run found r).0 ≡ ok tt
        → IsDone found (files_run found r).1
    files_run-IsDone found (err e, db) table h = cc
    files_run-IsDone [] (ok _, db) table h = cc
    files_run-IsDone (f ∷ fs) (ok _, db) table h =
        let files = sort le_bytes (f ∷ fs) in
        let (recorded, _, kept) = migrate_files-recorded fault files db h in
        (kept (table refl), (files, refl, recorded))

    migrate-IsDone :
        (found : List Text) (db : Tables S)
        → (migrate exec read_file fault found db).0 ≡ ok tt
        → IsDone found (migrate exec read_file fault found db).1
    unfolding migrate
    migrate-IsDone found db h = elim (Result-cases (passes (fault connecting) "connect: %v")) [
      | inr (e, f) ↦ absurd (let g = rw (f, migrate) at h in cc)
      | inl (_, f) ↦
          rw (f, migrate)
            (files_run-IsDone found (created_versions exec read_file fault (fault creating) db)
              (created-HasTable (fault creating) db) (rw (f, migrate) at h))
    ]

  -- After a run that has succeeded, a later run over the same files, in which the connection, the table
  -- of the versions and the look-ups work, succeeds and changes nothing, whatever else fails.
  pub migrate-again :
      (fault later : Exchange → Fault) (found : List Text) (db : Tables S)
      → (migrate exec read_file fault found db).0 ≡ ok tt
      → later connecting ≡ works
      → later creating ≡ works
      → ((v : Text) → later (checking v) ≡ works)
      → let after = (migrate exec read_file fault found db).1 in
        migrate exec read_file later found after ≡ (ok tt, after)
  migrate-again fault later found db h c k checks =
      let after = (migrate exec read_file fault found db).1 in
      let (table, (files, sorted, recorded)) = migrate-IsDone fault found db h in
      again later checks found after c k table files sorted recorded
