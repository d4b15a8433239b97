-- ===== src/Tests/Projects.antt =====
-- A project that is created, its rules and its keys.
use go_rate_limiter.Prelude.{ℕ, ◌+◌, ◌≡◌, ◌≢◌, ◌↔◌, ◌⊎◌, refl, true, none, List, [], ◌∷◌, arith}
use go_rate_limiter.Prelude.Int.{pos}
use go_rate_limiter.Prelude.Text.{Text, txt, text_eq}
use go_rate_limiter.Errors.{Error, Result, ok, err}
use go_rate_limiter.Entity.{Rule, role_admin, tenant_active, is_valid_algorithm, validate}
use go_rate_limiter.Auth.{authenticate, hash_api_key, TenantContext}
use go_rate_limiter.Auth.Soundness.{Refused}
use go_rate_limiter.Provisioning.{
  check_rules, is_project_name, is_sha256_hex, is_key_prefix, NewProject, check_project, is_role,
}
use go_rate_limiter.Provisioning.Accepted.{IsSound, requested, check_project_iff}
use go_rate_limiter.Postgres.{
  Db, insert_tenant, insert_key, insert_rule, null_if_zero, scan_rule, to_hundredths, find_by_hash,
  api_key_of,
}
use go_rate_limiter.Postgres.Projects.{
  Session, works, lost, commit_step, insert_rules, project_transaction, store_project, with_project,
  key_row,
}
use go_rate_limiter.Postgres.Projects.Atomic.{IsNew, store_project-atomic, store_project-found}
use go_rate_limiter.Postgres.Projects.Scanned.{table_row, scan_rule-table_row, small_rate_lost}
use go_rate_limiter.Postgres.Keys.{revoke_key, auth_ports}
use go_rate_limiter.Postgres.History.{revokes, unchanged}
use go_rate_limiter.Postgres.Keys.Final.{revoked_forever}
use go_rate_limiter.Postgres.Keys.Revoked.{store_project-authenticates}
use go_rate_limiter.Tests.Data.{plain, bucket_rule, window_rule, slash_a, slash_b}

abbrev same : Text → Text
same s = s

-- "shop"
abbrev shop : Text
shop = 115 ∷ 104 ∷ 111 ∷ 112 ∷ []

-- 64 hexadecimal digits.
abbrev whole_hash : Text
whole_hash = txt "0123456789abcdef0123456789abcdef0123456789abcdef0123456789abcdef"

abbrev two_rules : List Rule
two_rules = bucket_rule slash_a ∷ window_rule slash_b ∷ []

abbrev wanted : NewProject
wanted = requested same 7 shop whole_hash slash_a role_admin two_rules

accepted : check_project same 7 shop whole_hash slash_a role_admin two_rules ≡ ok wanted
unfolding check_project check_rules is_project_name is_sha256_hex is_key_prefix is_role validate txt
    go_rate_limiter.Prelude.Text.to_lower go_rate_limiter.Prelude.Text.trim_space text_eq
    is_valid_algorithm
accepted = refl

wanted-IsSound : IsSound wanted
wanted-IsSound =
    ((check_project_iff same 7 shop whole_hash slash_a role_admin two_rules wanted).0 accepted).1

check_project_iff_example :
    (check_project same 7 shop whole_hash slash_a role_admin two_rules ≡ ok wanted)
    ↔ ((wanted ≡ wanted) × IsSound wanted)
check_project_iff_example =
    check_project_iff same 7 shop whole_hash slash_a role_admin two_rules wanted

abbrev count_store : NewProject → ℕ → Result (Unit {0}) × ℕ
count_store p n = (ok tt, n + 1)

-- The hash that `plain` gives to the key "/a".
abbrev pub project : NewProject
project = record {
  tenant_id = 7;
  name = shop;
  key_hash = hash_api_key plain slash_a;
  key_prefix = slash_a;
  key_role = role_admin;
  rules = two_rules;
}

abbrev pub all_works : Session
all_works = record { fault = λ s. works; key_id = 3; rule_id = λ i. i + 10; now = 50 }

abbrev pub empty_db : Db
empty_db = record { tenants = []; keys = []; rules = [] }

store_project-atomic_example :
    let r = store_project all_works project empty_db in
    ((r.0 ≡ ok tt)
      × (r.1 ≡ with_project all_works project empty_db)
      × IsNew all_works project empty_db)
    ⊎ ((e : Error) × (r.0 ≡ err e)
        × ((r.1 ≡ empty_db)
            ⊎ ((all_works.fault commit_step ≡ lost)
                × (r.1 ≡ with_project all_works project empty_db))))
store_project-atomic_example = store_project-atomic all_works project empty_db

pub stored_ok : (store_project all_works project empty_db).0 ≡ ok tt
unfolding store_project project_transaction insert_rules insert_tenant insert_key insert_rule
    is_role is_valid_algorithm null_if_zero text_eq
stored_ok = refl

abbrev project_db : Db
project_db = (store_project all_works project empty_db).1

given : slash_a ≢ []
given e = cc

abbrev context : TenantContext
context = record {
  tenant = record { id = 7; name = shop; status = tenant_active };
  api_key = api_key_of (key_row all_works project);
}

store_project-authenticates_example :
    authenticate plain (auth_ports project_db) slash_a ≡ ok context
store_project-authenticates_example =
    store_project-authenticates plain all_works project slash_a empty_db given refl stored_ok

signed_in : authenticate plain (auth_ports project_db) slash_a ≡ ok context
signed_in =
    store_project-authenticates plain all_works project slash_a empty_db given refl stored_ok

-- Another key is revoked afterwards.
revoked_forever_example :
    Refused plain
      (auth_ports (revoke_key works 7 4 (revoke_key works 7 3 project_db).1).1)
      slash_a
      (401, "unauthorized")
revoked_forever_example =
    revoked_forever plain slash_a context project_db signed_in
      (revoke_key works 7 4 (revoke_key works 7 3 project_db).1).1 (revokes works 7 4 unchanged)

other_tenant : (api_key_of (key_row all_works project)).tenant_id ≢ 8
other_tenant e = cc

found : find_by_hash project_db project.key_hash ≡ ok (api_key_of (key_row all_works project))
found = (store_project-found all_works project empty_db stored_ok).0

abbrev slow_rule : Rule
slow_rule = record (bucket_rule slash_a) { refill_rate = pos 1000 }

known : is_valid_algorithm slow_rule.algorithm ≡ true
unfolding is_valid_algorithm
known = refl

scan_rule-table_row_example :
    scan_rule (table_row 10 7 slow_rule)
    ≡ ok (record slow_rule {
      id = 10;
      tenant_id = 7;
      refill_rate = to_hundredths slow_rule.refill_rate;
    })
scan_rule-table_row_example = scan_rule-table_row 10 7 slow_rule known

small_rate_lost_example :
    (q : Rule) × (scan_rule (table_row 10 7 slow_rule) ≡ ok q)
    × (q.refill_rate ≡ pos 0)
    × (validate q ≢ none)
small_rate_lost_example = small_rate_lost 10 7 slow_rule 1000 refl refl (omega arith)
