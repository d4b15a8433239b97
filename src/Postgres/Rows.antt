-- ===== src/Postgres/Rows.antt =====
-- What the insertions leave, and what is read back of a rule.
use go_rate_limiter.Prelude.{
  ◌≡◌, refl, Bool, true, false, ◌||◌, some, List, [], ◌∷◌, ◌++◌, arith, ◌==◌,
}
use go_rate_limiter.Prelude.Int.{ℤ, pos, negsuc}
use go_rate_limiter.Prelude.Text.{text_eq}
use go_rate_limiter.Postgres.{
  Db, TenantRow, KeyRow, RuleRow, done, find, exists, insert_tenant, insert_key, insert_rule,
  rounded, null_if_zero, coalesce,
}

pub insert_tenant-done :
    (row : TenantRow) (db after : Db)
    → insert_tenant row db ≡ done after
    → (after ≡ record db { tenants = db.tenants ++ row ∷ [] })
      × (exists (λ (t : TenantRow). t.id == row.id || text_eq t.name row.name) db.tenants ≡ false)
unfolding insert_tenant
insert_tenant-done row db after h = (ground arith, ground arith)

pub insert_key-done :
    (row : KeyRow) (db after : Db)
    → insert_key row db ≡ done after
    → (after ≡ record db { keys = db.keys ++ row ∷ [] })
      × (exists (λ (k : KeyRow). k.id == row.id || text_eq k.key_hash row.key_hash) db.keys ≡ false)
unfolding insert_key
insert_key-done row db after h = (ground arith, ground arith)

pub insert_rule-done :
    (row : RuleRow) (db after : Db)
    → insert_rule row db ≡ done after
    → after
      ≡ record db { rules = db.rules ++ record row { refill_rate = rounded row.refill_rate } ∷ [] }
unfolding insert_rule
insert_rule-done row db after h = ground arith

module _ {A : Type 0} (p q : A → Bool) (le : (a : A) → p a ≡ false → q a ≡ false) where
  -- A query for a row that is at the end and nowhere before.
  pub find-last :
      (xs : List A) (x : A) → exists p xs ≡ false → q x ≡ true → find q (xs ++ x ∷ []) ≡ some x
  find-last [] x n h = rw h refl
  find-last (y ∷ xs) x n h = ground (arith, le y, find-last xs x)

pub coalesce-null_if_zero : (v : ℤ) → coalesce (null_if_zero v) ≡ v
unfolding null_if_zero
coalesce-null_if_zero (pos n) = ground arith
coalesce-null_if_zero (negsuc n) = ground arith
