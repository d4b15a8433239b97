-- ===== src/Cache.antt =====
-- internal/infrastructure/cache/rule_cache.go. A call reads the clock in `get` and, after a miss, once
-- more in `set`; times are in nanoseconds.
pub mod Staleness
use go_rate_limiter.Prelude.{
  ℕ, ◌+◌, Bool, true, false, Option, none, some, List, if◌then◌else◌, ltb, ◌==◌,
}
use go_rate_limiter.Errors.{Error, Result, ok, err}
use go_rate_limiter.Entity.{Uuid, Rule}

pub record CachedRules : Type 0 where
  pub rules : List Rule
  pub expires_at : ℕ

-- The map `items`.
abbrev pub Items : Type 0
Items = Uuid → Option CachedRules

abbrev pub no_items : Items
no_items tenant_id = none

unfoldable pub get_cached : Items → Uuid → ℕ → Option (List Rule)
get_cached items tenant_id now = elim (items tenant_id) [
  | none ↦ none
  | some item ↦ if ltb item.expires_at now then none else some item.rules
]

unfoldable pub set_cached : ℕ → Items → Uuid → List Rule → ℕ → Items
set_cached ttl items tenant_id rules now t =
    if t == tenant_id then some (record { rules = rules; expires_at = now + ttl }) else items t

-- The answer of the repository on a miss.
abbrev pub loaded : ℕ → Items → Uuid → ℕ → Result (List Rule) → Result (List Rule) × Items
loaded ttl items tenant_id set_at (err e) = (err e, items)
loaded ttl items tenant_id set_at (ok rules) =
    (ok rules, set_cached ttl items tenant_id rules set_at)

-- `repo` is what the repository answers at the time of the call.
unfoldable pub list_cached :
    (Uuid → Result (List Rule)) → ℕ → Items → Uuid → ℕ → ℕ → Result (List Rule) × Items
unfolding get_cached
list_cached repo ttl items tenant_id get_at set_at = elim (get_cached items tenant_id get_at) [
  | some rules ↦ (ok rules, items)
  | none ↦ loaded ttl items tenant_id set_at (repo tenant_id)
]
