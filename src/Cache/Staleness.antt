-- ===== src/Cache/Staleness.antt =====
-- How old the answers of internal/infrastructure/cache/rule_cache.go can be.
use go_rate_limiter.Prelude.{
  ℕ, ◌+◌, ◌≤◌, ◌≡◌, refl, ◌⊎◌, inl, inr, Option, none, some, List, [], ◌∷◌, ◌==◌, ==_iff, Member,
  arith, Bool-cases, Option-cases,
}
use go_rate_limiter.Errors.{Result, ok, err}
use go_rate_limiter.Entity.{Uuid, Rule}
use go_rate_limiter.Cache.{
  CachedRules, Items, no_items, get_cached, set_cached, loaded, list_cached,
}

-- What the repository has been asked: a tenant, its rules, and the time when they were kept.
pub record Load : Type 0 where
  pub tenant_id : Uuid
  pub rules : List Rule
  pub kept_at : ℕ

module _ (ttl : ℕ) where
  -- What a call adds to the loads.
  abbrev pub noted : Uuid → ℕ → Option (List Rule) → Result (List Rule) → List Load → List Load
  noted tenant_id set_at (some rules) answer loads = loads
  noted tenant_id set_at none (err e) loads = loads
  noted tenant_id set_at none (ok rules) loads =
      record { tenant_id = tenant_id; rules = rules; kept_at = set_at } ∷ loads

  -- The caches that calls lead to, whatever the repository answers at each of them.
  pub data Reached : List Load → Items → Type 0 where
    start : Reached [] no_items
    call :
        {loads : List Load} {items : Items} (repo : Uuid → Result (List Rule)) (tenant_id : Uuid)
        (get_at set_at : ℕ)
        → Reached loads items
        → Reached
            (noted tenant_id set_at (get_cached items tenant_id get_at) (repo tenant_id) loads)
            (list_cached repo ttl items tenant_id get_at set_at).1

  -- An entry comes from a load of its tenant, and expires after the time to live.
  abbrev Kept : List Load → Items → Type 0
  Kept loads items =
      (t : Uuid) (item : CachedRules)
      → items t ≡ some item
      → (l : Load) × Member l loads
        × (l.tenant_id ≡ t)
        × (l.rules ≡ item.rules)
        × (item.expires_at ≡ l.kept_at + ttl)

  Kept-set :
      (loads : List Load) (items : Items) (tenant_id : Uuid) (rules : List Rule) (set_at : ℕ)
      → Kept loads items
      → Kept
          (record { tenant_id = tenant_id; rules = rules; kept_at = set_at } ∷ loads)
          (set_cached ttl items tenant_id rules set_at)
  unfolding set_cached
  Kept-set loads items tenant_id rules set_at k t item e = elim (Bool-cases (t == tenant_id)) [
    | inl same ↦
        let mine : some (record { rules = rules; expires_at = set_at + ttl }) ≡ some item =
          rw same at e in
        (
          record { tenant_id = tenant_id; rules = rules; kept_at = set_at },
          Member.here,
          ground (arith, (==_iff t tenant_id).0 same),
          ground (arith, mine),
          ground (arith, mine),
        )
    | inr other ↦ let (l, m, a, b, c) = k t item (rw other at e) in (l, Member.there m, a, b, c)
  ]

  Kept-loaded :
      (loads : List Load) (items : Items) (tenant_id : Uuid) (set_at : ℕ)
      (answer : Result (List Rule))
      → Kept loads items
      → Kept (noted tenant_id set_at none answer loads) (loaded ttl items tenant_id set_at answer).1
  Kept-loaded loads items tenant_id set_at (err e) k = k
  Kept-loaded loads items tenant_id set_at (ok rules) k =
      Kept-set loads items tenant_id rules set_at k

  Kept-call :
      (loads : List Load) (items : Items) (repo : Uuid → Result (List Rule)) (tenant_id : Uuid)
      (get_at set_at : ℕ)
      → Kept loads items
      → Kept
          (noted tenant_id set_at (get_cached items tenant_id get_at) (repo tenant_id) loads)
          (list_cached repo ttl items tenant_id get_at set_at).1
  unfolding list_cached
  Kept-call loads items repo tenant_id get_at set_at k =
      elim (Option-cases (get_cached items tenant_id get_at)) [
        | inl e ↦ rw (e, list_cached) (Kept-loaded loads items tenant_id set_at (repo tenant_id) k)
        | inr (rules, e) ↦ rw (e, list_cached) k
      ]

  Reached-Kept : {loads : List Load} {items : Items} → Reached loads items → Kept loads items
  Reached-Kept start = λ t item e. cc
  Reached-Kept (call {loads} {items} repo tenant_id get_at set_at r) =
      Kept-call loads items repo tenant_id get_at set_at (Reached-Kept r)

  loaded-answer :
      (items : Items) (tenant_id : Uuid) (set_at : ℕ) (answer : Result (List Rule))
      → (loaded ttl items tenant_id set_at answer).0 ≡ answer
  loaded-answer items tenant_id set_at (err e) = refl
  loaded-answer items tenant_id set_at (ok rules) = refl

  get_cached-item :
      (items : Items) (tenant_id : Uuid) (now : ℕ) (rules : List Rule)
      → get_cached items tenant_id now ≡ some rules
      → (item : CachedRules) × (items tenant_id ≡ some item)
        × (item.rules ≡ rules)
        × (now ≤ item.expires_at)
  unfolding get_cached
  get_cached-item items tenant_id now rules h = elim (Option-cases (items tenant_id)) [
    | inl e ↦ absurd (ground (arith, e))
    | inr (item, e) ↦ (item, e, ground (arith, e), ground (arith, e))
  ]

  -- Every answer of the cache is what the repository answers now, or the rules of a load of the same
  -- tenant that was kept at most the time to live ago.
  pub list_cached-fresh :
      (loads : List Load) (items : Items) (repo : Uuid → Result (List Rule)) (tenant_id : Uuid)
      (get_at set_at : ℕ)
      → Reached loads items
      → let answer = (list_cached repo ttl items tenant_id get_at set_at).0 in
        (answer ≡ repo tenant_id)
        ⊎ ((l : Load) × Member l loads
            × (l.tenant_id ≡ tenant_id)
            × (answer ≡ ok l.rules)
            × (get_at ≤ l.kept_at + ttl))
  unfolding list_cached
  list_cached-fresh loads items repo tenant_id get_at set_at r =
      elim (Option-cases (get_cached items tenant_id get_at)) [
        | inl e ↦ inl (rw (e, list_cached) (loaded-answer items tenant_id set_at (repo tenant_id)))
        | inr (rules, e) ↦
            let (item, found, same, fresh) = get_cached-item items tenant_id get_at rules e in
            let (l, m, owner, held, expiry) = Reached-Kept r tenant_id item found in
            inr (l, m, owner, rw (e, list_cached, held, same) refl, omega (arith, fresh, expiry))
      ]
