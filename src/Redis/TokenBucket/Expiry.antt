-- ===== src/Redis/TokenBucket/Expiry.antt =====
-- scripts/token_bucket.lua over time, where its key expires.
use native.Mathlib.Nat.{mul-le-mul_right, div-add-mod', mod-lt}
use mathlib.Core.Path.{ap₂}
use go_rate_limiter.Prelude.{
  ℕ, ◌+◌, ◌-◌, ◌*◌, ◌≤◌, ◌<◌, ◌≡◌, refl, Option, none, some, List, [], ◌∷◌, arith, if◌then◌else◌,
  lt→ltb, ◌∙◌, get_or,
}
use go_rate_limiter.Prelude.Int.{ℤ, pos, eqb_ℤ}
use go_rate_limiter.Prelude.Text.{Text, text_eq_refl}
use go_rate_limiter.Redis.Store.{Store, Value, Entry, bucket, get, live, kept_expiry, expiring}
use go_rate_limiter.Redis.TokenBucket.{
  bucket_fields, nano, ceil_div, seconds_for, refilled, is_allowed, spend, run_token_bucket,
}
use go_rate_limiter.Redis.TokenBucket.Bounds.{total, InOrder, total-le}

pub le-ceil_div-mul : (a b : ℕ) → 0 < b → a ≤ ceil_div a b * b
le-ceil_div-mul a b h = omega (arith, div-add-mod' (a + b - 1) b, mod-lt (a + b - 1) h)

full_after :
    (total tokens rate s since : ℕ)
    → total ≤ s * (rate * 1000)
    → s * 1000 ≤ since
    → total ≤ tokens + since * rate
full_after total tokens rate s since enough long = omega (arith, mul-le-mul_right rate long)

-- Whether the script's reply lets the request through, with the cost as what it takes.
abbrev pub granted : ℕ → List ℤ → ℕ
granted cost reply = if eqb_ℤ (get_or reply 0 (pos 0)) (pos 1) then cost else 0

hset-expire :
    (e : Option Entry) (now : ℕ) (v : Value) (t : ℕ)
    → expiring t (live now (some (record { value = v; expires = kept_expiry (live now e) })))
      ≡ some (record { value = v; expires = some t })
hset-expire e now v t = ground arith

module _ (capacity rate : ℕ) (key : Text) where
  -- Requests on one key of a store, each with its time and cost. The server's clock shows the time
  -- that the request passes.
  pub after_script : ℕ × ℕ → Store → Store
  after_script (now, cost) store = (run_token_bucket capacity rate now cost now store key).1

  pub granted_by_script : ℕ × ℕ → Store → ℕ
  granted_by_script (now, cost) store =
      granted cost (run_token_bucket capacity rate now cost now store key).0

  unfoldable pub total_granted : List (ℕ × ℕ) → Store → ℕ
  unfolding after_script granted_by_script
  total_granted [] store = 0
  total_granted (r ∷ rs) store = granted_by_script r store + total_granted rs (after_script r store)

  abbrev ttl : ℕ
  ttl = seconds_for (capacity * nano) rate + 60

  -- The key holds what the last request, at the time `last`, wrote.
  abbrev Holds : Store → ℕ → ℕ → Type 0
  Holds store tokens last =
      store key ≡ some (record { value = bucket tokens last; expires = some (last + ttl * 1000) })

  module _ (pos_rate : 0 < rate) where
    -- A bucket whose time to live has passed would be full.
    full_after_ttl :
        (now tokens last : ℕ)
        → last + ttl * 1000 < now
        → refilled capacity rate now (some (tokens, last)) ≡ refilled capacity rate now none
    unfolding refilled
    full_after_ttl now tokens last h = omega (
      arith,
      full_after (capacity * nano) tokens rate (seconds_for (capacity * nano) rate) (now - last)
          (le-ceil_div-mul (capacity * nano) (rate * 1000) (omega arith)) (omega arith),
    )

    seen :
        (store : Store) (now tokens last : ℕ)
        → Holds store tokens last
        → refilled capacity rate now (bucket_fields (get store now key))
          ≡ refilled capacity rate now (some (tokens, last))
    seen store now tokens last h = rw h (ground (arith, full_after_ttl now tokens last))

    Holds-after :
        (store : Store) (now cost : ℕ)
        → Holds
            (after_script (now, cost) store)
            (spend cost (refilled capacity rate now (bucket_fields (get store now key))))
            now
    unfolding after_script run_token_bucket
    Holds-after store now cost =
        simp (lt→ltb 0 rate pos_rate, text_eq_refl) (hset-expire (store key) now _ _)

    granted_by_script_lem :
        (store : Store) (now cost : ℕ)
        → granted_by_script (now, cost) store ≡ (
            if is_allowed cost (refilled capacity rate now (bucket_fields (get store now key)))
            then cost
            else 0)
    unfolding granted_by_script run_token_bucket
    granted_by_script_lem store now cost = ground arith

    -- The script grants what a bucket that never expires would.
    total_granted_from :
        (rs : List (ℕ × ℕ)) (store : Store) (tokens last : ℕ)
        → Holds store tokens last
        → total_granted rs store ≡ total capacity rate rs (some (tokens, last))
    unfolding total_granted total
    total_granted_from [] store tokens last h = refl
    total_granted_from ((now, cost) ∷ rs) store tokens last h =
        let same = seen store now tokens last h in
        ap₂ ◌+◌ (granted_by_script_lem store now cost ∙ rw same refl) (
          total_granted_from rs (after_script (now, cost) store) _ now
            (rw (← same) (Holds-after store now cost)))

    total_granted-fresh :
        (rs : List (ℕ × ℕ)) (store : Store)
        → store key ≡ none
        → total_granted rs store ≡ total capacity rate rs none
    unfolding total_granted total
    total_granted-fresh [] store h = refl
    total_granted-fresh ((now, cost) ∷ rs) store h =
        let same : bucket_fields (get store now key) ≡ none = rw h refl in
        ap₂ ◌+◌ (granted_by_script_lem store now cost ∙ rw same refl) (
          total_granted_from rs (after_script (now, cost) store) _ now
            (rw (← same) (Holds-after store now cost)))

    -- Whatever requests reach a key that is not there, at times from `t` to `u` that do not fall, the
    -- script grants them at most the capacity and what the rate yields from `t` to `u`, although the
    -- key may expire between them. The rate is positive, and the server's clock shows the time that
    -- each request passes.
    pub total_granted-le :
        (rs : List (ℕ × ℕ)) (t u : ℕ) (store : Store)
        → store key ≡ none
        → InOrder t u rs
        → total_granted rs store * nano ≤ capacity * nano + (u - t) * rate
    total_granted-le rs t u store h o =
        rw (total_granted-fresh rs store h) (total-le capacity rate rs t u o)
