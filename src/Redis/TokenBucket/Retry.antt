-- ===== src/Redis/TokenBucket/Retry.antt =====
-- The `retry_after` of scripts/token_bucket.lua, and its refilling.
use native.Mathlib.Nat.{mul-le-mul_right, div-lt_iff_lt-mul}
use go_rate_limiter.Prelude.{
  ℕ, ◌+◌, ◌-◌, ◌*◌, ◌≤◌, ◌<◌, ◌≡◌, ◌↔◌, ◌∙◌, refl, true, false, Option, none, some, List, arith,
  min, get_or, if◌then◌else◌,
}
use go_rate_limiter.Prelude.Int.{ℤ, pos}
use go_rate_limiter.Prelude.Text.{Text, text_eq_refl}
use go_rate_limiter.Redis.Store.{Store, get}
use go_rate_limiter.Redis.TokenBucket.{
  nano, ceil_div, seconds_for, refilled, is_allowed, retry_after, spend, bucket_fields,
  bucket_reply, run_token_bucket,
}
use go_rate_limiter.Redis.TokenBucket.Expiry.{le-ceil_div-mul}
use go_rate_limiter.Redis.TokenBucket.Bounds.{refilled-le}

ceil_div-le_iff : (a b w : ℕ) → 0 < b → (ceil_div a b ≤ w) ↔ (a ≤ w * b)
ceil_div-le_iff a b w h = (
  (λ c. omega (arith, le-ceil_div-mul a b h, mul-le-mul_right b c)),
  λ k. let below : ceil_div a b < w + 1 = (div-lt_iff_lt-mul h).1 (omega arith) in omega arith,
)

module _ (capacity rate cost tokens : ℕ) (pos_rate : 0 < rate) (fits : cost ≤ capacity)
    (denied : is_allowed cost tokens ≡ false) where
  retry_after_denied : retry_after rate cost tokens ≡ seconds_for (cost * nano - tokens) rate
  unfolding retry_after
  retry_after_denied = ground arith

  short : tokens < cost * nano
  unfolding is_allowed
  short = ground arith

  allowed_later_iff :
      (now wait : ℕ)
      → (is_allowed cost (refilled capacity rate (now + wait * 1000) (some (tokens, now))) ≡ true)
        ↔ (cost * nano ≤ tokens + wait * 1000 * rate)
  unfolding is_allowed refilled
  allowed_later_iff now wait =
      let time : now + wait * 1000 - now ≡ wait * 1000 = omega arith in rw time (ground arith)

  -- A denied request of at most the capacity is let through exactly from the `retry_after` seconds
  -- on that the reply states, if nothing else takes tokens in the meantime. The rate is positive.
  pub retry_after_exact :
      (now wait : ℕ)
      → (is_allowed cost (refilled capacity rate (now + wait * 1000) (some (tokens, now))) ≡ true)
        ↔ (retry_after rate cost tokens ≤ wait)
  retry_after_exact now wait =
      let (to, from) = ceil_div-le_iff (cost * nano - tokens) (rate * 1000) wait (omega arith) in
      let (to', from') = allowed_later_iff now wait in
      rw retry_after_denied
        ((λ a. from (omega (arith, to' a, short))), λ r. from' (omega (arith, to r, short)))

-- A cost above the capacity is never let through, at any time and from any state of the bucket.
pub never_allowed :
    (capacity rate cost now : ℕ) (state : Option (ℕ × ℕ))
    → capacity < cost
    → is_allowed cost (refilled capacity rate now state) ≡ false
unfolding is_allowed
never_allowed capacity rate cost now state h = ground (arith, refilled-le capacity rate now state)

-- What the script leaves for a request at the same time of the server.
left_fields :
    (capacity rate now cost clock : ℕ) (store : Store) (key : Text)
    → bucket_fields (get (run_token_bucket capacity rate now cost clock store key).1 clock key)
      ≡ some (spend cost (refilled capacity rate now (bucket_fields (get store clock key))), now)
unfolding run_token_bucket
left_fields capacity rate now cost clock store key = ground (arith, text_eq_refl key)

verdict :
    (capacity rate now cost clock : ℕ) (store : Store) (key : Text)
    → get_or (run_token_bucket capacity rate now cost clock store key).0 0 (pos 2)
      ≡ pos (
          if is_allowed cost (refilled capacity rate now (bucket_fields (get store clock key)))
          then 1
          else 0)
unfolding run_token_bucket bucket_reply
verdict capacity rate now cost clock store key = refl

module _ (capacity rate t d cost other clock : ℕ) (store : Store) (key : Text) where
  -- A request at `t` has taken all tokens; the next one carries the earlier time `t - d`.
  abbrev pub emptied : Store
  emptied = (run_token_bucket capacity rate t capacity clock store key).1

  abbrev pub early : List ℤ × Store
  early = run_token_bucket capacity rate (t - d) other clock emptied key

  emptied_fields : store key ≡ none → bucket_fields (get emptied clock key) ≡ some (0, t)
  unfolding spend is_allowed refilled
  emptied_fields fresh =
      left_fields capacity rate t capacity clock store key ∙ rw fresh (ground arith)

  nothing : refilled capacity rate t (some (0, t)) ≡ 0
  unfolding refilled
  nothing = ground arith

  nothing_early : d ≤ t → refilled capacity rate (t - d) (some (0, t)) ≡ 0
  unfolding refilled
  nothing_early h = let back : t - d - t ≡ 0 = omega arith in rw back (ground arith)

  early_fields :
      store key ≡ none → d ≤ t → 1 ≤ other → bucket_fields (get early.1 clock key) ≡ some (0, t - d)
  unfolding spend is_allowed
  early_fields fresh h some_cost =
      left_fields capacity rate (t - d) other clock emptied key
      ∙ rw (emptied_fields fresh, nothing_early h) (ground arith)

  gained : d ≤ t → refilled capacity rate t (some (0, t - d)) ≡ min (capacity * nano) (d * rate)
  unfolding refilled
  gained h = let time : t - (t - d) ≡ d = omega arith in rw time (ground arith)

  -- The script lets the same interval refill the bucket twice when the times of requests are out of
  -- order. A new bucket has been emptied by a request at `t`, and a request at `t` is refused; but after
  -- one that carries an earlier time `t - d`, and is refused as well, the same request at `t` is let
  -- through, if the rate yields its cost in `d`. All of them reach the server at one time.
  pub refilled_twice :
      store key ≡ none
      → d ≤ t
      → 1 ≤ other
      → 1 ≤ cost
      → cost ≤ capacity
      → cost * nano ≤ d * rate
      → (get_or (run_token_bucket capacity rate t cost clock emptied key).0 0 (pos 2) ≡ pos 0)
        × (get_or early.0 0 (pos 2) ≡ pos 0)
        × (get_or (run_token_bucket capacity rate t cost clock early.1 key).0 0 (pos 2) ≡ pos 1)
  unfolding is_allowed
  refilled_twice fresh h some_other some_cost fits enough = (
    verdict capacity rate t cost clock emptied key
        ∙ rw (emptied_fields fresh, nothing) (ground arith),
    verdict capacity rate (t - d) other clock emptied key
        ∙ rw (emptied_fields fresh, nothing_early h) (ground arith),
    verdict capacity rate t cost clock early.1 key
        ∙ rw (early_fields fresh h some_other, gained h) (ground arith),
  )
