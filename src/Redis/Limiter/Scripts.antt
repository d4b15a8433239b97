-- ===== src/Redis/Limiter/Scripts.antt =====
-- Which script a check of a valid rule runs, and with what.
use go_rate_limiter.Prelude.{ℕ, ◌/◌, ◌<◌, ◌≡◌, refl, true, List, if◌then◌else◌, arith}
use go_rate_limiter.Prelude.Int.{ℤ, pos, negsuc, pos_part, leb_ℤ}
use go_rate_limiter.Entity.{Rule, RateLimitKey, token_bucket, sliding_window}
use go_rate_limiter.Redis.Store.{Store}
use go_rate_limiter.Redis.Keys.{Platform, TenantRouteKey, token_bucket_key, sliding_window_keys}
use go_rate_limiter.Redis.TokenBucket.{run_token_bucket}
use go_rate_limiter.Redis.SlidingWindow.{run_sliding_window}
use go_rate_limiter.Redis.Limiter.{Call, answer, check_token_bucket, check_sliding_window, check}

-- The cost that a check takes.
abbrev pub charged : ℤ → ℕ
charged cost = pos_part (if leb_ℤ cost (pos 0) then pos 1 else cost)

abbrev pub counter_of : RateLimitKey → TenantRouteKey
counter_of key = record { tenant_id = key.tenant_id; route = key.route; subject = key.subject }

nonneg : (a : ℤ) → 0 < pos_part a → leb_ℤ (pos 0) a ≡ true
nonneg (pos n) h = ground arith
nonneg (negsuc n) h = ground arith

positive : (a : ℤ) → 0 < pos_part a → leb_ℤ (pos 1) a ≡ true
positive (pos n) h = ground arith
positive (negsuc n) h = ground arith

module _ (p : Platform) (odd : Rule → Store → List ℤ × Store) (call : Call) (key : RateLimitKey)
    (rule : Rule) (cost : ℤ) (store : Store) where
  pub check-token_bucket :
      rule.algorithm ≡ token_bucket
      → 0 < pos_part rule.bucket_capacity
      → 0 < pos_part rule.refill_rate
      → check p odd call key rule cost store
        ≡ answer call.link rule store (
            run_token_bucket
              (pos_part rule.bucket_capacity)
              (pos_part rule.refill_rate)
              call.now_ms
              (charged cost)
              call.clock
              store
              (token_bucket_key p (counter_of key)))
  unfolding check check_token_bucket
  check-token_bucket a c r = rw (a, nonneg rule.bucket_capacity c, nonneg rule.refill_rate r) refl

  pub check-sliding_window :
      rule.algorithm ≡ sliding_window
      → 0 < pos_part rule.limit_count
      → 0 < pos_part rule.window_seconds
      → check p odd call key rule cost store
        ≡ answer call.link rule store (
            run_sliding_window
              (pos_part rule.window_seconds)
              (call.now_ms / 1000)
              (pos_part rule.limit_count)
              (charged cost)
              call.clock
              (sliding_window_keys p (counter_of key))
              store)
  unfolding check check_sliding_window
  check-sliding_window a l w =
      rw (a, nonneg rule.limit_count l, positive rule.window_seconds w) refl
