-- ===== src/Tests/Buckets.antt =====
-- Requests on a token bucket of five tokens, one a second.
use go_rate_limiter.Prelude.{
  ℕ, ◌+◌, ◌-◌, ◌*◌, ◌≡◌, ◌≤◌, ◌↔◌, refl, true, false, none, some, List, [], ◌∷◌, arith, get_or,
}
use go_rate_limiter.Prelude.Int.{pos}
use go_rate_limiter.Redis.Keys.{TenantRouteKey}
use go_rate_limiter.Redis.Keys.Distinct.{IsRegular}
use go_rate_limiter.Redis.TokenBucket.{
  nano, refilled, is_allowed, spend, retry_after, run_token_bucket,
}
use go_rate_limiter.Redis.TokenBucket.Bounds.{total}
use go_rate_limiter.Redis.TokenBucket.Expiry.{total_granted, total_granted-le}
use go_rate_limiter.Redis.TokenBucket.Retry.{retry_after_exact, emptied, early, refilled_twice}
use go_rate_limiter.Tests.Data.{plain, empty_store, slash_a, slash_b}

abbrev rate : ℕ
rate = 1_000_000

abbrev requests : List (ℕ × ℕ)
requests = (1000, 3) ∷ (1500, 3) ∷ (4000, 4) ∷ []

-- The second request finds two tokens and a half.
requests-total : total 5 rate requests none ≡ 7
unfolding total refilled spend is_allowed
requests-total = refl

total_granted-le_example :
    total_granted 5 rate slash_a requests empty_store * nano ≤ 5 * nano + (4000 - 1000) * rate
total_granted-le_example =
    total_granted-le 5 rate slash_a (omega arith) requests 1000 4000 empty_store refl
      (omega arith, (omega arith, (omega arith, omega arith)))

retry_in_two : retry_after rate 3 nano ≡ 2
unfolding retry_after is_allowed
retry_in_two = refl

denied_3 : is_allowed 3 nano ≡ false
unfolding is_allowed
denied_3 = refl

retry_after_exact_example :
    (is_allowed 3 (refilled 5 rate (1000 + 2 * 1000) (some (nano, 1000))) ≡ true)
    ↔ (retry_after rate 3 nano ≤ 2)
retry_after_exact_example =
    retry_after_exact 5 rate 3 nano (omega arith) (omega arith) denied_3 1000 2

refilled_twice_example :
    (get_or
        (run_token_bucket 5 rate 2000 1 2000
          (emptied 5 rate 2000 1000 1 1 2000 empty_store slash_a)
          slash_a).0
        0
        (pos 2)
      ≡ pos 0)
    × (get_or (early 5 rate 2000 1000 1 1 2000 empty_store slash_a).0 0 (pos 2) ≡ pos 0)
    × (get_or
          (run_token_bucket 5 rate 2000 1 2000
            (early 5 rate 2000 1000 1 1 2000 empty_store slash_a).1
            slash_a).0
          0
          (pos 2)
        ≡ pos 1)
refilled_twice_example =
    refilled_twice 5 rate 2000 1000 1 1 2000 empty_store slash_a refl (omega arith) (omega arith)
      (omega arith) (omega arith) (omega arith)

pub regular : IsRegular plain
regular = record { uuid_width = λ a b. refl; uuid_injective = λ a b e. cc; sha_width = λ s. refl }

abbrev key_a : TenantRouteKey
key_a = record { tenant_id = 7; route = slash_a; subject = [] }

abbrev key_b : TenantRouteKey
key_b = record { tenant_id = 8; route = slash_b; subject = slash_a }
