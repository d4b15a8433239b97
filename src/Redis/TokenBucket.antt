-- ===== src/Redis/TokenBucket.antt =====
-- internal/infrastructure/redis/scripts/token_bucket.lua in exact arithmetic: tokens are counted in
-- thousand-millionths, a rate in millionths of a token per second, so that a millisecond adds a whole
-- number. The capacity and the rate are not negative here.
pub mod Bounds
pub mod Expiry
pub mod Retry
use go_rate_limiter.Prelude.{
  ℕ, ◌+◌, ◌-◌, ◌*◌, ◌/◌, Bool, Option, none, some, List, [], ◌∷◌, if◌then◌else◌, leb, ltb, min,
  ◌&&◌,
}
use go_rate_limiter.Prelude.Int.{ℤ, pos}
use go_rate_limiter.Prelude.Text.{Text}
use go_rate_limiter.Redis.Store.{Store, Value, counter, bucket, get, hset, expire}

abbrev pub nano : ℕ
nano = 1_000_000_000

-- `math.ceil(a / b)`
abbrev pub ceil_div : ℕ → ℕ → ℕ
ceil_div a b = (a + b - 1) / b

-- The fields `tokens` and `last_refill_ms`; a string under this key would be an error of Redis, and
-- no code writes one.
abbrev pub bucket_fields : Option Value → Option (ℕ × ℕ)
bucket_fields (some (bucket tokens last)) = some (tokens, last)
bucket_fields _ = none

-- The time, in whole seconds, in which the rate yields an amount.
abbrev pub seconds_for : ℕ → ℕ → ℕ
seconds_for amount rate = ceil_div amount (rate * 1000)

-- The tokens before the request takes any.
unfoldable pub refilled : ℕ → ℕ → ℕ → Option (ℕ × ℕ) → ℕ
refilled capacity rate now_ms none = capacity * nano
refilled capacity rate now_ms (some (tokens, last)) =
    min (capacity * nano) (tokens + (now_ms - last) * rate)

unfoldable pub is_allowed : ℕ → ℕ → Bool
is_allowed cost tokens = leb (cost * nano) tokens

unfoldable pub spend : ℕ → ℕ → ℕ
unfolding is_allowed
spend cost tokens = if is_allowed cost tokens then tokens - cost * nano else tokens

unfoldable pub retry_after : ℕ → ℕ → ℕ → ℕ
unfolding is_allowed
retry_after rate cost tokens =
    if is_allowed cost tokens
    then 0
    else if ltb 0 rate
    then seconds_for (cost * nano - tokens) rate
    else 0

module _ (capacity rate now_ms : ℕ) where
  unfoldable pub reset_at : ℕ → ℕ
  reset_at left =
      if ltb 0 rate && ltb left (capacity * nano)
      then now_ms / 1000 + seconds_for (capacity * nano - left) rate
      else now_ms / 1000

  unfoldable pub bucket_reply : ℕ → ℕ → List ℤ
  unfolding is_allowed spend retry_after reset_at
  bucket_reply cost tokens =
      pos (if is_allowed cost tokens then 1 else 0)
      ∷ pos (spend cost tokens / nano)
      ∷ pos (reset_at (spend cost tokens))
      ∷ pos (retry_after rate cost tokens)
      ∷ []

  -- The script: its reply and the store that it leaves.
  unfoldable pub run_token_bucket : ℕ → ℕ → Store → Text → List ℤ × Store
  unfolding refilled spend bucket_reply
  run_token_bucket cost clock store key =
      let tokens = refilled capacity rate now_ms (bucket_fields (get store clock key)) in
      let saved = hset store clock key (bucket (spend cost tokens) now_ms) in
      let ttl = seconds_for (capacity * nano) rate + 60 in
      (bucket_reply cost tokens, if ltb 0 rate then expire saved clock key ttl else saved)
