-- ===== src/Redis/SlidingWindow.antt =====
-- internal/infrastructure/redis/scripts/sliding_window.lua in exact arithmetic: the estimate is
-- counted in parts of 1 / window. The window is positive and the limit is not negative here.
pub mod Spec
pub mod Refines
pub mod Expiry
pub mod Granted
pub mod Quiet
pub mod Retry
pub mod Meets
use go_rate_limiter.Prelude.{
  ℕ, ◌+◌, ◌-◌, ◌*◌, ◌/◌, Bool, true, Option, none, some, List, [], ◌∷◌, if◌then◌else◌, leb, ltb,
  ◌==◌,
}
use go_rate_limiter.Prelude.Int.{ℤ, pos}
use go_rate_limiter.Prelude.Text.{Text}
use go_rate_limiter.Redis.Keys.{WindowKeys}
use go_rate_limiter.Redis.Store.{Store, Value, counter, bucket, get, set, expire}

-- `tonumber` of what GET returns; a hash under this key would be an error of Redis, and no code
-- writes one.
abbrev pub number : Option Value → Option ℕ
number (some (counter n)) = some n
number _ = none

-- `tonumber(redis.call('GET', key) or '0')`
abbrev pub or_zero : Option ℕ → ℕ
or_zero none = 0
or_zero (some n) = n

module _ (window clock : ℕ) (keys : WindowKeys) where
  unfoldable pub begin_window : ℕ → ℕ → Store → Store
  begin_window curr_window prev store =
      let zeroed =
        set (set (set store keys.prev (counter prev)) keys.curr (counter 0)) keys.idx
          (counter curr_window) in
      let ttl = window * 2 in
      expire (expire (expire zeroed clock keys.prev ttl) clock keys.curr ttl) clock keys.idx ttl

  -- The first block of the script: a new window begins, with the count of the one just before it.
  unfoldable pub rotate : ℕ → Store → Store
  rotate curr_window store =
      let curr_val = or_zero (number (get store clock keys.curr)) in
      elim (number (get store clock keys.idx)) [
        | none ↦ begin_window curr_window 0 store
        | some stored ↦
            if ltb stored curr_window
            then (if stored + 1 == curr_window
                then begin_window curr_window curr_val store
                else begin_window curr_window 0 store)
            else store
      ]

-- `limit - estimate`, rounded down and not below 0, for an estimate in parts of 1 / window.
abbrev pub room : ℕ → ℕ → ℕ → ℕ
room limit window estimate = (limit * window - estimate) / window

module _ (window now : ℕ) where
  abbrev pub window_start : ℕ
  window_start = now / window * window

  abbrev pub elapsed : ℕ
  elapsed = now - window_start

  -- The previous count fades out over the window.
  unfoldable pub estimate : ℕ → ℕ → ℕ
  estimate prev_count curr_count = prev_count * (window - elapsed) + curr_count * window

  -- The script: its reply and the store that it leaves.
  unfoldable pub run_sliding_window : ℕ → ℕ → ℕ → WindowKeys → Store → List ℤ × Store
  run_sliding_window limit cost clock keys store =
      let rotated = rotate window clock keys (now / window) store in
      let prev_count = or_zero (number (get rotated clock keys.prev)) in
      let curr_count = or_zero (number (get rotated clock keys.curr)) in
      let weighed = estimate prev_count curr_count in
      let reset_at = window_start + window in
      let counted = set rotated keys.curr (counter (curr_count + cost)) in
      let ttl = window * 2 in
      if ltb (limit * window) (weighed + cost * window)
      then (
        pos 0 ∷ pos (room limit window weighed) ∷ pos reset_at ∷ pos (window - elapsed) ∷ [],
        rotated,
      )
      else (
        pos 1 ∷ pos (room limit window (weighed + cost * window)) ∷ pos reset_at ∷ pos 0 ∷ [],
        expire (expire (expire counted clock keys.curr ttl) clock keys.prev ttl) clock keys.idx ttl,
      )
