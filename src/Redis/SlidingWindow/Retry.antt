-- ===== src/Redis/SlidingWindow/Retry.antt =====
-- The `retry_after` of scripts/sliding_window.lua.
use native.Mathlib.Nat.{div-mul-le_self, lt-div-mul-add, mul-lt-mul_of_pos_right, div-eq_of_lt-le}
use go_rate_limiter.Prelude.{ℕ, ◌+◌, ◌-◌, ◌*◌, ◌/◌, ◌<◌, ◌≡◌, refl, true, some, arith, get_or}
use go_rate_limiter.Prelude.Int.{pos}
use go_rate_limiter.Redis.Keys.{WindowKeys}
use go_rate_limiter.Redis.Store.{Store}
use go_rate_limiter.Redis.SlidingWindow.{estimate, elapsed, run_sliding_window}
use go_rate_limiter.Redis.SlidingWindow.Refines.{AreDistinct, view, run_sliding_window-refines}
use go_rate_limiter.Redis.SlidingWindow.Spec.{Window, roll, is_over, settled_reply, window_reply}

module _ (window now : ℕ) (pos_window : 0 < window) where
  -- The reply's `retry_after` leads to the start of the next window.
  retry_time : now + (window - elapsed window now) ≡ (now / window + 1) * window
  retry_time = omega (arith, div-mul-le_self now window, lt-div-mul-add {a = now} pos_window)

  next_index : (now + (window - elapsed window now)) / window ≡ now / window + 1
  next_index = div-eq_of_lt-le window (omega (arith, retry_time)) (omega (arith, retry_time))

  module _ (limit cost prev curr : ℕ) (full : limit < curr + cost) where
    abbrev counts : Window
    counts = record { index = some (now / window); prev = prev; curr = curr }

    above : limit * window < (curr + cost) * window
    above = mul-lt-mul_of_pos_right full pos_window

    over_now : is_over limit window now cost (roll (now / window) counts) ≡ true
    unfolding roll estimate
    over_now = ground (arith, above)

    rolled_next :
        roll (now / window + 1) counts
        ≡ record { index = some (now / window + 1); prev = curr; curr = 0 }
    unfolding roll
    rolled_next = ground arith

    abbrev later : ℕ
    later = now + (window - elapsed window now)

    over_next : is_over limit window later cost (roll (later / window) counts) ≡ true
    unfolding estimate
    over_next =
        let whole : window - (later - (now / window + 1) * window) ≡ window =
          omega (arith, retry_time) in
        rw (next_index, rolled_next, whole) (ground (arith, above))

refusal :
    (limit window now cost : ℕ) (s : Window)
    → is_over limit window now cost (roll (now / window) s) ≡ true
    → (get_or (window_reply limit window now cost s) 0 (pos 1) ≡ pos 0)
      × (get_or (window_reply limit window now cost s) 3 (pos 0)
          ≡ pos (window - elapsed window now))
unfolding window_reply settled_reply
refusal limit window now cost s h = rw h (refl, refl)

-- Once the count of the present window leaves no room for a cost, the script refuses it, and refuses
-- it again after the `retry_after` seconds of its reply, even if no other request comes: at the
-- start of the next window the whole count still weighs. The keys show the counts at both times.
pub retry_after_too_short :
    (limit window now cost prev curr clock clock' : ℕ) (keys : WindowKeys) (store : Store)
    → 0 < window
    → AreDistinct keys
    → limit < curr + cost
    → view keys clock store ≡ record { index = some (now / window); prev = prev; curr = curr }
    → view keys clock' store ≡ record { index = some (now / window); prev = prev; curr = curr }
    → let wait = window - elapsed window now in
      let reply = (run_sliding_window window now limit cost clock keys store).0 in
      let later_reply = (run_sliding_window window (now + wait) limit cost clock' keys store).0 in
      (get_or reply 0 (pos 1) ≡ pos 0)
      × (get_or reply 3 (pos 0) ≡ pos wait)
      × (get_or later_reply 0 (pos 1) ≡ pos 0)
retry_after_too_short limit window now cost prev curr clock clock' keys store p d full e e' =
    let (refused, wait) =
      refusal limit window now cost _ (over_now window now p limit cost prev curr full) in
    let again =
      (refusal limit window (now + (window - elapsed window now)) cost _
        (over_next window now p limit cost prev curr full)).0 in
    let first = (run_sliding_window-refines window now limit cost clock keys store d).1 in
    let second =
      (run_sliding_window-refines window (now + (window - elapsed window now)) limit cost clock'
        keys store d).1 in
    (rw (first, e) refused, rw (first, e) wait, rw (second, e') again)
