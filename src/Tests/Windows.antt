-- ===== src/Tests/Windows.antt =====
-- Requests on a sliding window of ten seconds with a limit of two.
use go_rate_limiter.Prelude.{ℕ, ◌+◌, ◌-◌, ◌≡◌, ◌≤◌, ◌⊎◌, refl, some, List, [], ◌∷◌, arith, get_or}
use go_rate_limiter.Prelude.Int.{pos}
use go_rate_limiter.Prelude.Text.{text_eq}
use go_rate_limiter.Redis.Store.{Store}
use go_rate_limiter.Redis.SlidingWindow.{
  run_sliding_window, elapsed, rotate, begin_window, estimate,
}
use go_rate_limiter.Redis.SlidingWindow.Refines.{AreDistinct, view}
use go_rate_limiter.Redis.SlidingWindow.Meets.{
  Answers, run, rolled, Lasts, run_sliding_window-Meets,
}
use go_rate_limiter.Redis.SlidingWindow.Granted.{granted_in, granted_in-le}
use go_rate_limiter.Redis.SlidingWindow.Retry.{retry_after_too_short}
use go_rate_limiter.Redis.SlidingWindow.Quiet.{after_all, quiet_grants}
use go_rate_limiter.Tests.Data.{empty_store, window_keys}

distinct : AreDistinct window_keys
unfolding text_eq
distinct = record {
  curr_prev = refl;
  prev_curr = refl;
  curr_idx = refl;
  idx_curr = refl;
  prev_idx = refl;
  idx_prev = refl;
}

abbrev requests : List (ℕ × ℕ)
requests = (12_000, 1) ∷ (13_000, 1) ∷ (14_000, 1) ∷ (29_000, 1) ∷ []

-- The third request is over the limit.
requests-granted_in : granted_in 2 10 window_keys 1 requests empty_store ≡ 2
unfolding granted_in run_sliding_window rotate begin_window estimate text_eq
requests-granted_in = refl

granted_in-le_example : granted_in 2 10 window_keys 1 requests empty_store ≤ 2
granted_in-le_example =
    granted_in-le 2 10 window_keys distinct (omega arith) 1 12_000 requests empty_store refl refl
      refl (omega arith, (omega arith, (omega arith, (omega arith, tt))))

run_sliding_window-Meets_example :
    let left = run 10 12 2 1 12_000 window_keys empty_store distinct (omega arith) in
    Answers 2 10 12 1
      (rolled 10 12 2 1 12_000 window_keys empty_store distinct (omega arith))
      (view window_keys 12_000 left.1)
      left.0
    × (((left.1 ≡ empty_store)
          × (rolled 10 12 2 1 12_000 window_keys empty_store distinct (omega arith)
              ≡ view window_keys 12_000 empty_store))
        ⊎ Lasts 10 12 2 1 12_000 window_keys empty_store distinct (omega arith))
run_sliding_window-Meets_example =
    run_sliding_window-Meets 10 12 2 1 12_000 window_keys empty_store distinct (omega arith)

-- Two requests at 12 seconds have been let through.
abbrev full_store : Store
full_store = (run_sliding_window 10 12 2 2 12_000 window_keys empty_store).1

full_seen :
    (view window_keys 14_000 full_store ≡ record { index = some 1; prev = 0; curr = 2 })
    × (view window_keys 20_000 full_store ≡ record { index = some 1; prev = 0; curr = 2 })
unfolding run_sliding_window rotate begin_window estimate text_eq
full_seen = (refl, refl)

retry_after_too_short_example :
    let wait = 10 - elapsed 10 14 in
    let reply = (run_sliding_window 10 14 2 1 14_000 window_keys full_store).0 in
    let later_reply = (run_sliding_window 10 (14 + wait) 2 1 20_000 window_keys full_store).0 in
    (get_or reply 0 (pos 1) ≡ pos 0)
    × (get_or reply 3 (pos 0) ≡ pos wait)
    × (get_or later_reply 0 (pos 1) ≡ pos 0)
retry_after_too_short_example =
    retry_after_too_short 2 10 14 1 0 2 14_000 20_000 window_keys full_store (omega arith) distinct
      (omega arith) full_seen.0 full_seen.1

-- Two windows after the four requests.
quiet_grants_example :
    get_or
      (run_sliding_window 10 49 2 2 49_000 window_keys
        (after_all 2 10 window_keys distinct (omega arith) requests empty_store)).0
      0
      (pos 0)
    ≡ pos 1
quiet_grants_example =
    quiet_grants 2 10 window_keys distinct (omega arith) 12_000 49_000 2 requests empty_store refl
      refl refl (omega arith, (omega arith, (omega arith, (omega arith, tt)))) (omega arith)
      (omega arith) (omega arith)
