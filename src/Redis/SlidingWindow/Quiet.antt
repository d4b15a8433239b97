-- ===== src/Redis/SlidingWindow/Quiet.antt =====
-- scripts/sliding_window.lua after a pause.
use go_rate_limiter.Prelude.{
  ℕ, ◌+◌, ◌*◌, ◌/◌, ◌≤◌, ◌<◌, ◌≡◌, refl, inl, inr, none, some, List, [], ◌∷◌, arith, get_or,
}
use go_rate_limiter.Prelude.Int.{pos}
use go_rate_limiter.Redis.Keys.{WindowKeys}
use go_rate_limiter.Redis.Store.{Store}
use go_rate_limiter.Redis.SlidingWindow.{estimate, run_sliding_window}
use go_rate_limiter.Redis.SlidingWindow.Refines.{AreDistinct}
use go_rate_limiter.Redis.SlidingWindow.Spec.{
  Window, empty, roll, settled_reply, window_step, window_reply,
}
use go_rate_limiter.Redis.SlidingWindow.Spec.Caps.{InOrder}
use go_rate_limiter.Redis.SlidingWindow.Expiry.{
  Agrees, Begun, script-Agrees, step-Begun, script_reply,
}
use go_rate_limiter.Redis.SlidingWindow.Granted.{after_script}

-- The time of the last request, `t` where there is none.
abbrev pub last_time : ℕ → List (ℕ × ℕ) → ℕ
last_time t [] = t
last_time t ((c, cost) ∷ rs) = last_time c rs

-- The window two later has nothing to carry over.
roll_later :
    (w : ℕ) (s : Window) (i : ℕ)
    → s.index ≡ some i
    → i + 2 ≤ w
    → roll w s ≡ record { index = some w; prev = 0; curr = 0 }
unfolding roll
roll_later w s i e h = ground arith

roll_first :
    (w : ℕ) (s : Window) → s.index ≡ none → roll w s ≡ record { index = some w; prev = 0; curr = 0 }
unfolding roll
roll_first w s e = rw (e, roll) refl

empty_grants :
    (limit window now cost : ℕ) (s : Window)
    → cost ≤ limit
    → roll (now / window) s ≡ record { index = some (now / window); prev = 0; curr = 0 }
    → get_or (window_reply limit window now cost s) 0 (pos 0) ≡ pos 1
unfolding window_reply settled_reply estimate
empty_grants limit window now cost s h e =
    let small : cost * window ≤ limit * window = grind arith in rw e (ground (arith, small))

module _ (limit window : ℕ) (keys : WindowKeys) (d : AreDistinct keys)
    (pos_window : 0 < window) where
  unfoldable pub after_all : List (ℕ × ℕ) → Store → Store
  after_all [] store = store
  after_all (r ∷ rs) store = after_all rs (after_script limit window keys r store)

  -- The reply at the time `c`, from a store in agreement.
  grants_from :
      (t c cost : ℕ) (rs : List (ℕ × ℕ)) (store : Store) (s : Window)
      → Agrees window keys d pos_window store t s
      → Begun window keys d pos_window t s
      → InOrder t rs
      → cost ≤ limit
      → last_time t rs ≤ c
      → last_time t rs / 1000 / window + 2 ≤ c / 1000 / window
      → get_or
          (run_sliding_window window (c / 1000) limit cost c keys (after_all rs store)).0
          0
          (pos 0)
        ≡ pos 1
  unfolding after_all after_script
  grants_from t c cost [] store s a b o fits later pause =
      rw (script_reply window keys d pos_window limit cost store t c s a b later) (
        empty_grants limit window (c / 1000) cost s fits (elim b [
          | inl e ↦ roll_first (c / 1000 / window) s e
          | inr (i, e, k) ↦ roll_later (c / 1000 / window) s i e (omega arith)
        ]))
  grants_from t c cost ((c', cost') ∷ rs) store s a b (h, o) fits later pause =
      grants_from c' c cost rs (after_script limit window keys (c', cost') store)
        (window_step limit window (c' / 1000) cost' s)
        (script-Agrees window keys d pos_window limit cost' store t c' s a b h)
        (step-Begun window keys d pos_window limit cost' store t c' s a b h) o fits later pause

  -- No request starves: whatever requests came before, in the order of time, on three different keys that
  -- were not there, a request whose cost is within the limit is granted once two windows have begun
  -- after the last of them. The window is positive.
  pub quiet_grants :
      (t c cost : ℕ) (rs : List (ℕ × ℕ)) (store : Store)
      → store keys.idx ≡ none
      → store keys.prev ≡ none
      → store keys.curr ≡ none
      → InOrder t rs
      → cost ≤ limit
      → last_time t rs ≤ c
      → last_time t rs / 1000 / window + 2 ≤ c / 1000 / window
      → get_or
          (run_sliding_window window (c / 1000) limit cost c keys (after_all rs store)).0
          0
          (pos 0)
        ≡ pos 1
  quiet_grants t c cost rs store i p k o fits later pause =
      let agrees : Agrees window keys d pos_window store t empty = λ c' h. rw (i, p, k) refl in
      grants_from t c cost rs store empty agrees (inl refl) o fits later pause
