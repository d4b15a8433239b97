-- ===== src/Redis/SlidingWindow/Granted.antt =====
-- How much scripts/sliding_window.lua grants on its store in each window.
use go_rate_limiter.Prelude.{
  ℕ, ◌+◌, ◌/◌, ◌≤◌, ◌<◌, ◌≡◌, refl, inl, none, List, [], ◌∷◌, arith, if◌then◌else◌, ◌==◌, get_or,
}
use go_rate_limiter.Prelude.Int.{ℤ, pos, eqb_ℤ}
use go_rate_limiter.Redis.Keys.{WindowKeys}
use go_rate_limiter.Redis.Store.{Store}
use go_rate_limiter.Redis.SlidingWindow.{run_sliding_window}
use go_rate_limiter.Redis.SlidingWindow.Refines.{AreDistinct}
use go_rate_limiter.Redis.SlidingWindow.Spec.{
  Window, empty, roll, is_over, settled_reply, window_step, window_reply,
}
use go_rate_limiter.Redis.SlidingWindow.Spec.Caps.{InOrder, admitted_in, admitted_in-le}
use go_rate_limiter.Redis.SlidingWindow.Expiry.{
  Agrees, Begun, script-Agrees, step-Begun, script_reply,
}

-- Whether the script's reply lets the request through, with the cost as what it takes.
abbrev pub granted : ℕ → List ℤ → ℕ
granted cost reply = if eqb_ℤ (get_or reply 0 (pos 0)) (pos 1) then cost else 0

granted_iff :
    (limit window now cost : ℕ) (s : Window)
    → granted cost (window_reply limit window now cost s)
      ≡ (if is_over limit window now cost (roll (now / window) s) then 0 else cost)
unfolding window_reply settled_reply
granted_iff limit window now cost s = ground arith

module _ (limit window : ℕ) (keys : WindowKeys) where
  -- Requests on the keys of a store, each with its time in milliseconds and its cost. The server's
  -- clock shows the time that the request passes, which is in whole seconds.
  unfoldable pub after_script : ℕ × ℕ → Store → Store
  after_script (c, cost) store = (run_sliding_window window (c / 1000) limit cost c keys store).1

  -- What a request adds to the sum of the costs granted in the window `w`.
  pub granted_by_script : ℕ → ℕ × ℕ → Store → ℕ
  granted_by_script w (c, cost) store =
      if c / 1000 / window == w
      then granted cost (run_sliding_window window (c / 1000) limit cost c keys store).0
      else 0

  unfoldable pub granted_in : ℕ → List (ℕ × ℕ) → Store → ℕ
  unfolding after_script granted_by_script
  granted_in w [] store = 0
  granted_in w (r ∷ rs) store = granted_by_script w r store + granted_in w rs (after_script r store)

in_seconds : List (ℕ × ℕ) → List (ℕ × ℕ)
in_seconds [] = []
in_seconds ((c, cost) ∷ rs) = (c / 1000, cost) ∷ in_seconds rs

InOrder-in_seconds : (t : ℕ) (rs : List (ℕ × ℕ)) → InOrder t rs → InOrder (t / 1000) (in_seconds rs)
unfolding in_seconds
InOrder-in_seconds t [] o = tt
InOrder-in_seconds t ((c, cost) ∷ rs) (h, o) = (omega arith, InOrder-in_seconds c rs o)

module _ (limit window : ℕ) (keys : WindowKeys) (d : AreDistinct keys)
    (pos_window : 0 < window) where
  granted_in-Agrees :
      (w t : ℕ) (rs : List (ℕ × ℕ)) (store : Store) (s : Window)
      → Agrees window keys d pos_window store t s
      → Begun window keys d pos_window t s
      → InOrder t rs
      → granted_in limit window keys w rs store
        ≡ admitted_in limit window pos_window w (in_seconds rs) s
  unfolding granted_in admitted_in in_seconds
  granted_in-Agrees w t [] store s a b o = refl
  granted_in-Agrees w t ((c, cost) ∷ rs) store s a b (h, o) =
      let reply = script_reply window keys d pos_window limit cost store t c s a b h in
      let ih =
        granted_in-Agrees w c rs (after_script limit window keys (c, cost) store)
          (window_step limit window (c / 1000) cost s)
          (script-Agrees window keys d pos_window limit cost store t c s a b h)
          (step-Begun window keys d pos_window limit cost store t c s a b h) o in
      ground (arith, reply, ih, granted_iff limit window (c / 1000) cost s)

  -- Whatever requests reach keys that are not there, in the order of time, the script grants them in
  -- each window at most the limit, although keys may expire between them. The window is positive, the
  -- keys differ, and the server's clock shows the time that each request passes.
  pub granted_in-le :
      (w t : ℕ) (rs : List (ℕ × ℕ)) (store : Store)
      → store keys.idx ≡ none
      → store keys.prev ≡ none
      → store keys.curr ≡ none
      → InOrder t rs
      → granted_in limit window keys w rs store ≤ limit
  granted_in-le w t rs store i p c o =
      let agrees : Agrees window keys d pos_window store t empty = λ c' h. rw (i, p, c) refl in
      rw (granted_in-Agrees w t rs store empty agrees (inl refl) o) (
        admitted_in-le limit window pos_window w (t / 1000) (in_seconds rs)
          (InOrder-in_seconds t rs o))
