-- ===== src/Redis/SlidingWindow/Expiry.antt =====
-- scripts/sliding_window.lua over time, where its keys expire.
use mathlib.Core.Path.{subst₂}
use go_rate_limiter.Prelude.{
  ℕ, ◌+◌, ◌*◌, ◌/◌, ◌≤◌, ◌<◌, ◌≡◌, refl, inl, inr, ◌⊎◌, Option-cases, Bool, true, false, none, some,
  arith, if◌then◌else◌, ltb, ◌==◌, leb, Bool-cases, ap, ◌∙◌, sym, subst,
}
use native.Mathlib.Nat.{le-div_iff_mul-le, div-mul-le_self}
use go_rate_limiter.Prelude.Text.{text_eq_refl}
use go_rate_limiter.Redis.Keys.{WindowKeys}
use go_rate_limiter.Redis.Store.{Store, counter, get, set, expire}
use go_rate_limiter.Redis.SlidingWindow.{number, begin_window, rotate, run_sliding_window}
use go_rate_limiter.Redis.SlidingWindow.Refines.{
  AreDistinct, view, view-rotate, run_sliding_window-refines,
}
use go_rate_limiter.Redis.SlidingWindow.Spec.{
  Window, empty, roll, settle, settled_reply, window_step, window_reply, is_over,
}
use go_rate_limiter.Redis.SlidingWindow.Spec.Caps.{div_mono, settle-index}

roll-roll : (j j' : ℕ) (s : Window) → j ≤ j' → roll j' (roll j s) ≡ roll j' s
unfolding roll
roll-roll j j' s h = ground arith

module _ (window : ℕ) (keys : WindowKeys) (d : AreDistinct keys) (pos_window : 0 < window) where
  -- The time at which keys expire that were touched at the time `c`.
  abbrev pub deadline : ℕ → ℕ
  deadline c = c + window * 2 * 1000

  -- From `c` on the store shows `s` until the deadline, and then nothing.
  abbrev pub Stamped : Store → ℕ → Window → Type 0
  Stamped store c s =
      (c' : ℕ) → c ≤ c' → view keys c' store ≡ (if leb c' (deadline c) then s else empty)

  pub counted-Stamped :
      (store : Store) (c n : ℕ)
      → Stamped
          (expire
            (expire
              (expire (set store keys.curr (counter n)) c keys.curr (window * 2))
              c
              keys.prev
              (window * 2))
            c
            keys.idx
            (window * 2))
          c
          (record (view keys c store) { curr = n })
  counted-Stamped store c n c' h =
      ground (arith, text_eq_refl keys.curr, text_eq_refl keys.prev, text_eq_refl keys.idx)

  begin_window-Stamped :
      (c w prev : ℕ) (store : Store)
      → Stamped
          (begin_window window c keys w prev store)
          c
          (record { index = some w; prev = prev; curr = 0 })
  unfolding begin_window
  begin_window-Stamped c w prev store c' h =
      ground (arith, text_eq_refl keys.curr, text_eq_refl keys.prev, text_eq_refl keys.idx)

  -- Either the store is left, and shows no earlier window, or the window `w` begins in it.
  abbrev pub Rotated : ℕ → ℕ → Store → Type 0
  Rotated c w store =
      ((rotate window c keys w store ≡ store) × (roll w (view keys c store) ≡ view keys c store))
      ⊎ Stamped (rotate window c keys w store) c (roll w (view keys c store))

  pub rotate-cases : (c w : ℕ) (store : Store) → Rotated c w store
  unfolding rotate roll
  rotate-cases c w store = elim (Option-cases (number (get store c keys.idx))) [
    | inl none_yet ↦ inr (rw (none_yet, rotate, roll) (begin_window-Stamped c w 0 store))
    | inr (i, found) ↦ elim (Bool-cases (ltb i w)) [
      | inr same ↦ inl (rw (found, rotate, roll) (rw same (refl, cc found)))
      | inl older ↦ elim (Bool-cases (i + 1 == w)) [
        | inl next ↦
            inr (rw (found, rotate, roll) (rw (older, next) (begin_window-Stamped c w _ store)))
        | inr gap ↦
            inr (rw (found, rotate, roll) (rw (older, gap) (begin_window-Stamped c w 0 store)))
      ]
    ]
  ]

  -- At every time from `t` on, what the store shows rolls to what `s` rolls to.
  abbrev pub Agrees : Store → ℕ → Window → Type 0
  Agrees store t s =
      (c : ℕ) → t ≤ c → roll (c / 1000 / window) (view keys c store) ≡ roll (c / 1000 / window) s

  later_window : (c c' : ℕ) → c ≤ c' → c / 1000 / window ≤ c' / 1000 / window
  later_window c c' h = div_mono 0 window pos_window (c / 1000) (c' / 1000) (omega arith)

  -- After the deadline two windows have passed.
  past_deadline : (c c' : ℕ) → deadline c < c' → c / 1000 / window + 2 ≤ c' / 1000 / window
  past_deadline c c' h =
      (le-div_iff_mul-le pos_window).1 (omega (arith, div-mul-le_self (c / 1000) window))

  roll-past : (j j' : ℕ) (s : Window) → s.index ≡ some j → j + 2 ≤ j' → roll j' empty ≡ roll j' s
  unfolding roll
  roll-past j j' s e h = rw (e, roll) (ground arith)

  Stamped-Agrees :
      (store : Store) (c : ℕ) (s : Window)
      → s.index ≡ some (c / 1000 / window)
      → Stamped store c s
      → Agrees store c s
  Stamped-Agrees store c s e stamped c' h = elim (Bool-cases (leb c' (deadline c))) [
    | inl alive ↦ rw (stamped c' h, alive) refl
    | inr gone ↦
        rw (stamped c' h, gone)
          (roll-past (c / 1000 / window) _ s e (past_deadline c c' (ground arith)))
  ]

  -- The window of a state has begun by the time `t`.
  abbrev pub Begun : ℕ → Window → Type 0
  Begun t s = (s.index ≡ none) ⊎ ((i : ℕ) × (s.index ≡ some i) × (i ≤ t / 1000 / window))

  roll-index :
      (w : ℕ) (s : Window)
      → ((s.index ≡ none) ⊎ ((i : ℕ) × (s.index ≡ some i) × (i ≤ w)))
      → (roll w s).index ≡ some w
  unfolding roll
  roll-index w s (inl e) = rw (e, roll) refl
  roll-index w s (inr (i, e, h)) = rw (e, roll) (ground arith)

  Begun-later : (t c : ℕ) (s : Window) → t ≤ c → Begun t s → Begun c s
  Begun-later t c s h (inl e) = inl e
  Begun-later t c s h (inr (i, e, k)) = inr (i, e, omega (arith, later_window t c h))

  module _ (limit cost : ℕ) (store : Store) (t c : ℕ) (s : Window) (agrees : Agrees store t s)
      (begun : Begun t s) (later : t ≤ c) where
    -- The window of the time `c`, the store in which it has begun, and the state for it.
    abbrev w : ℕ
    w = c / 1000 / window

    abbrev rotated : Store
    rotated = rotate window c keys w store

    abbrev next : Window
    next = roll w s

    view-rotated : view keys c rotated ≡ next
    view-rotated = view-rotate window c keys d w store ∙ agrees c later

    next-index : next.index ≡ some w
    next-index = roll-index w s (Begun-later t c s later begun)

    rotated-Agrees : Agrees rotated c next
    rotated-Agrees = elim (rotate-cases c w store) [
      | inl (same, _) ↦ rw same λ c' h.
          agrees c' (omega arith) ∙ sym (roll-roll w (c' / 1000 / window) s (later_window c c' h))
      | inr stamped ↦
          Stamped-Agrees rotated c next next-index
            (subst (Stamped rotated c) (agrees c later) stamped)
    ]

    -- The store that the script leaves when it lets the request through.
    abbrev raised : Store
    raised =
        let store' = set rotated keys.curr (counter ((view keys c rotated).curr + cost)) in
        let ttl = window * 2 in
        expire (expire (expire store' c keys.curr ttl) c keys.prev ttl) c keys.idx ttl

    abbrev over : Window → Bool
    over v = is_over limit window (c / 1000) cost v

    abbrev left : Store
    left = (run_sliding_window window (c / 1000) limit cost c keys store).1

    run_over : over (view keys c rotated) ≡ true → left ≡ rotated
    unfolding run_sliding_window
    run_over h = ground arith

    run_under : over (view keys c rotated) ≡ false → left ≡ raised
    unfolding run_sliding_window
    run_under h = ground arith

    step_over : over next ≡ true → window_step limit window (c / 1000) cost s ≡ next
    unfolding window_step settle
    step_over h = rw h refl

    step_under :
        over next ≡ false
        → window_step limit window (c / 1000) cost s ≡ record next { curr = next.curr + cost }
    unfolding window_step settle
    step_under h = rw h refl

    raised-Agrees : Agrees raised c (record next { curr = next.curr + cost })
    raised-Agrees =
        Stamped-Agrees raised c (record next { curr = next.curr + cost }) next-index
          (subst (λ v. Stamped raised c (record v { curr = v.curr + cost })) view-rotated
            (counted-Stamped rotated c ((view keys c rotated).curr + cost)))

    pub script-Agrees : Agrees left c (window_step limit window (c / 1000) cost s)
    script-Agrees = elim (Bool-cases (over next)) [
      | inl full ↦
          subst₂ (λ a v. Agrees a c v) (sym (run_over (ap over view-rotated ∙ full)))
            (sym (step_over full)) rotated-Agrees
      | inr free ↦
          subst₂ (λ a v. Agrees a c v) (sym (run_under (ap over view-rotated ∙ free)))
            (sym (step_under free)) raised-Agrees
    ]

    pub step-Begun : Begun c (window_step limit window (c / 1000) cost s)
    unfolding window_step
    step-Begun =
        inr (w, settle-index limit window pos_window (c / 1000) cost next ∙ next-index, omega arith)

    -- The reply is the machine's.
    pub script_reply :
        (run_sliding_window window (c / 1000) limit cost c keys store).0
        ≡ window_reply limit window (c / 1000) cost s
    unfolding window_reply
    script_reply =
        (run_sliding_window-refines window (c / 1000) limit cost c keys store d).1
        ∙ ap (settled_reply limit window (c / 1000) cost) (agrees c later)
