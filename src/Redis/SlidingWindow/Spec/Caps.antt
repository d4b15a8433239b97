-- ===== src/Redis/SlidingWindow/Spec/Caps.antt =====
-- How much the sliding window lets through in each window.
use native.Mathlib.Decide.{dec_le}
use native.Mathlib.Nat.{le_of_mul-le-mul_right, le-div_iff_mul-le, div-mul-le_self}
use go_rate_limiter.Prelude.{
  ℕ, ◌+◌, ◌*◌, ◌/◌, ◌≤◌, ◌<◌, ◌≡◌, refl, false, some, List, [], ◌∷◌, arith, if◌then◌else◌, ◌==◌,
  ==_refl, ◌∙◌,
}
use go_rate_limiter.Redis.SlidingWindow.{estimate}
use go_rate_limiter.Redis.SlidingWindow.Spec.{Window, empty, roll, settle, is_over, window_step}

-- Requests, each with its time and cost, at times that do not fall, from `t` on.
abbrev pub InOrder : ℕ → List (ℕ × ℕ) → Type 0
InOrder t [] = Unit {0}
InOrder t ((now, cost) ∷ rs) = (t ≤ now) × InOrder now rs

module _ (limit window : ℕ) (pos_window : 0 < window) where
  -- What a request adds to the sum of the costs let through in the window `w`.
  abbrev pub admitted : ℕ → ℕ × ℕ → Window → ℕ
  admitted w (now, cost) s =
      if is_over limit window now cost (roll (now / window) s)
      then 0
      else if now / window == w
      then cost
      else 0

  unfoldable pub admitted_in : ℕ → List (ℕ × ℕ) → Window → ℕ
  admitted_in w [] s = 0
  admitted_in w ((now, cost) ∷ rs) s =
      admitted w (now, cost) s + admitted_in w rs (window_step limit window now cost s)

  pub settle-index : (now cost : ℕ) (s : Window) → (settle limit window now cost s).index ≡ s.index
  unfolding settle
  settle-index now cost s = ground arith

  fits :
      (now cost : ℕ) (s : Window) → is_over limit window now cost s ≡ false → s.curr + cost ≤ limit
  unfolding estimate
  fits now cost s h =
      let under : (s.curr + cost) * window ≤ limit * window = ground arith in
      le_of_mul-le-mul_right under pos_window

  settle-le :
      (now cost : ℕ) (s : Window) → s.curr ≤ limit → (settle limit window now cost s).curr ≤ limit
  unfolding settle
  settle-le now cost s h = ground (arith, fits now cost s)

  -- The index of a window that is in use, and its count, which fits the limit.
  abbrev At : ℕ → Window → Type 0
  At i s = (s.index ≡ some i) × (s.curr ≤ limit)

  roll-At : (i j : ℕ) (s : Window) → i ≤ j → At i s → At j (roll j s)
  unfolding roll
  roll-At i j s h a = ground arith

  roll_same : (i : ℕ) (s : Window) → At i s → roll i s ≡ s
  unfolding roll
  roll_same i s a = rw (a.0, roll) (ground arith)

  step-At :
      (i now cost : ℕ) (s : Window)
      → i ≤ now / window
      → At i s
      → At (now / window) (window_step limit window now cost s)
  unfolding window_step
  step-At i now cost s h a =
      let (index, low) = roll-At i (now / window) s h a in
      (
        settle-index now cost (roll (now / window) s) ∙ index,
        settle-le now cost (roll (now / window) s) low,
      )

  step-curr :
      (now cost : ℕ) (s : Window)
      → (window_step limit window now cost s).curr
        ≡ (roll (now / window) s).curr + admitted (now / window) (now, cost) s
  unfolding window_step settle
  step-curr now cost s = ground (arith, ==_refl (now / window))

  pub div_mono : (t now : ℕ) → t ≤ now → t / window ≤ now / window
  div_mono t now h = (le-div_iff_mul-le pos_window).1 (omega (arith, div-mul-le_self t window))

  -- A window that is over lets nothing more through.
  admitted_in-past :
      (w t : ℕ) (rs : List (ℕ × ℕ)) (s : Window)
      → w < t / window
      → InOrder t rs
      → admitted_in w rs s ≡ 0
  unfolding admitted_in
  admitted_in-past w t [] s h o = refl
  admitted_in-past w t ((now, cost) ∷ rs) s h (o, os) =
      let later = div_mono t now o in
      ground
        (arith, admitted_in-past w now rs (window_step limit window now cost s) (omega arith) os)

  abbrev counted : ℕ → ℕ → Window → ℕ
  counted w i s = if i == w then s.curr else 0

  counted-step :
      (w i now cost : ℕ) (s : Window)
      → i ≤ now / window
      → now / window ≤ w
      → At i s
      → admitted w (now, cost) s + counted w i s
        ≤ counted w (now / window) (window_step limit window now cost s)
  counted-step w i now cost s h k a = ground (arith, step-curr now cost s, roll_same i s a)

  admitted_in-counted :
      (w t : ℕ) (rs : List (ℕ × ℕ)) (s : Window)
      → t / window ≤ w
      → At (t / window) s
      → InOrder t rs
      → admitted_in w rs s + counted w (t / window) s ≤ limit
  unfolding admitted_in
  admitted_in-counted w t [] s h a o = ground arith
  admitted_in-counted w t ((now, cost) ∷ rs) s h a (o, os) =
      let later = div_mono t now o in
      let s' = window_step limit window now cost s in
      elim (dec_le (now / window) w) [
        | yes k ↦
            let ih =
              admitted_in-counted w now rs s' k (step-At (t / window) now cost s later a) os in
            omega (arith, ih, counted-step w (t / window) now cost s later k a)
        | no k ↦ let none_left = admitted_in-past w now rs s' (omega arith) os in ground arith
      ]

  -- Only what a state rolls to counts.
  pub admitted_in_of_roll :
      (w now cost : ℕ) (rs : List (ℕ × ℕ)) (s s' : Window)
      → roll (now / window) s ≡ roll (now / window) s'
      → admitted_in w ((now, cost) ∷ rs) s ≡ admitted_in w ((now, cost) ∷ rs) s'
  unfolding admitted_in window_step
  admitted_in_of_roll w now cost rs s s' e = rw e refl

  roll-empty : (j : ℕ) → roll j empty ≡ roll j (record { index = some j; prev = 0; curr = 0 })
  unfolding roll
  roll-empty j = ground arith

  -- In each window the costs let through, of any requests in the order of time, sum up to at most
  -- the limit.
  pub admitted_in-le : (w t : ℕ) (rs : List (ℕ × ℕ)) → InOrder t rs → admitted_in w rs empty ≤ limit
  unfolding admitted_in
  admitted_in-le w t [] o = omega arith
  admitted_in-le w t ((now, cost) ∷ rs) (h, o) =
      let fresh : Window = record { index = some (now / window); prev = 0; curr = 0 } in
      rw (admitted_in_of_roll w now cost rs empty fresh (roll-empty (now / window)))
        (elim (dec_le (now / window) w) [
          | yes k ↦ omega (
            arith,
            admitted_in-counted w now ((now, cost) ∷ rs) fresh k (refl, omega arith)
                (omega arith, o),
          )
          | no k ↦ omega (
            arith,
            admitted_in-past w now ((now, cost) ∷ rs) fresh (omega arith) (omega arith, o),
          )
        ])
