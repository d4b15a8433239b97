-- ===== src/Redis/SlidingWindow/Spec.antt =====
-- The script of the sliding window without its store: a machine on three numbers, with the arithmetic
-- of the script. What the numbers are to be is said in Meets.
pub mod Caps
use go_rate_limiter.Prelude.{
  ℕ, ◌+◌, ◌-◌, ◌*◌, ◌/◌, Bool, true, false, Option, none, some, List, [], ◌∷◌, if◌then◌else◌, ltb,
  ◌==◌, leb,
}
use go_rate_limiter.Prelude.Int.{ℤ, pos}
use go_rate_limiter.Redis.SlidingWindow.{estimate, room, window_start, elapsed}

-- The window that the counts are of, and the counts of the window before it and of itself.
pub record Window : Type 0 where
  pub index : Option ℕ
  pub prev : ℕ
  pub curr : ℕ

abbrev pub empty : Window
empty = record { index = none; prev = 0; curr = 0 }

-- The window `w` begins; an earlier one than the present changes nothing.
unfoldable pub roll : ℕ → Window → Window
roll w s = elim s.index [
  | none ↦ record { index = some w; prev = 0; curr = 0 }
  | some i ↦
      if ltb i w
      then record { index = some w; prev = if i + 1 == w then s.curr else 0; curr = 0 }
      else s
]

module _ (limit window now cost : ℕ) where
  -- Whether the weighed count and the cost exceed the limit.
  abbrev pub is_over : Window → Bool
  is_over s = ltb (limit * window) (estimate window now s.prev s.curr + cost * window)

  unfoldable pub settle : Window → Window
  settle s = if is_over s then s else record s { curr = s.curr + cost }

  unfoldable pub settled_reply : Window → List ℤ
  settled_reply s =
      let weighed = estimate window now s.prev s.curr in
      let reset_at = window_start window now + window in
      if is_over s
      then pos 0
        ∷ pos (room limit window weighed)
        ∷ pos reset_at
        ∷ pos (window - elapsed window now)
        ∷ []
      else pos 1 ∷ pos (room limit window (weighed + cost * window)) ∷ pos reset_at ∷ pos 0 ∷ []

  unfoldable pub window_step : Window → Window
  window_step s = settle (roll (now / window) s)

  unfoldable pub window_reply : Window → List ℤ
  window_reply s = settled_reply (roll (now / window) s)
