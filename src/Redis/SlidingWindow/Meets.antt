-- ===== src/Redis/SlidingWindow/Meets.antt =====
-- What scripts/sliding_window.lua is to answer and to keep, said without its arithmetic.
use native.Mathlib.Nat.{div-add-mod', mod-lt}
use go_rate_limiter.Prelude.{
  ℕ, zero, suc, ◌+◌, ◌-◌, ◌*◌, ◌/◌, ◌%◌, ◌≤◌, ◌<◌, ◌≡◌, refl, sym, subst, ◌∙◌, ◌⊎◌, inl, inr, true,
  false, List, [], ◌∷◌, arith, Bool-cases, if◌then◌else◌, leb,
}
use go_rate_limiter.Prelude.Int.{ℤ, pos}
use go_rate_limiter.Redis.Keys.{WindowKeys}
use go_rate_limiter.Redis.Store.{Store, counter, set, expire}
use go_rate_limiter.Redis.SlidingWindow.{
  estimate, room, elapsed, window_start, rotate, run_sliding_window,
}
use go_rate_limiter.Redis.SlidingWindow.Spec.{
  Window, empty, roll, settle, settled_reply, window_step, window_reply, is_over,
}
use go_rate_limiter.Redis.SlidingWindow.Refines.{AreDistinct, view, run_sliding_window-refines}
use go_rate_limiter.Redis.SlidingWindow.Expiry.{Stamped, counted-Stamped, rotate-cases}

module _ (limit window now cost : ℕ) where
  -- The counts of a window in parts of 1 / window: the count of the window before weighs as much as is
  -- left of the present one.
  abbrev pub weight : Window → ℕ
  weight s = s.prev * (window - now % window) + s.curr * window

  -- `r` more fit beside the weight `w` and no more, or there is no room.
  abbrev pub IsRoom : ℕ → ℕ → Type 0
  IsRoom w r =
      ((w + r * window ≤ limit * window) ⊎ (r ≡ 0)) × (limit * window < w + (r + 1) * window)

  -- The time at which the next window begins.
  abbrev pub IsNext : ℕ → Type 0
  IsNext reset = ((k : ℕ) × (reset ≡ k * window)) × (now < reset) × (reset ≤ now + window)

  -- The window that is left and the reply, for the window `s` of the time `now`.
  pub data Answers (s : Window) : Window → List ℤ → Type 0 where
    grants :
        (r reset : ℕ)
        → weight s + cost * window ≤ limit * window
        → IsRoom (weight s + cost * window) r
        → IsNext reset
        → Answers s (record s { curr = s.curr + cost }) (pos 1 ∷ pos r ∷ pos reset ∷ pos 0 ∷ [])
    denies :
        (r reset wait : ℕ)
        → limit * window < weight s + cost * window
        → IsRoom (weight s) r
        → IsNext reset
        → now + wait ≡ reset
        → Answers s s (pos 0 ∷ pos r ∷ pos reset ∷ pos wait ∷ [])

  module _ (pos_window : 0 < window) where
    elapsed-mod : elapsed window now ≡ now % window
    elapsed-mod = omega (arith, div-add-mod' now window)

    estimate-weight : (s : Window) → estimate window now s.prev s.curr ≡ weight s
    unfolding estimate
    estimate-weight s = rw elapsed-mod refl

    -- A quotient `q` with its remainder `m`.
    quotient-IsRoom : (w q m : ℕ) → q * window + m ≡ limit * window - w → m < window → IsRoom w q
    quotient-IsRoom w zero m parts small = (inr refl, omega (arith, parts, small))
    quotient-IsRoom w (suc q) m parts small =
        (inl (omega (arith, parts, small, pos_window)), omega (arith, parts, small))

    room-IsRoom : (w : ℕ) → IsRoom w (room limit window w)
    room-IsRoom w =
        let free = limit * window - w in
        quotient-IsRoom w (free / window) (free % window) (div-add-mod' free window)
          (mod-lt free pos_window)

    reset-IsNext : IsNext (window_start window now + window)
    reset-IsNext =
        let parts = div-add-mod' now window in
        let small = mod-lt now pos_window in
        ((now / window + 1, omega arith), omega (arith, parts, small), omega (arith, parts, small))

    denied-Answers :
        (s : Window)
        → limit * window < weight s + cost * window
        → Answers s s (
            pos 0
            ∷ pos (room limit window (weight s))
            ∷ pos (window_start window now + window)
            ∷ pos (window - elapsed window now)
            ∷ [])
    denied-Answers s over =
        denies (room limit window (weight s)) (window_start window now + window)
          (window - elapsed window now) over (room-IsRoom (weight s)) reset-IsNext
          (omega (arith, div-add-mod' now window, mod-lt now pos_window))

    granted-Answers :
        (s : Window)
        → weight s + cost * window ≤ limit * window
        → Answers s
            (record s { curr = s.curr + cost })
            (pos 1
              ∷ pos (room limit window (weight s + cost * window))
              ∷ pos (window_start window now + window)
              ∷ pos 0
              ∷ [])
    granted-Answers s under =
        grants (room limit window (weight s + cost * window)) (window_start window now + window)
          under (room-IsRoom (weight s + cost * window)) reset-IsNext

    settled-Answers :
        (s : Window)
        → Answers s (settle limit window now cost s) (settled_reply limit window now cost s)
    unfolding settle settled_reply
    settled-Answers s = elim (Bool-cases (is_over limit window now cost s)) [
      | inl over ↦
          let more : limit * window < weight s + cost * window =
            ground (arith, estimate-weight s, over) in
          rw (over, settle, settled_reply) (rw (estimate-weight s) (denied-Answers s more))
      | inr under ↦
          let enough : weight s + cost * window ≤ limit * window =
            ground (arith, estimate-weight s, under) in
          rw (under, settle, settled_reply) (rw (estimate-weight s) (granted-Answers s enough))
    ]

module _ (window now limit cost clock : ℕ) (keys : WindowKeys) (store : Store)
    (d : AreDistinct keys) (pos_window : 0 < window) where
  -- The reply and the store that the script leaves.
  abbrev pub run : List ℤ × Store
  run = run_sliding_window window now limit cost clock keys store

  -- The window of the time `now`, with what is carried over.
  abbrev pub rolled : Window
  rolled = roll (now / window) (view keys clock store)

  abbrev rotated : Store
  rotated = rotate window clock keys (now / window) store

  -- A script that comes at the time `later` of the server sees the counters up to two windows later,
  -- and nothing after that.
  abbrev pub Lasts : Type 0
  Lasts =
      (later : ℕ)
      → clock ≤ later
      → view keys later run.1
        ≡ (if leb later (clock + window * 2 * 1000) then view keys clock run.1 else empty)

  stamped-Lasts : (s : Window) → Stamped window keys d pos_window run.1 clock s → Lasts
  stamped-Lasts s stamped later h =
      let at_once : view keys clock run.1 ≡ s = stamped clock (omega arith) ∙ ground arith in
      rw at_once (stamped later h)

  left_over : is_over limit window now cost (view keys clock rotated) ≡ true → run.1 ≡ rotated
  unfolding run_sliding_window
  left_over h = ground arith

  -- The store of a request that is granted.
  abbrev raised : Store
  raised =
      let counted = set rotated keys.curr (counter ((view keys clock rotated).curr + cost)) in
      let ttl = window * 2 in
      expire (expire (expire counted clock keys.curr ttl) clock keys.prev ttl) clock keys.idx ttl

  left_under : is_over limit window now cost (view keys clock rotated) ≡ false → run.1 ≡ raised
  unfolding run_sliding_window
  left_under h = ground arith

  raised-Lasts : is_over limit window now cost (view keys clock rotated) ≡ false → Lasts
  raised-Lasts h =
      let s : Window = record (view keys clock rotated) {
        curr = (view keys clock rotated).curr + cost;
      } in
      stamped-Lasts s (
        subst (λ (x : Store). Stamped window keys d pos_window x clock s) (sym (left_under h))
          (counted-Stamped window keys d pos_window rotated clock s.curr))

  kept : ((run.1 ≡ store) × (rolled ≡ view keys clock store)) ⊎ Lasts
  kept = elim (Bool-cases (is_over limit window now cost (view keys clock rotated))) [
    | inr under ↦ inr (raised-Lasts under)
    | inl over ↦ elim (rotate-cases window keys d pos_window clock (now / window) store) [
      | inl (same, nothing_new) ↦ inl (left_over over ∙ same, nothing_new)
      | inr stamped ↦ inr (
          stamped-Lasts rolled (
            subst (λ (x : Store). Stamped window keys d pos_window x clock rolled)
              (sym (left_over over)) stamped))
    ]
  ]

  -- For three different keys and a positive window the script answers a request as the counts of the
  -- present window and the one before say: it is granted exactly if the weighed count and its cost are within the
  -- limit, and is then counted; the reply has how many more fit, the time at which the next window
  -- begins, and for a denial the time until then. It leaves the store as it is and no new window has
  -- begun, or the counters that it leaves last until two windows later and no longer.
  pub run_sliding_window-Meets :
      Answers limit window now cost rolled (view keys clock run.1) run.0
      × (((run.1 ≡ store) × (rolled ≡ view keys clock store)) ⊎ Lasts)
  unfolding window_step window_reply
  run_sliding_window-Meets =
      let (state, reply) = run_sliding_window-refines window now limit cost clock keys store d in
      (
        subst (λ (v : Window). Answers limit window now cost rolled v run.0) (sym state)
            (subst
              (λ (x : List ℤ).
                Answers limit window now cost rolled (settle limit window now cost rolled) x)
              (sym reply) (settled-Answers limit window now cost pos_window rolled)),
        kept,
      )
