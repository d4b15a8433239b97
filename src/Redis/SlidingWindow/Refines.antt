-- ===== src/Redis/SlidingWindow/Refines.antt =====
-- scripts/sliding_window.lua on a store, against the machine on three numbers.
use go_rate_limiter.Prelude.{ℕ, ◌*◌, ◌/◌, ◌≡◌, refl, false, arith, Bool-cases, inl, inr, ap, ◌∙◌}
use go_rate_limiter.Prelude.Text.{Text, text_eq, text_eq_refl}
use go_rate_limiter.Redis.Keys.{WindowKeys}
use go_rate_limiter.Redis.Store.{Store, counter, get, set, expire}
use go_rate_limiter.Redis.SlidingWindow.{number, or_zero, begin_window, rotate, run_sliding_window}
use go_rate_limiter.Redis.SlidingWindow.Spec.{
  Window, roll, settle, settled_reply, window_step, window_reply, is_over,
}

pub record AreDistinct (keys : WindowKeys) : Type 0 where
  pub curr_prev : text_eq keys.curr keys.prev ≡ false
  pub prev_curr : text_eq keys.prev keys.curr ≡ false
  pub curr_idx : text_eq keys.curr keys.idx ≡ false
  pub idx_curr : text_eq keys.idx keys.curr ≡ false
  pub prev_idx : text_eq keys.prev keys.idx ≡ false
  pub idx_prev : text_eq keys.idx keys.prev ≡ false

-- What a script can see of its counters.
abbrev pub view : WindowKeys → ℕ → Store → Window
view keys clock store = record {
  index = number (get store clock keys.idx);
  prev = or_zero (number (get store clock keys.prev));
  curr = or_zero (number (get store clock keys.curr));
}

module _ (window clock : ℕ) (keys : WindowKeys) (d : AreDistinct keys) where
  pub view-rotate :
      (w : ℕ) (store : Store)
      → view keys clock (rotate window clock keys w store) ≡ roll w (view keys clock store)
  unfolding rotate begin_window roll
  view-rotate w store =
      ground (arith, text_eq_refl keys.curr, text_eq_refl keys.prev, text_eq_refl keys.idx)

  view-counted :
      (store : Store) (n : ℕ)
      → view keys clock (
          expire
            (expire
              (expire (set store keys.curr (counter n)) clock keys.curr (window * 2))
              clock
              keys.prev
              (window * 2))
            clock
            keys.idx
            (window * 2))
        ≡ record (view keys clock store) { curr = n }
  view-counted store n =
      ground (arith, text_eq_refl keys.curr, text_eq_refl keys.prev, text_eq_refl keys.idx)

  module _ (limit now cost : ℕ) (store : Store) where
    settled : Window
    settled = view keys clock (rotate window clock keys (now / window) store)

    view-run_settled :
        view keys clock (run_sliding_window window now limit cost clock keys store).1
        ≡ settle limit window now cost settled
    unfolding run_sliding_window settle settled
    view-run_settled = elim (Bool-cases (is_over limit window now cost settled)) [
      | inl over ↦ rw over refl
      | inr under ↦ rw under (view-counted (rotate window clock keys (now / window) store) _)
    ]

    run-settled_reply :
        (run_sliding_window window now limit cost clock keys store).0
        ≡ settled_reply limit window now cost settled
    unfolding run_sliding_window settled_reply settled
    run-settled_reply = elim (Bool-cases (is_over limit window now cost settled)) [
      | inl over ↦ rw over refl
      | inr under ↦ rw under refl
    ]

-- For three different keys the script leaves what the machine leaves, as far as a script at the
-- same time can see, and replies what the machine replies.
pub run_sliding_window-refines :
    (window now limit cost clock : ℕ) (keys : WindowKeys) (store : Store)
    → AreDistinct keys
    → let after = run_sliding_window window now limit cost clock keys store in
      (view keys clock after.1 ≡ window_step limit window now cost (view keys clock store))
      × (after.0 ≡ window_reply limit window now cost (view keys clock store))
unfolding window_step window_reply settled
run_sliding_window-refines window now limit cost clock keys store d =
    let rolled = view-rotate window clock keys d (now / window) store in
    (
      view-run_settled window clock keys d limit now cost store
          ∙ ap (settle limit window now cost) rolled,
      run-settled_reply window clock keys d limit now cost store
          ∙ ap (settled_reply limit window now cost) rolled,
    )

-- The script writes no key but its three.
pub run_sliding_window-other :
    (window now limit cost clock : ℕ) (keys : WindowKeys) (store : Store) (k : Text)
    → text_eq k keys.curr ≡ false
    → text_eq k keys.prev ≡ false
    → text_eq k keys.idx ≡ false
    → (run_sliding_window window now limit cost clock keys store).1 k ≡ store k
unfolding run_sliding_window rotate begin_window
run_sliding_window-other window now limit cost clock keys store k c p i = ground arith
