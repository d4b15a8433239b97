-- ===== src/Redis/TokenBucket/Bounds.antt =====
-- How much the bucket of scripts/token_bucket.lua lets through.
use go_rate_limiter.Prelude.{
  ℕ, ◌+◌, ◌-◌, ◌*◌, ◌≤◌, ◌≡◌, Option, none, some, List, [], ◌∷◌, arith, if◌then◌else◌, ap,
}
use go_rate_limiter.Redis.TokenBucket.{nano, refilled, is_allowed, spend}

-- Times that do not fall, none before `t` and none after `u`.
abbrev pub InOrder : ℕ → ℕ → List (ℕ × ℕ) → Type 0
InOrder t u [] = t ≤ u
InOrder t u ((now, cost) ∷ rs) = (t ≤ now) × InOrder now u rs

InOrder-le : (t u : ℕ) (rs : List (ℕ × ℕ)) → InOrder t u rs → t ≤ u
InOrder-le t u [] h = h
InOrder-le t u ((now, cost) ∷ rs) (h, hs) = omega (arith, InOrder-le now u rs hs)

module _ (capacity rate : ℕ) where
  -- A bucket's hash in the course of requests, each with its time and cost: the hash at the end, and
  -- the sum of the costs that were let through.
  abbrev pub after : ℕ × ℕ → Option (ℕ × ℕ) → Option (ℕ × ℕ)
  after (now, cost) state = some (spend cost (refilled capacity rate now state), now)

  abbrev pub admitted : ℕ × ℕ → Option (ℕ × ℕ) → ℕ
  admitted (now, cost) state =
      if is_allowed cost (refilled capacity rate now state) then cost else 0

  unfoldable pub total : List (ℕ × ℕ) → Option (ℕ × ℕ) → ℕ
  total [] state = 0
  total (r ∷ rs) state = admitted r state + total rs (after r state)

  pub refilled-le :
      (now : ℕ) (state : Option (ℕ × ℕ)) → refilled capacity rate now state ≤ capacity * nano
  unfolding refilled
  refilled-le now none = omega arith
  refilled-le now (some (tokens, last)) = omega arith

  spend-admitted :
      (now cost : ℕ) (state : Option (ℕ × ℕ))
      → spend cost (refilled capacity rate now state) + admitted (now, cost) state * nano
        ≡ refilled capacity rate now state
  unfolding spend is_allowed
  spend-admitted now cost state = ground arith

  refilled-gain :
      (now tokens last : ℕ)
      → refilled capacity rate now (some (tokens, last)) ≤ tokens + (now - last) * rate
  unfolding refilled
  refilled-gain now tokens last = omega arith

  budget_from :
      (rs : List (ℕ × ℕ)) (tokens last u : ℕ)
      → InOrder last u rs
      → total rs (some (tokens, last)) * nano ≤ tokens + (u - last) * rate
  unfolding total
  budget_from [] tokens last u h = omega arith
  budget_from ((now, cost) ∷ rs) tokens last u (h, hs) =
      let state : Option (ℕ × ℕ) = some (tokens, last) in
      let end = InOrder-le now u rs hs in
      let time : u - last ≡ (u - now) + (now - last) = omega arith in
      omega (
        arith,
        budget_from rs (spend cost (refilled capacity rate now state)) now u hs,
        spend-admitted now cost state,
        refilled-gain now tokens last,
        ap (λ (t : ℕ). t * rate) time,
      )

  -- A bucket that starts empty of history lets through, in any sequence of requests over the time
  -- from `t` to `u`, at most its capacity and what the rate yields in that time.
  pub total-le :
      (rs : List (ℕ × ℕ)) (t u : ℕ)
      → InOrder t u rs
      → total rs none * nano ≤ capacity * nano + (u - t) * rate
  unfolding total
  total-le [] t u h = omega arith
  total-le ((now, cost) ∷ rs) t u (h, hs) =
      let end = InOrder-le now u rs hs in
      let time : u - t ≡ (u - now) + (now - t) = omega arith in
      omega (
        arith,
        budget_from rs (spend cost (refilled capacity rate now none)) now u hs,
        spend-admitted now cost none,
        refilled-le now none,
        ap (λ (t : ℕ). t * rate) time,
      )
