-- ===== src/Redis/Limiter/Decisions.antt =====
-- The decisions of `Check` in internal/infrastructure/redis/rate_limiter.go, on every branch.
use go_rate_limiter.Prelude.{
  Bool-cases, ℕ, ◌+◌, ◌-◌, ◌*◌, ◌/◌, ◌≤◌, ◌<◌, ◌≡◌, ◌≢◌, refl, ◌↔◌, inl, inr, Bool, true, false,
  List, [], ◌∷◌, arith, if◌then◌else◌,
}
use native.Mathlib.Nat.{div-le_of_le-mul, lt-div-mul-add}
use go_rate_limiter.Prelude.Int.{ℤ, pos, pos_part}
use go_rate_limiter.Errors.{Error, Result, ok, err, rate_limit_backend, is}
use go_rate_limiter.Entity.{
  Rule, RateLimitKey, RateLimitDecision, token_bucket, sliding_window, rule_limit,
}
use go_rate_limiter.Entity.Validation.{IsValid, IsLimited}
use go_rate_limiter.Prelude.Text.{Text}
use go_rate_limiter.Redis.Keys.Distinct.{sliding_window_keys-AreDistinct}
use go_rate_limiter.Redis.Store.{Store, get}
use go_rate_limiter.Redis.TokenBucket.Expiry.{le-ceil_div-mul}
use go_rate_limiter.Redis.SlidingWindow.Refines.{AreDistinct, view, run_sliding_window-refines}
use go_rate_limiter.Redis.SlidingWindow.Spec.{Window, roll, is_over, settled_reply, window_reply}
use go_rate_limiter.Redis.Keys.{Platform, WindowKeys, token_bucket_key, sliding_window_keys}
use go_rate_limiter.Redis.TokenBucket.{
  bucket_fields, nano, is_allowed, spend, retry_after, reset_at, bucket_reply, refilled,
  run_token_bucket,
}
use go_rate_limiter.Redis.TokenBucket.Bounds.{refilled-le}
use go_rate_limiter.Redis.SlidingWindow.{run_sliding_window, elapsed, room, estimate}
use go_rate_limiter.Redis.Limiter.Scripts.{
  charged, counter_of, check-token_bucket, check-sliding_window,
}
use go_rate_limiter.Redis.Limiter.{
  Link, up, unreachable, reply_lost, Call, parse_decision, answer, check,
}

-- A decision that the scripts can give for a rule with a limit: what remains does not exceed the
-- limit, and a time to wait is named exactly with a refusal.
pub record IsCoherent (rule : Rule) (d : RateLimitDecision) : Type 0 where
  pub limited : d.limit ≡ rule_limit rule
  pub named : d.algorithm ≡ rule.algorithm
  pub bounded : (n : ℕ) × (d.remaining ≡ pos n) × (n ≤ pos_part (rule_limit rule))
  pub waits : (d.retry_after ≡ pos 0) ↔ (d.allowed ≡ true)

-- The form of the scripts' replies, for a limit.
abbrev Reply : ℕ → List ℤ → Type 0
Reply limit reply =
    (allowed : Bool) × (remaining reset wait : ℕ) × (reply
      ≡ pos (if allowed then 1 else 0) ∷ pos remaining ∷ pos reset ∷ pos wait ∷ [])
    × (remaining ≤ limit)
    × ((wait ≡ 0) ↔ (allowed ≡ true))

parse-IsCoherent :
    (rule : Rule) (reply : List ℤ)
    → Reply (pos_part (rule_limit rule)) reply
    → (d : RateLimitDecision) × (parse_decision reply rule ≡ ok d) × IsCoherent rule d
unfolding parse_decision
parse-IsCoherent rule reply (a, rem, reset, wait, e, low, iff) = rw e (
  record {
    allowed = a;
    limit = rule_limit rule;
    remaining = pos rem;
    reset_at = pos reset;
    retry_after = pos wait;
    algorithm = rule.algorithm;
  },
  ground arith,
  record { limited = refl; named = refl; bounded = (rem, refl, low); waits = ground arith },
)

spend-le : (cost tokens : ℕ) → spend cost tokens ≤ tokens
unfolding spend
spend-le cost tokens = ground arith

retry_after-eq-0_iff :
    (rate cost tokens : ℕ)
    → 0 < rate
    → (retry_after rate cost tokens ≡ 0) ↔ (is_allowed cost tokens ≡ true)
unfolding retry_after is_allowed
retry_after-eq-0_iff rate cost tokens h =
    ground (arith, le-ceil_div-mul (cost * nano - tokens) (rate * 1000) (omega arith))

token_bucket-Reply :
    (capacity rate now cost clock : ℕ) (store : Store) (key : Text)
    → 0 < rate
    → Reply capacity (run_token_bucket capacity rate now cost clock store key).0
unfolding run_token_bucket bucket_reply
token_bucket-Reply capacity rate now cost clock store key h =
    let tokens = refilled capacity rate now (bucket_fields (get store clock key)) in
    (
      is_allowed cost tokens,
      spend cost tokens / nano,
      reset_at capacity rate now (spend cost tokens),
      retry_after rate cost tokens,
      refl,
      div-le_of_le-mul nano (
          omega (
            arith,
            spend-le cost tokens,
            refilled-le capacity rate now (bucket_fields (get store clock key)),
          )),
      retry_after-eq-0_iff rate cost tokens h,
    )

settled-Reply :
    (window now limit cost : ℕ) (s : Window)
    → 0 < window
    → Reply limit (settled_reply limit window now cost s)
unfolding settled_reply
settled-Reply window now limit cost s h =
    let short : (e : ℕ) → room limit window e ≤ limit =
      λ e. div-le_of_le-mul window (omega arith) in
    let some_left : 0 < window - elapsed window now = omega (arith, lt-div-mul-add {a = now} h) in
    elim (Bool-cases (is_over limit window now cost s)) [
      | inl over ↦
          rw over (false, _, _, _, refl, short (estimate window now s.prev s.curr), ground arith)
      | inr under ↦ rw under (
        true,
        _,
        _,
        0,
        refl,
        short (estimate window now s.prev s.curr + cost * window),
        ground arith,
      )
    ]

sliding_window-Reply :
    (window now limit cost clock : ℕ) (keys : WindowKeys) (store : Store)
    → 0 < window
    → AreDistinct keys
    → Reply limit (run_sliding_window window now limit cost clock keys store).0
unfolding window_reply
sliding_window-Reply window now limit cost clock keys store h d =
    rw ((run_sliding_window-refines window now limit cost clock keys store d).1)
      (settled-Reply window now limit cost (roll (now / window) (view keys clock store)) h)

bucket_limit :
    (rule : Rule) → rule.algorithm ≡ token_bucket → rule_limit rule ≡ rule.bucket_capacity
unfolding rule_limit
bucket_limit rule a = rw a refl

window_limit : (rule : Rule) → rule.algorithm ≡ sliding_window → rule_limit rule ≡ rule.limit_count
unfolding rule_limit
window_limit rule a = rw a refl

module _ (p : Platform) (odd : Rule → Store → List ℤ × Store) (call : Call) (key : RateLimitKey)
    (rule : Rule) (cost : ℤ) (store : Store) (on : call.link ≡ up) where
  abbrev Decides : Result RateLimitDecision × Store → Type 0
  Decides r = (d : RateLimitDecision) × (r.0 ≡ ok d) × IsCoherent rule d

  answer-Decides :
      (r : List ℤ × Store)
      → Reply (pos_part (rule_limit rule)) r.0
      → Decides (answer call.link rule store r)
  unfolding answer
  answer-Decides r reply = rw on (parse-IsCoherent rule r.0 reply)

  limited-Decides : IsLimited rule → Decides (check p odd call key rule cost store)
  limited-Decides (inl (a, l, w)) = rw (check-sliding_window p odd call key rule cost store a l w) (
      answer-Decides _ (
        rw (window_limit rule a) (
          sliding_window-Reply (pos_part rule.window_seconds) (call.now_ms / 1000)
            (pos_part rule.limit_count) (charged cost) call.clock
            (sliding_window_keys p (counter_of key)) store w
            (sliding_window_keys-AreDistinct p (counter_of key)))))
  limited-Decides (inr (a, c, r)) = rw (check-token_bucket p odd call key rule cost store a c r) (
      answer-Decides _ (
        rw (bucket_limit rule a) (
          token_bucket-Reply (pos_part rule.bucket_capacity) (pos_part rule.refill_rate) call.now_ms
            (charged cost) call.clock store (token_bucket_key p (counter_of key)) r)))

-- For a valid rule and with the server in reach, the limiter always decides, whatever the store and
-- the times, and its decision is coherent with the rule.
pub check-IsCoherent :
    (p : Platform) (odd : Rule → Store → List ℤ × Store) (call : Call) (key : RateLimitKey)
    (rule : Rule) (cost : ℤ) (store : Store)
    → call.link ≡ up
    → IsValid rule
    → (d : RateLimitDecision) × ((check p odd call key rule cost store).0 ≡ ok d)
      × IsCoherent rule d
check-IsCoherent p odd call key rule cost store on v =
    limited-Decides p odd call key rule cost store on v.limited

abbrev Closed : Result RateLimitDecision × Store → Type 0
Closed r = (e : Error) × (r.0 ≡ err e) × (is e rate_limit_backend ≡ true)

answer-Closed :
    (link : Link) (rule : Rule) (store : Store) (r : List ℤ × Store)
    → link ≢ up
    → Closed (answer link rule store r)
unfolding answer
answer-Closed up rule store r n = absurd (n refl)
answer-Closed unreachable rule store r n = (_, refl, refl)
answer-Closed reply_lost rule store r n = (_, refl, refl)

limited-Closed :
    (p : Platform) (odd : Rule → Store → List ℤ × Store) (call : Call) (key : RateLimitKey)
    (rule : Rule) (cost : ℤ) (store : Store)
    → IsLimited rule
    → call.link ≢ up
    → Closed (check p odd call key rule cost store)
limited-Closed p odd call key rule cost store (inl (a, l, w)) n =
    rw (check-sliding_window p odd call key rule cost store a l w)
      (answer-Closed call.link rule store _ n)
limited-Closed p odd call key rule cost store (inr (a, c, r)) n =
    rw (check-token_bucket p odd call key rule cost store a c r)
      (answer-Closed call.link rule store _ n)

-- Without a reply the limiter gives no decision for a valid rule, but an error that is marked as the
-- backend's.
pub check_fails_closed :
    (p : Platform) (odd : Rule → Store → List ℤ × Store) (call : Call) (key : RateLimitKey)
    (rule : Rule) (cost : ℤ) (store : Store)
    → IsValid rule
    → call.link ≢ up
    → (e : Error) × ((check p odd call key rule cost store).0 ≡ err e)
      × (is e rate_limit_backend ≡ true)
check_fails_closed p odd call key rule cost store v n =
    limited-Closed p odd call key rule cost store v.limited n
