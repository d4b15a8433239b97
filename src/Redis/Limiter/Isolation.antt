-- ===== src/Redis/Limiter/Isolation.antt =====
-- Checks of different tenants through internal/infrastructure/redis/rate_limiter.go.
use go_rate_limiter.Prelude.{
  ℕ, ◌/◌, ◌≡◌, ◌≢◌, refl, inl, inr, false, List, arith, ap, sym, ◌∙◌, Member, here, there,
}
use go_rate_limiter.Prelude.Int.{ℤ, pos_part}
use go_rate_limiter.Prelude.Text.{Text, text_eq, text_eq_iff}
use go_rate_limiter.Entity.{Rule, RateLimitKey}
use go_rate_limiter.Entity.Validation.{IsValid, IsLimited}
use go_rate_limiter.Redis.Store.{Store}
use go_rate_limiter.Redis.Keys.{Platform, WindowKeys, token_bucket_key, sliding_window_keys}
use go_rate_limiter.Redis.Keys.Distinct.{
  IsRegular, all_keys, all_keys-ne, sliding_window_keys-AreDistinct,
}
use go_rate_limiter.Redis.TokenBucket.{run_token_bucket}
use go_rate_limiter.Redis.SlidingWindow.{run_sliding_window}
use go_rate_limiter.Redis.SlidingWindow.Refines.{
  AreDistinct, view, run_sliding_window-refines, run_sliding_window-other,
}
use go_rate_limiter.Redis.SlidingWindow.Spec.{window_reply}
use go_rate_limiter.Redis.Limiter.{Link, up, unreachable, reply_lost, Call, answer, check}
use go_rate_limiter.Redis.Limiter.Scripts.{
  charged, counter_of, check-token_bucket, check-sliding_window,
}

text_eq-false : (a b : Text) → a ≢ b → text_eq a b ≡ false
text_eq-false a b n = ground (arith, text_eq_iff a b)

run_token_bucket-other :
    (capacity rate now cost clock : ℕ) (store : Store) (key k : Text)
    → k ≢ key
    → (run_token_bucket capacity rate now cost clock store key).1 k ≡ store k
unfolding run_token_bucket
run_token_bucket-other capacity rate now cost clock store key k n =
    ground (arith, text_eq-false k key n)

answer-other :
    (link : Link) (rule : Rule) (store : Store) (r : List ℤ × Store) (k : Text)
    → r.1 k ≡ store k
    → (answer link rule store r).1 k ≡ store k
unfolding answer
answer-other up rule store (reply, left) k e = e
answer-other unreachable rule store (reply, left) k e = refl
answer-other reply_lost rule store (reply, left) k e = e

answer-local :
    (link : Link) (rule : Rule) (store store' : Store) (r r' : List ℤ × Store)
    → r.0 ≡ r'.0
    → (answer link rule store r).0 ≡ (answer link rule store' r').0
unfolding answer
answer-local up rule store store' r r' e = rw e refl
answer-local unreachable rule store store' r r' e = refl
answer-local reply_lost rule store store' r r' e = refl

bucket-local :
    (capacity rate now cost clock : ℕ) (store store' : Store) (key : Text)
    → store key ≡ store' key
    → (run_token_bucket capacity rate now cost clock store key).0
      ≡ (run_token_bucket capacity rate now cost clock store' key).0
unfolding run_token_bucket
bucket-local capacity rate now cost clock store store' key e = rw e refl

window-local :
    (window now limit cost clock : ℕ) (keys : WindowKeys) (store store' : Store)
    → AreDistinct keys
    → store keys.curr ≡ store' keys.curr
    → store keys.prev ≡ store' keys.prev
    → store keys.idx ≡ store' keys.idx
    → (run_sliding_window window now limit cost clock keys store).0
      ≡ (run_sliding_window window now limit cost clock keys store').0
window-local window now limit cost clock keys store store' d c v i =
    let seen : view keys clock store ≡ view keys clock store' = rw (c, v, i) refl in
    (run_sliding_window-refines window now limit cost clock keys store d).1
    ∙ ap (window_reply limit window now cost) seen
    ∙ sym (run_sliding_window-refines window now limit cost clock keys store' d).1

module _ (p : Platform) (odd : Rule → Store → List ℤ × Store) where
  -- A check writes no key but those of its counter.
  limited-other :
      (call : Call) (key : RateLimitKey) (rule : Rule) (cost : ℤ) (store : Store) (k : Text)
      → IsLimited rule
      → ((y : Text) → Member y (all_keys p (counter_of key)) → k ≢ y)
      → (check p odd call key rule cost store).1 k ≡ store k
  limited-other call key rule cost store k (inl (a, l, w)) n =
      rw (check-sliding_window p odd call key rule cost store a l w) (
        answer-other call.link rule store _ k (
          run_sliding_window-other (pos_part rule.window_seconds) (call.now_ms / 1000)
            (pos_part rule.limit_count) (charged cost) call.clock
            (sliding_window_keys p (counter_of key)) store k (text_eq-false k _ (n _ (there here)))
            (text_eq-false k _ (n _ (there (there here))))
            (text_eq-false k _ (n _ (there (there (there here)))))))
  limited-other call key rule cost store k (inr (a, c, r)) n =
      rw (check-token_bucket p odd call key rule cost store a c r) (
        answer-other call.link rule store _ k (
          run_token_bucket-other (pos_part rule.bucket_capacity) (pos_part rule.refill_rate)
            call.now_ms (charged cost) call.clock store (token_bucket_key p (counter_of key)) k
            (n _ here)))

  -- The reply for a counter depends on its own keys only.
  limited-local :
      (call : Call) (key : RateLimitKey) (rule : Rule) (cost : ℤ) (store store' : Store)
      → IsLimited rule
      → ((y : Text) → Member y (all_keys p (counter_of key)) → store y ≡ store' y)
      → (check p odd call key rule cost store).0 ≡ (check p odd call key rule cost store').0
  limited-local call key rule cost store store' (inl (a, l, w)) same =
      rw (check-sliding_window p odd call key rule cost store a l w) (
        rw (check-sliding_window p odd call key rule cost store' a l w) (
          answer-local call.link rule store store' _ _ (
            window-local (pos_part rule.window_seconds) (call.now_ms / 1000)
              (pos_part rule.limit_count) (charged cost) call.clock
              (sliding_window_keys p (counter_of key)) store store'
              (sliding_window_keys-AreDistinct p (counter_of key)) (same _ (there here))
              (same _ (there (there here))) (same _ (there (there (there here)))))))
  limited-local call key rule cost store store' (inr (a, c, r)) same =
      rw (check-token_bucket p odd call key rule cost store a c r) (
        rw (check-token_bucket p odd call key rule cost store' a c r) (
          answer-local call.link rule store store' _ _ (
            bucket-local (pos_part rule.bucket_capacity) (pos_part rule.refill_rate) call.now_ms
              (charged cost) call.clock store store' (token_bucket_key p (counter_of key))
              (same _ here))))

-- Whatever one tenant checks, with any rule, cost, time and outcome of the call, a check of another
-- tenant is answered as if it had not happened. Both rules are valid, and UUIDs and hashes are as
-- `IsRegular` says.
pub tenants_isolated :
    (p : Platform) (odd : Rule → Store → List ℤ × Store) (call call' : Call)
    (key key' : RateLimitKey) (rule rule' : Rule) (cost cost' : ℤ) (store : Store)
    → IsRegular p
    → IsValid rule
    → IsValid rule'
    → key.tenant_id ≢ key'.tenant_id
    → (check p odd call' key' rule' cost' (check p odd call key rule cost store).1).0
      ≡ (check p odd call' key' rule' cost' store).0
tenants_isolated p odd call call' key key' rule rule' cost cost' store r v v' n =
    limited-local p odd call' key' rule' cost' _ store v'.limited λ y my.
      limited-other p odd call key rule cost store y v.limited
        λ z mz. all_keys-ne p r (counter_of key') (counter_of key) y z (λ e. n (sym e)) my mz
