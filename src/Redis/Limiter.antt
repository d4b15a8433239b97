-- ===== src/Redis/Limiter.antt =====
-- internal/infrastructure/redis/rate_limiter.go: `Check` runs the script of the rule's algorithm.
pub mod Scripts
pub mod Decisions
pub mod Isolation
use text.Mathlib.Text.{◌==◌ as str_eq}
use go_rate_limiter.Prelude.{
  ℕ, ◌/◌, Bool, true, false, ◌&&◌, String, Option, none, some, List, [], ◌∷◌, if◌then◌else◌, ltb,
  length, get_or,
}
use go_rate_limiter.Prelude.Int.{ℤ, pos, pos_part, leb_ℤ, eqb_ℤ}
use go_rate_limiter.Prelude.Text.{Text}
use go_rate_limiter.Prelude.Decimal.{parse_int}
use go_rate_limiter.Errors.{
  Error, Result, ok, err, ◌>>=◌, sentinel, wrap, other, rate_limit_backend, invalid_rule,
}
use go_rate_limiter.Entity.{
  Rule, RateLimitKey, RateLimitDecision, token_bucket, sliding_window, rule_limit,
}
use go_rate_limiter.Redis.Store.{Store}
use go_rate_limiter.Redis.Keys.{Platform, TenantRouteKey, token_bucket_key, sliding_window_keys}
use go_rate_limiter.Redis.TokenBucket.{run_token_bucket}
use go_rate_limiter.Redis.SlidingWindow.{run_sliding_window}

-- How a call to the server goes: it comes back, it does not reach the server, or the script runs and
-- its reply is lost.
pub data Link : Type 0 where
  up unreachable reply_lost : Link

-- The circumstances of a call: `time.Now()` in milliseconds, the server's clock, the connection.
pub record Call : Type 0 where
  pub now_ms : ℕ
  pub clock : ℕ
  pub link : Link

unfoldable pub parse_decision : List ℤ → Rule → Result RateLimitDecision
parse_decision result rule =
    if ltb (length result) 4
    then err (wrap "%w: unexpected lua response %v" (sentinel rate_limit_backend))
    else ok (record {
      allowed = eqb_ℤ (get_or result 0 (pos 0)) (pos 1);
      limit = rule_limit rule;
      remaining =
          if leb_ℤ (pos 0) (get_or result 1 (pos 0)) then get_or result 1 (pos 0) else pos 0;
      reset_at = get_or result 2 (pos 0);
      retry_after = get_or result 3 (pos 0);
      algorithm = rule.algorithm;
    })

-- A value of a script's reply as the client library has it.
pub data LuaValue : Type 0 where
  int_value : ℤ → LuaValue
  text_value : Text → LuaValue
  other_value : LuaValue

abbrev pub parsed_value : LuaValue → Result ℤ
parsed_value (int_value n) = ok n
parsed_value (text_value s) = elim (parse_int s) [ none ↦ err (other "syntax") | some n ↦ ok n ]
parsed_value other_value = err (other "unexpected type %T")

unfoldable pub parse_lua_int64_slice : List LuaValue → Result (List ℤ)
parse_lua_int64_slice [] = ok []
parse_lua_int64_slice (v ∷ vs) = do n ← parsed_value v; ns ← parse_lua_int64_slice vs; ok (n ∷ ns)

-- `EvalSha` and what follows it.
unfoldable pub answer : Link → Rule → Store → List ℤ × Store → Result RateLimitDecision × Store
unfolding parse_decision
answer up rule store (reply, left) = (parse_decision reply rule, left)
answer unreachable rule store (reply, left) =
    (err (wrap "%w: %v" (sentinel rate_limit_backend)), store)
answer reply_lost rule store (reply, left) =
    (err (wrap "%w: %v" (sentinel rate_limit_backend)), left)

-- `odd` is what the Lua interpreter makes of parameters that no valid rule has: a negative number,
-- or a window of 0 seconds, by which the script would divide.
module _ (p : Platform) (odd : Rule → Store → List ℤ × Store) (call : Call) where
  unfoldable pub check_token_bucket :
      TenantRouteKey → Rule → ℤ → Store → Result RateLimitDecision × Store
  check_token_bucket key rule cost store = answer call.link rule store (
      if leb_ℤ (pos 0) rule.bucket_capacity && leb_ℤ (pos 0) rule.refill_rate
      then run_token_bucket (pos_part rule.bucket_capacity) (pos_part rule.refill_rate) call.now_ms
          (pos_part cost) call.clock store (token_bucket_key p key)
      else odd rule store)

  unfoldable pub check_sliding_window :
      TenantRouteKey → Rule → ℤ → Store → Result RateLimitDecision × Store
  check_sliding_window key rule cost store = answer call.link rule store (
      if leb_ℤ (pos 0) rule.limit_count && leb_ℤ (pos 1) rule.window_seconds
      then run_sliding_window (pos_part rule.window_seconds) (call.now_ms / 1000)
          (pos_part rule.limit_count) (pos_part cost) call.clock (sliding_window_keys p key) store
      else odd rule store)

  unfoldable pub check : RateLimitKey → Rule → ℤ → Store → Result RateLimitDecision × Store
  check key rule cost store =
      let charged = if leb_ℤ cost (pos 0) then pos 1 else cost in
      let trk : TenantRouteKey = record {
        tenant_id = key.tenant_id;
        route = key.route;
        subject = key.subject;
      } in
      if str_eq rule.algorithm token_bucket
      then check_token_bucket trk rule charged store
      else if str_eq rule.algorithm sliding_window
      then check_sliding_window trk rule charged store
      else (err (wrap "%w: unsupported algorithm %s" (sentinel invalid_rule)), store)
