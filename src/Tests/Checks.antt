-- ===== src/Tests/Checks.antt =====
-- Checks through the limiter and the services.
use go_rate_limiter.Prelude.{◌≡◌, ◌≢◌, ◌↔◌, refl, false, [], ◌∷◌, arith, All, ◌&&◌}
use go_rate_limiter.Prelude.Int.{pos}
use go_rate_limiter.Prelude.Text.{text_eq, trim_space, has_suffix}
use go_rate_limiter.Errors.{ok}
use go_rate_limiter.Entity.{Rule, RateLimitDecision, matches}
use go_rate_limiter.Entity.Validation.{IsValid}
use go_rate_limiter.Redis.Limiter.{check, up}
use go_rate_limiter.Redis.Limiter.Isolation.{tenants_isolated}
use go_rate_limiter.Resolver.{resolve}
use go_rate_limiter.Auth.{TenantContext, authenticate}
use go_rate_limiter.Auth.Soundness.{IsGenuine, authenticate_iff}
use go_rate_limiter.Check.{ListByTenant}
use go_rate_limiter.Check.Outcomes.{check_on_redis, Decided, check_on_redis-Decided}
use go_rate_limiter.Tests.Data.{
  plain, no_reply, empty_store, on_call, down_call, bucket_rule, window_rule, slash_a, slash_b,
  key_of, good_key, good_tenant, good_ports,
}
use go_rate_limiter.Tests.Buckets.{regular}

abbrev pub rule_a : Rule
rule_a = bucket_rule slash_a

abbrev rule_b : Rule
rule_b = window_rule slash_b

pub IsValid-a : IsValid rule_a
unfolding trim_space
IsValid-a = record { owned = λ e. cc; routed = λ e. cc; limited = ground arith }

IsValid-b : IsValid rule_b
unfolding trim_space
IsValid-b = record { owned = λ e. cc; routed = λ e. cc; limited = ground arith }

down : down_call.link ≢ up
down e = cc

other_tenant : (key_of 7).tenant_id ≢ (key_of 8).tenant_id
other_tenant e = cc

tenants_isolated_example :
    (check plain no_reply on_call
      (key_of 8)
      rule_b
      (pos 1)
      (check plain no_reply on_call (key_of 7) rule_a (pos 5) empty_store).1).0
    ≡ (check plain no_reply on_call (key_of 8) rule_b (pos 1) empty_store).0
tenants_isolated_example =
    tenants_isolated plain no_reply on_call on_call (key_of 7) (key_of 8) rule_a rule_b (pos 5)
      (pos 1) empty_store regular IsValid-a IsValid-b other_tenant

abbrev context : TenantContext
context = record { tenant = good_tenant; api_key = good_key }

authenticate_iff_example :
    (authenticate plain good_ports slash_a ≡ ok context)
    ↔ IsGenuine plain good_ports slash_a context
authenticate_iff_example = authenticate_iff plain good_ports slash_a context

abbrev pub listed : ListByTenant
listed tenant = ok (rule_a ∷ [])

off_b : All (λ (q : Rule). (q.enabled && matches q slash_b) ≡ false) (rule_a ∷ [])
unfolding matches text_eq has_suffix
off_b = (refl, tt)

check_on_redis-Decided_example :
    (d : RateLimitDecision) × ((check_on_redis plain no_reply listed on_call 7 slash_a []
        (pos 2)
        empty_store).0
      ≡ ok d)
    × Decided plain no_reply listed on_call (resolve (rule_a ∷ []) slash_a) d
check_on_redis-Decided_example =
    check_on_redis-Decided plain no_reply listed on_call 7 slash_a [] (pos 2) empty_store
      (rule_a ∷ []) refl (IsValid-a, tt) refl
