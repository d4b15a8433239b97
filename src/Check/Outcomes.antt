-- ===== src/Check/Outcomes.antt =====
-- What `Check` of internal/application/check_service.go answers, alone and with the Redis limiter.
use go_rate_limiter.Prelude.{
  ◌≢◌, if◌then◌else◌, ◌≡◌, refl, ◌⊎◌, inl, inr, true, false, arith, List, Option, none, some, All,
  All-lookup, ◌&&◌,
}
use go_rate_limiter.Prelude.Int.{ℤ, pos, leb_ℤ}
use go_rate_limiter.Prelude.Text.{Text}
use go_rate_limiter.Errors.{Error, Result, ok, err, is, rate_limit_backend}
use go_rate_limiter.Entity.{Uuid, Rule, RateLimitKey, RateLimitDecision, matches}
use go_rate_limiter.Entity.Validation.{IsValid}
use go_rate_limiter.Resolver.{resolve}
use go_rate_limiter.Resolver.Best.{IsFirstBest-Member, resolve_iff, resolve-none_iff}
use go_rate_limiter.Redis.Store.{Store}
use go_rate_limiter.Redis.Keys.{Platform}
use go_rate_limiter.Redis.Limiter.{Call, check, up}
use go_rate_limiter.Redis.Limiter.Decisions.{IsCoherent, check-IsCoherent, check_fails_closed}
use go_rate_limiter.Check.{
  ListByTenant, RateLimiter, unlimited, as_backend_error, backend_result, apply_rule, check_service,
}

as_backend_error-is : (e : Error) → is (as_backend_error e) rate_limit_backend ≡ true
unfolding as_backend_error
as_backend_error-is e = ground arith

backend_result-is :
    {S : Type 0} (r : Result RateLimitDecision × S) (e : Error)
    → (backend_result r).0 ≡ err e
    → is e rate_limit_backend ≡ true
backend_result-is (ok d, s) e h = cc
backend_result-is (err d, s) e h = ground (arith, as_backend_error-is d)

backend_result-ok :
    {S : Type 0} (r : Result RateLimitDecision × S) (d : RateLimitDecision)
    → r.0 ≡ ok d
    → (backend_result r).0 ≡ ok d
backend_result-ok (ok d', s) d h = h
backend_result-ok (err e, s) d h = cc

backend_result-err :
    {S : Type 0} (r : Result RateLimitDecision × S) (e : Error)
    → r.0 ≡ err e
    → (backend_result r).0 ≡ err (as_backend_error e)
backend_result-err (ok d, s) e h = cc
backend_result-err (err d, s) e h = let same : d ≡ e = cc in rw same refl

module _ {S : Type 0} (list_by_tenant : ListByTenant) (limiter : RateLimiter S) where
  -- Where no rule of the tenant is enabled and matches the route, the request is allowed without a
  -- limit, whatever its cost, and the limiter is not asked.
  unmatched_allowed :
      (tenant_id : Uuid) (route subject : Text) (cost : ℤ) (s : S) (rules : List Rule)
      → list_by_tenant tenant_id ≡ ok rules
      → All (λ q. (q.enabled && matches q route) ≡ false) rules
      → check_service list_by_tenant limiter tenant_id route subject cost s ≡ (ok unlimited, s)
  unfolding check_service
  unmatched_allowed tenant_id route subject cost s rules loaded off =
      rw (loaded, check_service) (rw ((resolve-none_iff rules route).1 off, check_service) refl)

  apply_rule-error :
      (tenant_id : Uuid) (route subject : Text) (cost : ℤ) (best : Option Rule) (s : S) (e : Error)
      → (apply_rule list_by_tenant limiter tenant_id route subject cost best s).0 ≡ err e
      → is e rate_limit_backend ≡ true
  unfolding apply_rule
  apply_rule-error tenant_id route subject cost none s e h = cc
  apply_rule-error tenant_id route subject cost (some rule) s e h = backend_result-is _ e h

  -- Once the rules are loaded, every error of a check is marked as the backend's.
  pub check_service-error :
      (tenant_id : Uuid) (route subject : Text) (cost : ℤ) (s : S) (rules : List Rule) (e : Error)
      → list_by_tenant tenant_id ≡ ok rules
      → (check_service list_by_tenant limiter tenant_id route subject cost s).0 ≡ err e
      → is e rate_limit_backend ≡ true
  unfolding check_service
  check_service-error tenant_id route subject cost s rules e loaded h =
      apply_rule-error tenant_id route subject _ (resolve rules route) s e
        (rw (loaded, check_service) at h)

-- The whole path of a check, from the rules to the scripts.
module _ (p : Platform) (odd : Rule → Store → List ℤ × Store) (list_by_tenant : ListByTenant)
    (call : Call) where
  abbrev pub check_on_redis : Uuid → Text → Text → ℤ → Store → Result RateLimitDecision × Store
  check_on_redis = check_service list_by_tenant (check p odd call)

  -- The decision is that of the rule which was resolved, or no limit.
  abbrev pub Decided : Option Rule → RateLimitDecision → Type 0
  Decided best d =
      ((best ≡ none) × (d ≡ unlimited)) ⊎ ((r : Rule) × (best ≡ some r) × IsCoherent r d)

  abbrev Answers : Option Rule → Result RateLimitDecision × Store → Type 0
  Answers best r = (d : RateLimitDecision) × (r.0 ≡ ok d) × Decided best d

  apply_rule-Answers :
      (tenant_id : Uuid) (route subject : Text) (cost : ℤ) (best : Option Rule) (store : Store)
      → call.link ≡ up
      → ((r : Rule) → best ≡ some r → IsValid r)
      → Answers best
          (apply_rule list_by_tenant (check p odd call) tenant_id route subject cost best store)
  unfolding apply_rule
  apply_rule-Answers tenant_id route subject cost none store on v = (_, refl, inl (refl, refl))
  apply_rule-Answers tenant_id route subject cost (some rule) store on v =
      let key : RateLimitKey = record { tenant_id = tenant_id; route = route; subject = subject } in
      let (d, e, c) = check-IsCoherent p odd call key rule cost store on (v rule refl) in
      (d, backend_result-ok _ d e, inr (rule, refl, c))

  resolved-IsValid :
      (rules : List Rule) (route : Text) (r : Rule)
      → All IsValid rules
      → resolve rules route ≡ some r
      → IsValid r
  resolved-IsValid rules route r valid e =
      All-lookup IsValid (IsFirstBest-Member route ((resolve_iff rules route r).0 e).2) valid

  -- With valid rules and the server in reach every check is decided, by the rule that the resolver
  -- picks.
  pub check_on_redis-Decided :
      (tenant_id : Uuid) (route subject : Text) (cost : ℤ) (store : Store) (rules : List Rule)
      → list_by_tenant tenant_id ≡ ok rules
      → All IsValid rules
      → call.link ≡ up
      → Answers (resolve rules route) (check_on_redis tenant_id route subject cost store)
  unfolding check_service
  check_on_redis-Decided tenant_id route subject cost store rules loaded valid on =
      rw (loaded, check_service)
        (apply_rule-Answers tenant_id route subject _ (resolve rules route) store on
          λ r e. resolved-IsValid rules route r valid e)

  -- Without a reply of the server a request that a valid rule applies to fails.
  pub check_on_redis-closed :
      (tenant_id : Uuid) (route subject : Text) (cost : ℤ) (store : Store) (rules : List Rule)
      (rule : Rule)
      → list_by_tenant tenant_id ≡ ok rules
      → All IsValid rules
      → resolve rules route ≡ some rule
      → call.link ≢ up
      → (e : Error) × ((check_on_redis tenant_id route subject cost store).0 ≡ err e)
  unfolding check_service apply_rule
  check_on_redis-closed tenant_id route subject cost store rules rule loaded valid best off =
      let key : RateLimitKey = record { tenant_id = tenant_id; route = route; subject = subject } in
      let charged = if leb_ℤ cost (pos 0) then pos 1 else cost in
      let (e, f, _) =
        check_fails_closed p odd call key rule charged store
          (resolved-IsValid rules route rule valid best) off in
      (
        as_backend_error e,
        rw (loaded, check_service) (rw (best, apply_rule) (backend_result-err _ e f)),
      )
