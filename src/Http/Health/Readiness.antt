-- ===== src/Http/Health/Readiness.antt =====
-- When internal/transport/http/handlers/health.go reports that the service is ready.
use go_rate_limiter.Prelude.{
  ◌≡◌, refl, ◌⊎◌, inl, inr, none, some, List, [], ◌∷◌, All, Option-cases, Member, here, there,
}
use go_rate_limiter.Errors.{Error}
use go_rate_limiter.Http.{Headers, Request, status_body, not_ready_body, write_json}
use go_rate_limiter.Http.Health.{HealthChecker, ready}

module _ {S : Type 0} (hs : Headers) (r : Request) (s : S) where
  -- The service reports that it is ready, with 200, if every ping succeeds, and otherwise 503 with the
  -- error of a ping that failed; the state is left.
  pub ready-cases :
      (checkers : List (HealthChecker S))
      → (All (λ (ping : HealthChecker S). ping s ≡ none) checkers
          × (ready checkers hs r s ≡ (write_json 200 (status_body "ready") hs, s)))
        ⊎ ((ping : HealthChecker S) × (e : Error) × Member ping checkers
            × (ping s ≡ some e)
            × (ready checkers hs r s ≡ (write_json 503 (not_ready_body e) hs, s)))
  unfolding ready
  ready-cases [] = inl (tt, refl)
  ready-cases (ping ∷ pings) = elim (Option-cases (ping s)) [
    | inr (e, f) ↦ inr (ping, e, here, f, rw (f, ready) refl)
    | inl f ↦ elim (ready-cases pings) [
      | inl (all, same) ↦ inl ((f, all), rw (f, ready) same)
      | inr (p, e, m, g, same) ↦ inr (p, e, there m, g, rw (f, ready) same)
    ]
  ]
