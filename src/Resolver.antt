-- ===== src/Resolver.antt =====
-- internal/application/rule_resolver.go: the rule that applies to a route.
pub mod Best
pub mod Ties
use go_rate_limiter.Prelude.{
  ℕ, Bool, true, false, not, Option, none, some, List, [], ◌∷◌, if◌then◌else◌, ltb,
}
use go_rate_limiter.Prelude.Int.{ℤ, pos, negsuc, leb_ℤ}
use go_rate_limiter.Prelude.Text.{Text}
use go_rate_limiter.Entity.{Rule, specificity}

-- One round of the loop: the best rule so far, and its score.
consider : Text → Rule → Option Rule × ℤ → Option Rule × ℤ
consider route rule (best, best_score) =
    let score = specificity rule route in
    if not rule.enabled
    then (best, best_score)
    else if leb_ℤ (pos score) (pos 0)
    then (best, best_score)
    else if not (leb_ℤ (pos score) best_score)
    then (some rule, pos score)
    else (best, best_score)

resolve_from : Text → List Rule → Option Rule × ℤ → Option Rule
resolve_from route [] (best, best_score) = best
resolve_from route (rule ∷ rules) state = resolve_from route rules (consider route rule state)

unfoldable pub resolve : List Rule → Text → Option Rule
unfolding resolve_from consider
resolve rules route = resolve_from route rules (none, negsuc 0)
