-- ===== src/Entity/Matching.antt =====
-- How `Matches`, `MatchKindFor` and `Specificity` of a rule fit together.
use go_rate_limiter.Prelude.{
  ◌<◌, ◌≡◌, ◌≢◌, refl, ◌↔◌, ◌⊎◌, inl, inr, true, false, arith, length, [], ◌∷◌,
}
use go_rate_limiter.Prelude.Text.{
  Text, text_eq, has_suffix, trim_suffix, text_eq_sound, length-trim_suffix,
  length-le_of_has_prefix,
}
use go_rate_limiter.Entity.{
  Rule, star, matches, match_kind_for, match_none, match_default, match_prefix, match_exact,
  specificity,
}

-- A pattern other than "*" that ends in "*" has something before it.
prefix_pos :
    (p : Text) → text_eq p star ≡ false → has_suffix p star ≡ true → 0 < length (trim_suffix p star)
unfolding text_eq has_suffix
prefix_pos [] e h = cc
prefix_pos (c ∷ []) e h = ground arith
prefix_pos (c ∷ d ∷ p) e h = omega (arith, length-trim_suffix (c ∷ d ∷ p) star h)

-- The score of a rule is positive exactly for the routes that the rule matches.
pub specificity-pos_iff :
    (r : Rule) (route : Text) → (0 < specificity r route) ↔ (matches r route ≡ true)
unfolding specificity match_kind_for
specificity-pos_iff r route = ground (arith, prefix_pos r.route_pattern)

-- No prefix rule and no default outranks an exact rule, however long its pattern is.
pub exact_outranks :
    (r q : Rule) (route : Text)
    → match_kind_for r route ≡ match_exact
    → match_kind_for q route ≢ match_exact
    → specificity q route < specificity r route
unfolding specificity match_kind_for matches
exact_outranks r q route e n = ground (
  arith,
  text_eq_sound route r.route_pattern,
  length-le_of_has_prefix route (trim_suffix q.route_pattern star),
)

-- Between two prefix rules the longer pattern has the higher score.
pub longer_prefix_outranks :
    (r q : Rule) (route : Text)
    → match_kind_for r route ≡ match_prefix
    → match_kind_for q route ≡ match_prefix
    → (length q.route_pattern < length r.route_pattern)
      ↔ (specificity q route < specificity r route)
unfolding specificity match_kind_for
longer_prefix_outranks r q route e f =
    ground (arith, length-trim_suffix r.route_pattern star, length-trim_suffix q.route_pattern star)

pub match_kind-ne-exact :
    (r : Rule) (route : Text)
    → (match_kind_for r route ≡ match_exact) ⊎ (match_kind_for r route ≢ match_exact)
match_kind-ne-exact r route =
    elim (match_kind_for r route) as (λ k. (k ≡ match_exact) ⊎ (k ≢ match_exact)) [
      | match_exact ↦ inl refl
      | match_prefix ↦ inr (λ e. cc)
      | match_default ↦ inr (λ e. cc)
      | match_none ↦ inr (λ e. cc)
    ]
