-- ===== src/Resolver/Ties.antt =====
-- Precedence between exact, prefix and default rules in internal/application/rule_resolver.go.
use go_rate_limiter.Prelude.{
  ℕ, ◌≤◌, ◌≡◌, refl, inl, inr, true, arith, List, [], ◌∷◌, some, All-lookup, Member, length,
}
use go_rate_limiter.Prelude.Text.{Text, text_eq, has_prefix, has_suffix, trim_suffix}
use go_rate_limiter.Entity.{
  Rule, star, match_exact, match_prefix, match_default, match_kind_for, matches, specificity,
}
use go_rate_limiter.Entity.Matching.{
  specificity-pos_iff, exact_outranks, longer_prefix_outranks, match_kind-ne-exact,
}
use go_rate_limiter.Resolver.{resolve}
use go_rate_limiter.Resolver.Best.{rank, IsFirstBest, IsFirstBest-All, resolve_iff}

module _ (rules : List Rule) (route : Text) (r q : Rule) (chosen : resolve rules route ≡ some r)
    (listed : Member q rules) (on : q.enabled ≡ true) where
  specificity-le : specificity q route ≤ specificity r route
  specificity-le =
      let (on_r, hit, f) = (resolve_iff rules route r).0 chosen in
      let top = All-lookup (λ x. rank route x ≤ rank route r) listed (IsFirstBest-All route f) in
      ground arith

  -- Where an enabled rule matches the route exactly, the rule returned matches it exactly.
  exact_wins : match_kind_for q route ≡ match_exact → match_kind_for r route ≡ match_exact
  exact_wins e = elim (match_kind-ne-exact r route) [
    | inl exact ↦ exact
    | inr n ↦ absurd (omega (arith, exact_outranks q r route e n, specificity-le))
  ]

  -- Where a prefix rule is returned, no enabled prefix rule for the route has a longer pattern.
  pub longest_prefix_wins :
      match_kind_for r route ≡ match_prefix
      → match_kind_for q route ≡ match_prefix
      → length q.route_pattern ≤ length r.route_pattern
  longest_prefix_wins e f = ground (arith, longer_prefix_outranks q r route f e, specificity-le)

kind_default :
    (d : Rule) (route : Text) → d.route_pattern ≡ star → match_kind_for d route ≡ match_default
unfolding match_kind_for matches text_eq
kind_default d route e = rw e refl

kind_short_prefix :
    (p : Rule) (c : ℕ) (rest : Text)
    → p.route_pattern ≡ c ∷ star
    → match_kind_for p (c ∷ rest) ≡ match_prefix
unfolding match_kind_for matches text_eq has_suffix has_prefix trim_suffix
kind_short_prefix p c rest f = rw f (ground arith)

score_default : (d : Rule) (route : Text) → d.route_pattern ≡ star → specificity d route ≡ 1
unfolding specificity
score_default d route e = rw (kind_default d route e, specificity)

score_short_prefix :
    (p : Rule) (c : ℕ) (rest : Text) → p.route_pattern ≡ c ∷ star → specificity p (c ∷ rest) ≡ 1
unfolding specificity trim_suffix has_suffix text_eq
score_short_prefix p c rest f = rw (kind_short_prefix p c rest f, specificity) (rw f refl)

-- A default rule that is listed before a prefix rule with a pattern of one byte and "*" wins over
-- it, though the prefix is the more specific: both have the score 1.
pub default_beats_short_prefix :
    (d p : Rule) (c : ℕ) (rest : Text)
    → d.enabled ≡ true
    → p.enabled ≡ true
    → d.route_pattern ≡ star
    → p.route_pattern ≡ c ∷ star
    → (match_kind_for p (c ∷ rest) ≡ match_prefix) × (resolve (d ∷ p ∷ []) (c ∷ rest) ≡ some d)
default_beats_short_prefix d p c rest on_d on_p e f =
    let kind = kind_short_prefix p c rest f in
    let one = score_default d (c ∷ rest) e in
    let also_one = score_short_prefix p c rest f in
    let low : rank (c ∷ rest) p ≤ rank (c ∷ rest) d = ground arith in
    let hit = (specificity-pos_iff d (c ∷ rest)).0 (omega arith) in
    (kind, (resolve_iff (d ∷ p ∷ []) (c ∷ rest) d).1 (on_d, hit, IsFirstBest.first (low, tt)))
