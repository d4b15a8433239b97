-- ===== src/Tests/Rules.antt =====
-- Rules, their matching and their resolution.
use go_rate_limiter.Prelude.{◌≡◌, ◌↔◌, refl, true, false, none, some, [], ◌∷◌, All, ◌&&◌}
use go_rate_limiter.Prelude.Text.{text_eq, has_prefix, has_suffix, trim_suffix}
use go_rate_limiter.Entity.{
  Rule, star, matches, match_kind_for, match_exact, match_prefix, specificity, validate,
}
use go_rate_limiter.Entity.Validation.{IsValid, validate_iff}
use go_rate_limiter.Resolver.{resolve}
use go_rate_limiter.Resolver.Best.{IsFirstBest, resolve_iff, resolve-none_iff}
use go_rate_limiter.Resolver.Ties.{default_beats_short_prefix}
use go_rate_limiter.Tests.Data.{
  bucket_rule, window_rule, slash_a, slash_b, slash_star, slash_a_star,
}

abbrev exact_rule : Rule
exact_rule = bucket_rule slash_a

abbrev prefix_rule : Rule
prefix_rule = window_rule slash_a_star

abbrev root_rule : Rule
root_rule = window_rule slash_star

abbrev default_rule : Rule
default_rule = bucket_rule star

exact_kind : match_kind_for exact_rule slash_a ≡ match_exact
unfolding match_kind_for matches text_eq has_suffix has_prefix trim_suffix
exact_kind = refl

prefix_kind : match_kind_for prefix_rule slash_a ≡ match_prefix
unfolding match_kind_for matches text_eq has_suffix has_prefix trim_suffix
prefix_kind = refl

default_score : specificity default_rule slash_a ≡ 1
unfolding specificity match_kind_for matches text_eq has_suffix has_prefix trim_suffix
default_score = refl

validate_iff_example : (validate exact_rule ≡ none) ↔ IsValid exact_rule
validate_iff_example = validate_iff exact_rule

resolve_iff_example : (resolve (default_rule ∷ exact_rule ∷ []) slash_a ≡ some exact_rule) ↔ (
    (exact_rule.enabled ≡ true)
    × (matches exact_rule slash_a ≡ true)
    × IsFirstBest slash_a exact_rule (default_rule ∷ exact_rule ∷ []))
resolve_iff_example = resolve_iff (default_rule ∷ exact_rule ∷ []) slash_a exact_rule

resolve-none_iff_example :
    (resolve (exact_rule ∷ []) slash_b ≡ none)
    ↔ All (λ (q : Rule). (q.enabled && matches q slash_b) ≡ false) (exact_rule ∷ [])
resolve-none_iff_example = resolve-none_iff (exact_rule ∷ []) slash_b

chosen_exact : resolve (prefix_rule ∷ exact_rule ∷ []) slash_a ≡ some exact_rule
unfolding resolve specificity match_kind_for matches text_eq has_suffix has_prefix trim_suffix
chosen_exact = refl

default_beats_short_prefix_example :
    (match_kind_for root_rule slash_a ≡ match_prefix)
    × (resolve (default_rule ∷ root_rule ∷ []) slash_a ≡ some default_rule)
default_beats_short_prefix_example =
    default_beats_short_prefix default_rule root_rule 47 (97 ∷ []) refl refl refl refl
