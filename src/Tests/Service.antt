-- ===== src/Tests/Service.antt =====
-- A check that is read and resolved.
use go_rate_limiter.Prelude.{◌≡◌, ◌≢◌, refl, some, [], ◌∷◌}
use go_rate_limiter.Prelude.Int.{pos}
use go_rate_limiter.Prelude.Text.{text_eq, trim_space, has_suffix, has_prefix, trim_suffix}
use go_rate_limiter.Entity.{matches, match_kind_for, specificity}
use go_rate_limiter.Resolver.{resolve}
use go_rate_limiter.Redis.Limiter.{up}
use go_rate_limiter.Http.CheckHandler.{CheckRequest, read_request, bounded_request}
use go_rate_limiter.Tests.Data.{down_call, slash_a}
use go_rate_limiter.Tests.Checks.{rule_a}
use go_rate_limiter.Tests.Requests.{ask_a, post}

abbrev pub asked_a : CheckRequest
asked_a = record { route = slash_a; subject = []; cost = pos 1 }

asked : read_request ask_a post ≡ some asked_a
unfolding read_request bounded_request trim_space text_eq
asked = refl

pub best : resolve (rule_a ∷ []) slash_a ≡ some rule_a
unfolding resolve specificity match_kind_for matches text_eq has_suffix has_prefix trim_suffix
best = refl

pub down : down_call.link ≢ up
down e = cc
