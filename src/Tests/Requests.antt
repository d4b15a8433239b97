-- ===== src/Tests/Requests.antt =====
-- Requests over HTTP, the sign-up limit and the rule cache.
use go_rate_limiter.Prelude.{
  none, ℕ, ◌+◌, ◌≤◌, ◌<◌, ◌≡◌, ◌↔◌, ◌⊎◌, refl, true, false, ◌||◌, some, Option, List, [], ◌∷◌,
  arith, length, Member,
}
use go_rate_limiter.Prelude.Int.{pos}
use go_rate_limiter.Prelude.Text.{Text, txt, text_eq, has_prefix}
use go_rate_limiter.Errors.{Result, ok}
use go_rate_limiter.Entity.{Uuid, Rule, RateLimitDecision, token_bucket}
use go_rate_limiter.Observability.{Metrics}
use go_rate_limiter.Http.{Request, Handler, write_error}
use go_rate_limiter.Http.CheckHandler.{CheckRequest, RateLimitChecker}
use go_rate_limiter.Http.CheckHandler.Answers.{Handled, check_handler-cases}
use go_rate_limiter.Http.Middleware.{public_paths, is_admin_path, is_project_path}
use go_rate_limiter.Http.SignupLimit.{split_host, split_and_trim, split_from, Seen, allow, recent}
use go_rate_limiter.Http.SignupLimit.Windows.{History, Reached, signups, logged, allow_iff}
use go_rate_limiter.Cache.{Items, no_items, get_cached, list_cached}
use go_rate_limiter.Cache.Staleness
use go_rate_limiter.Cache.Staleness.{Load, noted, list_cached-fresh}
use go_rate_limiter.Tests.Data.{slash_a, slash_b, bucket_rule}

abbrev denied : RateLimitDecision
denied = record {
  allowed = false;
  limit = pos 5;
  remaining = pos 0;
  reset_at = pos 20;
  retry_after = pos 3;
  algorithm = token_bucket;
}

-- A checker that counts its calls and denies.
abbrev deny : RateLimitChecker ℕ
deny tenant_id route subject cost n = (ok denied, n + 1)

abbrev pub ask_a : Text → Option CheckRequest
ask_a body = some (record { route = slash_a; subject = []; cost = pos 1 })

abbrev pub post : Request
post = record {
  method = "POST";
  path = slash_a;
  header = λ name. slash_b;
  body = some slash_b;
  remote_addr = [];
  path_value = λ name. slash_a;
  tenant = some 7;
}

abbrev outcome : Result RateLimitDecision
outcome = ok denied

abbrev pub no_metrics : Metrics
no_metrics = record { requests = []; checks = [] }

check_handler-cases_example : Handled ask_a deny [] post no_metrics 0
check_handler-cases_example = check_handler-cases ask_a deny [] post no_metrics 0

abbrev next_handler : Handler ℕ
next_handler hs r n = (write_error 404 "not_found" hs, n + 1)

closed : (public_paths post.path || is_admin_path post.path || is_project_path post.path) ≡ false
unfolding public_paths is_admin_path is_project_path text_eq has_prefix txt
closed = refl

-- An answer with the headers that are set so far.
abbrev plain_handler : Handler ℕ
plain_handler hs r n = (write_error 404 "not_found" hs, n)

-- One visit, with a limit of one in a hundred nanoseconds.
abbrev first_history : History
first_history = logged (allow 100 1000 1 slash_a []).0 slash_a 1000 []

abbrev first_seen : Seen
first_seen = (allow 100 1000 1 slash_a []).1

first_visit : Reached 1 100 1000 first_history first_seen
first_visit = Reached.visit slash_a 1000 (omega arith) Reached.start

allow_iff_example :
    ((allow 100 1050 1 slash_a first_seen).0 ≡ true)
    ↔ (length (recent 100 1050 (signups slash_a first_history)) < 1)
allow_iff_example =
    allow_iff 1 100 1000 first_history first_seen slash_a 1050 first_visit (omega arith)

abbrev one_rule : Uuid → Result (List Rule)
one_rule tenant_id = ok (bucket_rule slash_a ∷ [])

-- The cache after one miss.
abbrev first_loads : List Load
first_loads = noted 30 7 1001 (get_cached no_items 7 1000) (one_rule 7) []

abbrev first_items : Items
first_items = (list_cached one_rule 30 no_items 7 1000 1001).1

abbrev no_rules : Uuid → Result (List Rule)
no_rules tenant_id = ok []

list_cached-fresh_example :
    let answer = (list_cached no_rules 30 first_items 7 1020 1021).0 in
    (answer ≡ no_rules 7)
    ⊎ ((l : Load) × Member l first_loads
        × (l.tenant_id ≡ 7)
        × (answer ≡ ok l.rules)
        × (1020 ≤ l.kept_at + 30))
list_cached-fresh_example =
    list_cached-fresh 30 first_loads first_items no_rules 7 1020 1021
      (Staleness.Reached.call one_rule 7 1000 1001 Staleness.Reached.start)

-- "1.2:3", "[::1]:3" and "::1"
split_hosts :
    (split_host (txt "1.2:3") ≡ some (txt "1.2"))
    × (split_host (txt "[::1]:3") ≡ some (txt "::1"))
    × (split_host (txt "::1") ≡ none)
unfolding split_host txt
split_hosts = (refl, refl, refl)

forwarded : split_and_trim (txt "1.1, , 2.2 ,") ≡ txt "1.1" ∷ txt "2.2" ∷ []
unfolding split_and_trim split_from txt
forwarded = refl
