-- ===== src/Tests/Clients.antt =====
-- The client of the examples, and the programs on top of it.
use go_rate_limiter.Prelude.{ℕ, ◌+◌, ◌≡◌, ◌≢◌, ◌↔◌, ◌⊎◌, refl, true, false, some, []}
use go_rate_limiter.Prelude.Int.{pos}
use go_rate_limiter.Prelude.Text.{Text, txt}
use go_rate_limiter.Errors.{Error, Result, ok, err}
use go_rate_limiter.Entity.{RateLimitDecision, token_bucket}
use go_rate_limiter.Http.{Handler, Body, get_header, write_error, write_json, service_body}
use go_rate_limiter.Http.CheckHandler.{respond, check_response}
use go_rate_limiter.Examples.Client.{
  Client, Codec, Transport, client_check, read_answer, new_client,
}
use go_rate_limiter.Examples.Client.RoundTrip.{sent, told, read_answer-respond}
use go_rate_limiter.Examples.Client.Accepted.{IsDecided, read_answer_iff}
use go_rate_limiter.Examples.Gateway.{gateway}
use go_rate_limiter.Examples.Gateway.Enforced.{wait_header, gateway-Enforces}
use go_rate_limiter.Examples.Services.{Checker, create_order, create_payment}
use go_rate_limiter.Examples.Services.Limited.{Reflects, services-Reflects}
use go_rate_limiter.Tests.Data.{slash_a}
use go_rate_limiter.Tests.Requests.{post}

-- "http://x//" and "http://x"
trimmed_url : (new_client (txt "http://x//") []).base_url ≡ txt "http://x"
unfolding new_client txt
trimmed_url = refl

abbrev turned_away : RateLimitDecision
turned_away = record {
  allowed = false;
  limit = pos 5;
  remaining = pos 0;
  reset_at = pos 20;
  retry_after = pos 3;
  algorithm = token_bucket;
}

-- An encoding that is right for one object.
abbrev encode_one : Body → Text
encode_one body = slash_a

abbrev codec : Codec
codec = record {
  marshal = λ body. some slash_a;
  is_valid_url = λ url. true;
  unmarshal = λ text. some (check_response turned_away);
}

read_answer-respond_example :
    read_answer codec (sent encode_one (respond [] (ok turned_away))) ≡ ok (told turned_away)
read_answer-respond_example = read_answer-respond codec encode_one [] turned_away refl refl

read_answer_iff_example :
    let answer = sent encode_one (respond [] (ok turned_away)) in
    (read_answer codec answer ≡ ok (told turned_away)) ↔ IsDecided codec answer (told turned_away)
read_answer_iff_example =
    read_answer_iff codec (sent encode_one (respond [] (ok turned_away))) (told turned_away)

-- A limiter that counts its calls and turns every request away.
abbrev limiter : Transport ℕ
limiter call n = (some (sent encode_one (respond [] (ok turned_away))), n + 1)

abbrev client : Client
client = record { base_url = []; api_key = slash_a }

abbrev upstream : Handler ℕ
upstream hs r n = (write_json 200 (service_body "ok" "upstream") hs, n + 10)

routed : post.path ≢ txt "/health"
unfolding txt
routed e = cc

gateway-Enforces_example :
    let decision : Result RateLimitDecision = ok turned_away in
    let answer = gateway (client_check codec limiter client) upstream [] post 0 in
    ((d : RateLimitDecision) × (decision ≡ ok d)
      × (d.allowed ≡ true)
      × (answer ≡ upstream [] post 1))
    ⊎ ((d : RateLimitDecision) × (decision ≡ ok d)
        × (d.allowed ≡ false)
        × (answer.0.status ≡ 429)
        × (answer.1 ≡ 1)
        × (get_header "Retry-After" answer.0.headers ≡ wait_header d.retry_after))
    ⊎ ((e : Error) × (decision ≡ err e)
        × (answer ≡ (write_error 503 "rate_limiter_unavailable" [], 1)))
gateway-Enforces_example =
    gateway-Enforces codec encode_one limiter client upstream [] [] post 0 1 routed slash_a
      (ok turned_away) refl refl refl refl refl (λ d e. cc)

abbrev one_left : Checker ℕ
one_left path cost n = (
  ok (record {
    allowed = true;
    limit = pos 5;
    remaining = pos 1;
    reset_at = pos 20;
    retry_after = pos 0;
    algorithm = token_bucket;
  }),
  n + 1,
)

services-Reflects_example :
    let asked = (one_left post.path (pos 1) 0).0 in
    Reflects asked (create_order one_left [] post 0).0.status
    × Reflects asked (create_payment one_left [] post 0).0.status
services-Reflects_example = services-Reflects one_left [] post 0
