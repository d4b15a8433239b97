-- ===== src/Examples/Client/RoundTrip.antt =====
-- What the client of examples/ratelimitclient reads of the answers of handlers/check.go.
use text.Mathlib.Text.{◌==◌ as str_eq}
use go_rate_limiter.Prelude.{
  ◌≡◌, refl, ◌∙◌, ap, ◌⊎◌, inl, inr, true, false, ◌&&◌, ◌||◌, Option, none, some, [], take,
  if◌then◌else◌, arith, Bool-cases,
}
use go_rate_limiter.Prelude.Int.{ℤ, pos, leb_ℤ, eqb_ℤ}
use go_rate_limiter.Prelude.Text.{Text, txt, text_eq}
use go_rate_limiter.Prelude.Decimal.{format_int}
use go_rate_limiter.Errors.{ok}
use go_rate_limiter.Entity.{RateLimitDecision}
use go_rate_limiter.Http.{
  Headers, HeaderValue, word, bytes, number, Body, check_body, CheckResponse, Response, get_header,
  write_json, apply_rate_limit_headers, rate_limit_headers, format_retry_after,
}
use go_rate_limiter.Http.HeaderLaws.{get_header-set_other}
use go_rate_limiter.Http.CheckHandler.{check_response, respond}
use go_rate_limiter.Http.CheckHandler.Answers.{limits-other}
use go_rate_limiter.Http.CheckHandler.Statuses.{decided}
use go_rate_limiter.Examples.Client.{
  Decision, Answer, Codec, answer_limit, header_retry_after, decision_of, read_answer,
}

-- The text of a header.
abbrev pub header_text : HeaderValue → Text
header_text (word w) = txt w
header_text (bytes t) = t
header_text (number n) = format_int n

abbrev pub header_or_empty : Option HeaderValue → Text
header_or_empty none = []
header_or_empty (some v) = header_text v

-- An answer as it comes to the client. `encode` is `json.Encoder`.
abbrev pub sent : (Body → Text) → Response → Answer
sent encode response = record {
  status = response.status;
  header = λ name. header_or_empty (get_header name response.headers);
  body = some (encode response.body);
}

-- The decision as the client has it: with seconds to wait only where it is denied.
abbrev pub told : RateLimitDecision → Decision
told d = record {
  allowed = d.allowed;
  limit = d.limit;
  remaining = d.remaining;
  reset_at = d.reset_at;
  retry_after = if d.allowed || leb_ℤ d.retry_after (pos 0) then pos 0 else d.retry_after;
  algorithm = d.algorithm;
}

no_wait-header :
    (hs : Headers) (d : RateLimitDecision)
    → (d.allowed || leb_ℤ d.retry_after (pos 0)) ≡ true
    → get_header "Retry-After" hs ≡ none
    → get_header "Retry-After" (respond hs (ok d)).headers ≡ none
unfolding respond write_json apply_rate_limit_headers
no_wait-header hs d quiet n =
    let typed = λ (inner : Headers).
      get_header-set_other "Retry-After" "Content-Type" (word "application/json") inner (λ e. cc) in
    let plain = limits-other "Retry-After" d hs (λ e. cc) (λ e. cc) (λ e. cc) ∙ n in
    elim (Bool-cases (leb_ℤ d.limit (pos 0) && str_eq d.algorithm "")) [
      | inl e ↦ rw (e, respond) (typed hs ∙ n)
      | inr e ↦ elim (Bool-cases d.allowed) [
        | inl f ↦ rw (e, f, respond) (typed (rate_limit_headers d hs) ∙ plain)
        | inr f ↦
            let g : leb_ℤ d.retry_after (pos 0) ≡ true = rw f at quiet in
            rw (e, f, g, respond) (typed (rate_limit_headers d hs) ∙ plain)
      ]
    ]

positive-nonzero : (n : ℤ) → leb_ℤ n (pos 0) ≡ false → eqb_ℤ n (pos 0) ≡ false
positive-nonzero n h = ground arith

-- The field is there: it is read.
retry_after-field :
    (answer : Answer) (d : RateLimitDecision)
    → (d.allowed || leb_ℤ d.retry_after (pos 0)) ≡ false
    → decision_of answer (check_response d) ≡ told d
unfolding decision_of format_retry_after
retry_after-field answer d loud =
    let g : leb_ℤ d.retry_after (pos 0) ≡ false = ground arith in
    rw (loud, positive-nonzero d.retry_after g, decision_of) refl

-- The field is left out, and so is the header.
retry_after-absent :
    (answer : Answer) (d : RateLimitDecision)
    → (d.allowed || leb_ℤ d.retry_after (pos 0)) ≡ true
    → answer.header "Retry-After" ≡ []
    → decision_of answer (check_response d) ≡ told d
unfolding decision_of format_retry_after header_retry_after text_eq
retry_after-absent answer d quiet n = rw (quiet, n, decision_of) refl

respond-body :
    (hs : Headers) (d : RateLimitDecision)
    → (respond hs (ok d)).body ≡ check_body (check_response d)
unfolding respond write_json
respond-body hs d = refl

-- The object of a decision is decoded from its own encoding.
abbrev pub Decodes : Codec → (Body → Text) → RateLimitDecision → Type 0
Decodes codec encode d =
    codec.unmarshal (take answer_limit (encode (check_body (check_response d))))
    ≡ some (check_response d)

module _ (codec : Codec) (encode : Body → Text) where
  -- A status of a decision, and a body that is decoded.
  read_answer-decided :
      (answer : Answer) (body : Text) (parsed : CheckResponse)
      → answer.body ≡ some body
      → (answer.status ≡ 200) ⊎ (answer.status ≡ 429)
      → codec.unmarshal (take answer_limit body) ≡ some parsed
      → read_answer codec answer ≡ ok (decision_of answer parsed)
  unfolding read_answer
  read_answer-decided answer body parsed b (inl st) u = rw (b, st, u, read_answer) refl
  read_answer-decided answer body parsed b (inr st) u = rw (b, st, u, read_answer) refl

  -- The client reads back of an answer the decision that the handler has put into it, allowed or
  -- denied, with the seconds to wait of a denial, and 0 where the request was allowed or the seconds are
  -- not positive. The response object has to be decoded from its own encoding, and no header
  -- "Retry-After" was set before.
  pub read_answer-respond :
      (hs : Headers) (d : RateLimitDecision)
      → get_header "Retry-After" hs ≡ none
      → Decodes codec encode d
      → read_answer codec (sent encode (respond hs (ok d))) ≡ ok (told d)
  read_answer-respond hs d n u =
      let answer = sent encode (respond hs (ok d)) in
      read_answer-decided answer (encode (check_body (check_response d))) (check_response d)
        (ap (λ (b : Body). some (encode b)) (respond-body hs d)) (decided hs d) u
      ∙ ap ok (elim (Bool-cases (d.allowed || leb_ℤ d.retry_after (pos 0))) [
        | inr loud ↦ retry_after-field answer d loud
        | inl quiet ↦
            retry_after-absent answer d quiet (ap header_or_empty (no_wait-header hs d quiet n))
      ])
