-- ===== src/Examples/Gateway/Enforced.antt =====
-- Which requests examples/gateway-middleware lets through to its upstream.
use go_rate_limiter.Prelude.{
  ℕ, ◌≡◌, ◌≢◌, refl, ◌⊎◌, inl, inr, true, false, Option, none, some, ◌++◌, ◌∙◌, ap, arith,
  if◌then◌else◌, Bool-cases,
}
use go_rate_limiter.Prelude.Int.{ℤ, pos, leb_ℤ}
use go_rate_limiter.Prelude.Text.{Text, txt, text_eq, text_eq_iff}
use go_rate_limiter.Errors.{Error, Result, ok, err, other}
use go_rate_limiter.Entity.{RateLimitDecision}
use go_rate_limiter.Http.{
  Request, Response, Headers, Handler, HeaderValue, Body, word, number, get_header, write_json,
  write_error, enforced_body,
}
use go_rate_limiter.Http.HeaderLaws.{get_header-set_other, get_header-set_header}
use go_rate_limiter.Http.CheckHandler.{respond}
use go_rate_limiter.Examples.Client.{
  Decision, Answer, Call, Codec, Client, Transport, read_answer, client_check,
}
use go_rate_limiter.Examples.Client.RoundTrip.{sent, told, Decodes, read_answer-respond}
use go_rate_limiter.Examples.Services.{Checker, with_retry_after}
use go_rate_limiter.Examples.Gateway.{gateway}

-- The header of a denial.
abbrev pub wait_header : ℤ → Option HeaderValue
wait_header n = if leb_ℤ n (pos 0) then none else some (number n)

pub with_retry_after-header :
    (dec : Decision) (hs : Headers)
    → get_header "Retry-After" hs ≡ none
    → get_header "Retry-After" (with_retry_after dec hs) ≡ wait_header dec.retry_after
with_retry_after-header dec hs n = elim (Bool-cases (leb_ℤ dec.retry_after (pos 0))) [
  | inl e ↦ rw e n
  | inr e ↦ rw e (get_header-set_header "Retry-After" (number dec.retry_after) hs)
]

pub write_json-wait :
    (status : ℕ) (body : Body) (hs : Headers)
    → get_header "Retry-After" (write_json status body hs).headers ≡ get_header "Retry-After" hs
unfolding write_json
write_json-wait status body hs =
    get_header-set_other "Retry-After" "Content-Type" (word "application/json") hs (λ e. cc)

not_health : (path : Text) → path ≢ txt "/health" → text_eq path (txt "/health") ≡ false
not_health path n = elim (Bool-cases (text_eq path (txt "/health"))) [
  | inl e ↦ absurd (n ((text_eq_iff path (txt "/health")).0 e))
  | inr e ↦ e
]

module _ {S : Type 0} (check : Checker S) (proxy : Handler S) (hs : Headers) (r : Request) (s : S)
    (routed : r.path ≢ txt "/health") where
  abbrev asked : Result Decision × S
  asked = check r.path (pos 1) s

  abbrev result : Response × S
  result = gateway check proxy hs r s

  gateway_failed :
      (e : Error)
      → asked.0 ≡ err e
      → result ≡ (write_error 503 "rate_limiter_unavailable" hs, asked.1)
  unfolding gateway
  gateway_failed e h = rw (not_health r.path routed, h, gateway) refl

  gateway_allowed :
      (dec : Decision) → asked.0 ≡ ok dec → dec.allowed ≡ true → result ≡ proxy hs r asked.1
  unfolding gateway
  gateway_allowed dec h a = rw (not_health r.path routed, h, a, gateway) refl

  -- A denial: the upstream is not called.
  gateway_denied :
      (dec : Decision)
      → asked.0 ≡ ok dec
      → dec.allowed ≡ false
      → get_header "Retry-After" hs ≡ none
      → (result.0.status ≡ 429)
        × (result.1 ≡ asked.1)
        × (get_header "Retry-After" result.0.headers ≡ wait_header dec.retry_after)
  unfolding gateway write_json
  gateway_denied dec h a n =
      let body = enforced_body "rate_limit_exceeded" "gateway-middleware" in
      rw (not_health r.path routed, h, a, gateway)
        (
          refl,
          refl,
          write_json-wait 429 body (with_retry_after dec hs) ∙ with_retry_after-header dec hs n,
        )

-- A denial is told with its seconds to wait.
wait_header-told :
    (d : RateLimitDecision)
    → d.allowed ≡ false
    → wait_header (told d).retry_after ≡ wait_header d.retry_after
wait_header-told d a = elim (Bool-cases (leb_ℤ d.retry_after (pos 0))) [
  | inl e ↦ rw (a, e) refl
  | inr e ↦ ground (arith, a, e)
]

-- A check that failed is an error for the client.
read_answer-failed :
    (codec : Codec) (encode : Body → Text) (hs : Headers) (e : Error)
    → read_answer codec (sent encode (respond hs (err e))) ≡ err (other "rate limiter unavailable")
unfolding read_answer respond write_error write_json
read_answer-failed codec encode hs e = refl

module _ (codec : Codec) (encode : Body → Text) {S : Type 0} (transport : Transport S) (c : Client)
    (proxy : Handler S) (hs limiter_hs : Headers) (r : Request) (s left : S)
    (routed : r.path ≢ txt "/health") (body : Text) where
  abbrev checker : Checker S
  checker = client_check codec transport c

  abbrev call : Call
  call = record { url = c.base_url ++ txt "/v1/check"; api_key = c.api_key; body = body }

  -- The client is answered, and has the answer decoded.
  client_answered :
      (answer : Answer)
      → codec.marshal (record { route = r.path; cost = pos 1 }) ≡ some body
      → codec.is_valid_url (c.base_url ++ txt "/v1/check") ≡ true
      → transport call s ≡ (some answer, left)
      → checker r.path (pos 1) s ≡ (read_answer codec answer, left)
  unfolding client_check
  client_answered answer m u t = rw (m, u, t, client_check) refl

  -- The limiter's decision is enforced: behind a client that can make its request and that decodes
  -- what the limiter encodes, a request goes on to the upstream if the limiter has allowed it, it is
  -- answered with 429 and the limiter's seconds to wait if the limiter has denied it, and with 503 if the check has
  -- failed; in the last two cases the upstream is not called.
  pub gateway-Enforces :
      (decision : Result RateLimitDecision)
      → get_header "Retry-After" hs ≡ none
      → get_header "Retry-After" limiter_hs ≡ none
      → codec.marshal (record { route = r.path; cost = pos 1 }) ≡ some body
      → codec.is_valid_url (c.base_url ++ txt "/v1/check") ≡ true
      → transport call s ≡ (some (sent encode (respond limiter_hs decision)), left)
      → ((d : RateLimitDecision) → decision ≡ ok d → Decodes codec encode d)
      → let answer = gateway checker proxy hs r s in
        ((d : RateLimitDecision) × (decision ≡ ok d)
          × (d.allowed ≡ true)
          × (answer ≡ proxy hs r left))
        ⊎ ((d : RateLimitDecision) × (decision ≡ ok d)
            × (d.allowed ≡ false)
            × (answer.0.status ≡ 429)
            × (answer.1 ≡ left)
            × (get_header "Retry-After" answer.0.headers ≡ wait_header d.retry_after))
        ⊎ ((e : Error) × (decision ≡ err e)
            × (answer ≡ (write_error 503 "rate_limiter_unavailable" hs, left)))
  gateway-Enforces (err e) n ln m u t decodes =
      let got = client_answered (sent encode (respond limiter_hs (err e))) m u t in
      let failed =
        ap (λ (x : Result Decision × S). x.0) got ∙ read_answer-failed codec encode limiter_hs e in
      let kept : (checker r.path (pos 1) s).1 ≡ left = ap (λ (x : Result Decision × S). x.1) got in
      inr (
        inr (
          e,
          refl,
          rw kept at (
              gateway_failed checker proxy hs r s routed (other "rate limiter unavailable") failed),
        ))
  gateway-Enforces (ok d) n ln m u t decodes =
      let got = client_answered (sent encode (respond limiter_hs (ok d))) m u t in
      let read =
        ap (λ (x : Result Decision × S). x.0) got
        ∙ read_answer-respond codec encode limiter_hs d ln (decodes d refl) in
      let kept : (checker r.path (pos 1) s).1 ≡ left = ap (λ (x : Result Decision × S). x.1) got in
      elim (Bool-cases d.allowed) [
        | inl a ↦
            inl
              (d, refl, a, rw kept at (gateway_allowed checker proxy hs r s routed (told d) read a))
        | inr a ↦
            let (status, upstream, wait) =
              gateway_denied checker proxy hs r s routed (told d) read a n in
            inr (inl (d, refl, a, status, upstream ∙ kept, wait ∙ wait_header-told d a))
      ]
