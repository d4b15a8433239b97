-- ===== src/Examples/Client.antt =====
-- examples/ratelimitclient/client.go. A request that could not be answered has no `Answer`; the body
-- of an answer is `none` where it cannot be read.
pub mod RoundTrip
pub mod Accepted
use go_rate_limiter.Prelude.{
  ℕ, Bool, true, false, ◌&&◌, not, String, Option, none, some, List, [], ◌∷◌, ◌++◌, reverse, take,
  if◌then◌else◌, ◌==◌,
}
use go_rate_limiter.Prelude.Int.{ℤ, pos, leb_ℤ, eqb_ℤ}
use go_rate_limiter.Prelude.Text.{Text, txt, text_eq}
use go_rate_limiter.Prelude.Decimal.{parse_int}
use go_rate_limiter.Errors.{Result, ok, err, other}
use go_rate_limiter.Http.{CheckResponse}

pub record Decision : Type 0 where
  pub allowed : Bool
  pub limit : ℤ
  pub remaining : ℤ
  pub reset_at : ℤ
  pub retry_after : ℤ
  pub algorithm : String

pub record Client : Type 0 where
  pub base_url : Text
  pub api_key : Text

abbrev pub drop_slashes : Text → Text
drop_slashes [] = []
drop_slashes (c ∷ s) = if c == b'/' then drop_slashes s else c ∷ s

-- `New`, with `strings.TrimRight(baseURL, "/")`.
unfoldable pub new_client : Text → Text → Client
new_client base_url api_key = record {
  base_url = reverse (drop_slashes (reverse base_url));
  api_key = api_key;
}

pub record CheckBody : Type 0 where
  pub route : Text
  pub cost : ℤ

-- A POST with a body of JSON.
pub record Call : Type 0 where
  pub url : Text
  pub api_key : Text
  pub body : Text

pub record Answer : Type 0 where
  pub status : ℕ
  pub header : String → Text
  pub body : Option Text

-- What the client uses of encoding/json and of net/http to make a request and to read an answer.
pub record Codec : Type 0 where
  pub marshal : CheckBody → Option Text
  pub is_valid_url : Text → Bool
  pub unmarshal : Text → Option CheckResponse

abbrev pub Transport : Type 0 → Type 0
Transport S = Call → S → Option Answer × S

abbrev pub answer_limit : ℕ
answer_limit = 1_048_576

abbrev pub or_zero : Option ℤ → ℤ
or_zero none = pos 0
or_zero (some n) = n

-- The header "Retry-After", where the object says nothing.
unfoldable pub header_retry_after : Answer → ℤ
header_retry_after answer =
    if text_eq (answer.header "Retry-After") []
    then pos 0
    else or_zero (parse_int (answer.header "Retry-After"))

unfoldable pub decision_of : Answer → CheckResponse → Decision
unfolding header_retry_after
decision_of answer parsed = record {
  allowed = parsed.allowed;
  limit = parsed.limit;
  remaining = parsed.remaining;
  reset_at = parsed.reset_at;
  retry_after =
      if eqb_ℤ (or_zero parsed.retry_after) (pos 0)
      then header_retry_after answer
      else or_zero parsed.retry_after;
  algorithm = parsed.algorithm;
}

module _ (codec : Codec) where
  -- The statuses that are refused come before the body is decoded.
  unfoldable pub read_answer : Answer → Result Decision
  unfolding decision_of
  read_answer answer = elim answer.body [
    | none ↦ err (other "read")
    | some body ↦
        if answer.status == 503
        then err (other "rate limiter unavailable")
        else if answer.status == 401
        then err (other "unauthorized")
        else if not (answer.status == 200) && not (answer.status == 429)
        then err (other "unexpected status %d: %s")
        else elim (codec.unmarshal (take answer_limit body)) [
          | none ↦ err (other "unmarshal")
          | some parsed ↦ ok (decision_of answer parsed)
        ]
  ]

  module _ {S : Type 0} where
    abbrev pub received : Option Answer × S → Result Decision × S
    received (none, s) = (err (other "do"), s)
    received (some answer, s) = (read_answer answer, s)

    unfoldable pub client_check : Transport S → Client → Text → ℤ → S → Result Decision × S
    unfolding read_answer
    client_check transport c route cost s =
        let charged = if leb_ℤ cost (pos 0) then pos 1 else cost in
        elim (codec.marshal (record { route = route; cost = charged })) [
          | none ↦ (err (other "marshal"), s)
          | some body ↦
              let url = c.base_url ++ txt "/v1/check" in
              if codec.is_valid_url url
              then received (transport (record { url = url; api_key = c.api_key; body = body }) s)
              else (err (other "new request"), s)
        ]
