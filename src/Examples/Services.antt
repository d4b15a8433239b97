-- ===== src/Examples/Services.antt =====
-- examples/order-service/main.go and examples/payment-service/main.go, as the handlers of their
-- routes, and the reading of the environment that the three programs share. `check` is the client.
pub mod Limited
use go_rate_limiter.Prelude.{
  Bool, true, false, not, String, Option, none, some, List, [], ◌∷◌, if◌then◌else◌,
}
use go_rate_limiter.Prelude.Int.{ℤ, pos, leb_ℤ}
use go_rate_limiter.Prelude.Text.{Text, text_eq, trim_space}
use go_rate_limiter.Prelude.Decimal.{parse_int}
use go_rate_limiter.Errors.{Result, ok, err}
use go_rate_limiter.Http.{
  Headers, Request, Response, Handler, number, set_header, write_json, write_error, limited_body,
  order_body, payment_body, service_body,
}
use go_rate_limiter.Examples.Client.{Decision}

-- `os.Getenv` gives the empty text for a variable that is not set.
module _ (getenv : String → Text) where
  unfoldable pub env : String → Text → Text
  unfolding text_eq
  env key fallback = let v = trim_space (getenv key) in if text_eq v [] then fallback else v

  unfoldable pub env_int : String → ℤ → ℤ
  unfolding env
  env_int key fallback =
      if text_eq (env key []) []
      then fallback
      else elim (parse_int (env key [])) [ none ↦ fallback | some n ↦ n ]

abbrev pub Checker : Type 0 → Type 0
Checker S = Text → ℤ → S → Result Decision × S

-- The header that a denial is given.
abbrev pub with_retry_after : Decision → Headers → Headers
with_retry_after dec hs =
    if leb_ℤ dec.retry_after (pos 0)
    then hs
    else set_header "Retry-After" (number dec.retry_after) hs

-- The answers of the services to a request that is allowed.
abbrev pub order_created : Decision → Headers → Response
order_created dec hs = write_json 201 (order_body "ord_demo" "created" dec.remaining) hs

abbrev pub payment_created : Request → Decision → Headers → Response
payment_created r dec hs =
    write_json 201 (payment_body (r.path_value "id") "created" dec.remaining) hs

module _ {S : Type 0} (check : Checker S) where
  -- What both services do with a decision.
  unfoldable pub limited : String → (Decision → Headers → Response) → Handler S
  limited message serve hs r s =
      let (answer, left) = check r.path (pos 1) s in
      elim answer [
        | err e ↦ (write_error 503 "rate_limiter_unavailable" hs, left)
        | ok dec ↦ (
          if not dec.allowed
              then write_json 429 (limited_body "rate_limit_exceeded" r.path message)
                  (with_retry_after dec hs)
              else serve dec hs,
          left,
        )
      ]

  -- "POST /api/orders"
  unfoldable pub create_order : Handler S
  unfolding limited
  create_order = limited "order rate limit exceeded — try again later" order_created

  -- "POST /api/payments/{id}"
  unfoldable pub create_payment : Handler S
  unfolding limited
  create_payment hs r =
      limited "payment rate limit exceeded — try again later" (payment_created r) hs r

-- "GET /health" of a service.
unfoldable pub health : {S : Type 0} → String → Handler S
health name hs r s = (write_json 200 (service_body "ok" name) hs, s)
