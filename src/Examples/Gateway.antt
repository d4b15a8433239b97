-- ===== src/Examples/Gateway.antt =====
-- The handler of examples/gateway-middleware/main.go. `check` is the client, `proxy` the reverse proxy
-- of net/http/httputil.
pub mod Enforced
use go_rate_limiter.Prelude.{Bool, true, false, not, if◌then◌else◌}
use go_rate_limiter.Prelude.Int.{pos}
use go_rate_limiter.Prelude.Text.{txt, text_eq}
use go_rate_limiter.Errors.{ok, err}
use go_rate_limiter.Http.{Handler, write_json, write_error, service_body, enforced_body}
use go_rate_limiter.Examples.Services.{Checker, with_retry_after}

unfoldable pub gateway : {S : Type 0} → Checker S → Handler S → Handler S
gateway check proxy hs r s =
    if text_eq r.path (txt "/health")
    then (write_json 200 (service_body "ok" "gateway-middleware") hs, s)
    else (let (answer, left) = check r.path (pos 1) s in
        elim answer [
          | err e ↦ (write_error 503 "rate_limiter_unavailable" hs, left)
          | ok dec ↦
              if not dec.allowed
              then (
                write_json 429 (enforced_body "rate_limit_exceeded" "gateway-middleware")
                    (with_retry_after dec hs),
                left,
              )
              else proxy hs r left
        ])
