-- ===== src/Http/Logging.antt =====
-- internal/transport/http/middleware/logging.go, around a handler that answers once. The lines of the
-- log are its state; the durations are left out.
use go_rate_limiter.Prelude.{ℕ, Bool, ◌||◌, String, List, ◌∷◌, if◌then◌else◌}
use go_rate_limiter.Prelude.Text.{Text, txt, text_eq}
use go_rate_limiter.Http.{Handler}

pub record LogLine : Type 0 where
  pub method : String
  pub path : Text
  pub status : ℕ
  pub remote_addr : Text

-- The latest line is the first.
abbrev pub Log : Type 0
Log = List LogLine

unfoldable pub skip_request_log : Text → Bool
unfolding text_eq txt
skip_request_log path = text_eq path (txt "/health/live") || text_eq path (txt "/metrics")

unfoldable pub logging : {S : Type 0} → Handler S → Handler (Log × S)
unfolding skip_request_log
logging next hs r (log, s) =
    let (response, left) = next hs r s in
    if skip_request_log r.path then (response, (log, left)) else (
      response,
      (
        record {
          method = r.method;
          path = r.path;
          status = response.status;
          remote_addr = r.remote_addr;
        }
            ∷ log,
        left,
      ),
    )
