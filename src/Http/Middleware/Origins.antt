-- ===== src/Http/Middleware/Origins.antt =====
-- Which origins the middleware of cors.go answers.
use go_rate_limiter.Prelude.{
  ◌≡◌, ◌≢◌, refl, ◌↔◌, ◌⊎◌, inl, inr, String, true, false, none, some, List, [], Bool-cases, Member,
}
use go_rate_limiter.Prelude.Text.{Text, txt, trim_space, trim_suffix}
use go_rate_limiter.Http.{Request, Headers, Handler, HeaderValue, bytes, no_body, get_header}
use go_rate_limiter.Http.Middleware.{with_cors, is_preflight, cors}

abbrev allow_origin : String
allow_origin = "Access-Control-Allow-Origin"

-- A preflight request is answered with 204 and goes no further; every other request goes on.
pub cors-cases :
    {S : Type 0} (origins : List Text) (next : Handler S) (hs : Headers) (r : Request) (s : S)
    → let sent = with_cors origins (r.header "Origin") hs in
      ((is_preflight r ≡ true)
        × (cors origins next hs r s ≡ (record { status = 204; headers = sent; body = no_body }, s)))
      ⊎ ((is_preflight r ≡ false) × (cors origins next hs r s ≡ next sent r s))
unfolding cors
cors-cases origins next hs r s = elim (Bool-cases (is_preflight r)) [
  | inl e ↦ inl (e, rw (e, cors) refl)
  | inr e ↦ inr (e, rw (e, cors) refl)
]

-- An origin is on the list: an entry is the origin itself, but for a slash at its end and the spaces
-- around it.
abbrev pub OnList : Text → List Text → Type 0
OnList origin origins =
    (entry : Text) × Member entry origins × (trim_space (trim_suffix entry (txt "/")) ≡ origin)

module _ (origins : List Text) (hs : Headers) (r : Request)
    (unset : get_header "Access-Control-Allow-Origin" hs ≡ none) where
  abbrev origin : Text
  origin = r.header "Origin"

  -- What the headers after the middleware allow.
  abbrev Allows : Headers → Type 0
  Allows sent =
      (v : HeaderValue)
      → (get_header "Access-Control-Allow-Origin" sent ≡ some v)
        ↔ ((v ≡ bytes origin) × (origin ≢ []) × OnList origin origins)
