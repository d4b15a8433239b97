-- ===== src/Http/Mux.antt =====
-- What internal/transport/http/server.go uses of `http.ServeMux`: patterns of a method and a path
-- whose segments are literals or wildcards in braces. Paths have no percent escapes; a redirect keeps
-- no query. No two patterns of a table match the same request.
pub mod Routing
use text.Mathlib.Text.{◌==◌ as str_eq}
use go_rate_limiter.Prelude.{
  ℕ, zero, suc, ◌-◌, Bool, true, false, ◌&&◌, ◌||◌, not, String, Option, none, some, List, [], ◌∷◌,
  ◌++◌, reverse, if◌then◌else◌, ◌==◌, drop, take, length, get_or,
}
use go_rate_limiter.Prelude.Text.{Text, txt, text_eq, split, has_suffix}
use go_rate_limiter.Http.{
  Request, Response, Headers, Handler, word, bytes, Body, no_body, plain_text, moved_body,
  set_header, get_header,
}

pub record Route (S : Type 0) : Type 0 where
  pub method : String
  pub pattern : Text
  pub handler : Handler S

-- The names of the wildcards and the segments that they stand for.
abbrev pub Values : Type 0
Values = List (Text × Text)

abbrev pub value_of : Text → Values → Text
value_of name [] = []
value_of name ((n, v) ∷ vs) = if text_eq n name then v else value_of name vs

-- What stands behind the first slash, in segments.
unfoldable pub segments : Text → List Text
unfolding split
segments path = drop 1 (split b'/' path)

-- The name of a wildcard.
abbrev pub wildcard : Text → Option Text
wildcard [] = none
wildcard (c ∷ s) = if c == b'{' then some (take (length s - 1) s) else none

abbrev pub bind_value : Text → Text → Option Values → Option Values
bind_value name v none = none
bind_value name v (some vs) = some ((name, v) ∷ vs)

-- A wildcard stands for a segment that is not empty.
unfoldable pub match_segments : List Text → List Text → Option Values
unfolding text_eq
match_segments [] [] = some []
match_segments [] (s ∷ ss) = none
match_segments (p ∷ ps) [] = none
match_segments (p ∷ ps) (s ∷ ss) =
    let rest = match_segments ps ss in
    elim (wildcard p) [
      | some name ↦ if text_eq s [] then none else bind_value name s rest
      | none ↦ if text_eq p s then rest else none
    ]

-- A pattern for GET takes HEAD as well.
abbrev pub takes_method : String → String → Bool
takes_method registered method =
    str_eq registered method || (str_eq registered "GET" && str_eq method "HEAD")

-- One element of a path that is being cleaned, onto those before it, the last first.
abbrev pub clean_step : List Text → Text → List Text
clean_step out s =
    if text_eq s [] || text_eq s (txt ".")
    then out
    else if text_eq s (txt "..")
    then drop 1 out
    else s ∷ out

unfoldable pub clean_segments : List Text → List Text → List Text
unfolding text_eq txt
clean_segments out [] = reverse out
clean_segments out (s ∷ ss) = clean_segments (clean_step out s) ss

abbrev pub join_segments : List Text → Text
join_segments [] = []
join_segments (s ∷ ss) = b'/' ∷ (s ++ join_segments ss)

abbrev pub or_root : Text → Text
or_root [] = b'/' ∷ []
or_root (c ∷ s) = c ∷ s

-- `path.Clean` of a rooted path.
abbrev pub cleaned : Text → Text
cleaned path = or_root (join_segments (clean_segments [] (split b'/' path)))

-- `cleanPath`: the slash at the end is kept.
unfoldable pub clean_path : Text → Text
unfolding clean_segments split has_suffix
clean_path path =
    if has_suffix path (b'/' ∷ []) && not (text_eq (cleaned path) (b'/' ∷ []))
    then cleaned path ++ b'/' ∷ []
    else cleaned path

-- `http.Error`
abbrev pub http_error : ℕ → String → Headers → Response
http_error status message hs = record {
  status = status;
  headers =
      set_header "X-Content-Type-Options" (word "nosniff")
        (set_header "Content-Type" (word "text/plain; charset=utf-8") hs);
  body = plain_text message;
}

abbrev pub join_methods : List String → Text
join_methods [] = []
join_methods (m ∷ []) = txt m
join_methods (m ∷ n ∷ ms) = txt m ++ (txt ", " ++ join_methods (n ∷ ms))

-- `http.Redirect`, which writes a body for GET where no content type is set.
abbrev pub moved_headers : Request → Headers → Headers
moved_headers r hs =
    if str_eq r.method "GET" || str_eq r.method "HEAD"
    then set_header "Content-Type" (word "text/html; charset=utf-8") hs
    else hs

abbrev pub moved : Text → Request → Headers → Response
moved path r hs = elim (get_header "Content-Type" hs) [
  | some _ ↦ record {
    status = 301;
    headers = set_header "Location" (bytes path) hs;
    body = no_body;
  }
  | none ↦ record {
    status = 301;
    headers = moved_headers r (set_header "Location" (bytes path) hs);
    body = if str_eq r.method "GET" then moved_body path else no_body;
  }
]

abbrev pub with_values : Values → Request → Request
with_values vs r = record r { path_value = λ name. value_of (txt name) vs }

-- The methods of the patterns, and HEAD, in their order.
abbrev pub methods : List String
methods = "DELETE" ∷ "GET" ∷ "HEAD" ∷ "POST" ∷ []

abbrev pub unmatched : List String → Headers → Response
unmatched [] hs = http_error 404 "404 page not found" hs
unmatched (m ∷ ms) hs =
    http_error 405 "Method Not Allowed" (set_header "Allow" (bytes (join_methods (m ∷ ms))) hs)

module _ {S : Type 0} where
  unfoldable pub find_route : List (Route S) → String → Text → Option (Route S × Values)
  unfolding match_segments segments
  find_route [] method path = none
  find_route (route ∷ routes) method path =
      let rest = find_route routes method path in
      if takes_method route.method method
      then elim (match_segments (segments route.pattern) (segments path)) [
        | some vs ↦ some (route, vs)
        | none ↦ rest
      ]
      else rest

  abbrev pub is_found : Option (Route S × Values) → Bool
  is_found none = false
  is_found (some _) = true

  -- Those of the methods that a route takes on the path.
  unfoldable pub allowed_methods : List (Route S) → Text → List String → List String
  unfolding find_route
  allowed_methods routes path [] = []
  allowed_methods routes path (m ∷ ms) =
      let rest = allowed_methods routes path ms in
      if is_found (find_route routes m path) then m ∷ rest else rest

  unfoldable pub serve_mux : List (Route S) → Handler S
  unfolding find_route allowed_methods clean_path
  serve_mux routes hs r s =
      if not (str_eq r.method "CONNECT") && not (text_eq (clean_path r.path) r.path)
      then (moved (clean_path r.path) r hs, s)
      else elim (find_route routes r.method r.path) [
        | some (route, vs) ↦ route.handler hs (with_values vs r) s
        | none ↦ (unmatched (allowed_methods routes r.path methods) hs, s)
      ]
