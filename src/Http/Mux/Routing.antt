-- ===== src/Http/Mux/Routing.antt =====
-- Which handler `http.ServeMux` calls.
use text.Mathlib.Text.{◌==◌ as str_eq}
use go_rate_limiter.Prelude.{
  ◌≡◌, refl, ap, subst, ◌⊎◌, inl, inr, true, ◌&&◌, not, String, Option, none, some, List, [], ◌∷◌,
  Member, here, there, Bool-cases, Option-cases,
}
use go_rate_limiter.Prelude.Text.{Text, text_eq}
use go_rate_limiter.Http.{Request, Headers, get_header}
use go_rate_limiter.Http.Mux.{
  Route, Values, takes_method, match_segments, segments, clean_path, find_route, allowed_methods,
  moved, unmatched, methods, with_values, serve_mux,
}

-- A request for a method and a path that a pattern takes.
pub record IsRouted (method : String) (pattern : Text) (r : Request) (vs : Values) : Type 0 where
  pub by_method : takes_method method r.method ≡ true
  pub by_path : match_segments (segments pattern) (segments r.path) ≡ some vs

moved_status : (path : Text) (r : Request) (hs : Headers) → (moved path r hs).status ≡ 301
moved_status path r hs = elim (Option-cases (get_header "Content-Type" hs)) [
  | inl e ↦ rw (e, moved) refl
  | inr (v, e) ↦ rw (e, moved) refl
]

unmatched_status :
    (ms : List String) (hs : Headers)
    → ((unmatched ms hs).status ≡ 404) ⊎ ((unmatched ms hs).status ≡ 405)
unmatched_status [] hs = inl refl
unmatched_status (m ∷ ms) hs = inr refl

abbrev or_else : {A : Type 0} → A → Option A → A
or_else d none = d
or_else d (some a) = a

module _ {S : Type 0} where
  find_route-some :
      (routes : List (Route S)) (method : String) (path : Text) (route : Route S) (vs : Values)
      → find_route routes method path ≡ some (route, vs)
      → Member route routes
        × (takes_method route.method method ≡ true)
        × (match_segments (segments route.pattern) (segments path) ≡ some vs)
  unfolding find_route
  find_route-some [] method path route vs h = cc
  find_route-some (x ∷ xs) method path route vs h =
      elim (Bool-cases (takes_method x.method method)) [
        | inr e ↦
            let (m, a, b) = find_route-some xs method path route vs (rw e at h) in (there m, a, b)
        | inl e ↦ elim (Option-cases (match_segments (segments x.pattern) (segments path))) [
          | inl f ↦
              let (m, a, b) =
                find_route-some xs method path route vs (rw (e, f, find_route) at h) in
              (there m, a, b)
          | inr (found, f) ↦
              let same : some (x, found) ≡ some (route, vs) = rw (e, f, find_route) at h in
              subst
                (λ (q : Route S × Values).
                  Member q.0 (x ∷ xs)
                  × (takes_method q.0.method method ≡ true)
                  × (match_segments (segments q.0.pattern) (segments path) ≡ some q.1))
                (ap (or_else (x, found)) same) (here, e, f)
        ]
      ]

  -- Either no handler is called, and the answer is 301, 404 or 405, or the request goes to a handler
  -- whose pattern takes its method and its path, with the values of the wildcards.
  pub serve_mux-cases :
      (routes : List (Route S)) (hs : Headers) (r : Request) (s : S)
      → let result = serve_mux routes hs r s in
        ((result.1 ≡ s)
          × ((result.0.status ≡ 301) ⊎ (result.0.status ≡ 404) ⊎ (result.0.status ≡ 405)))
        ⊎ ((route : Route S) × (vs : Values) × Member route routes
            × IsRouted route.method route.pattern r vs
            × (result ≡ route.handler hs (with_values vs r) s))
  unfolding serve_mux
  serve_mux-cases routes hs r s =
      elim (Bool-cases
        (not (str_eq r.method "CONNECT") && not (text_eq (clean_path r.path) r.path))) [
          | inl e ↦ rw (e, serve_mux) (inl (refl, inl (moved_status (clean_path r.path) r hs)))
          | inr e ↦ elim (Option-cases (find_route routes r.method r.path)) [
            | inl f ↦
                rw (e, f, serve_mux)
                  (inl (refl, inr (unmatched_status (allowed_methods routes r.path methods) hs)))
            | inr ((route, vs), f) ↦
                let (m, a, b) = find_route-some routes r.method r.path route vs f in
                inr (route, vs, m, record { by_method = a; by_path = b }, rw (e, f, serve_mux) refl)
          ]
        ]
