-- ===== src/Http/HeaderLaws.antt =====
-- Setting and reading the headers of net/http.
use text.Mathlib.Text.{◌==◌ as str_eq}
use text.Mathlib.TextEquality.{eq_iff}
use go_rate_limiter.Prelude.{◌≡◌, ◌≢◌, refl, sym, ◌∙◌, inl, inr, String, some, [], ◌∷◌, Bool-cases}
use go_rate_limiter.Http.{Headers, HeaderValue, without, set_header, add_header, get_header}

get_header-without :
    (a b : String) (hs : Headers) → a ≢ b → get_header a (without b hs) ≡ get_header a hs
get_header-without a b [] n = refl
get_header-without a b ((c, v) ∷ hs) n = elim (Bool-cases (str_eq c b)) [
  | inl e ↦ elim (Bool-cases (str_eq c a)) [
    | inl f ↦ absurd (n (sym ((eq_iff c a).0 f) ∙ (eq_iff c b).0 e))
    | inr f ↦ rw (e, f) (get_header-without a b hs n)
  ]
  | inr e ↦ elim (Bool-cases (str_eq c a)) [
    | inl f ↦ rw (e, f) refl
    | inr f ↦ rw (e, f) (get_header-without a b hs n)
  ]
]

pub get_header-set_other :
    (a b : String) (v : HeaderValue) (hs : Headers)
    → a ≢ b
    → get_header a (set_header b v hs) ≡ get_header a hs
get_header-set_other a b v hs n = elim (Bool-cases (str_eq b a)) [
  | inl e ↦ absurd (n (sym ((eq_iff b a).0 e)))
  | inr e ↦ rw e (get_header-without a b hs n)
]

pub get_header-set_header :
    (a : String) (v : HeaderValue) (hs : Headers) → get_header a (set_header a v hs) ≡ some v
get_header-set_header a v hs = rw ((eq_iff a a).1 refl) refl

pub get_header-add_header :
    (a b : String) (v : HeaderValue) (hs : Headers)
    → a ≢ b
    → get_header a (add_header b v hs) ≡ get_header a hs
get_header-add_header a b v [] n = elim (Bool-cases (str_eq b a)) [
  | inl e ↦ absurd (n (sym ((eq_iff b a).0 e)))
  | inr e ↦ rw e refl
]
get_header-add_header a b v ((c, w) ∷ hs) n = elim (Bool-cases (str_eq c a)) [
  | inl e ↦ rw e refl
  | inr e ↦ rw e (get_header-add_header a b v hs n)
]
