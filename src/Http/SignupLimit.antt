-- ===== src/Http/SignupLimit.antt =====
-- internal/transport/http/middleware/signup_limit.go. Times are in nanoseconds. The map `seen` is the
-- list of its entries, each client once.
pub mod Tidiness
pub mod Windows
use go_rate_limiter.Prelude.{
  ℕ, suc, ◌+◌, ◌-◌, Bool, true, false, ◌&&◌, ◌||◌, not, Option, none, some, List, [], ◌∷◌, ◌++◌,
  if◌then◌else◌, ltb, leb, ◌==◌, length, take, drop, get_or, reverse,
}
use go_rate_limiter.Prelude.Int.{pos}
use go_rate_limiter.Prelude.Text.{Text, text_eq}
use go_rate_limiter.Http.{Request, Response, Handler, word, set_header, write_error}

abbrev pub Seen : Type 0
Seen = List (Text × List ℕ)

-- `seen[client]`, nil for a client that is not there.
abbrev pub times_of : Text → Seen → List ℕ
times_of client [] = []
times_of client ((k, v) ∷ seen) = if text_eq k client then v else times_of client seen

abbrev pub put_times : Text → List ℕ → Seen → Seen
put_times client ts [] = (client, ts) ∷ []
put_times client ts ((k, v) ∷ seen) =
    if text_eq k client then (k, ts) ∷ seen else (k, v) ∷ put_times client ts seen

abbrev pub last_or : ℕ → List ℕ → ℕ
last_or d [] = d
last_or d (t ∷ ts) = last_or t ts

module _ (window now : ℕ) where
  -- The times after `now - window`.
  abbrev pub recent : List ℕ → List ℕ
  recent [] = []
  recent (t ∷ ts) = if ltb now (t + window) then t ∷ recent ts else recent ts

  -- No time, or the last one before `now - window`.
  abbrev pub is_stale : List ℕ → Bool
  is_stale [] = true
  is_stale (t ∷ ts) = ltb (last_or t ts + window) now

  abbrev pub sweep : Seen → Seen
  sweep [] = []
  sweep ((k, v) ∷ seen) = if is_stale v then sweep seen else (k, v) ∷ sweep seen

  -- Whether the client may pass, and the map afterwards.
  unfoldable pub allow : ℕ → Text → Seen → Bool × Seen
  allow limit client seen =
      let kept = recent (times_of client seen) in
      let added = put_times client (kept ++ now ∷ []) seen in
      if leb limit (length kept)
      then (false, put_times client kept seen)
      else (true, if ltb 10_000 (length added) then sweep added else added)

-- The loop of `trimSpace` at the front.
abbrev pub trim_front : Text → Text
trim_front [] = []
trim_front (c ∷ s) = if c == b' ' || c == 9 then trim_front s else c ∷ s

abbrev pub trim_blanks : Text → Text
trim_blanks s = reverse (trim_front (reverse (trim_front s)))

abbrev pub cons_part : Text → List Text → List Text
cons_part [] parts = parts
cons_part (c ∷ s) parts = (c ∷ s) ∷ parts

-- `part` is what stands since the last comma, read backwards.
unfoldable pub split_from : Text → Text → List Text
split_from part [] = cons_part (trim_blanks (reverse part)) []
split_from part (c ∷ s) =
    if c == b','
    then cons_part (trim_blanks (reverse part)) (split_from [] s)
    else split_from (c ∷ part) s

unfoldable pub split_and_trim : Text → List Text
unfolding split_from
split_and_trim s = split_from [] s

abbrev pub last_part : List Text → Option Text
last_part [] = none
last_part (t ∷ []) = some t
last_part (t ∷ u ∷ ts) = last_part (u ∷ ts)

abbrev pub contains_byte : ℕ → Text → Bool
contains_byte b [] = false
contains_byte b (c ∷ s) = c == b || contains_byte b s

-- What stands before the first of a byte, `none` where there is none.
abbrev pub before_first : ℕ → Text → Option Text
before_first b [] = none
before_first b (c ∷ s) =
    if c == b then some [] else elim (before_first b s) [ none ↦ none | some t ↦ some (c ∷ t) ]

-- What stands before the last of a byte.
abbrev pub before_last : ℕ → Text → Option Text
before_last b s = elim (before_first b (reverse s)) [
  | none ↦ none
  | some t ↦ some (take (length s - suc (length t)) s)
]

-- The host in brackets of "[host]:port", given what stands before the last colon.
abbrev pub bracketed_host : Text → Text → Option Text
bracketed_host s head = elim (before_first b']' s) [
  | none ↦ none
  | some open_host ↦
      let host = drop 1 open_host in
      if not (suc (length open_host) == length head)
        || contains_byte b'[' (drop 1 s)
        || contains_byte b']' (drop (suc (length open_host)) s)
      then none
      else some host
]

-- The host that `net.SplitHostPort` gives, `none` for its error.
unfoldable pub split_host : Text → Option Text
split_host s = elim (before_last b':' s) [
  | none ↦ none
  | some head ↦
      if get_or s 0 0 == b'['
      then bracketed_host s head
      else if contains_byte b':' head || contains_byte b'[' s || contains_byte b']' s
      then none
      else some head
]

unfoldable pub remote_host : Request → Text
unfolding split_host
remote_host r = elim (split_host r.remote_addr) [ none ↦ r.remote_addr | some host ↦ host ]

unfoldable pub client_of : Bool → Request → Text
unfolding split_and_trim remote_host
client_of trust_forwarded r =
    if trust_forwarded
    then elim (last_part (split_and_trim (r.header "X-Forwarded-For"))) [
      | some part ↦ part
      | none ↦ remote_host r
    ]
    else remote_host r

unfoldable pub signup_limit : {S : Type 0} → ℕ → ℕ → Bool → ℕ → Handler S → Handler (Seen × S)
unfolding allow client_of
signup_limit limit window trust_forwarded now next hs r (seen, s) =
    let (passes, left) = allow window now limit (client_of trust_forwarded r) seen in
    if not passes
    then (
      write_error 429 "too_many_projects" (set_header "Retry-After" (word "3600") hs),
      (left, s),
    )
    else (let (response, after) = next hs r s in (response, (left, after)))
