-- ===== src/Redis/Store.antt =====
-- The part of a Redis server that the scripts use: string and hash values with an expiry time. A
-- script is atomic and sees one time of the server's clock, in milliseconds.
use go_rate_limiter.Prelude.{ℕ, ◌+◌, ◌*◌, Option, none, some, if◌then◌else◌, leb}
use go_rate_limiter.Prelude.Text.{Text, text_eq}

-- A number written by SET, or the hash of a token bucket: its tokens and `last_refill_ms`.
pub data Value : Type 0 where
  counter : ℕ → Value
  bucket : ℕ → ℕ → Value

pub record Entry : Type 0 where
  pub value : Value
  pub expires : Option ℕ

abbrev pub Store : Type 0
Store = Text → Option Entry

abbrev pub put : Store → Text → Option Entry → Store
put store key e k = if text_eq k key then e else store k

-- A key is gone once the clock has passed its expiry time.
abbrev pub live : ℕ → Option Entry → Option Entry
live clock none = none
live clock (some e) = elim e.expires [
  | none ↦ some e
  | some t ↦ if leb clock t then some e else none
]

abbrev pub value_of : Option Entry → Option Value
value_of none = none
value_of (some e) = some e.value

-- GET and HMGET
abbrev pub get : Store → ℕ → Text → Option Value
get store clock key = value_of (live clock (store key))

-- SET drops the expiry time.
abbrev pub set : Store → Text → Value → Store
set store key v = put store key (some (record { value = v; expires = none }))

abbrev pub kept_expiry : Option Entry → Option ℕ
kept_expiry none = none
kept_expiry (some e) = e.expires

-- HSET of all fields keeps the expiry time of a key that is there.
abbrev pub hset : Store → ℕ → Text → Value → Store
hset store clock key v =
    put store key (some (record { value = v; expires = kept_expiry (live clock (store key)) }))

abbrev pub expiring : ℕ → Option Entry → Option Entry
expiring t none = none
expiring t (some e) = some (record e { expires = some t })

-- EXPIRE with a positive number of seconds; it does nothing for a key that is not there.
abbrev pub expire : Store → ℕ → Text → ℕ → Store
expire store clock key seconds =
    put store key (expiring (clock + seconds * 1000) (live clock (store key)))
