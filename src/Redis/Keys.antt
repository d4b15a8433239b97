-- ===== src/Redis/Keys.antt =====
-- internal/infrastructure/redis/keys.go
pub mod Distinct
use go_rate_limiter.Prelude.{
  ℕ, Bool, List, [], ◌∷◌, ◌++◌, if◌then◌else◌, take, ◌/◌, ◌%◌, ◌+◌, ◌≡◌, ltb,
}
use go_rate_limiter.Prelude.Text.{Text, txt, text_eq, trim_space, to_lower}
use go_rate_limiter.Entity.{Uuid}

pub record TenantRouteKey : Type 0 where
  pub tenant_id : Uuid
  pub route : Text
  pub subject : Text

-- The results `curr`, `prev` and `idx` of `SlidingWindowKeys`.
pub record WindowKeys : Type 0 where
  pub curr : Text
  pub prev : Text
  pub idx : Text

abbrev pub colon : Text
colon = 58 ∷ []

-- What the code uses of `crypto/sha256`, of the UUID package and of the tables of `unicode`.
pub record Platform : Type 0 where
  pub sha256 : Text → Text
  pub uuid_string : Uuid → Text
  pub unicode_lower : Text → Text

-- `encoding/hex`
hex_digit : ℕ → ℕ
hex_digit n = if ltb n 10 then 48 + n else 87 + n

unfoldable pub hex_encode : Text → Text
unfolding hex_digit
hex_encode [] = []
hex_encode (b ∷ bs) = hex_digit (b / 16) ∷ hex_digit (b % 16) ∷ hex_encode bs

module _ (p : Platform) where
  unfoldable pub hash_segment : Text → Text
  unfolding hex_encode
  hash_segment s = hex_encode (take 8 (p.sha256 s))

  unfoldable pub route_hash : Text → Text
  route_hash route = hash_segment (to_lower p.unicode_lower (trim_space route))

  unfoldable pub subject_hash : Text → Text
  subject_hash subject = hash_segment (trim_space subject)

  unfoldable pub subject_segment : Text → Text
  unfolding subject_hash
  subject_segment subject =
      if text_eq (trim_space subject) [] then [] else colon ++ subject_hash subject

  unfoldable pub token_bucket_key : TenantRouteKey → Text
  token_bucket_key key =
      txt "rl:tb:"
      ++ (p.uuid_string key.tenant_id
          ++ (colon ++ (route_hash key.route ++ subject_segment key.subject)))

  unfoldable pub sliding_window_base : TenantRouteKey → Text
  sliding_window_base key =
      txt "rl:sw:"
      ++ (p.uuid_string key.tenant_id
          ++ (colon ++ (route_hash key.route ++ subject_segment key.subject)))

  unfoldable pub sliding_window_keys : TenantRouteKey → WindowKeys
  sliding_window_keys key =
      let base = sliding_window_base key in
      record { curr = base ++ txt ":curr"; prev = base ++ txt ":prev"; idx = base ++ txt ":idx" }
