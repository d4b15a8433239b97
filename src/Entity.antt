-- ===== src/Entity.antt =====
-- internal/domain/entity: tenants, keys, rules and decisions. A UUID is a number, 0 the nil one.
-- Labels (algorithms, statuses, roles) are only compared, so they are `String`s.
pub mod Validation
pub mod Matching
use text.Mathlib.Text.{◌==◌ as str_eq}
use go_rate_limiter.Prelude.{
  ℕ, ◌+◌, Bool, true, false, ◌||◌, not, String, Option, none, some, if◌then◌else◌, ◌==◌, length, [],
  ◌∷◌,
}
use go_rate_limiter.Prelude.Int.{ℤ, pos, leb_ℤ}
use go_rate_limiter.Prelude.Text.{
  Text, txt, text_eq, has_prefix, has_suffix, trim_suffix, trim_space,
}
use go_rate_limiter.Errors.{Error, other}

abbrev pub Uuid : Type 0
Uuid = ℕ

abbrev pub uuid_nil : Uuid
uuid_nil = 0

abbrev pub token_bucket : String
token_bucket = "token_bucket"

abbrev pub sliding_window : String
sliding_window = "sliding_window"

-- `none` is the error.
unfoldable pub parse_algorithm : String → Option String
parse_algorithm value =
    if str_eq value token_bucket || str_eq value sliding_window then some value else none

unfoldable pub is_valid_algorithm : String → Bool
is_valid_algorithm a = str_eq a token_bucket || str_eq a sliding_window

abbrev pub key_active : String
key_active = "active"

abbrev pub key_revoked : String
key_revoked = "revoked"

abbrev pub role_check : String
role_check = "check"

abbrev pub role_admin : String
role_admin = "admin"

pub record ApiKey : Type 0 where
  pub id : Uuid
  pub tenant_id : Uuid
  pub key_prefix : Text
  pub status : String
  pub role : String

unfoldable pub can_manage_project : ApiKey → Bool
can_manage_project k = str_eq k.role role_admin

unfoldable pub can_check : ApiKey → Bool
can_check k = str_eq k.role role_check

unfoldable pub is_key_active : ApiKey → Bool
is_key_active k = str_eq k.status key_active

abbrev pub tenant_active : String
tenant_active = "active"

abbrev pub tenant_is_suspended : String
tenant_is_suspended = "suspended"

pub record Tenant : Type 0 where
  pub id : Uuid
  pub name : Text
  pub status : String

unfoldable pub is_tenant_active : Tenant → Bool
is_tenant_active t = str_eq t.status tenant_active

pub record RateLimitDecision : Type 0 where
  pub allowed : Bool
  pub limit : ℤ
  pub remaining : ℤ
  pub reset_at : ℤ
  pub retry_after : ℤ
  pub algorithm : String

pub record RateLimitKey : Type 0 where
  pub tenant_id : Uuid
  pub route : Text
  pub subject : Text

-- `refill_rate` counts millionths of a token per second.
pub record Rule : Type 0 where
  pub id : Uuid
  pub tenant_id : Uuid
  pub route_pattern : Text
  pub algorithm : String
  pub enabled : Bool
  pub limit_count : ℤ
  pub window_seconds : ℤ
  pub bucket_capacity : ℤ
  pub refill_rate : ℤ

validate_parameters : Rule → Option Error
validate_parameters r =
    if str_eq r.algorithm sliding_window
    then (if leb_ℤ r.limit_count (pos 0)
        then some (other "limit count must be positive")
        else if leb_ℤ r.window_seconds (pos 0)
        then some (other "window seconds must be positive")
        else none)
    else if str_eq r.algorithm token_bucket
    then (if leb_ℤ r.bucket_capacity (pos 0)
        then some (other "bucket capacity must be positive")
        else if leb_ℤ r.refill_rate (pos 0)
        then some (other "refill rate must be positive")
        else none)
    else none

-- `none` is the nil error.
unfoldable pub validate : Rule → Option Error
unfolding validate_parameters
validate r =
    if r.tenant_id == uuid_nil
    then some (other "tenant id is required")
    else if text_eq (trim_space r.route_pattern) []
    then some (other "route pattern is required")
    else if not (is_valid_algorithm r.algorithm)
    then some (other "invalid algorithm %q")
    else validate_parameters r

abbrev pub star : Text
star = 42 ∷ []

unfoldable pub matches : Rule → Text → Bool
matches r route =
    if text_eq r.route_pattern star
    then true
    else if has_suffix r.route_pattern star
    then has_prefix route (trim_suffix r.route_pattern star)
    else text_eq route r.route_pattern

pub data MatchKind : Type 0 where
  match_none match_default match_prefix match_exact : MatchKind

unfoldable pub match_kind_for : Rule → Text → MatchKind
match_kind_for r route =
    if not (matches r route)
    then match_none
    else if text_eq r.route_pattern star
    then match_default
    else if has_suffix r.route_pattern star
    then match_prefix
    else match_exact

unfoldable pub specificity : Rule → Text → ℕ
specificity r route = elim (match_kind_for r route) [
  | match_exact ↦ 1000 + length r.route_pattern
  | match_prefix ↦ length (trim_suffix r.route_pattern star)
  | match_default ↦ 1
  | match_none ↦ 0
]

unfoldable pub rule_limit : Rule → ℤ
rule_limit r = if str_eq r.algorithm token_bucket then r.bucket_capacity else r.limit_count
