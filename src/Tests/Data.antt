-- ===== src/Tests/Data.antt =====
-- The rules, keys, tenants and circumstances that the tests share.
use go_rate_limiter.Prelude.{ℕ, true, none, List, [], ◌∷◌}
use go_rate_limiter.Prelude.Int.{ℤ, pos}
use go_rate_limiter.Prelude.Text.{Text}
use go_rate_limiter.Errors.{ok}
use go_rate_limiter.Entity.{
  Rule, ApiKey, Tenant, RateLimitKey, token_bucket, sliding_window, key_active, role_check,
  tenant_active,
}
use go_rate_limiter.Redis.Store.{Store}
use go_rate_limiter.Redis.Keys.{Platform, WindowKeys}
use go_rate_limiter.Redis.Limiter.{Call, up, unreachable}
use go_rate_limiter.Auth.{AuthPorts}

abbrev pub thirty_two : List ℕ → Text
thirty_two s =
    0 ∷ 1 ∷ 2 ∷ 3 ∷ 4 ∷ 5 ∷ 6 ∷ 7 ∷ 8 ∷ 9 ∷ 10 ∷ 11 ∷ 12 ∷ 13 ∷ 14 ∷ 15 ∷ 16 ∷ 17 ∷ 18 ∷ 19 ∷ 20
    ∷ 21 ∷ 22 ∷ 23 ∷ 24 ∷ 25 ∷ 26 ∷ 27 ∷ 28 ∷ 29 ∷ 30 ∷ 31 ∷ []

-- A stand-in: a UUID is printed as one symbol, and every text has the same hash.
abbrev pub plain : Platform
plain = record { sha256 = thirty_two; uuid_string = λ n. n ∷ []; unicode_lower = λ s. s }

abbrev pub no_reply : Rule → Store → List ℤ × Store
no_reply rule store = ([], store)

abbrev pub empty_store : Store
empty_store key = none

abbrev pub on_call : Call
on_call = record { now_ms = 10_000; clock = 10_000; link = up }

abbrev pub down_call : Call
down_call = record { now_ms = 10_000; clock = 10_000; link = unreachable }

-- Five tokens, one a second.
abbrev pub bucket_rule : Text → Rule
bucket_rule pattern = record {
  id = 1;
  tenant_id = 7;
  route_pattern = pattern;
  algorithm = token_bucket;
  enabled = true;
  limit_count = pos 0;
  window_seconds = pos 0;
  bucket_capacity = pos 5;
  refill_rate = pos 1_000_000;
}

-- Two in ten seconds.
abbrev pub window_rule : Text → Rule
window_rule pattern = record {
  id = 2;
  tenant_id = 7;
  route_pattern = pattern;
  algorithm = sliding_window;
  enabled = true;
  limit_count = pos 2;
  window_seconds = pos 10;
  bucket_capacity = pos 0;
  refill_rate = pos 0;
}

abbrev pub slash_a : Text
slash_a = 47 ∷ 97 ∷ []

abbrev pub slash_b : Text
slash_b = 47 ∷ 98 ∷ []

abbrev pub slash_star : Text
slash_star = 47 ∷ 42 ∷ []

abbrev pub slash_a_star : Text
slash_a_star = 47 ∷ 97 ∷ 42 ∷ []

abbrev pub key_of : ℕ → RateLimitKey
key_of tenant = record { tenant_id = tenant; route = slash_a; subject = [] }

abbrev pub good_key : ApiKey
good_key = record { id = 3; tenant_id = 7; key_prefix = []; status = key_active; role = role_check }

abbrev pub good_tenant : Tenant
good_tenant = record { id = 7; name = []; status = tenant_active }

abbrev pub good_ports : AuthPorts
good_ports = record { find_by_hash = λ h. ok good_key; get_by_id = λ t. ok good_tenant }

abbrev pub window_keys : WindowKeys
window_keys = record { curr = 1 ∷ []; prev = 2 ∷ []; idx = 3 ∷ [] }
