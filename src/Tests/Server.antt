-- ===== src/Tests/Server.antt =====
-- Requests to the whole server.
use text.Mathlib.TextEquality.{eq_iff}
use go_rate_limiter.Redis.Keys.{hex_encode}
use go_rate_limiter.Prelude.{◌≡◌, ◌≢◌, ◌⊎◌, refl, true, false, none, some, [], ◌∷◌}
use go_rate_limiter.Prelude.Int.{pos}
use go_rate_limiter.Prelude.Text.{txt, text_eq, has_prefix, trim_space}
use go_rate_limiter.Errors.{ok}
use go_rate_limiter.Entity.{
  token_bucket, parse_algorithm, role_check, role_admin, key_active, tenant_active, is_key_active,
  is_tenant_active,
}
use go_rate_limiter.Auth.{TenantContext, hash_api_key, authenticate}
use go_rate_limiter.Auth.Soundness.{IsGenuine, authenticate_iff}
use go_rate_limiter.Postgres.{find_by_hash, get_by_id, list_by_tenant, scan_rule}
use go_rate_limiter.Prelude.Sorting.{sort, insert}
use go_rate_limiter.Tests.Checks.{rule_a, IsValid-a}
use go_rate_limiter.Tests.Service.{asked_a, best, down}
use go_rate_limiter.Http.CheckHandler.{read_request, bounded_request}
use go_rate_limiter.Postgres.Projects.{works}
use go_rate_limiter.Postgres.Dashboard.{answered}
use go_rate_limiter.Redis.Limiter.{Call}
use go_rate_limiter.Cache.{no_items, list_cached, get_cached}
use go_rate_limiter.Config.{Config}
use go_rate_limiter.Postgres.Keys.{auth_ports}
use go_rate_limiter.Postgres.Keys.Final.{revoked}
use go_rate_limiter.Postgres.History.{unchanged}
use go_rate_limiter.Startup.Revoked.{new_mux-Revoked}
use go_rate_limiter.Http.{Request, write_json, status_body}
use go_rate_limiter.Http.Middleware.{public_paths, is_admin_path, is_project_path}
use go_rate_limiter.Http.Server.{Library, State, new_mux}
use go_rate_limiter.Startup.Checked.{to_check}
use go_rate_limiter.Startup.Guarded.{Permitted}
use go_rate_limiter.Startup.Guarded.Front.{is_open, new_mux-Permitted, IsRefused, new_mux-IsRefused}
use go_rate_limiter.Startup.OnStores.{
  World, Circumstances, ports_of, rules_of, services, served_by, new_mux-decided, new_mux-closed,
}
use go_rate_limiter.Tests.Data.{plain, no_reply, empty_store, on_call, down_call, slash_a}
use go_rate_limiter.Tests.Projects.{all_works}
use go_rate_limiter.Tests.Requests.{post, ask_a, no_metrics}

-- The tables and keys with one tenant, one key for checks and one rule.
abbrev shop_world : World
shop_world = record {
  db = record {
    tenants = record { id = 7; name = slash_a; status = tenant_active; created_at = 10 } ∷ [];
    keys =
        record {
          id = 3;
          tenant_id = 7;
          key_hash = hash_api_key plain slash_a;
          key_prefix = slash_a;
          status = key_active;
          role = role_check;
          created_at = 10;
        }
        ∷ [];
    rules =
        record {
          id = 1;
          tenant_id = 7;
          route_pattern = slash_a;
          algorithm = token_bucket;
          limit_count = none;
          window_seconds = none;
          bucket_capacity = some (pos 5);
          refill_rate = some (pos 1_000_000);
          enabled = true;
        }
        ∷ [];
  };
  items = no_items;
  store = empty_store;
}

abbrev circumstances : Call → Circumstances
circumstances call = record {
  reached = true;
  session = all_works;
  key_fault = works;
  tenants_fault = answered;
  keys_fault = answered;
  rules_fault = answered;
  fresh = 9;
  call = call;
  get_at = 10;
  set_at = 11;
  le_text = λ s t. true;
  ping_postgres = none;
  ping_redis = none;
}

abbrev config : Config
config = record {
  http_port = pos 8080;
  database_url = [];
  redis_url = [];
  log_level = [];
  admin_token = slash_a;
  dashboard_origins = slash_a ∷ [];
  behind_proxy = true;
  rule_cache_ttl = pos 30;
  shutdown_timeout = pos 10;
}

abbrev library : Library
library = record {
  parse_uuid = λ s. some 7;
  unmarshal_check = ask_a;
  unmarshal_project = λ s. none;
  unmarshal_key = λ s. none;
  metrics_page = λ m hs r. write_json 200 (status_body "page") hs;
}

abbrev context : TenantContext
context = record {
  tenant = record { id = 7; name = slash_a; status = tenant_active };
  api_key = record {
    id = 3;
    tenant_id = 7;
    key_prefix = slash_a;
    status = key_active;
    role = role_check;
  };
}

-- With the key, and without one.
abbrev signed : Request
signed = record post { header = λ name. slash_a; tenant = none }

abbrev unsigned : Request
unsigned = record post { header = λ name. []; tenant = none }

abbrev state :
    (call : Call) → State library (served_by plain no_reply config (circumstances call) 0 library)
state call = ([], (no_metrics, ([], shop_world)))

genuine :
    (call : Call)
    → IsGenuine plain
        (ports_of plain no_reply config (circumstances call) shop_world)
        slash_a
        context
unfolding find_by_hash get_by_id text_eq is_key_active is_tenant_active hash_api_key hex_encode
genuine call = record {
  given = λ e. cc;
  stored = refl;
  key_on = refl;
  owner = refl;
  tenant_on = refl;
}

asked_signed : read_request ask_a signed ≡ some asked_a
unfolding read_request bounded_request trim_space text_eq
asked_signed = refl

known : authenticate plain (auth_ports shop_world.db) slash_a ≡ ok context
known = (authenticate_iff plain (auth_ports shop_world.db) slash_a context).1 (genuine on_call)

for_checks : role_check ≢ role_admin
for_checks e = let same = (eq_iff role_check role_admin).1 e in cc

loaded :
    (call : Call)
    → (rules_of plain no_reply config (circumstances call) 7 shop_world).0 ≡ ok (rule_a ∷ [])
unfolding rules_of list_cached get_cached list_by_tenant scan_rule sort insert parse_algorithm
loaded call = refl

new_mux-decided_example :
    let answer =
      (new_mux library
        (served_by plain no_reply config (circumstances on_call) 0 library)
        0
        []
        (to_check signed)
        (state on_call)).0 in
    (answer.status ≡ 200) ⊎ (answer.status ≡ 429)
new_mux-decided_example =
    new_mux-decided plain no_reply config (circumstances on_call) 0 library signed (state on_call)
      context asked_a (rule_a ∷ []) (genuine on_call) for_checks asked_signed (loaded on_call)
      (IsValid-a, tt) [] refl

new_mux-closed_example :
    let answer =
      (new_mux library
        (served_by plain no_reply config (circumstances down_call) 0 library)
        0
        []
        (to_check signed)
        (state down_call)).0 in
    answer.status ≡ 503
new_mux-closed_example =
    new_mux-closed plain no_reply config (circumstances down_call) 0 library signed
      (state down_call) context asked_a (rule_a ∷ []) (genuine down_call) for_checks asked_signed
      (loaded down_call) (IsValid-a, tt) [] rule_a best down

new_mux-Permitted_example :
    let circ = circumstances on_call in
    let served = served_by plain no_reply config circ 0 library in
    ((new_mux library served 0 [] signed (state on_call)).1.1.1.1 ≡ shop_world)
    ⊎ Permitted config (services plain no_reply config circ) 0 signed (state on_call).1
new_mux-Permitted_example =
    new_mux-Permitted config (services plain no_reply config (circumstances on_call)) 0 library []
      signed (state on_call) refl

closed :
    is_open config (services plain no_reply config (circumstances on_call)) 0 library unsigned
    ≡ false
unfolding public_paths is_admin_path is_project_path text_eq has_prefix txt
closed = refl

new_mux-IsRefused_example :
    let circ = circumstances on_call in
    let served = served_by plain no_reply config circ 0 library in
    IsRefused config
      (services plain no_reply config circ)
      0
      library
      unsigned
      (state on_call)
      (slash_a ∷ [])
      (new_mux library served 0 [] unsigned (state on_call))
new_mux-IsRefused_example =
    new_mux-IsRefused config (services plain no_reply config (circumstances on_call)) 0 library
      unsigned (state on_call) closed (λ tc g. g.given refl) []

-- The server after its one key has been revoked.
abbrev later_state :
    State library (served_by plain no_reply config (circumstances on_call) 0 library)
later_state = (
  [],
  (no_metrics, ([], record shop_world { db = revoked plain slash_a context shop_world.db known })),
)

signed_closed :
    is_open config (services plain no_reply config (circumstances on_call)) 0 library signed ≡ false
unfolding public_paths is_admin_path is_project_path text_eq has_prefix txt
signed_closed = refl

new_mux-Revoked_example :
    let circ = circumstances on_call in
    let served = served_by plain no_reply config circ 0 library in
    IsRefused config
      (services plain no_reply config circ)
      0
      library
      signed
      later_state
      (slash_a ∷ [])
      (new_mux library served 0 [] signed later_state)
new_mux-Revoked_example =
    new_mux-Revoked plain no_reply config (circumstances on_call) 0 library signed later_state
      context shop_world.db known unchanged signed_closed []
