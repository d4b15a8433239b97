-- ===== src/Startup.antt =====
-- cmd/server/main.go with what it starts: postgres/pool.go, redis/client.go and `NewRateLimiter` of
-- redis/rate_limiter.go, and the level of internal/observability/logging.go. What the drivers report is
-- a parameter.
pub mod Guarded
pub mod Exit
pub mod Checked
pub mod OnStores
pub mod Revoked
use go_rate_limiter.Prelude.{
  ℕ, Bool, true, false, ◌||◌, not, String, Option, none, some, List, [], ◌∷◌, if◌then◌else◌,
}
use go_rate_limiter.Prelude.Int.{ℤ}
use go_rate_limiter.Prelude.Text.{Text, txt, text_eq, trim_space, to_lower}
use go_rate_limiter.Errors.{Error, Result, ok, err, ◌>>=◌, wrap, other}
use go_rate_limiter.Entity.{Uuid, Rule, Tenant}
use go_rate_limiter.Redis.Keys.{Platform}
use go_rate_limiter.Auth.{AuthPorts, authenticate}
use go_rate_limiter.Config.{Config, load, addr}
use go_rate_limiter.Http.CheckHandler.{RateLimitChecker}
use go_rate_limiter.Http.ConfigHandler.{RuleReader}
use go_rate_limiter.Http.ProjectHandler.{ProjectService}
use go_rate_limiter.Http.Health.{HealthChecker}
use go_rate_limiter.Http.Server.{Dependencies}

pub data Level : Type 0 where
  level_debug level_info level_warn level_error : Level

unfoldable pub parse_level : (Text → Text) → Text → Level
unfolding to_lower trim_space text_eq txt
parse_level unicode_lower level =
    let name = to_lower unicode_lower (trim_space level) in
    if text_eq name (txt "debug")
    then level_debug
    else if text_eq name (txt "warn") || text_eq name (txt "warning")
    then level_warn
    else if text_eq name (txt "error")
    then level_error
    else level_info

-- What the drivers report of a URL, and the hash that the server gives for a script.
pub record Drivers : Type 0 where
  pub parse_database_url : Text → Option Error
  pub connect_database : Text → Option Error
  pub ping_database : Text → Option Error
  pub parse_redis_url : Text → Option Error
  pub ping_redis : Text → Option Error
  pub read_script : String → Result Text
  pub load_script : Text → Result Text

pub record ScriptHashes : Type 0 where
  pub token_bucket_sha : Text
  pub sliding_window_sha : Text

abbrev pub checked : String → Option Error → Result (Unit {0})
checked message none = ok tt
checked message (some e) = err (wrap message e)

abbrev pub marked : {A : Type 0} → String → Result A → Result A
marked message (ok a) = ok a
marked message (err e) = err (wrap message e)

module _ (drivers : Drivers) where
  unfoldable pub new_pool : Text → Result (Unit {0})
  new_pool url = do
    _ ← checked "parse database url: %w" (drivers.parse_database_url url)
    _ ← checked "connect database: %w" (drivers.connect_database url)
    checked "ping database: %w" (drivers.ping_database url)

  unfoldable pub new_client : Text → Result (Unit {0})
  new_client url = do
    _ ← checked "parse redis url: %w" (drivers.parse_redis_url url)
    checked "ping redis: %w" (drivers.ping_redis url)

  unfoldable pub new_rate_limiter : Result ScriptHashes
  new_rate_limiter = do
    bucket ← marked "read token bucket script: %w" (drivers.read_script "scripts/token_bucket.lua")
    window ←
        marked "read sliding window script: %w" (drivers.read_script "scripts/sliding_window.lua")
    bucket_sha ← marked "load token bucket script: %w" (drivers.load_script bucket)
    window_sha ← marked "load sliding window script: %w" (drivers.load_script window)
    ok (record { token_bucket_sha = bucket_sha; sliding_window_sha = window_sha })

-- The services over their repositories, as functions of the state `W` of what they keep.
pub record Services (W : Type 0) : Type 0 where
  pub platform : Platform
  pub auth_ports : W → AuthPorts
  pub tenants : W → Uuid → Result Tenant
  pub rules : RuleReader W
  pub check : RateLimitChecker W
  pub provisioning : ProjectService W
  pub ping_postgres : HealthChecker W
  pub ping_redis : HealthChecker W

-- `deps`: one authentication service for both, one provisioning service for both.
abbrev pub dependencies : {W : Type 0} → Config → Services W → Dependencies W
dependencies cfg services = record {
  health_checkers = services.ping_postgres ∷ services.ping_redis ∷ [];
  auth = some (λ w. authenticate services.platform (services.auth_ports w));
  tenants = services.tenants;
  rules = services.rules;
  check = some services.check;
  projects = some services.provisioning;
  admin_token = cfg.admin_token;
  dashboard_origins = cfg.dashboard_origins;
  console = some services.provisioning;
  auth_service = some (λ w. authenticate services.platform (services.auth_ports w));
  behind_proxy = cfg.behind_proxy;
}

pub record Started (W : Type 0) : Type 0 where
  pub address : Text
  pub level : Level
  pub dependencies : Dependencies W

-- Up to the listener. `services` are those on the scripts that were loaded.
unfoldable pub start :
    {W : Type 0}
    → (String → Text)
    → (Text → Option ℤ)
    → Drivers
    → (Text → Text)
    → (Config → ScriptHashes → Services W)
    → Result (Started W)
unfolding new_pool new_client new_rate_limiter parse_level
start getenv parse_duration drivers unicode_lower services = do
  cfg ← load getenv parse_duration
  _ ← new_pool drivers cfg.database_url
  _ ← new_client drivers cfg.redis_url
  hashes ← new_rate_limiter drivers
  ok (record {
    address = addr cfg;
    level = parse_level unicode_lower cfg.log_level;
    dependencies = dependencies cfg (services cfg hashes);
  })

-- How the listener ends: by an error, or by a signal and a shutdown with its error.
pub data Ending : Type 0 where
  listen_failed : Error → Ending
  stop_signal : Option Error → Ending

-- The status of the process.
unfoldable pub exit_status : {W : Type 0} → Result (Started W) → Ending → ℕ
exit_status (err e) ending = 1
exit_status (ok started) (listen_failed e) = 1
exit_status (ok started) (stop_signal (some e)) = 1
exit_status (ok started) (stop_signal none) = 0
