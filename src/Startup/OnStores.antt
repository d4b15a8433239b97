-- ===== src/Startup/OnStores.antt =====
-- The services of cmd/server/main.go on the tables of Postgres, the keys of Redis and the cache of the
-- rules: `NewAuthService`, `NewCheckService` and `NewProvisioningService` over their repositories. A
-- negative time to live of the cache is taken for 0.
use go_rate_limiter.Prelude.{ℕ, ◌≡◌, ◌≢◌, refl, ◌∙◌, ap, ◌⊎◌, Bool, Option, some, List, All}
use go_rate_limiter.Prelude.Int.{ℤ, pos_part}
use go_rate_limiter.Prelude.Text.{Text}
use go_rate_limiter.Errors.{Error, Result, ok}
use go_rate_limiter.Entity.{Uuid, Rule, RateLimitDecision, role_admin}
use go_rate_limiter.Entity.Validation.{IsValid}
use go_rate_limiter.Resolver.{resolve}
use go_rate_limiter.Redis.Store.{Store}
use go_rate_limiter.Redis.Keys.{Platform}
use go_rate_limiter.Redis.Limiter.{Call, up}
use go_rate_limiter.Auth.{AuthPorts, TenantContext}
use go_rate_limiter.Auth.Soundness.{IsGenuine}
use go_rate_limiter.Cache.{Items, list_cached}
use go_rate_limiter.Check.{ListByTenant}
use go_rate_limiter.Http.ConfigHandler.{RuleReader}
use go_rate_limiter.Check.Outcomes.{check_on_redis, check_on_redis-Decided, check_on_redis-closed}
use go_rate_limiter.Provisioning.{create_project, add_api_key}
use go_rate_limiter.Postgres.{Db, find_api_key, get_tenant, list_by_tenant}
use go_rate_limiter.Postgres.Projects.{Session, Fault, store_project}
use go_rate_limiter.Postgres.Keys.{store_key, revoke_key}
use go_rate_limiter.Postgres.Dashboard.{QueryFault, by_pattern, list_projects, get_project}
use go_rate_limiter.Config.{Config}
use go_rate_limiter.Http.{Request, Response, Headers, write_error, write_json}
use go_rate_limiter.Http.CheckHandler.{CheckRequest, read_request, respond}
use go_rate_limiter.Http.CheckHandler.Statuses.{decided}
use go_rate_limiter.Http.ProjectHandler.{ProjectService}
use go_rate_limiter.Http.Server.{Library, Dependencies, State, new_mux}
use go_rate_limiter.Startup.{Services, dependencies}
use go_rate_limiter.Startup.Checked.{to_check, new_mux-IsAnswered}
use go_rate_limiter.Prelude.Sorting.{sort}

pub record World : Type 0 where
  pub db : Db
  pub items : Items
  pub store : Store

-- The circumstances of one request: the faults, the clocks, the ids that are made for it, and the order
-- that the database gives to texts.
pub record Circumstances : Type 0 where
  pub reached : Bool
  pub session : Session
  pub key_fault : Fault
  pub tenants_fault : QueryFault
  pub keys_fault : QueryFault
  pub rules_fault : QueryFault
  pub fresh : Uuid
  pub call : Call
  pub get_at : ℕ
  pub set_at : ℕ
  pub le_text : Text → Text → Bool
  pub ping_postgres : Option Error
  pub ping_redis : Option Error

module _ (p : Platform) (odd : Rule → Store → List ℤ × Store) (cfg : Config)
    (c : Circumstances) where
  abbrev pub ports_of : World → AuthPorts
  ports_of w = record {
    find_by_hash = find_api_key c.reached w.db;
    get_by_id = get_tenant c.reached w.db;
  }

  -- `RuleCache.ListByTenant`
  abbrev pub cached_rules : Uuid → World → Result (List Rule) × Items
  cached_rules t w =
      list_cached (list_by_tenant (sort (by_pattern c.le_text)) c.reached w.db)
        (pos_part cfg.rule_cache_ttl) w.items t c.get_at c.set_at

  unfoldable pub rules_of : RuleReader World
  rules_of t w = let (answer, items) = cached_rules t w in (answer, record w { items = items })

  -- On the tables alone.
  abbrev pub on_db : {A : Type 0} → (Db → A × Db) → World → A × World
  on_db f w = let (a, db) = f w.db in (a, record w { db = db })

  -- `ProvisioningService` over `ProjectRepository`.
  unfoldable pub provisioning : ProjectService World
  provisioning = record {
    create_project = λ name hash prefix role rules. on_db (
        create_project p.unicode_lower (store_project c.session) c.fresh name hash prefix role
          rules);
    list_projects = λ w. list_projects c.le_text c.tenants_fault c.keys_fault c.rules_fault w.db;
    get_project = λ id w. get_project c.le_text c.tenants_fault c.keys_fault c.rules_fault w.db id;
    add_api_key = λ id hash prefix role. on_db (
        add_api_key p.unicode_lower (store_key c.key_fault c.session.key_id c.session.now) id hash
          prefix role);
    revoke_api_key = λ id key_id. on_db (revoke_key c.key_fault id key_id);
  }

  unfoldable pub checker : Uuid → Text → Text → ℤ → World → Result RateLimitDecision × World
  unfolding rules_of
  checker t route subject cost w =
      let (listed, read) = rules_of t w in
      let (result, store) =
        check_on_redis p odd (λ _. listed) c.call t route subject cost read.store in
      (result, record read { store = store })

  unfoldable pub services : Services World
  unfolding provisioning checker rules_of
  services = record {
    platform = p;
    auth_ports = ports_of;
    tenants = λ w. get_tenant c.reached w.db;
    rules = rules_of;
    check = checker;
    provisioning = provisioning;
    ping_postgres = λ w. c.ping_postgres;
    ping_redis = λ w. c.ping_redis;
  }

module _ (p : Platform) (odd : Rule → Store → List ℤ × Store) (cfg : Config) (c : Circumstances)
    (now : ℕ) (lib : Library) where
  abbrev pub served_by : Dependencies World
  served_by = dependencies cfg (services p odd cfg c)

  -- A POST to the route of the checks, with a genuine key that is not for administration and a body
  -- that is read, for a tenant whose rules, from the cache or from the table, are listed and valid.
  module _ (r : Request) (s : State lib served_by) (tc : TenantContext) (req : CheckRequest)
      (rules : List Rule)
      (genuine : IsGenuine p (ports_of p odd cfg c s.1.1.1) (r.header "X-API-Key") tc)
      (for_checks : tc.api_key.role ≢ role_admin)
      (asked : read_request lib.unmarshal_check r ≡ some req)
      (loaded : (rules_of p odd cfg c tc.tenant.id s.1.1.1).0 ≡ ok rules)
      (valid : All IsValid rules) (hs : Headers) where
    abbrev answer : Response
    answer = (new_mux lib served_by now hs (to_check r) s).0

    abbrev listed : ListByTenant
    listed _ = (rules_of p odd cfg c tc.tenant.id s.1.1.1).0

    abbrev outcome : Result RateLimitDecision
    outcome =
        (check_on_redis p odd listed c.call tc.tenant.id req.route req.subject req.cost
          s.1.1.1.store).0

    responded : (sent : Headers) × (answer ≡ respond sent outcome)
    unfolding services checker rules_of
    responded =
        (new_mux-IsAnswered cfg (services p odd cfg c) now lib r s tc req genuine for_checks asked
          hs).0

    -- With Redis in reach, the server answers with 200 or 429 a POST to /v1/check that has a genuine key which
    -- is not for administration, a body that is read, and a tenant whose rules are listed and valid.
    pub new_mux-decided : c.call.link ≡ up → (answer.status ≡ 200) ⊎ (answer.status ≡ 429)
    new_mux-decided on =
        let (sent, e) = responded in
        let (d, f, _) =
          check_on_redis-Decided p odd listed c.call tc.tenant.id req.route req.subject req.cost
            s.1.1.1.store rules loaded valid on in
        rw (e ∙ ap (respond sent) f) (decided sent d)

    -- Without a reply of Redis, the server answers a POST to /v1/check (a genuine key which is not for
    -- administration, a body that is read, a tenant whose rules are listed and valid) with 503 when a
    -- rule applies to it, so that the check is never let through.
    pub new_mux-closed :
        (rule : Rule) → resolve rules req.route ≡ some rule → c.call.link ≢ up → answer.status ≡ 503
    unfolding respond write_error write_json
    new_mux-closed rule best off =
        let (sent, e) = responded in
        let (_, f) =
          check_on_redis-closed p odd listed c.call tc.tenant.id req.route req.subject req.cost
            s.1.1.1.store rules rule loaded valid best off in
        rw (e ∙ ap (respond sent) f) refl
