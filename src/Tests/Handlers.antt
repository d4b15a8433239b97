-- ===== src/Tests/Handlers.antt =====
-- The handlers of the configuration and of the console.
use go_rate_limiter.Prelude.{ℕ, ◌+◌, ◌≡◌, ◌⊎◌, refl, some, none, Option, [], ◌∷◌}
use go_rate_limiter.Prelude.Text.{Text}
use go_rate_limiter.Errors.{
  Error, Result, ok, err, wrap, sentinel, project_exists, tenant_not_found,
}
use go_rate_limiter.Entity.{Uuid, Tenant, role_admin}
use go_rate_limiter.Auth.{TenantContext, authenticate}
use go_rate_limiter.Auth.Soundness.{IsGenuine}
use go_rate_limiter.Http.{Request, write_json}
use go_rate_limiter.Http.ConfigHandler.{RuleReader, show_rules, list_tenant_rules}
use go_rate_limiter.Http.ConfigHandler.Scoping.{ShowsAll, list_tenant_rules-own}
use go_rate_limiter.Http.Middleware.{project_auth, bearer_token}
use go_rate_limiter.Http.ProjectHandler.{
  ProjectService, CreateProjectBody, AddKeyBody, console_revoke_key,
}
use go_rate_limiter.Http.ProjectHandler.Answers.{console_revoke-scoped}
use go_rate_limiter.Tests.Data.{plain, good_ports, good_tenant, slash_a, slash_b, bucket_rule}

-- Reads every text as the number 7.
abbrev seven : Text → Option Uuid
seven s = some 7

-- A state that counts the reads.
abbrev one_tenant : ℕ → Uuid → Result Tenant
one_tenant n id = ok good_tenant

abbrev one_rule : RuleReader ℕ
one_rule id n = (ok (bucket_rule slash_a ∷ []), n + 1)

abbrev get_rules : Request
get_rules = record {
  method = "GET";
  path = slash_a;
  header = λ name. slash_b;
  body = some [];
  remote_addr = [];
  path_value = λ name. slash_a;
  tenant = some 7;
}

shown_status : (list_tenant_rules seven one_tenant one_rule [] get_rules 0).0.status ≡ 200
unfolding list_tenant_rules show_rules write_json
shown_status = refl

list_tenant_rules-own_example :
    (t : Uuid) × (get_rules.tenant ≡ some t)
    × (seven (get_rules.path_value "id") ≡ some t)
    × ShowsAll seven one_tenant one_rule [] t 0
        (list_tenant_rules seven one_tenant one_rule [] get_rules 0)
list_tenant_rules-own_example =
    list_tenant_rules-own seven one_tenant one_rule [] get_rules 0 shown_status

-- A service that counts the keys which it revokes.
abbrev counting : ProjectService ℕ
counting = record {
  create_project = λ name hash prefix role rules n. (ok 7, n);
  list_projects = λ n. ok [];
  get_project = λ t n. err (sentinel tenant_not_found);
  add_api_key = λ t hash prefix role n. (ok tt, n);
  revoke_api_key = λ t k n. (ok tt, n + 1);
}

abbrev no_project : Text → Option CreateProjectBody
no_project s = none

abbrev no_key : Text → Option AddKeyBody
no_key s = none

console_revoke-scoped_example :
    let handler = console_revoke_key seven no_project no_key counting in
    let left = (project_auth (authenticate plain good_ports) handler [] get_rules 0).1 in
    (left ≡ 0)
    ⊎ ((raw : Text) × (tc : TenantContext) × (k : Uuid) × (bearer_token get_rules ≡ some raw)
        × IsGenuine plain good_ports raw tc
        × (tc.api_key.role ≡ role_admin)
        × (seven (get_rules.path_value "keyId") ≡ some k)
        × (left ≡ (counting.revoke_api_key tc.tenant.id k 0).1))
console_revoke-scoped_example =
    console_revoke-scoped seven no_project no_key counting plain good_ports [] get_rules 0

abbrev taken : Error
taken = wrap "%s: %w" (sentinel project_exists)
