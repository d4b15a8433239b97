-- ===== src/Http/ConfigHandler.antt =====
-- internal/transport/http/handlers/config.go. `parse_uuid` is `uuid.Parse`.
pub mod Scoping
use go_rate_limiter.Prelude.{
  ℕ, Bool, true, false, not, Option, none, some, List, [], ◌∷◌, map, if◌then◌else◌, ◌==◌,
}
use go_rate_limiter.Prelude.Text.{Text}
use go_rate_limiter.Errors.{Result, ok, err}
use go_rate_limiter.Entity.{Uuid, Rule, Tenant}
use go_rate_limiter.Http.{
  Response, Headers, Handler, tenants_body, rules_body, write_json, write_error, rule_view,
}

-- `RuleRepository.ListByTenant` on a state, which a cache changes.
abbrev pub RuleReader : Type 0 → Type 0
RuleReader W = Uuid → W → Result (List Rule) × W

module _ (parse_uuid : Text → Option Uuid) {W : Type 0} (get_by_id : W → Uuid → Result Tenant)
    (list_by_tenant : RuleReader W) where
  unfoldable pub list_tenants : Handler W
  list_tenants hs r w = elim r.tenant [
    | none ↦ (write_error 401 "unauthorized" hs, w)
    | some tenant_id ↦ elim (get_by_id w tenant_id) [
      | err e ↦ (write_error 503 "service_unavailable" hs, w)
      | ok tenant ↦ (write_json 200 (tenants_body (tenant ∷ [])) hs, w)
    ]
  ]

  -- The answer with the rules.
  abbrev pub shown : Headers → Result (List Rule) × W → Response × W
  shown hs (err e, w) = (write_error 503 "service_unavailable" hs, w)
  shown hs (ok rules, w) = (write_json 200 (rules_body (map rule_view rules)) hs, w)

  -- Once the tenant may see the rules.
  unfoldable pub show_rules : Headers → Uuid → W → Response × W
  show_rules hs tenant_id w = elim (get_by_id w tenant_id) [
    | err e ↦ (write_error 404 "tenant_not_found" hs, w)
    | ok tenant ↦ shown hs (list_by_tenant tenant_id w)
  ]

  unfoldable pub list_tenant_rules : Handler W
  unfolding show_rules
  list_tenant_rules hs r w = elim r.tenant [
    | none ↦ (write_error 401 "unauthorized" hs, w)
    | some auth_tenant_id ↦ elim (parse_uuid (r.path_value "id")) [
      | none ↦ (write_error 400 "invalid_request" hs, w)
      | some tenant_id ↦
          if not (tenant_id == auth_tenant_id)
          then (write_error 404 "tenant_not_found" hs, w)
          else show_rules hs tenant_id w
    ]
  ]
