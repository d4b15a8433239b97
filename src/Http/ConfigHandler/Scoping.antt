-- ===== src/Http/ConfigHandler/Scoping.antt =====
-- Whose rules internal/transport/http/handlers/config.go shows.
use go_rate_limiter.Prelude.{
  ◌≡◌, refl, none, ◌∙◌, ap, sym, inl, inr, Option, some, List, map, ◌==◌, ==_iff, arith, Bool-cases,
  Option-cases,
}
use go_rate_limiter.Prelude.Text.{Text}
use go_rate_limiter.Errors.{Result, ok, err, Result-cases}
use go_rate_limiter.Entity.{Uuid, Rule, Tenant}
use go_rate_limiter.Http.{
  Request, Response, Headers, write_json, write_error, rules_body, rule_view,
}
use go_rate_limiter.Http.ConfigHandler.{
  RuleReader, shown, show_rules, list_tenants, list_tenant_rules,
}

module _ (parse_uuid : Text → Option Uuid) {W : Type 0} (get_by_id : W → Uuid → Result Tenant)
    (list_by_tenant : RuleReader W) where
  -- An answer with the rules of the tenant `t`, all of them, and what their reading leaves.
  pub record ShowsAll (hs : Headers) (t : Uuid) (w : W) (result : Response × W) : Type 0 where
    pub tenant : Tenant
    pub rules : List Rule
    pub found : get_by_id w t ≡ ok tenant
    pub listed : (list_by_tenant t w).0 ≡ ok rules
    pub all :
        result ≡ (write_json 200 (rules_body (map rule_view rules)) hs, (list_by_tenant t w).1)

  shown-ok :
      (hs : Headers) (listed : Result (List Rule) × W)
      → (shown parse_uuid get_by_id list_by_tenant hs listed).0.status ≡ 200
      → (rules : List Rule) × (listed.0 ≡ ok rules)
        × (shown parse_uuid get_by_id list_by_tenant hs listed
            ≡ (write_json 200 (rules_body (map rule_view rules)) hs, listed.1))
  unfolding write_error write_json
  shown-ok hs (err e, w) h = absurd (ground arith)
  shown-ok hs (ok rules, w) h = (rules, refl, refl)

  show_rules-ShowsAll :
      (hs : Headers) (t : Uuid) (w : W)
      → (show_rules parse_uuid get_by_id list_by_tenant hs t w).0.status ≡ 200
      → ShowsAll hs t w (show_rules parse_uuid get_by_id list_by_tenant hs t w)
  unfolding show_rules write_error write_json
  show_rules-ShowsAll hs t w h = elim (Result-cases (get_by_id w t)) [
    | inr (e, f) ↦ absurd (ground (arith, f))
    | inl (tenant, f) ↦
        let (rules, g, same) = shown-ok hs (list_by_tenant t w) (rw (f, show_rules) at h) in
        record {
          tenant = tenant;
          rules = rules;
          found = f;
          listed = g;
          all = rw (f, show_rules) same;
        }
  ]

  -- Rules are shown only to their own tenant: an answer with status 200 goes to a request of the
  -- tenant that the path names, which exists, and carries all its rules and no others.
  pub list_tenant_rules-own :
      (hs : Headers) (r : Request) (w : W)
      → (list_tenant_rules parse_uuid get_by_id list_by_tenant hs r w).0.status ≡ 200
      → (t : Uuid) × (r.tenant ≡ some t)
        × (parse_uuid (r.path_value "id") ≡ some t)
        × ShowsAll hs t w (list_tenant_rules parse_uuid get_by_id list_by_tenant hs r w)
  unfolding list_tenant_rules write_error write_json
  list_tenant_rules-own hs r w h = elim (Option-cases r.tenant) [
    | inl e ↦ absurd (ground (arith, e))
    | inr (t, e) ↦ elim (Option-cases (parse_uuid (r.path_value "id"))) [
      | inl f ↦ absurd (ground (arith, e, f))
      | inr (u, f) ↦ elim (Bool-cases (u == t)) [
        | inr g ↦ absurd (ground (arith, e, f, g))
        | inl g ↦ (
          u,
          e ∙ ap some (sym ((==_iff u t).0 g)),
          f,
          rw (e, f, g, list_tenant_rules)
              (show_rules-ShowsAll hs u w (rw (e, f, g, list_tenant_rules) at h)),
        )
      ]
    ]
  ]

  -- Without a tenant nothing is read.
  pub list_tenant_rules_closed :
      (hs : Headers) (r : Request) (w : W)
      → r.tenant ≡ none
      → (list_tenant_rules parse_uuid get_by_id list_by_tenant hs r w).1 ≡ w
  unfolding list_tenant_rules
  list_tenant_rules_closed hs r w e = rw (e, list_tenant_rules) refl

  pub list_tenants_kept :
      (hs : Headers) (r : Request) (w : W)
      → (list_tenants parse_uuid get_by_id list_by_tenant hs r w).1 ≡ w
  unfolding list_tenants
  list_tenants_kept hs r w = elim (Option-cases r.tenant) [
    | inl e ↦ rw (e, list_tenants) refl
    | inr (t, e) ↦ elim (Result-cases (get_by_id w t)) [
      | inl (tenant, f) ↦ rw (e, f, list_tenants) refl
      | inr (_, f) ↦ rw (e, f, list_tenants) refl
    ]
  ]
