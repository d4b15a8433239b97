-- ===== src/Http/ProjectHandler.antt =====
-- internal/transport/http/handlers/project.go and admin.go, over the provisioning service with its
-- state `S`. `unmarshal` is `json.Unmarshal`, `parse_uuid` is `uuid.Parse`.
pub mod Answers
use text.Mathlib.Text.{◌==◌ as str_eq}
use go_rate_limiter.Prelude.{
  ℕ, Bool, true, false, String, Option, none, some, List, [], ◌∷◌, map, if◌then◌else◌, length,
}
use go_rate_limiter.Prelude.Int.{ℤ}
use go_rate_limiter.Prelude.Text.{Text}
use go_rate_limiter.Errors.{
  Error, Result, ok, err, is, tenant_not_found, api_key_not_found, project_exists, invalid_input,
}
use go_rate_limiter.Entity.{Uuid, Rule, uuid_nil, role_admin, role_check}
use go_rate_limiter.Provisioning.{KeySummary, ProjectSummary}
use go_rate_limiter.Http.{
  Request, Response, Headers, Handler, KeyView, ProjectView, error_text, created_body, project_body,
  projects_body, write_json, write_error, write_header, rule_view, decode_body,
}

pub record ProjectService (S : Type 0) : Type 0 where
  pub create_project : Text → Text → Text → String → List Rule → S → Result Uuid × S
  pub list_projects : S → Result (List ProjectSummary)
  pub get_project : Uuid → S → Result ProjectSummary
  pub add_api_key : Uuid → Text → Text → String → S → Result (Unit {0}) × S
  pub revoke_api_key : Uuid → Uuid → S → Result (Unit {0}) × S

-- `enabled` is `none` where the field is missing.
pub record RuleBody : Type 0 where
  pub route_pattern : Text
  pub algorithm : String
  pub limit_count : ℤ
  pub window_seconds : ℤ
  pub bucket_capacity : ℤ
  pub refill_rate : ℤ
  pub enabled : Option Bool

pub record CreateProjectBody : Type 0 where
  pub name : Text
  pub key_hash : Text
  pub key_prefix : Text
  pub rules : List RuleBody

pub record AddKeyBody : Type 0 where
  pub key_hash : Text
  pub key_prefix : Text
  pub role : String

abbrev pub enabled_or_true : Option Bool → Bool
enabled_or_true none = true
enabled_or_true (some b) = b

unfoldable pub to_entity : RuleBody → Rule
to_entity b = record {
  id = uuid_nil;
  tenant_id = uuid_nil;
  route_pattern = b.route_pattern;
  algorithm = b.algorithm;
  enabled = enabled_or_true b.enabled;
  limit_count = b.limit_count;
  window_seconds = b.window_seconds;
  bucket_capacity = b.bucket_capacity;
  refill_rate = b.refill_rate;
}

abbrev pub key_view : KeySummary → KeyView
key_view k = record {
  id = k.id;
  prefix = k.prefix;
  status = k.status;
  role = k.role;
  created_at = k.created_at;
}

unfoldable pub project_payload : ProjectSummary → ProjectView
project_payload p = record {
  id = p.id;
  name = p.name;
  status = p.status;
  created_at = p.created_at;
  rule_count = p.rule_count;
  rules = map rule_view p.rules;
  keys = map key_view p.keys;
}

unfoldable pub write_project_error : Error → Headers → Response
write_project_error e hs =
    if is e project_exists
    then write_error 409 "project_exists" hs
    else if is e tenant_not_found
    then write_error 404 "project_not_found" hs
    else if is e invalid_input
    then write_json 400 (error_text e) hs
    else write_error 503 "service_unavailable" hs

-- The answer of the admin routes where a project is created.
unfoldable pub admin_create_error : Error → Headers → Response
admin_create_error e hs =
    if is e project_exists
    then write_error 409 "project_exists" hs
    else if is e invalid_input
    then write_json 400 (error_text e) hs
    else write_error 503 "service_unavailable" hs

-- The answer of the admin routes where a key is added.
unfoldable pub admin_key_error : Error → Headers → Response
admin_key_error e hs =
    if is e tenant_not_found
    then write_error 404 "project_not_found" hs
    else if is e project_exists
    then write_error 409 "key_exists" hs
    else if is e invalid_input
    then write_json 400 (error_text e) hs
    else write_error 503 "service_unavailable" hs

unfoldable pub revoke_error : Error → Headers → Response
revoke_error e hs =
    if is e api_key_not_found
    then write_error 404 "key_not_found" hs
    else write_error 503 "service_unavailable" hs

-- The answer to a call that returns only an error.
abbrev pub answered :
    {S : Type 0} → ℕ → (Error → Headers → Response) → Headers → Result (Unit {0}) × S → Response × S
answered status refused hs (ok _, s) = (write_header status hs, s)
answered status refused hs (err e, s) = (refused e hs, s)

abbrev pub created :
    {S : Type 0}
    → CreateProjectBody
    → (Error → Headers → Response)
    → Headers
    → Result Uuid × S
    → Response × S
created body refused hs (ok id, s) =
    (write_json 201 (created_body id body.name (length body.rules)) hs, s)
created body refused hs (err e, s) = (refused e hs, s)

abbrev pub body_limit : ℕ
body_limit = 1_048_576

abbrev pub admin_key_limit : ℕ
admin_key_limit = 65_536

module _ (parse_uuid : Text → Option Uuid) (unmarshal_project : Text → Option CreateProjectBody)
    (unmarshal_key : Text → Option AddKeyBody) {S : Type 0} (projects : ProjectService S) where
  -- What `Create` of both handlers does; they differ in the answers to errors.
  unfoldable pub create_with : (Error → Headers → Response) → Handler S
  create_with refused hs r s = elim (decode_body unmarshal_project body_limit r) [
    | none ↦ (write_error 400 "invalid_request" hs, s)
    | some body ↦ created body refused hs (
        projects.create_project body.name body.key_hash body.key_prefix role_admin
          (map to_entity body.rules) s)
  ]

  unfoldable pub console_create : Handler S
  unfolding create_with write_project_error
  console_create = create_with write_project_error

  unfoldable pub admin_create : Handler S
  unfolding create_with admin_create_error
  admin_create = create_with admin_create_error

  unfoldable pub console_me : Handler S
  console_me hs r s = elim r.tenant [
    | none ↦ (write_error 401 "unauthorized" hs, s)
    | some tenant_id ↦ elim (projects.get_project tenant_id s) [
      | err e ↦ (
        if is e tenant_not_found
            then write_error 404 "project_not_found" hs
            else write_error 503 "service_unavailable" hs,
        s,
      )
      | ok p ↦ (write_json 200 (project_body (project_payload p)) hs, s)
    ]
  ]

  unfoldable pub console_add_key : Handler S
  unfolding write_project_error
  console_add_key hs r s = elim r.tenant [
    | none ↦ (write_error 401 "unauthorized" hs, s)
    | some tenant_id ↦ elim (decode_body unmarshal_key body_limit r) [
      | none ↦ (write_error 400 "invalid_request" hs, s)
      | some body ↦
          let role = if str_eq body.role "" then role_check else body.role in
          answered 201 write_project_error hs
            (projects.add_api_key tenant_id body.key_hash body.key_prefix role s)
    ]
  ]

  unfoldable pub console_revoke_key : Handler S
  unfolding revoke_error
  console_revoke_key hs r s = elim r.tenant [
    | none ↦ (write_error 401 "unauthorized" hs, s)
    | some tenant_id ↦ elim (parse_uuid (r.path_value "keyId")) [
      | none ↦ (write_error 400 "invalid_request" hs, s)
      | some key_id ↦ answered 204 revoke_error hs (projects.revoke_api_key tenant_id key_id s)
    ]
  ]

  unfoldable pub admin_list : Handler S
  admin_list hs r s = elim (projects.list_projects s) [
    | err e ↦ (write_error 503 "service_unavailable" hs, s)
    | ok ps ↦ (write_json 200 (projects_body (map project_payload ps)) hs, s)
  ]

  unfoldable pub admin_add_key : Handler S
  unfolding admin_key_error
  admin_add_key hs r s = elim (parse_uuid (r.path_value "id")) [
    | none ↦ (write_error 400 "invalid_request" hs, s)
    | some tenant_id ↦ elim (decode_body unmarshal_key admin_key_limit r) [
      | none ↦ (write_error 400 "invalid_request" hs, s)
      | some body ↦
          answered 201 admin_key_error hs
            (projects.add_api_key tenant_id body.key_hash body.key_prefix role_check s)
    ]
  ]

  unfoldable pub admin_revoke_key : Handler S
  unfolding revoke_error
  admin_revoke_key hs r s = elim (parse_uuid (r.path_value "id")) [
    | none ↦ (write_error 400 "invalid_request" hs, s)
    | some tenant_id ↦ elim (parse_uuid (r.path_value "keyId")) [
      | none ↦ (write_error 400 "invalid_request" hs, s)
      | some key_id ↦ answered 204 revoke_error hs (projects.revoke_api_key tenant_id key_id s)
    ]
  ]
