-- ===== src/Postgres/Dashboard.antt =====
-- `ListProjects` and `GetProject` of internal/infrastructure/postgres/project_repository.go. Rows that
-- an `ORDER BY` does not tell apart come in the order of the table. `le_text` is the order that the
-- database gives to texts.
pub mod Scatter
pub mod Listing
pub mod Created
use go_rate_limiter.Prelude.{
  ℕ, suc, ◌+◌, Bool, true, false, String, Option, none, some, List, [], ◌∷◌, ◌++◌, map,
  if◌then◌else◌, leb, ◌==◌,
}
use go_rate_limiter.Prelude.Sorting.{sort, filter}
use go_rate_limiter.Prelude.Distinct.{apply_at}
use go_rate_limiter.Prelude.Text.{Text}
use go_rate_limiter.Errors.{Result, ok, err, ◌>>=◌, sentinel, wrap, other, tenant_not_found}
use go_rate_limiter.Entity.{Uuid, Rule}
use go_rate_limiter.Provisioning.{KeySummary, ProjectSummary}
use go_rate_limiter.Postgres.{Db, TenantRow, KeyRow, RuleRow, find, coalesce}

-- A query is answered, it is refused, or the connection breaks while its rows are read.
pub data QueryFault : Type 0 where
  answered refused broken : QueryFault

abbrev pub rows_of : {A : Type 0} → String → QueryFault → List A → Result (List A)
rows_of message answered rows = ok rows
rows_of message refused rows = err (wrap message (other "postgres"))
rows_of message broken rows = err (other "postgres")

abbrev pub newest : TenantRow → TenantRow → Bool
newest a b = leb b.created_at a.created_at

abbrev pub oldest : KeyRow → KeyRow → Bool
oldest a b = leb a.created_at b.created_at

abbrev pub by_pattern : (Text → Text → Bool) → RuleRow → RuleRow → Bool
by_pattern le_text a b = le_text a.route_pattern b.route_pattern

-- A project before its keys and its rules are read.
abbrev pub tenant_summary : TenantRow → ProjectSummary
tenant_summary t = record {
  id = t.id;
  name = t.name;
  status = t.status;
  created_at = t.created_at;
  rule_count = 0;
  rules = [];
  keys = [];
}

abbrev pub key_summary : KeyRow → KeySummary
key_summary k = record {
  id = k.id;
  prefix = k.key_prefix;
  status = k.status;
  role = k.role;
  created_at = k.created_at;
}

-- The algorithm is taken as it stands.
abbrev pub shown_rule : RuleRow → Rule
shown_rule row = record {
  id = row.id;
  tenant_id = row.tenant_id;
  route_pattern = row.route_pattern;
  algorithm = row.algorithm;
  enabled = row.enabled;
  limit_count = coalesce row.limit_count;
  window_seconds = coalesce row.window_seconds;
  bucket_capacity = coalesce row.bucket_capacity;
  refill_rate = coalesce row.refill_rate;
}

abbrev pub push_key : KeyRow → ProjectSummary → ProjectSummary
push_key k p = record p { keys = p.keys ++ key_summary k ∷ [] }

abbrev pub push_rule : RuleRow → ProjectSummary → ProjectSummary
push_rule row p = record p { rules = p.rules ++ shown_rule row ∷ []; rule_count = p.rule_count + 1 }

-- The loop over the rows of one project.
abbrev pub push_all :
    {R : Type 0} → (R → ProjectSummary → ProjectSummary) → List R → ProjectSummary → ProjectSummary
push_all push [] p = p
push_all push (r ∷ rs) p = push_all push rs (push r p)

abbrev pub Index : Type 0
Index = Uuid → Option ℕ

abbrev pub put_index : Uuid → ℕ → Index → Index
put_index id i index x = if id == x then some i else index x

-- The loop over the tenants, with `out`, its length and `index`.
unfoldable pub collect :
    List TenantRow → List ProjectSummary → ℕ → Index → List ProjectSummary × Index
collect [] out n index = (out, index)
collect (t ∷ ts) out n index =
    collect ts (out ++ tenant_summary t ∷ []) (suc n) (put_index t.id n index)

-- A loop over the rows of all projects: each row goes to its project, where there is one.
unfoldable pub scatter :
    {R : Type 0}
    → (R → Uuid)
    → (R → ProjectSummary → ProjectSummary)
    → Index
    → List R
    → List ProjectSummary
    → List ProjectSummary
scatter owner push index [] out = out
scatter owner push index (r ∷ rs) out =
    scatter owner push index rs (apply_at (index (owner r)) (push r) out)

abbrev pub key_owner : KeyRow → Uuid
key_owner k = k.tenant_id

abbrev pub rule_owner : RuleRow → Uuid
rule_owner row = row.tenant_id

module _ (le_text : Text → Text → Bool) (tenants_fault keys_fault rules_fault : QueryFault)
    (db : Db) where
  -- `if len(out) == 0` and what follows.
  abbrev pub with_details : List ProjectSummary × Index → Result (List ProjectSummary)
  with_details ([], index) = ok []
  with_details (p ∷ ps, index) = do
    keys ← rows_of "list keys: %w" keys_fault (sort oldest db.keys)
    rules ← rows_of "list rules: %w" rules_fault (sort (by_pattern le_text) db.rules)
    ok (scatter rule_owner push_rule index rules (scatter key_owner push_key index keys (p ∷ ps)))

  unfoldable pub list_projects : Result (List ProjectSummary)
  unfolding collect scatter
  list_projects = do
    tenants ← rows_of "list tenants: %w" tenants_fault (sort newest db.tenants)
    with_details (collect tenants [] 0 (λ id. none))

  -- `QueryRow(...).Scan(...)`
  abbrev pub tenant_of : QueryFault → Uuid → Result ProjectSummary
  tenant_of answered id = elim (find (λ (t : TenantRow). t.id == id) db.tenants) [
    | none ↦ err (sentinel tenant_not_found)
    | some t ↦ ok (tenant_summary t)
  ]
  tenant_of _ id = err (wrap "get tenant: %w" (other "postgres"))

  unfoldable pub get_project : Uuid → Result ProjectSummary
  get_project id = do
    p ← tenant_of tenants_fault id
    keys ←
        rows_of "get keys: %w" keys_fault
          (sort oldest (filter (λ (k : KeyRow). k.tenant_id == id) db.keys))
    rules ←
        rows_of "get rules: %w" rules_fault
          (sort (by_pattern le_text) (filter (λ (row : RuleRow). row.tenant_id == id) db.rules))
    ok (push_all push_rule rules (push_all push_key keys p))
