-- ===== src/Postgres/Dashboard/Created.antt =====
-- A project that has just been created, as `GetProject` of project_repository.go reads it.
use go_rate_limiter.Prelude.{Bool, List, [], ◌∷◌, map, length}
use go_rate_limiter.Prelude.Sorting.{sort}
use go_rate_limiter.Prelude.Text.{Text}
use go_rate_limiter.Entity.{tenant_active}
use go_rate_limiter.Provisioning.{NewProject, ProjectSummary}
use go_rate_limiter.Postgres.{RuleRow}
use go_rate_limiter.Postgres.Projects.{Session, key_row, rule_rows}
use go_rate_limiter.Postgres.Dashboard.{by_pattern, key_summary, shown_rule}

module _ (session : Session) (p : NewProject) where
  -- The rows of the rules, in the order of their patterns.
  abbrev pub sorted_rows : (Text → Text → Bool) → List RuleRow
  sorted_rows le_text = sort (by_pattern le_text) (rule_rows session p.tenant_id 0 p.rules)

  -- The project that has been created, as it is read.
  abbrev pub created_summary : (Text → Text → Bool) → ProjectSummary
  created_summary le_text = record {
    id = p.tenant_id;
    name = p.name;
    status = tenant_active;
    created_at = session.now;
    rule_count = length p.rules;
    rules = map shown_rule (sorted_rows le_text);
    keys = key_summary (key_row session p) ∷ [];
  }
