-- ===== src/Tests/Dashboard.antt =====
-- The tables as the dashboard reads them.
use go_rate_limiter.Prelude.{◌≡◌, refl, true, Bool, [], ◌∷◌}
use go_rate_limiter.Prelude.Sorting.{sort, IsOrder}
use go_rate_limiter.Prelude.Text.{Text}
use go_rate_limiter.Entity.{tenant_active}
use go_rate_limiter.Postgres.{Db, TenantRow}
use go_rate_limiter.Postgres.Projects.{works, store_project}
use go_rate_limiter.Postgres.Keys.{revoke_key}
use go_rate_limiter.Postgres.Consistency.{IsConsistent, Later-IsConsistent, empty-IsConsistent}
use go_rate_limiter.Postgres.History.{unchanged, creates, revokes}
use go_rate_limiter.Postgres.Dashboard.{answered, by_pattern, newest, list_projects, get_project}
use go_rate_limiter.Postgres.Dashboard.Listing.{each, list_projects-each}
use go_rate_limiter.Tests.Data.{slash_a}
use go_rate_limiter.Tests.Projects.{all_works, project, empty_db}

-- An order that takes every text for the unchanged.
abbrev any_order : Text → Text → Bool
any_order s t = true

any_order-IsOrder : IsOrder (by_pattern any_order)
any_order-IsOrder = record { total = λ a b h. refl; trans = λ a b c h k. refl }

abbrev two_tenants : Db
two_tenants = record {
  tenants =
      record { id = 1; name = []; status = tenant_active; created_at = 10 }
      ∷ record { id = 2; name = slash_a; status = tenant_active; created_at = 20 }
      ∷ [];
  keys = [];
  rules = [];
}

list_projects-each_example :
    list_projects any_order answered answered answered two_tenants
    ≡ each
        (λ (t : TenantRow). get_project any_order answered answered answered two_tenants t.id)
        (sort newest two_tenants.tenants)
list_projects-each_example =
    list_projects-each any_order any_order-IsOrder two_tenants ((refl, tt), (tt, tt))

Later-IsConsistent_example :
    IsConsistent (revoke_key works 7 3 (store_project all_works project empty_db).1).1
Later-IsConsistent_example =
    Later-IsConsistent (revokes works 7 3 (creates all_works project unchanged)) empty-IsConsistent
