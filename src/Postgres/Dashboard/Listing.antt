-- ===== src/Postgres/Dashboard/Listing.antt =====
-- Three queries instead of one per project, in project_repository.go.
use go_rate_limiter.Prelude.{
  ◌≡◌, refl, sym, ap, ◌∙◌, Bool, false, none, some, List, [], ◌∷◌, map, ◌==◌, arith, All, All-map,
  ==_refl,
}
use go_rate_limiter.Prelude.Sorting.{sort, filter, filter-sort, sort-All, IsOrder}
use go_rate_limiter.Prelude.Distinct.{Distinct, position-map, Distinct-map, sort-Distinct}
use go_rate_limiter.Prelude.Text.{Text}
use go_rate_limiter.Errors.{Result, ok, ◌>>=◌}
use go_rate_limiter.Entity.{Uuid}
use go_rate_limiter.Provisioning.{ProjectSummary}
use go_rate_limiter.Postgres.{Db, TenantRow, KeyRow, RuleRow, find}
use go_rate_limiter.Postgres.Consistency.{tenant_id}
use go_rate_limiter.Postgres.Dashboard.Scatter.{
  project_id, Finds, map_twice, swapped, own, push_all-id, scatter-map, collect-lem,
}
use go_rate_limiter.Postgres.Dashboard.{
  answered, newest, oldest, by_pattern, tenant_summary, push_key, push_rule, push_all, Index,
  collect, scatter, key_owner, rule_owner, list_projects, with_details, tenant_of, get_project,
}

-- A query for each element, one after the other.
abbrev pub each : {A B : Type 0} → (A → Result B) → List A → Result (List B)
each f [] = ok []
each f (x ∷ xs) = do y ← f x; ys ← each f xs; ok (y ∷ ys)

each-map :
    {A B : Type 0} (f : A → Result B) (g : A → B) (xs : List A)
    → All (λ (x : A). f x ≡ ok (g x)) xs
    → each f xs ≡ ok (map g xs)
each-map f g [] h = refl
each-map f g (x ∷ xs) (h, hs) = rw (h, each-map f g xs hs) refl

-- A tenant is found by its id.
find_self :
    (ts : List TenantRow)
    → Distinct tenant_id ts
    → All (λ (t : TenantRow). find (λ (u : TenantRow). u.id == t.id) ts ≡ some t) ts
find_self [] d = tt
find_self (t ∷ ts) (h, hs) = (rw (==_refl t.id) refl, later ts h (find_self ts hs))
  where
    later :
        (us : List TenantRow)
        → All (λ (u : TenantRow). (u.id == t.id) ≡ false) us
        → All (λ (u : TenantRow). find (λ (x : TenantRow). x.id == u.id) ts ≡ some u) us
        → All (λ (u : TenantRow). find (λ (x : TenantRow). x.id == u.id) (t ∷ ts) ≡ some u) us
    later [] n f = tt
    later (u ∷ us) (n, ns) (f, fs) = (rw (swapped t.id u.id ∙ n) f, later us ns fs)

oldest-IsOrder : IsOrder oldest
oldest-IsOrder = record {
  total = λ a b h. ground (arith, h);
  trans = λ a b c h k. ground (arith, h, k);
}

summaries-Distinct :
    (ts : List TenantRow) → Distinct tenant_id ts → Distinct project_id (map tenant_summary ts)
summaries-Distinct [] d = tt
summaries-Distinct (t ∷ ts) (h, hs) = (keys ts h, summaries-Distinct ts hs)
  where
    keys :
        (us : List TenantRow)
        → All (λ (u : TenantRow). (u.id == t.id) ≡ false) us
        → All (λ (p : ProjectSummary). (p.id == t.id) ≡ false) (map tenant_summary us)
    keys [] n = tt
    keys (u ∷ us) (n, ns) = (n, keys us ns)

module _ (le_text : Text → Text → Bool) (o : IsOrder (by_pattern le_text)) (db : Db)
    (distinct : Distinct tenant_id db.tenants) where
  abbrev keys_of : ProjectSummary → ProjectSummary
  keys_of = own key_owner push_key (λ k p. refl) (sort oldest db.keys)

  abbrev rules_of : ProjectSummary → ProjectSummary
  rules_of = own rule_owner push_rule (λ row p. refl) (sort (by_pattern le_text) db.rules)

  keys_of-id : (p : ProjectSummary) → (keys_of p).id ≡ p.id
  keys_of-id p =
      push_all-id key_owner push_key (λ k q. refl)
        (filter (λ (k : KeyRow). k.tenant_id == p.id) (sort oldest db.keys)) p

  abbrev whole : TenantRow → ProjectSummary
  whole t = rules_of (keys_of (tenant_summary t))

  -- The keys and the rules go to the projects that have been collected.
  details :
      (out : List ProjectSummary) (index : Index)
      → Finds index out
      → Distinct project_id out
      → with_details le_text answered answered answered db (out, index)
        ≡ ok (map (λ (p : ProjectSummary). rules_of (keys_of p)) out)
  details [] index finds d = refl
  details (p ∷ ps) index finds d =
      let out = p ∷ ps in
      let keyed =
        scatter-map key_owner push_key (λ k q. refl) (sort oldest db.keys) out index finds d in
      let found : Finds index (map keys_of out) =
        λ id. finds id ∙ sym (position-map project_id keys_of keys_of-id id out) in
      let ruled =
        scatter-map rule_owner push_rule (λ row q. refl) (sort (by_pattern le_text) db.rules)
          (map keys_of out) index found (Distinct-map project_id keys_of keys_of-id out d) in
      ap ok (
        ap (scatter rule_owner push_rule index (sort (by_pattern le_text) db.rules)) keyed
        ∙ ruled
        ∙ map_twice rules_of keys_of (λ (q : ProjectSummary). rules_of (keys_of q)) (λ q. refl) out)

  got :
      (t : TenantRow)
      → find (λ (u : TenantRow). u.id == t.id) db.tenants ≡ some t
      → get_project le_text answered answered answered db t.id ≡ ok (whole t)
  unfolding get_project
  got t f =
      let sorted = sort (by_pattern le_text) db.rules in
      let keys =
        ap (λ (rows : List KeyRow). push_all push_key rows (tenant_summary t))
          (sym (filter-sort oldest oldest-IsOrder (λ (k : KeyRow). k.tenant_id == t.id) db.keys)) in
      let rules =
        sym (filter-sort (by_pattern le_text) o (λ (row : RuleRow). row.tenant_id == t.id) db.rules)
        ∙ ap (λ (id : Uuid). filter (λ (row : RuleRow). row.tenant_id == id) sorted)
            (sym (keys_of-id (tenant_summary t))) in
      rw (f, tenant_of) (λ i. ok (push_all push_rule (rules i) (keys i)))

  listed :
      (ts : List TenantRow)
      → Distinct project_id (map tenant_summary ts)
      → with_details le_text answered answered answered db (collect ts [] 0 (λ id. none))
        ≡ ok (map whole ts)
  listed ts d =
      let (found, finds) = collect-lem ts [] 0 (λ id. none) refl (λ id. refl) in
      let q = collect ts [] 0 (λ id. none) in
      let same = λ (out : List ProjectSummary).
        with_details le_text answered answered answered db (out, q.1) in
      ap same found
      ∙ details (map tenant_summary ts) q.1 finds d
      ∙ ap ok (
          map_twice (λ (p : ProjectSummary). rules_of (keys_of p)) tenant_summary whole (λ t. refl)
            ts)

  -- Without a fault, the three queries give what a call of `GetProject` for each tenant gives, the
  -- newest tenant first, where no two tenants have the same id and the database's order of the texts
  -- is total and transitive.
  pub list_projects-each :
      list_projects le_text answered answered answered db
      ≡ each
          (λ (t : TenantRow). get_project le_text answered answered answered db t.id)
          (sort newest db.tenants)
  unfolding list_projects get_project
  list_projects-each =
      let sorted = sort newest db.tenants in
      listed sorted (summaries-Distinct sorted (sort-Distinct tenant_id newest db.tenants distinct))
      ∙ sym (
          each-map _ whole sorted
            (sort-All newest _ db.tenants (All-map got db.tenants (find_self db.tenants distinct))))
