-- ===== src/Postgres/Dashboard/Scatter.antt =====
-- The loops of `ListProjects` of project_repository.go over the rows of all projects.
use mathlib.Core.List.{append-nil, append_assoc}
use go_rate_limiter.Prelude.{
  ℕ, suc, ◌≡◌, refl, sym, ap, ◌∙◌, inl, inr, List, [], ◌∷◌, ◌++◌, map, ◌==◌, arith, length,
  length-append, Bool-cases,
}
use go_rate_limiter.Prelude.Sorting.{filter}
use go_rate_limiter.Prelude.Distinct.{
  Distinct, position, at_key, apply_at, position-append, apply_at-position, position-map,
  Distinct-map,
}
use go_rate_limiter.Entity.{Uuid}
use go_rate_limiter.Provisioning.{ProjectSummary}
use go_rate_limiter.Postgres.{TenantRow}
use go_rate_limiter.Postgres.Dashboard.{
  tenant_summary, push_all, Index, put_index, collect, scatter,
}

abbrev pub project_id : ProjectSummary → ℕ
project_id p = p.id

-- The index has the position of each project.
abbrev pub Finds : Index → List ProjectSummary → Type 0
Finds index out = (id : Uuid) → index id ≡ position project_id id out

map_same : {A : Type 0} (xs : List A) → map (λ (x : A). x) xs ≡ xs
map_same [] = refl
map_same (x ∷ xs) = ap (λ l. x ∷ l) (map_same xs)

pub map_twice :
    {A B C : Type 0} (f : B → C) (g : A → B) (h : A → C)
    → ((x : A) → f (g x) ≡ h x)
    → (xs : List A) → map f (map g xs) ≡ map h xs
map_twice f g h e [] = refl
map_twice f g h e (x ∷ xs) = rw (e x, map_twice f g h e xs) refl

pub swapped : (a b : ℕ) → (a == b) ≡ (b == a)
swapped a b = ground arith

module _ {R : Type 0} (owner : R → Uuid) (push : R → ProjectSummary → ProjectSummary)
    (keeps : (r : R) (p : ProjectSummary) → (push r p).id ≡ p.id) where
  -- The rows of a project, pushed on it one after the other.
  abbrev pub own : List R → ProjectSummary → ProjectSummary
  own rs p = push_all push (filter (λ (r : R). owner r == p.id) rs) p

  pub push_all-id : (rs : List R) (p : ProjectSummary) → (push_all push rs p).id ≡ p.id
  push_all-id [] p = refl
  push_all-id (r ∷ rs) p = push_all-id rs (push r p) ∙ keeps r p

  abbrev step : R → ProjectSummary → ProjectSummary
  step r = at_key project_id (owner r) (push r)

  step-id : (r : R) (p : ProjectSummary) → (step r p).id ≡ p.id
  step-id r p = elim (Bool-cases (p.id == owner r)) [ inl e ↦ rw e (keeps r p) | inr e ↦ rw e refl ]

  own-step : (r : R) (rs : List R) (p : ProjectSummary) → own rs (step r p) ≡ own (r ∷ rs) p
  own-step r rs p =
      let moved = λ (id : Uuid). push_all push (filter (λ (x : R). owner x == id) rs) (step r p) in
      let f = swapped (owner r) p.id in
      ap moved (step-id r p)
      ∙ elim (Bool-cases (p.id == owner r)) [ inl e ↦ rw (f, e) refl | inr e ↦ rw (f, e) refl ]

  -- The loop over the rows of all projects gives each project its own.
  pub scatter-map :
      (rs : List R) (out : List ProjectSummary) (index : Index)
      → Finds index out
      → Distinct project_id out
      → scatter owner push index rs out ≡ map (own rs) out
  unfolding scatter
  scatter-map [] out index finds d = sym (map_same out)
  scatter-map (r ∷ rs) out index finds d =
      let one : apply_at (index (owner r)) (push r) out ≡ map (step r) out =
        rw (finds (owner r)) (apply_at-position project_id (owner r) (push r) out d) in
      let found : Finds index (map (step r) out) =
        λ id. finds id ∙ sym (position-map project_id (step r) (step-id r) id out) in
      rw one (
        scatter-map rs (map (step r) out) index found
          (Distinct-map project_id (step r) (step-id r) out d)
        ∙ map_twice (own rs) (step r) (own (r ∷ rs)) (own-step r rs) out)

-- The loop over the tenants: their summaries, and where each one stands.
pub collect-lem :
    (ts : List TenantRow) (out : List ProjectSummary) (n : ℕ) (index : Index)
    → n ≡ length out
    → Finds index out
    → let (found, left) = collect ts out n index in
      (found ≡ out ++ map tenant_summary ts) × Finds left (out ++ map tenant_summary ts)
unfolding collect
collect-lem [] out n index e finds = rw (append-nil out) (refl, finds)
collect-lem (t ∷ ts) out n index e finds =
    let appended : Finds (put_index t.id n index) (out ++ tenant_summary t ∷ []) =
      λ id. rw (e, finds id) (sym (position-append project_id id out (tenant_summary t))) in
    rw (append_assoc out (tenant_summary t ∷ []) (map tenant_summary ts)) at (
      collect-lem ts (out ++ tenant_summary t ∷ []) (suc n) (put_index t.id n index)
        (rw (length-append out (tenant_summary t ∷ [])) (omega arith)) appended)
