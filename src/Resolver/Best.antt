-- ===== src/Resolver/Best.antt =====
-- Which rule `Resolve` of internal/application/rule_resolver.go returns.
use go_rate_limiter.Prelude.{
  ℕ, ◌≤◌, ◌<◌, ◌≡◌, refl, ◌↔◌, ◌⊎◌, inl, inr, true, false, ◌&&◌, arith, List, [], ◌∷◌, Option, none,
  some, All, All-lookup, All-map, Member, here, there, ap, if◌then◌else◌, ◌∙◌, subst,
}
use native.Mathlib.Decide.{dec_lt}
use go_rate_limiter.Prelude.Int.{pos, negsuc}
use go_rate_limiter.Prelude.Text.{Text}
use go_rate_limiter.Entity.{Rule, matches, specificity}
use go_rate_limiter.Entity.Matching.{specificity-pos_iff}
use go_rate_limiter.Resolver.{consider, resolve_from, resolve}

module _ (route : Text) where
  -- The rank of a rule for the route; a disabled rule ranks with those that do not match.
  abbrev pub rank : Rule → ℕ
  rank r = if r.enabled then specificity r route else 0

  -- `r` stands in the list, no rule before it ranks as high, and none after it ranks higher.
  pub data IsFirstBest (r : Rule) : List Rule → Type 0 where
    first : {rs : List Rule} → All (λ q. rank q ≤ rank r) rs → IsFirstBest r (r ∷ rs)
    later :
        {q : Rule} {rs : List Rule} → rank q < rank r → IsFirstBest r rs → IsFirstBest r (q ∷ rs)

  consider_better :
      (q : Rule) (best : Option Rule) (k : ℕ)
      → k < rank q
      → consider route q (best, pos k) ≡ (some q, pos (rank q))
  unfolding consider
  consider_better q best k h = ground arith

  consider_worse :
      (q : Rule) (best : Option Rule) (k : ℕ)
      → rank q ≤ k
      → consider route q (best, pos k) ≡ (best, pos k)
  unfolding consider
  consider_worse q best k h = ground arith

  consider_first :
      (q : Rule) → 0 < rank q → consider route q (none, negsuc 0) ≡ (some q, pos (rank q))
  unfolding consider
  consider_first q h = ground arith

  consider-none : (q : Rule) → rank q ≤ 0 → consider route q (none, negsuc 0) ≡ (none, negsuc 0)
  unfolding consider
  consider-none q h = ground arith

  -- With a best rule `b` in hand the loop keeps it, or finds a better one.
  abbrev Kept : Rule → List Rule → Option Rule → Type 0
  Kept b rs best =
      ((best ≡ some b) × All (λ q. rank q ≤ rank b) rs)
      ⊎ ((r : Rule) × (best ≡ some r) × IsFirstBest r rs × (rank b < rank r))

  Kept-better :
      (b q : Rule) (rs : List Rule) (best : Option Rule)
      → rank b < rank q
      → Kept q rs best
      → Kept b (q ∷ rs) best
  Kept-better b q rs best h (inl (e, low)) = inr (q, e, first low, h)
  Kept-better b q rs best h (inr (r, e, f, g)) = inr (r, e, later g f, omega arith)

  Kept-worse :
      (b q : Rule) (rs : List Rule) (best : Option Rule)
      → rank q ≤ rank b
      → Kept b rs best
      → Kept b (q ∷ rs) best
  Kept-worse b q rs best h (inl (e, low)) = inl (e, (h, low))
  Kept-worse b q rs best h (inr (r, e, f, g)) = inr (r, e, later (omega arith) f, g)

  resolve_from-Kept :
      (b : Rule) (rs : List Rule) → Kept b rs (resolve_from route rs (some b, pos (rank b)))
  unfolding resolve_from
  resolve_from-Kept b [] = inl (refl, tt)
  resolve_from-Kept b (q ∷ rs) = elim (dec_lt (rank b) (rank q)) [
    | yes h ↦
        rw (consider_better q (some b) (rank b) h) (Kept-better b q rs _ h (resolve_from-Kept q rs))
    | no h ↦
        let low : rank q ≤ rank b = omega arith in
        rw (consider_worse q (some b) (rank b) low)
          (Kept-worse b q rs _ low (resolve_from-Kept b rs))
  ]

  abbrev Found : List Rule → Option Rule → Type 0
  Found rs best =
      ((best ≡ none) × All (λ q. rank q ≡ 0) rs)
      ⊎ ((r : Rule) × (best ≡ some r) × IsFirstBest r rs × (0 < rank r))

  Found-better :
      (q : Rule) (rs : List Rule) (best : Option Rule)
      → 0 < rank q
      → Kept q rs best
      → Found (q ∷ rs) best
  Found-better q rs best h (inl (e, low)) = inr (q, e, first low, h)
  Found-better q rs best h (inr (r, e, f, g)) = inr (r, e, later g f, omega arith)

  Found-none :
      (q : Rule) (rs : List Rule) (best : Option Rule)
      → rank q ≡ 0
      → Found rs best
      → Found (q ∷ rs) best
  Found-none q rs best h (inl (e, low)) = inl (e, (h, low))
  Found-none q rs best h (inr (r, e, f, g)) = inr (r, e, later (omega arith) f, g)

  resolve_from-Found : (rs : List Rule) → Found rs (resolve_from route rs (none, negsuc 0))
  unfolding resolve_from
  resolve_from-Found [] = inl (refl, tt)
  resolve_from-Found (q ∷ rs) = elim (dec_lt 0 (rank q)) [
    | yes h ↦ rw (consider_first q h) (Found-better q rs _ h (resolve_from-Kept q rs))
    | no h ↦
        rw (consider-none q (omega arith)) (Found-none q rs _ (omega arith) (resolve_from-Found rs))
  ]

  rank-pos_iff : (r : Rule) → (0 < rank r) ↔ ((r.enabled ≡ true) × (matches r route ≡ true))
  rank-pos_iff r = ground (arith, specificity-pos_iff r route)

  rank-zero→ : (r : Rule) → rank r ≡ 0 → (r.enabled && matches r route) ≡ false
  rank-zero→ r h = ground (arith, specificity-pos_iff r route)

  pub IsFirstBest-All :
      {r : Rule} {rs : List Rule} → IsFirstBest r rs → All (λ q. rank q ≤ rank r) rs
  IsFirstBest-All (first low) = (omega arith, low)
  IsFirstBest-All (later h f) = (omega arith, IsFirstBest-All f)

  pub IsFirstBest-Member : {r : Rule} {rs : List Rule} → IsFirstBest r rs → Member r rs
  IsFirstBest-Member (first low) = here
  IsFirstBest-Member (later h f) = there (IsFirstBest-Member f)

  IsFirstBest-unique : {r q : Rule} {rs : List Rule} → IsFirstBest r rs → IsFirstBest q rs → r ≡ q
  IsFirstBest-unique (first low) (first low') = refl
  IsFirstBest-unique (first low) (later h f) =
      absurd (omega (arith, All-lookup _ (IsFirstBest-Member f) low))
  IsFirstBest-unique (later h f) (first low) =
      absurd (omega (arith, All-lookup _ (IsFirstBest-Member f) low))
  IsFirstBest-unique (later h f) (later h' f') = IsFirstBest-unique f f'

-- The rule returned is enabled and matches the route, and it is the first of those that rank
-- highest; and such a rule is returned.
pub resolve_iff :
    (rules : List Rule) (route : Text) (r : Rule)
    → (resolve rules route ≡ some r)
      ↔ ((r.enabled ≡ true) × (matches r route ≡ true) × IsFirstBest route r rules)
unfolding resolve
resolve_iff rules route r = elim (resolve_from-Found route rules) [
  | inl (e, low) ↦ (
    (λ e'. cc),
    λ h. absurd (
        omega (
          arith,
          All-lookup _ (IsFirstBest-Member route h.2) low,
          (rank-pos_iff route r).1 (h.0, h.1),
        )),
  )
  | inr (q, e, f, h) ↦ (
    (λ e'.
        let same : q ≡ r = cc in
        let (on, hit) = (rank-pos_iff route q).0 h in
        subst (λ x. (x.enabled ≡ true) × (matches x route ≡ true) × IsFirstBest route x rules) same
          (on, hit, f)),
    λ g. e ∙ ap some (IsFirstBest-unique route f g.2),
  )
]

-- No rule is returned exactly when no rule is both enabled and matches the route.
pub resolve-none_iff :
    (rules : List Rule) (route : Text)
    → (resolve rules route ≡ none) ↔ All (λ q. (q.enabled && matches q route) ≡ false) rules
unfolding resolve
resolve-none_iff rules route = elim (resolve_from-Found route rules) [
  | inl (e, low) ↦ ((λ _. All-map (λ q. rank-zero→ route q) rules low), λ _. e)
  | inr (q, e, f, h) ↦ (
    (λ e'. cc),
    λ g. absurd (
        let (on, hit) = (rank-pos_iff route q).0 h in
        let off = All-lookup _ (IsFirstBest-Member route f) g in ground arith),
  )
]
