-- ===== src/Prelude/Sorting.antt =====
-- A stable sort by a Boolean order, for `ORDER BY`: rows with equal keys keep their order.
use mathlib.Core.Path.{◌≡◌, refl, sym, ap, ◌∙◌}
use mathlib.Core.Bool.{Bool, true, false}
use mathlib.Core.List.{List, [], ◌∷◌}
use go_rate_limiter.Prelude.Tests.{if◌then◌else◌, Bool-cases}
use go_rate_limiter.Prelude.Lists.{All}
use mathlib.Core.Logic.{inl, inr}

module _ {A : Type 0} where
  abbrev pub filter : (A → Bool) → List A → List A
  filter p [] = []
  filter p (x ∷ xs) = if p x then x ∷ filter p xs else filter p xs

module _ {A : Type 0} (le : A → A → Bool) where
  unfoldable pub insert : A → List A → List A
  insert x [] = x ∷ []
  insert x (y ∷ ys) = if le x y then x ∷ y ∷ ys else y ∷ insert x ys

  unfoldable pub sort : List A → List A
  unfolding insert
  sort [] = []
  sort (x ∷ xs) = insert x (sort xs)

  -- An order in which any two elements compare.
  pub record IsOrder : Type 0 where
    pub total : (x y : A) → le x y ≡ false → le y x ≡ true
    pub trans : (x y z : A) → le x y ≡ true → le y z ≡ true → le x z ≡ true

  abbrev pub IsSorted : List A → Type 0
  IsSorted [] = Unit
  IsSorted (x ∷ xs) = All (λ (y : A). le x y ≡ true) xs × IsSorted xs

  pub insert-All : (P : A → Type 0) (x : A) (ys : List A) → P x → All P ys → All P (insert x ys)
  unfolding insert
  insert-All P x [] p ps = (p, tt)
  insert-All P x (y ∷ ys) p (q, qs) = elim (Bool-cases (le x y)) [
    | inl e ↦ rw (e, insert) (p, (q, qs))
    | inr e ↦ rw (e, insert) (q, insert-All P x ys p qs)
  ]

  pub sort-All : (P : A → Type 0) (xs : List A) → All P xs → All P (sort xs)
  unfolding sort
  sort-All P [] ps = tt
  sort-All P (x ∷ xs) (p, ps) = insert-All P x (sort xs) p (sort-All P xs ps)

  module _ (o : IsOrder) where
    above :
        (x y : A) (ys : List A)
        → le x y ≡ true
        → All (λ (z : A). le y z ≡ true) ys
        → All (λ (z : A). le x z ≡ true) ys
    above x y [] h hs = tt
    above x y (z ∷ ys) h (q, qs) = (o.trans x y z h q, above x y ys h qs)

    insert-IsSorted : (x : A) (ys : List A) → IsSorted ys → IsSorted (insert x ys)
    unfolding insert
    insert-IsSorted x [] h = (tt, tt)
    insert-IsSorted x (y ∷ ys) (h, hs) = elim (Bool-cases (le x y)) [
      | inl e ↦ rw (e, insert) ((e, above x y ys e h), (h, hs))
      | inr e ↦
          rw (e, insert)
            (insert-All (λ (z : A). le y z ≡ true) x ys (o.total x y e) h, insert-IsSorted x ys hs)
    ]

    pub sort-IsSorted : (xs : List A) → IsSorted (sort xs)
    unfolding sort
    sort-IsSorted [] = tt
    sort-IsSorted (x ∷ xs) = insert-IsSorted x (sort xs) (sort-IsSorted xs)

    filter-All : (P : A → Type 0) (p : A → Bool) (ys : List A) → All P ys → All P (filter p ys)
    filter-All P p [] h = tt
    filter-All P p (y ∷ ys) (h, hs) = elim (Bool-cases (p y)) [
      | inl e ↦ rw e (h, filter-All P p ys hs)
      | inr e ↦ rw e (filter-All P p ys hs)
    ]

    insert-front : (x : A) (ys : List A) → All (λ (z : A). le x z ≡ true) ys → insert x ys ≡ x ∷ ys
    unfolding insert
    insert-front x [] h = refl
    insert-front x (y ∷ ys) (h, hs) = rw (h, insert) refl

    -- An element that is kept finds its place among those that are kept; one that is not leaves them.
    filter-insert :
        (p : A → Bool) (x : A) (ys : List A)
        → IsSorted ys
        → filter p (insert x ys) ≡ (if p x then insert x (filter p ys) else filter p ys)
    unfolding insert
    filter-insert p x [] h = refl
    filter-insert p x (y ∷ ys) (h, hs) = elim (Bool-cases (le x y)) [
      | inl e ↦ elim (Bool-cases (p x)) [
        | inr f ↦ rw (e, f, insert) refl
        | inl f ↦
            let least : All (λ (z : A). le x z ≡ true) (y ∷ ys) = (e, above x y ys e h) in
            rw (e, f, insert)
              (sym (
                insert-front x (filter p (y ∷ ys))
                  (filter-All (λ (z : A). le x z ≡ true) p (y ∷ ys) least)))
      ]
      | inr e ↦
          let ih = filter-insert p x ys hs in
          elim (Bool-cases (p x)) [
            | inl f ↦ elim (Bool-cases (p y)) [
              | inl g ↦
                  rw (e, f, g, insert) (rw (e, insert) (ap (λ (l : List A). y ∷ l) (rw f at ih)))
              | inr g ↦ rw (e, f, g, insert) (rw f at ih)
            ]
            | inr f ↦ elim (Bool-cases (p y)) [
              | inl g ↦ rw (e, f, g, insert) (ap (λ (l : List A). y ∷ l) (rw f at ih))
              | inr g ↦ rw (e, f, g, insert) (rw f at ih)
            ]
          ]
    ]

    -- Sorting and keeping commute.
    pub filter-sort : (p : A → Bool) (xs : List A) → filter p (sort xs) ≡ sort (filter p xs)
    unfolding sort
    filter-sort p [] = refl
    filter-sort p (x ∷ xs) =
        filter-insert p x (sort xs) (sort-IsSorted xs) ∙ (elim (Bool-cases (p x)) [
          | inl e ↦ rw (e, filter-sort p xs) refl
          | inr e ↦ rw (e, filter-sort p xs) refl
        ])
