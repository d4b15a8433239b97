-- ===== src/Prelude/Distinct.antt =====
-- Lists whose elements have different keys, and the position of a key.
use Prim.Native.Nat.{ℕ, zero, suc}
use mathlib.Core.Path.{◌≡◌, refl, sym, ap}
use mathlib.Core.Bool.{Bool, true, false}
use mathlib.Core.Option.{Option, none, some}
use mathlib.Core.List.{List, [], ◌∷◌, ◌++◌, map}
use mathlib.Core.Logic.{inl, inr}
use native.Mathlib.Omega.{arith}
use go_rate_limiter.Prelude.Tests.{if◌then◌else◌, ◌==◌, ==_iff, Bool-cases, Option-cases}
use go_rate_limiter.Prelude.Lists.{All, length}
use go_rate_limiter.Prelude.Sorting.{insert, sort, sort-All, insert-All}

-- `xs[i] = f(xs[i])`, nothing out of range.
abbrev pub update_at : {A : Type 0} → ℕ → (A → A) → List A → List A
update_at i f [] = []
update_at zero f (x ∷ xs) = f x ∷ xs
update_at (suc i) f (x ∷ xs) = x ∷ update_at i f xs

abbrev pub apply_at : {A : Type 0} → Option ℕ → (A → A) → List A → List A
apply_at none f xs = xs
apply_at (some i) f xs = update_at i f xs

module _ {A : Type 0} (key : A → ℕ) where
  abbrev pub Distinct : List A → Type 0
  Distinct [] = Unit
  Distinct (x ∷ xs) = All (λ (y : A). (key y == key x) ≡ false) xs × Distinct xs

  -- The last element with a key.
  abbrev pub shifted : Bool → Option ℕ → Option ℕ
  shifted here none = if here then some 0 else none
  shifted here (some i) = some (suc i)

  abbrev pub position : ℕ → List A → Option ℕ
  position k [] = none
  position k (x ∷ xs) = shifted (key x == k) (position k xs)

  abbrev pub at_key : ℕ → (A → A) → A → A
  at_key k f x = if key x == k then f x else x

  pub position-append :
      (k : ℕ) (xs : List A) (y : A)
      → position k (xs ++ y ∷ []) ≡ (if key y == k then some (length xs) else position k xs)
  position-append k [] y = refl
  position-append k (x ∷ xs) y =
      rw (position-append k xs y)
        (elim (Bool-cases (key y == k)) [ inl e ↦ rw e refl | inr e ↦ rw e refl ])

  -- Without the key.
  absent :
      (k : ℕ) (f : A → A) (xs : List A)
      → All (λ (y : A). (key y == k) ≡ false) xs
      → (position k xs ≡ none) × (map (at_key k f) xs ≡ xs)
  absent k f [] h = (refl, refl)
  absent k f (x ∷ xs) (h, hs) = let (a, b) = absent k f xs hs in (rw (a, h) refl, rw (h, b) refl)

  same_key :
      (k : ℕ) (x : A) (xs : List A)
      → (key x == k) ≡ true
      → All (λ (y : A). (key y == key x) ≡ false) xs
      → All (λ (y : A). (key y == k) ≡ false) xs
  same_key k x xs e h = rw (← (==_iff (key x) k).0 e) h

  -- An update at the position of a key is an update of the element with that key.
  pub apply_at-position :
      (k : ℕ) (f : A → A) (xs : List A)
      → Distinct xs
      → apply_at (position k xs) f xs ≡ map (at_key k f) xs
  apply_at-position k f [] d = refl
  apply_at-position k f (x ∷ xs) (h, hs) = elim (Bool-cases (key x == k)) [
    | inl e ↦
        let (a, b) = absent k f xs (same_key k x xs e h) in
        rw (a, e) (ap (λ (l : List A). f x ∷ l) (sym b))
    | inr e ↦
        let ih = apply_at-position k f xs hs in
        elim (Option-cases (position k xs)) [
          | inl g ↦ rw (g, e) (ap (λ (l : List A). x ∷ l) (rw g at ih))
          | inr (i, g) ↦ rw (g, e) (ap (λ (l : List A). x ∷ l) (rw g at ih))
        ]
  ]

  module _ (le : A → A → Bool) where
    swapped : (a b : ℕ) → (a == b) ≡ false → (b == a) ≡ false
    swapped a b h = ground arith

    insert-Distinct :
        (x : A) (ys : List A)
        → All (λ (y : A). (key y == key x) ≡ false) ys
        → Distinct ys
        → Distinct (insert le x ys)
    unfolding insert
    insert-Distinct x [] h d = (tt, tt)
    insert-Distinct x (y ∷ ys) (h, hs) (d, ds) = elim (Bool-cases (le x y)) [
      | inl e ↦ rw (e, insert) ((h, hs), (d, ds))
      | inr e ↦
          rw (e, insert)
            (
              insert-All le (λ (z : A). (key z == key y) ≡ false) x ys (swapped (key y) (key x) h)
                  d,
              insert-Distinct x ys hs ds,
            )
    ]

    pub sort-Distinct : (xs : List A) → Distinct xs → Distinct (sort le xs)
    unfolding sort
    sort-Distinct [] d = tt
    sort-Distinct (x ∷ xs) (h, hs) =
        insert-Distinct x (sort le xs) (sort-All le (λ (y : A). (key y == key x) ≡ false) xs h)
          (sort-Distinct xs hs)

  -- What does not change a key changes neither the positions nor that the keys differ.
  module _ (g : A → A) (same : (x : A) → key (g x) ≡ key x) where
    pub position-map : (k : ℕ) (xs : List A) → position k (map g xs) ≡ position k xs
    position-map k [] = refl
    position-map k (x ∷ xs) = rw (same x, position-map k xs) refl

    All-keys :
        (k : ℕ) (xs : List A)
        → All (λ (y : A). (key y == k) ≡ false) xs
        → All (λ (y : A). (key y == k) ≡ false) (map g xs)
    All-keys k [] h = tt
    All-keys k (x ∷ xs) (h, hs) = (rw (same x) h, All-keys k xs hs)

    pub Distinct-map : (xs : List A) → Distinct xs → Distinct (map g xs)
    Distinct-map [] d = tt
    Distinct-map (x ∷ xs) (h, hs) = (rw (same x) (All-keys (key x) xs h), Distinct-map xs hs)
