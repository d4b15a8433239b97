-- ===== src/Prelude/Lists.antt =====
-- Lists measured and indexed by native numbers, and predicates on their members.
use Prim.Native.Nat.{ℕ, zero, suc, ◌+◌, min}
use mathlib.Core.Path.{◌≡◌, refl}
use mathlib.Core.Bool.{Bool, true, ◌&&◌}
use mathlib.Core.List.{List, [], ◌∷◌, ◌++◌}
use native.Mathlib.Omega.{arith}

module _ {ℓ} {A : Type ℓ} where
  abbrev pub length : List A → ℕ
  length [] = 0
  length (x ∷ xs) = suc (length xs)

  abbrev pub get_or : List A → ℕ → A → A
  get_or [] i d = d
  get_or (x ∷ xs) zero d = x
  get_or (x ∷ xs) (suc i) d = get_or xs i d

  abbrev pub take : ℕ → List A → List A
  take zero xs = []
  take (suc n) [] = []
  take (suc n) (x ∷ xs) = x ∷ take n xs

  abbrev pub drop : ℕ → List A → List A
  drop zero xs = xs
  drop (suc n) [] = []
  drop (suc n) (x ∷ xs) = drop n xs

  abbrev pub all : (A → Bool) → List A → Bool
  all p [] = true
  all p (x ∷ xs) = p x && all p xs

module _ {ℓ} {A : Type ℓ} where
  pub length-append : (xs ys : List A) → length (xs ++ ys) ≡ length xs + length ys
  length-append [] ys = omega arith
  length-append (x ∷ xs) ys = omega (arith, length-append xs ys)

  pub take-append-drop : (n : ℕ) (xs : List A) → take n xs ++ drop n xs ≡ xs
  take-append-drop zero xs = refl
  take-append-drop (suc n) [] = refl
  take-append-drop (suc n) (x ∷ xs) = rw (take-append-drop n xs)

  pub length-take : (n : ℕ) (xs : List A) → length (take n xs) ≡ min n (length xs)
  length-take zero xs = omega arith
  length-take (suc n) [] = omega arith
  length-take (suc n) (x ∷ xs) = omega (arith, length-take n xs)

  -- Membership as data: where an element stands.
  pub data Member (a : A) : List A → Type ℓ where
    here : {xs : List A} → Member a (a ∷ xs)
    there : {x : A} {xs : List A} → Member a xs → Member a (x ∷ xs)

module _ {ℓ κ} {A : Type ℓ} (P : A → Type κ) where
  abbrev pub All : List A → Type κ
  All [] = Unit
  All (x ∷ xs) = P x × All xs

  pub All-append : (xs ys : List A) → All xs → All ys → All (xs ++ ys)
  All-append [] ys hx hy = hy
  All-append (x ∷ xs) ys (p, ps) hy = (p, All-append xs ys ps hy)

  pub All-lookup : {a : A} {xs : List A} → Member a xs → All xs → P a
  All-lookup here (p, _) = p
  All-lookup (there m) (_, ps) = All-lookup m ps

module _ {ℓ κ} {A : Type ℓ} {P Q : A → Type κ} (f : (a : A) → P a → Q a) where
  pub All-map : (xs : List A) → All P xs → All Q xs
  All-map [] _ = tt
  All-map (x ∷ xs) (p, ps) = (f x p, All-map xs ps)
