-- ===== src/Prelude/Int.antt =====
-- The program's `int64` values as integers, with the tests that the code makes on them. The code
-- does no arithmetic on them that could wrap around.
use Prim.Native.Nat.{ℕ, suc, ◌+◌}
use mathlib.Core.Bool.{Bool, true, false}
use Prim.Native.Nat.{compare, Ordering}
use go_rate_limiter.Prelude.Tests.{leb}

-- `negsuc n` is -(n + 1).
pub data ℤ : Type 0 where
  pos : ℕ → ℤ
  negsuc : ℕ → ℤ

abbrev pub pos_part : ℤ → ℕ
pos_part (pos n) = n
pos_part (negsuc n) = 0

abbrev pub neg_part : ℤ → ℕ
neg_part (pos n) = 0
neg_part (negsuc n) = suc n

abbrev pub leb_ℤ : ℤ → ℤ → Bool
leb_ℤ a b = leb (pos_part a + neg_part b) (pos_part b + neg_part a)

-- `a == b` for 64-bit integers.
abbrev pub eqb_ℤ : ℤ → ℤ → Bool
eqb_ℤ a b = elim (compare (pos_part a + neg_part b) (pos_part b + neg_part a)) [
  | Ordering.eq ↦ true
  | _ ↦ false
]
