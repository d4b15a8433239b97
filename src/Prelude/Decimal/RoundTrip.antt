-- ===== src/Prelude/Decimal/RoundTrip.antt =====
-- Reading back a number that was written in decimal.
use go_rate_limiter.Prelude.Tests.{ltb, Bool-cases}
use go_rate_limiter.Prelude.Int.{ℤ, pos, negsuc, pos_part, neg_part}
use go_rate_limiter.Prelude.Text.{Text}
use go_rate_limiter.Prelude.Decimal.{
  two_63, digits, format_nat, format_int, is_digit, parse_digits, parse_nat, parse_int, positive_64,
}
use Prim.Native.Nat.{ℕ, zero, suc, ◌+◌, ◌-◌, ◌*◌, ◌/◌, ◌%◌, ◌≤◌, ◌<◌}
use mathlib.Core.Path.{◌≡◌, refl, ap, ◌∙◌}
use mathlib.Core.Logic.{inl, inr}
use mathlib.Core.Bool.{true}
use mathlib.Core.Option.{some}
use mathlib.Core.List.{[], ◌∷◌, ◌++◌}
use native.Mathlib.Omega.{arith}

parse_digits-append :
    (n m d : ℕ) (s : Text)
    → parse_digits n s ≡ some m
    → d < 10
    → parse_digits n (s ++ (b'0' + d) ∷ []) ≡ some (m * 10 + d)
unfolding parse_digits
parse_digits-append n m d [] h lt = ground arith
parse_digits-append n m d (c ∷ s) h lt =
    ground (arith, parse_digits-append (n * 10 + (c - b'0')) m d s)

parse_digits-digits : (fuel n : ℕ) → n < fuel → parse_digits 0 (digits fuel n) ≡ some n
unfolding digits parse_digits
parse_digits-digits zero n h = elim h [ ]
parse_digits-digits (suc fuel) n h = elim (Bool-cases (ltb n 10)) [
  | inl e ↦ rw (e, digits) (ground arith)
  | inr e ↦
      rw (e, digits)
        (let read =
            parse_digits-append 0 (n / 10) (n % 10) (digits fuel (n / 10))
              (parse_digits-digits fuel (n / 10) (ground arith)) (omega arith) in
          read ∙ ap some (omega arith))
]

-- A number in decimal starts with a digit.
abbrev StartsWithDigit : Text → Type 0
StartsWithDigit [] = ⊥
StartsWithDigit (c ∷ s) = is_digit c ≡ true

StartsWithDigit-append : (s t : Text) → StartsWithDigit s → StartsWithDigit (s ++ t)
StartsWithDigit-append [] t h = absurd h
StartsWithDigit-append (c ∷ s) t h = h

digits-StartsWithDigit : (fuel n : ℕ) → n < fuel → StartsWithDigit (digits fuel n)
unfolding digits
digits-StartsWithDigit zero n h = elim h [ ]
digits-StartsWithDigit (suc fuel) n h = elim (Bool-cases (ltb n 10)) [
  | inl e ↦ rw (e, digits) (ground arith)
  | inr e ↦
      rw (e, digits)
        (StartsWithDigit-append (digits fuel (n / 10)) ((b'0' + n % 10) ∷ [])
          (digits-StartsWithDigit fuel (n / 10) (ground arith)))
]

parse_nat-digits : (s : Text) → StartsWithDigit s → parse_nat s ≡ parse_digits 0 s
unfolding parse_nat
parse_nat-digits [] h = absurd h
parse_nat-digits (c ∷ s) h = refl

parse_nat-format_nat : (n : ℕ) → parse_nat (format_nat n) ≡ some n
unfolding format_nat
parse_nat-format_nat n =
    parse_nat-digits (digits (suc n) n) (digits-StartsWithDigit (suc n) n (omega arith))
    ∙ parse_digits-digits (suc n) n (omega arith)

parse_int-unsigned : (s : Text) → StartsWithDigit s → parse_int s ≡ positive_64 (parse_nat s)
unfolding parse_int
parse_int-unsigned [] h = absurd h
parse_int-unsigned (c ∷ s) h = ground arith

-- The integers of 64 bits.
abbrev pub Fits64 : ℤ → Type 0
Fits64 z = (pos_part z < two_63) × (neg_part z ≤ two_63)

pub parse_int-format_int : (z : ℤ) → Fits64 z → parse_int (format_int z) ≡ some z
unfolding format_int
parse_int-format_int (pos n) (h, _) =
    let start : StartsWithDigit (format_nat n) =
      unfold format_nat in digits-StartsWithDigit (suc n) n (omega arith) in
    parse_int-unsigned (format_nat n) start ∙ rw (parse_nat-format_nat n) (ground arith)
parse_int-format_int (negsuc n) (_, h) =
    unfold parse_int in rw (parse_nat-format_nat (suc n)) (ground arith)
