-- ===== src/Prelude/Decimal.antt =====
-- Numbers in decimal: `FormatInt`, `ParseInt` and `Atoi` of the package `strconv`, for 64 bits.
pub mod RoundTrip
use go_rate_limiter.Prelude.Tests.{ltb, leb, ◌==◌, if◌then◌else◌, Bool-cases}
use go_rate_limiter.Prelude.Int.{ℤ, pos, negsuc}
use go_rate_limiter.Prelude.Text.{Text}
use Prim.Native.Nat.{ℕ, zero, suc, ◌+◌, ◌-◌, ◌*◌, ◌/◌, ◌%◌, ◌≤◌, ◌<◌}
use mathlib.Core.Path.{◌≡◌, refl, sym, ap, ◌∙◌}
use mathlib.Core.Logic.{inl, inr}
use mathlib.Core.Bool.{Bool, true, false, ◌&&◌}
use mathlib.Core.Option.{Option, none, some}
use mathlib.Core.List.{List, [], ◌∷◌, ◌++◌}
use native.Mathlib.Omega.{arith}

abbrev pub two_63 : ℕ
two_63 = 9_223_372_036_854_775_808

-- The digits, with fuel above the number.
unfoldable pub digits : ℕ → ℕ → Text
digits zero n = []
digits (suc fuel) n =
    let front = digits fuel (n / 10) in
    if ltb n 10 then (b'0' + n) ∷ [] else front ++ (b'0' + n % 10) ∷ []

unfoldable pub format_nat : ℕ → Text
unfolding digits
format_nat n = digits (suc n) n

unfoldable pub format_int : ℤ → Text
unfolding format_nat
format_int (pos n) = format_nat n
format_int (negsuc n) = b'-' ∷ format_nat (suc n)

abbrev pub is_digit : ℕ → Bool
is_digit c = leb b'0' c && leb c b'9'

-- The digits read so far make `n`; `none` is a syntax error.
unfoldable pub parse_digits : ℕ → Text → Option ℕ
parse_digits n [] = some n
parse_digits n (c ∷ s) = if is_digit c then parse_digits (n * 10 + (c - b'0')) s else none

-- At least one digit, and nothing else.
unfoldable pub parse_nat : Text → Option ℕ
unfolding parse_digits
parse_nat [] = none
parse_nat (c ∷ s) = parse_digits 0 (c ∷ s)

abbrev pub positive_64 : Option ℕ → Option ℤ
positive_64 none = none
positive_64 (some n) = if ltb n two_63 then some (pos n) else none

abbrev pub negated : ℕ → ℤ
negated zero = pos 0
negated (suc n) = negsuc n

abbrev pub negative_64 : Option ℕ → Option ℤ
negative_64 none = none
negative_64 (some n) = if leb n two_63 then some (negated n) else none

-- `none` is an error of the syntax or of the range.
unfoldable pub parse_int : Text → Option ℤ
unfolding parse_nat
parse_int [] = none
parse_int (c ∷ s) =
    if c == b'-'
    then negative_64 (parse_nat s)
    else if c == b'+'
    then positive_64 (parse_nat s)
    else positive_64 (parse_nat (c ∷ s))
