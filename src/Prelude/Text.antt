-- ===== src/Prelude/Text.antt =====
-- Go strings as lists of bytes, with the functions of the package `strings` that the code calls.
use go_rate_limiter.Prelude.Tests.{ltb, leb, ◌==◌, if◌then◌else◌}
use go_rate_limiter.Prelude.Lists.{length, get_or, take, drop, all, length-append, take-append-drop}
use Prim.Native.Nat.{ℕ, zero, suc, ◌+◌, ◌-◌, ◌≤◌}
use Prim.Native.Char.{code}
use Prim.Native.String.{String}
use mathlib.Core.Path.{◌≡◌, refl, sym, ap, ◌∙◌}
use mathlib.Core.Logic.{◌↔◌}
use mathlib.Core.Bool.{Bool, true, false, ◌&&◌, ◌||◌}
use mathlib.Core.Option.{Option, none, some}
use mathlib.Core.List.{List, [], ◌∷◌, ◌++◌, map, reverse}
use native.Mathlib.Omega.{arith}

abbrev pub Text : Type 0
Text = List ℕ

-- A literal of the source; all of them are ASCII.
unfoldable pub txt : String → Text
txt String.[] = []
txt (String.◌∷◌ c s) = code c ∷ txt s

unfoldable pub text_eq : Text → Text → Bool
text_eq [] [] = true
text_eq (a ∷ s) (b ∷ t) = a == b && text_eq s t
text_eq _ _ = false

-- `strings.HasPrefix(s, prefix)`
unfoldable pub has_prefix : Text → Text → Bool
has_prefix s [] = true
has_prefix [] (p ∷ ps) = false
has_prefix (c ∷ s) (p ∷ ps) = c == p && has_prefix s ps

-- `strings.HasSuffix(s, suffix)`
unfoldable pub has_suffix : Text → Text → Bool
unfolding text_eq
has_suffix s suffix =
    leb (length suffix) (length s) && text_eq (drop (length s - length suffix) s) suffix

-- `strings.TrimSuffix(s, suffix)`
unfoldable pub trim_suffix : Text → Text → Text
unfolding has_suffix
trim_suffix s suffix = if has_suffix s suffix then take (length s - length suffix) s else s

-- `strings.CutPrefix(s, prefix)`, with `none` where it reports false.
unfoldable pub cut_prefix : Text → Text → Option Text
unfolding has_prefix
cut_prefix s prefix = if has_prefix s prefix then some (drop (length prefix) s) else none

pub is_ascii_space : ℕ → Bool
is_ascii_space c = (leb 9 c && leb c 13) || c == 32

-- The third byte of a three-byte space whose first two bytes are E2 80.
is_e280_space : ℕ → Bool
is_e280_space c = (leb 0x80 c && leb c 0x8a) || c == 0xa8 || c == 0xa9 || c == 0xaf

is_wide_space : ℕ → ℕ → ℕ → Bool
unfolding is_e280_space
is_wide_space a b c =
    (a == 0xe1 && b == 0x9a && c == 0x80)
    || (a == 0xe2 && b == 0x80 && is_e280_space c)
    || (a == 0xe2 && b == 0x81 && c == 0x9f)
    || (a == 0xe3 && b == 0x80 && c == 0x80)

is_narrow_space : ℕ → ℕ → Bool
is_narrow_space a b = a == 0xc2 && (b == 0x85 || b == 0xa0)

-- How many bytes the white space at the front takes in UTF-8 (`unicode.IsSpace`), 0 for none.
space_width : Text → ℕ
unfolding is_ascii_space is_narrow_space is_wide_space
space_width s =
    if is_ascii_space (get_or s 0 0)
    then 1
    else if is_narrow_space (get_or s 0 0) (get_or s 1 0)
    then 2
    else if is_wide_space (get_or s 0 0) (get_or s 1 0) (get_or s 2 0)
    then 3
    else 0

-- The same at the end of a text that is read backwards.
space_width_back : Text → ℕ
unfolding is_ascii_space is_narrow_space is_wide_space
space_width_back s =
    if is_ascii_space (get_or s 0 0)
    then 1
    else if is_narrow_space (get_or s 1 0) (get_or s 0 0)
    then 2
    else if is_wide_space (get_or s 2 0) (get_or s 1 0) (get_or s 0 0)
    then 3
    else 0

-- Drops `k` bytes, then every space at the front.
trim_by : (Text → ℕ) → ℕ → Text → Text
trim_by width k [] = []
trim_by width (suc k) (c ∷ s) = trim_by width k s
trim_by width zero (c ∷ s) = elim (width (c ∷ s)) [ zero ↦ c ∷ s | suc k ↦ trim_by width k s ]

-- `strings.TrimSpace`
unfoldable pub trim_space : Text → Text
unfolding trim_by space_width space_width_back
trim_space s = reverse (trim_by space_width_back 0 (reverse (trim_by space_width 0 s)))

pub lower_byte : ℕ → ℕ
lower_byte c = if leb b'A' c && leb c b'Z' then c + 32 else c

-- `strings.ToLower`. `unicode_lower` is its path for texts that are not ASCII, which reads the
-- tables of the package `unicode`.
unfoldable pub to_lower : (Text → Text) → Text → Text
unfolding lower_byte
to_lower unicode_lower s = if all (λ c. ltb c 128) s then map lower_byte s else unicode_lower s

-- `strings.Split` at a byte. `part` is what stands since the last one, read backwards.
unfoldable pub split_from : ℕ → Text → Text → List Text
split_from b part [] = reverse part ∷ []
split_from b part (c ∷ s) =
    if c == b then reverse part ∷ split_from b [] s else split_from b (c ∷ part) s

unfoldable pub split : ℕ → Text → List Text
unfolding split_from
split b s = split_from b [] s

pub text_eq_refl : (s : Text) → text_eq s s ≡ true
unfolding text_eq
text_eq_refl [] = refl
text_eq_refl (c ∷ s) = ground (arith, text_eq_refl s)

pub text_eq_sound : (s t : Text) → text_eq s t ≡ true → s ≡ t
unfolding text_eq
text_eq_sound [] [] h = refl
text_eq_sound (a ∷ s) (b ∷ t) h = ground (arith, text_eq_sound s t)
text_eq_sound [] (b ∷ t) h = cc
text_eq_sound (a ∷ s) [] h = cc

pub text_eq_iff : (s t : Text) → (text_eq s t ≡ true) ↔ (s ≡ t)
text_eq_iff s t = (text_eq_sound s t, λ e. rw e (text_eq_refl t))

pub length-le_of_has_prefix : (s p : Text) → has_prefix s p ≡ true → length p ≤ length s
unfolding has_prefix
length-le_of_has_prefix s [] h = omega arith
length-le_of_has_prefix [] (p ∷ ps) h = cc
length-le_of_has_prefix (c ∷ s) (p ∷ ps) h = ground (arith, length-le_of_has_prefix s ps)

-- A text with a suffix is the trimmed text before that suffix.
pub trim_suffix-append : (s t : Text) → has_suffix s t ≡ true → trim_suffix s t ++ t ≡ s
unfolding trim_suffix
trim_suffix-append s t h = ground (
  arith,
  text_eq_sound (drop (length s - length t) s) t,
  take-append-drop (length s - length t) s,
)

pub length-trim_suffix :
    (s t : Text) → has_suffix s t ≡ true → length (trim_suffix s t) + length t ≡ length s
length-trim_suffix s t h =
    sym (length-append (trim_suffix s t) t) ∙ ap length (trim_suffix-append s t h)
