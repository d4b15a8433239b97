-- ===== src/Provisioning/Texts.antt =====
-- The names, hashes and prefixes that provisioning_service.go accepts, said without its tests.
use go_rate_limiter.Prelude.{
  ℕ, ◌≤◌, ◌≡◌, ◌↔◌, ◌⊎◌, inl, inr, refl, Bool, true, ◌&&◌, [], ◌∷◌, length, get_or, all, reverse,
  All, arith, leb, ◌==◌, Bool-cases,
}
use go_rate_limiter.Prelude.Text.{Text, text_eq}
use go_rate_limiter.Provisioning.{
  is_name_end, is_name_byte, is_project_name, is_hex, is_sha256_hex, is_key_prefix,
}

-- The bytes of "a" to "z" and of "0" to "9".
abbrev pub IsAlphanumeric : ℕ → Type 0
IsAlphanumeric c = ((97 ≤ c) × (c ≤ 122)) ⊎ ((48 ≤ c) × (c ≤ 57))

-- The bytes of "0" to "9" and of "a" to "f".
abbrev pub IsHexDigit : ℕ → Type 0
IsHexDigit c = ((48 ≤ c) × (c ≤ 57)) ⊎ ((97 ≤ c) × (c ≤ 102))

-- 3 to 40 letters, digits and hyphens, with no hyphen at either end.
pub record IsName (s : Text) : Type 0 where
  pub long : 3 ≤ length s
  pub short : length s ≤ 40
  pub inner : All (λ (c : ℕ). IsAlphanumeric c ⊎ (c ≡ 45)) s
  pub first : IsAlphanumeric (get_or s 0 0)
  pub last : IsAlphanumeric (get_or (reverse s) 0 0)

pub record IsHash (s : Text) : Type 0 where
  pub size : length s ≡ 64
  pub digits : All IsHexDigit s

all_iff :
    (q : ℕ → Bool) (P : ℕ → Type 0)
    → ((c : ℕ) → (q c ≡ true) ↔ P c)
    → (s : Text) → (all q s ≡ true) ↔ All P s
all_iff q P iff [] = ((λ _. tt), λ _. refl)
all_iff q P iff (c ∷ s) =
    let (to, from) = all_iff q P iff s in
    elim (Bool-cases (q c)) [
      | inl e ↦ rw e ((λ h. ((iff c).0 e, to h)), λ h. from h.1)
      | inr e ↦ rw e ((λ h. absurd (cc)), λ h. let yes = (iff c).1 h.0 in absurd (cc))
    ]

is_name_end_iff : (c : ℕ) → (is_name_end c ≡ true) ↔ IsAlphanumeric c
is_name_end_iff c = ground arith

is_name_byte_iff : (c : ℕ) → (is_name_byte c ≡ true) ↔ (IsAlphanumeric c ⊎ (c ≡ 45))
is_name_byte_iff c = ground arith

is_hex_iff : (c : ℕ) → (is_hex c ≡ true) ↔ IsHexDigit c
is_hex_iff c = ground arith

both : (a b : Bool) → (a && b) ≡ true → (a ≡ true) × (b ≡ true)
both a b h = (ground arith, ground arith)

pub is_project_name_iff : (s : Text) → (is_project_name s ≡ true) ↔ IsName s
unfolding is_project_name
is_project_name_iff s =
    let (inside, inside') =
      all_iff is_name_byte (λ c. IsAlphanumeric c ⊎ (c ≡ 45)) is_name_byte_iff s in
    let (start, start') = is_name_end_iff (get_or s 0 0) in
    let (stop, stop') = is_name_end_iff (get_or (reverse s) 0 0) in
    (
      λ h. record {
        long = ground arith;
        short = ground arith;
        inner = inside (ground arith);
        first = start (ground arith);
        last = stop (ground arith);
      },
      λ i.
          let long : leb 3 (length s) ≡ true = ground (arith, i.long) in
          let short : leb (length s) 40 ≡ true = ground (arith, i.short) in
          rw (long, short, inside' i.inner, start' i.first, stop' i.last) refl,
    )

pub is_sha256_hex_iff : (s : Text) → (is_sha256_hex s ≡ true) ↔ IsHash s
unfolding is_sha256_hex
is_sha256_hex_iff s =
    let (inside, inside') = all_iff is_hex IsHexDigit is_hex_iff s in
    (
      λ h. record { size = ground arith; digits = inside (ground arith) },
      λ i.
          let size : (length s == 64) ≡ true = ground (arith, i.size) in
          rw (size, inside' i.digits) refl,
    )

pub is_key_prefix_iff : (s : Text) → (is_key_prefix s ≡ true) ↔ ((1 ≤ length s) × (length s ≤ 32))
unfolding is_key_prefix text_eq
is_key_prefix_iff [] = ((λ h. absurd (cc)), λ h. absurd (omega (arith, h.0)))
is_key_prefix_iff (c ∷ s) = ground arith
