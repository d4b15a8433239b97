-- ===== src/Http/SignupLimit/Tidiness.antt =====
-- The map of the sign-up limit: its lists of times, and what putting and sweeping do to it.
use go_rate_limiter.Prelude.{
  ℕ, ◌+◌, ◌≤◌, ◌<◌, ◌≡◌, refl, sym, inl, inr, true, false, List, [], ◌∷◌, ◌++◌, ltb, length, arith,
  Bool-cases,
}
use go_rate_limiter.Prelude.Text.{Text, text_eq, text_eq_refl, text_eq_iff}
use go_rate_limiter.Http.SignupLimit.{Seen, times_of, put_times, last_or, recent, is_stale, sweep}

module _ (window : ℕ) where
  pub recent-recent :
      (now later : ℕ) (ts : List ℕ)
      → now ≤ later
      → recent window later (recent window now ts) ≡ recent window later ts
  recent-recent now later [] h = refl
  recent-recent now later (t ∷ ts) h = ground (arith, recent-recent now later ts h)

  pub recent-append :
      (now : ℕ) (ts us : List ℕ)
      → recent window now (ts ++ us) ≡ recent window now ts ++ recent window now us
  recent-append now [] us = refl
  recent-append now (t ∷ ts) us = ground (arith, recent-append now ts us)

  pub length-recent-le :
      (now later : ℕ) (ts : List ℕ)
      → now ≤ later
      → length (recent window later ts) ≤ length (recent window now ts)
  length-recent-le now later [] h = omega arith
  length-recent-le now later (t ∷ ts) h = ground (arith, length-recent-le now later ts h)

abbrev From : ℕ → List ℕ → Type 0
From t [] = Unit {0}
From t (u ∷ us) = (t ≤ u) × From t us

abbrev pub Ascends : List ℕ → Type 0
Ascends [] = Unit {0}
Ascends (t ∷ ts) = From t ts × Ascends ts

abbrev pub Before : ℕ → List ℕ → Type 0
Before now [] = Unit {0}
Before now (t ∷ ts) = (t ≤ now) × Before now ts

From-last : (t d : ℕ) (ts : List ℕ) → t ≤ d → From t ts → t ≤ last_or d ts
From-last t d [] h f = h
From-last t d (u ∷ us) h (k, f) = From-last t u us k f

recent-From : (window now t : ℕ) (ts : List ℕ) → From t ts → From t (recent window now ts)
recent-From window now t [] f = tt
recent-From window now t (u ∷ us) (h, f) = elim (Bool-cases (ltb now (u + window))) [
  | inl e ↦ rw e (h, recent-From window now t us f)
  | inr e ↦ rw e (recent-From window now t us f)
]

pub recent-Ascends : (window now : ℕ) (ts : List ℕ) → Ascends ts → Ascends (recent window now ts)
recent-Ascends window now [] a = tt
recent-Ascends window now (t ∷ ts) (f, a) = elim (Bool-cases (ltb now (t + window))) [
  | inl e ↦ rw e (recent-From window now t ts f, recent-Ascends window now ts a)
  | inr e ↦ rw e (recent-Ascends window now ts a)
]

pub recent-Before : (window now t : ℕ) (ts : List ℕ) → Before t ts → Before t (recent window now ts)
recent-Before window now t [] b = tt
recent-Before window now t (u ∷ us) (h, b) = elim (Bool-cases (ltb now (u + window))) [
  | inl e ↦ rw e (h, recent-Before window now t us b)
  | inr e ↦ rw e (recent-Before window now t us b)
]

pub Before-mono : (t now : ℕ) (ts : List ℕ) → t ≤ now → Before t ts → Before now ts
Before-mono t now [] h b = tt
Before-mono t now (u ∷ us) h (k, b) = (omega arith, Before-mono t now us h b)

From-append : (t now : ℕ) (ts : List ℕ) → t ≤ now → From t ts → From t (ts ++ now ∷ [])
From-append t now [] h f = (h, tt)
From-append t now (u ∷ us) h (k, f) = (k, From-append t now us h f)

pub Ascends-append : (now : ℕ) (ts : List ℕ) → Before now ts → Ascends ts → Ascends (ts ++ now ∷ [])
Ascends-append now [] b a = (tt, tt)
Ascends-append now (t ∷ ts) (h, b) (f, a) = (From-append t now ts h f, Ascends-append now ts b a)

pub Before-append : (now : ℕ) (ts : List ℕ) → Before now ts → Before now (ts ++ now ∷ [])
Before-append now [] b = (omega arith, tt)
Before-append now (t ∷ ts) (h, b) = (h, Before-append now ts b)

-- Where the last time has passed out of the window, all have.
stale-recent :
    (window now later t : ℕ) (ts : List ℕ)
    → now ≤ later
    → Ascends (t ∷ ts)
    → last_or t ts + window < now
    → recent window later (t ∷ ts) ≡ []
stale-recent window now later t [] h a s = ground arith
stale-recent window now later t (u ∷ ts) h ((low, f), a) s =
    let rest = stale-recent window now later u ts h a s in
    let last = From-last t u ts low f in ground (arith, rest, last)

is_stale-recent :
    (window now later : ℕ) (ts : List ℕ)
    → now ≤ later
    → Ascends ts
    → is_stale window now ts ≡ true
    → recent window later ts ≡ []
is_stale-recent window now later [] h a s = refl
is_stale-recent window now later (t ∷ ts) h a s =
    stale-recent window now later t ts h a (ground arith)

pub times-put_self :
    (client : Text) (ts : List ℕ) (seen : Seen) → times_of client (put_times client ts seen) ≡ ts
times-put_self client ts [] = ground (arith, text_eq_refl client)
times-put_self client ts ((k, v) ∷ seen) = ground (arith, times-put_self client ts seen)

pub times-put_other :
    (client other : Text) (ts : List ℕ) (seen : Seen)
    → text_eq client other ≡ false
    → times_of other (put_times client ts seen) ≡ times_of other seen
times-put_other client other ts [] n = ground arith
times-put_other client other ts ((k, v) ∷ seen) n =
    ground (arith, times-put_other client other ts seen n, text_eq_iff k client)

abbrev Absent : Text → Seen → Type 0
Absent k [] = Unit {0}
Absent k ((l, v) ∷ seen) = (text_eq l k ≡ false) × Absent k seen

-- Each client stands once, with times in their order and none after `now`.
abbrev pub Tidy : ℕ → Seen → Type 0
Tidy now [] = Unit {0}
Tidy now ((k, v) ∷ seen) = Ascends v × Before now v × Absent k seen × Tidy now seen

Absent-times :
    (k client : Text) (seen : Seen)
    → Absent k seen
    → text_eq k client ≡ true
    → times_of client seen ≡ []
Absent-times k client [] a e = refl
Absent-times k client ((l, v) ∷ seen) (n, a) e =
    let other : text_eq l client ≡ false = rw (← (text_eq_iff k client).0 e) n in
    rw other (Absent-times k client seen a e)

text_eq-flip : (a b : Text) → text_eq a b ≡ false → text_eq b a ≡ false
text_eq-flip a b n = elim (Bool-cases (text_eq b a)) [
  | inl e ↦ let yes = (text_eq_iff a b).1 (sym ((text_eq_iff b a).0 e)) in absurd (cc)
  | inr e ↦ e
]

Absent-put :
    (k client : Text) (ts : List ℕ) (seen : Seen)
    → Absent k seen
    → text_eq client k ≡ false
    → Absent k (put_times client ts seen)
Absent-put k client ts [] a n = (n, tt)
Absent-put k client ts ((l, v) ∷ seen) (m, a) n = elim (Bool-cases (text_eq l client)) [
  | inl e ↦ rw e (m, a)
  | inr e ↦ rw e (m, Absent-put k client ts seen a n)
]

Absent-sweep :
    (window now : ℕ) (k : Text) (seen : Seen) → Absent k seen → Absent k (sweep window now seen)
Absent-sweep window now k [] a = tt
Absent-sweep window now k ((l, v) ∷ seen) (n, a) = elim (Bool-cases (is_stale window now v)) [
  | inl e ↦ rw e (Absent-sweep window now k seen a)
  | inr e ↦ rw e (n, Absent-sweep window now k seen a)
]

pub Tidy-mono : (t now : ℕ) (seen : Seen) → t ≤ now → Tidy t seen → Tidy now seen
Tidy-mono t now [] h g = tt
Tidy-mono t now ((k, v) ∷ seen) h (a, b, c, g) =
    (a, Before-mono t now v h b, c, Tidy-mono t now seen h g)

pub Tidy-put :
    (now : ℕ) (client : Text) (ts : List ℕ) (seen : Seen)
    → Ascends ts
    → Before now ts
    → Tidy now seen
    → Tidy now (put_times client ts seen)
Tidy-put now client ts [] a b g = (a, b, tt, tt)
Tidy-put now client ts ((k, v) ∷ seen) a b (x, y, z, g) = elim (Bool-cases (text_eq k client)) [
  | inl e ↦ rw e (a, b, z, g)
  | inr e ↦ rw e (
    x,
    y,
    Absent-put k client ts seen z (text_eq-flip k client e),
    Tidy-put now client ts seen a b g,
  )
]

pub Tidy-sweep : (window now : ℕ) (seen : Seen) → Tidy now seen → Tidy now (sweep window now seen)
Tidy-sweep window now [] g = tt
Tidy-sweep window now ((k, v) ∷ seen) (a, b, c, g) = elim (Bool-cases (is_stale window now v)) [
  | inl e ↦ rw e (Tidy-sweep window now seen g)
  | inr e ↦ rw e (a, b, Absent-sweep window now k seen c, Tidy-sweep window now seen g)
]

-- Sweeping forgets nothing that still counts.
pub sweep-times :
    (window now later : ℕ) (client : Text) (seen : Seen)
    → now ≤ later
    → Tidy now seen
    → recent window later (times_of client (sweep window now seen))
      ≡ recent window later (times_of client seen)
sweep-times window now later client [] h g = refl
sweep-times window now later client ((k, v) ∷ seen) h (a, b, c, g) =
    elim (Bool-cases (is_stale window now v)) [
      | inl e ↦ elim (Bool-cases (text_eq k client)) [
        | inl f ↦
            let gone =
              Absent-times k client (sweep window now seen) (Absent-sweep window now k seen c) f in
            rw (e, f, gone) (sym (is_stale-recent window now later v h a e))
        | inr f ↦ rw (e, f) (sweep-times window now later client seen h g)
      ]
      | inr e ↦ elim (Bool-cases (text_eq k client)) [
        | inl f ↦ rw (e, f) refl
        | inr f ↦ rw (e, f) (sweep-times window now later client seen h g)
      ]
    ]
