-- ===== src/Examples/Services/Limited.antt =====
-- What examples/order-service and examples/payment-service do with a decision.
use go_rate_limiter.Prelude.{
  ℕ, ◌≡◌, refl, sym, subst, if◌then◌else◌, ◌↔◌, inl, inr, true, false, arith, Bool-cases, String,
}
use go_rate_limiter.Prelude.Int.{pos}
use go_rate_limiter.Errors.{Error, Result, ok, err, Result-cases}
use go_rate_limiter.Http.{Headers, Request, Response, write_json, write_error}
use go_rate_limiter.Examples.Client.{Decision}
use go_rate_limiter.Examples.Services.{
  Checker, limited, create_order, create_payment, order_created, payment_created,
}

-- What a status says of the answer to the check.
abbrev pub Reflects : Result Decision → ℕ → Type 0
Reflects asked status =
    ((status ≡ 201) ↔ ((dec : Decision) × (asked ≡ ok dec) × (dec.allowed ≡ true)))
    × ((status ≡ 429) ↔ ((dec : Decision) × (asked ≡ ok dec) × (dec.allowed ≡ false)))
    × ((status ≡ 503) ↔ ((e : Error) × (asked ≡ err e)))

Reflects-201 : (dec : Decision) → dec.allowed ≡ true → Reflects (ok dec) 201
Reflects-201 dec a = (
  ((λ _. (dec, refl, a)), λ _. refl),
  ((λ h. absurd (omega arith)), λ h. let e = h.1 in let f = h.2 in absurd (ground (arith, e, f))),
  ((λ h. absurd (omega arith)), λ h. let e = h.1 in absurd (cc)),
)

Reflects-429 : (dec : Decision) → dec.allowed ≡ false → Reflects (ok dec) 429
Reflects-429 dec a = (
  ((λ h. absurd (omega arith)), λ h. let e = h.1 in let f = h.2 in absurd (ground (arith, e, f))),
  ((λ _. (dec, refl, a)), λ _. refl),
  ((λ h. absurd (omega arith)), λ h. let e = h.1 in absurd (cc)),
)

Reflects-503 : (e : Error) → Reflects (err e) 503
Reflects-503 e = (
  ((λ h. absurd (omega arith)), λ h. let f = h.1 in absurd (cc)),
  ((λ h. absurd (omega arith)), λ h. let f = h.1 in absurd (cc)),
  ((λ _. (e, refl)), λ _. refl),
)

abbrev status_of : Result Decision → ℕ
status_of (err e) = 503
status_of (ok dec) = if dec.allowed then 201 else 429

Reflects-status_of : (asked : Result Decision) → Reflects asked (status_of asked)
Reflects-status_of (err e) = Reflects-503 e
Reflects-status_of (ok dec) = elim (Bool-cases dec.allowed) [
  | inl a ↦ subst (λ (n : ℕ). Reflects (ok dec) n) (ground (arith, a)) (Reflects-201 dec a)
  | inr a ↦ subst (λ (n : ℕ). Reflects (ok dec) n) (ground (arith, a)) (Reflects-429 dec a)
]

module _ {S : Type 0} (check : Checker S) (hs : Headers) (r : Request) (s : S) where
  limited_status :
      (message : String) (serve : Decision → Headers → Response)
      → ((dec : Decision) → (serve dec hs).status ≡ 201)
      → (limited check message serve hs r s).0.status ≡ status_of (check r.path (pos 1) s).0
  unfolding limited write_json write_error
  limited_status message serve created = elim (Result-cases (check r.path (pos 1) s).0) [
    | inr (e, f) ↦ rw (f, limited) refl
    | inl (dec, f) ↦ rw (f, limited) (ground (arith, created dec))
  ]

  limited-Reflects :
      (message : String) (serve : Decision → Headers → Response)
      → ((dec : Decision) → (serve dec hs).status ≡ 201)
      → Reflects (check r.path (pos 1) s).0 (limited check message serve hs r s).0.status
  limited-Reflects message serve created =
      let asked = (check r.path (pos 1) s).0 in
      subst (λ (n : ℕ). Reflects asked n) (sym (limited_status message serve created))
        (Reflects-status_of asked)

  -- Both services do their work, and answer 201, exactly for a request that the limiter has allowed;
  -- they answer 429 exactly for one that it has denied, and 503 exactly where the check has failed.
  pub services-Reflects :
      let asked = (check r.path (pos 1) s).0 in
      Reflects asked (create_order check hs r s).0.status
      × Reflects asked (create_payment check hs r s).0.status
  unfolding create_order create_payment write_json
  services-Reflects = (
    limited-Reflects "order rate limit exceeded — try again later" order_created (λ dec. refl),
    limited-Reflects "payment rate limit exceeded — try again later" (payment_created r)
        (λ dec. refl),
  )
