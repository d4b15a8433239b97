-- ===== src/Examples/Client/Accepted.antt =====
-- Which answers the client of examples/ratelimitclient takes for a decision.
use go_rate_limiter.Prelude.{
  ◌≡◌, ◌≢◌, ◌∙◌, refl, subst, true, false, Option, none, [], sym, ap, ◌↔◌, ◌⊎◌, inl, inr, some,
  take, arith, ◌==◌, ==_iff, Bool-cases, Option-cases,
}
use go_rate_limiter.Prelude.Int.{ℤ, pos, negsuc, eqb_ℤ}
use go_rate_limiter.Prelude.Decimal.{parse_int}
use go_rate_limiter.Prelude.Text.{Text, text_eq, text_eq_iff}
use go_rate_limiter.Errors.{ok}
use go_rate_limiter.Http.{CheckResponse}
use go_rate_limiter.Examples.Client.{
  Decision, Answer, Codec, answer_limit, header_retry_after, decision_of, read_answer,
}

-- The seconds to wait that an answer states: those of the object where they are given and not 0, else
-- those of the header, and 0 where the header is no number.
abbrev pub Waits : Answer → Option ℤ → ℤ → Type 0
Waits answer given wait =
    ((given ≡ some wait) × (wait ≢ pos 0))
    ⊎ (((given ≡ none) ⊎ (given ≡ some (pos 0)))
        × ((parse_int (answer.header "Retry-After") ≡ some wait)
            ⊎ ((parse_int (answer.header "Retry-After") ≡ none) × (wait ≡ pos 0))))

-- A decision with the fields of an object.
pub record Reads (answer : Answer) (parsed : CheckResponse) (dec : Decision) : Type 0 where
  pub allowed : dec.allowed ≡ parsed.allowed
  pub limit : dec.limit ≡ parsed.limit
  pub remaining : dec.remaining ≡ parsed.remaining
  pub reset_at : dec.reset_at ≡ parsed.reset_at
  pub algorithm : dec.algorithm ≡ parsed.algorithm
  pub wait : Waits answer parsed.retry_after dec.retry_after

-- An answer with a decision.
pub record IsDecided (codec : Codec) (answer : Answer) (dec : Decision) : Type 0 where
  pub body : Text
  pub parsed : CheckResponse
  pub whole : answer.body ≡ some body
  pub status : (answer.status ≡ 200) ⊎ (answer.status ≡ 429)
  pub decoded : codec.unmarshal (take answer_limit body) ≡ some parsed
  pub fields : Reads answer parsed dec

eqb_ℤ-zero : (n : ℤ) → eqb_ℤ n (pos 0) ≡ true → n ≡ pos 0
eqb_ℤ-zero (pos n) h = ap pos (ground arith)
eqb_ℤ-zero (negsuc n) h = absurd (ground arith)

eqb_ℤ-nonzero : (n : ℤ) → eqb_ℤ n (pos 0) ≡ false → n ≢ pos 0
eqb_ℤ-nonzero n h e = let same = rw e at h in cc

-- What the header says.
header-cases :
    (answer : Answer)
    → (parse_int (answer.header "Retry-After") ≡ some (header_retry_after answer))
      ⊎ ((parse_int (answer.header "Retry-After") ≡ none) × (header_retry_after answer ≡ pos 0))
unfolding header_retry_after parse_int
header-cases answer = elim (Bool-cases (text_eq (answer.header "Retry-After") [])) [
  | inl e ↦
      let empty = (text_eq_iff (answer.header "Retry-After") []).0 e in
      inr (rw empty refl, rw (e, header_retry_after) refl)
  | inr e ↦ elim (Option-cases (parse_int (answer.header "Retry-After"))) [
    | inl f ↦ inr (f, rw (e, f, header_retry_after) refl)
    | inr (n, f) ↦ inl (rw (e, f, header_retry_after) refl)
  ]
]

Waits-decision_of :
    (answer : Answer) (parsed : CheckResponse)
    → Waits answer parsed.retry_after (decision_of answer parsed).retry_after
unfolding decision_of
Waits-decision_of answer parsed = elim (Option-cases parsed.retry_after) [
  | inl e ↦ rw (e, decision_of) (inr (inl refl, header-cases answer))
  | inr (n, e) ↦ elim (Bool-cases (eqb_ℤ n (pos 0))) [
    | inl z ↦ rw (e, z, decision_of) (inr (inr (ap some (eqb_ℤ-zero n z)), header-cases answer))
    | inr z ↦ rw (e, z, decision_of) (inl (refl, eqb_ℤ-nonzero n z))
  ]
]

Reads-decision_of :
    (answer : Answer) (parsed : CheckResponse) → Reads answer parsed (decision_of answer parsed)
unfolding decision_of
Reads-decision_of answer parsed = record {
  allowed = refl;
  limit = refl;
  remaining = refl;
  reset_at = refl;
  algorithm = refl;
  wait = Waits-decision_of answer parsed;
}

-- An answer states one time to wait.
Waits-unique :
    (answer : Answer) (given : Option ℤ) (a b : ℤ)
    → Waits answer given a
    → Waits answer given b
    → a ≡ b
Waits-unique answer given a b (inl (e, n)) (inl (f, m)) = cc
Waits-unique answer given a b (inl (e, n)) (inr (inl f, _)) = absurd (cc)
Waits-unique answer given a b (inl (e, n)) (inr (inr f, _)) = absurd (n (cc))
Waits-unique answer given a b (inr (inl e, _)) (inl (f, m)) = absurd (cc)
Waits-unique answer given a b (inr (inr e, _)) (inl (f, m)) = absurd (m (cc))
Waits-unique answer given a b (inr (_, inl e)) (inr (_, inl f)) = cc
Waits-unique answer given a b (inr (_, inl e)) (inr (_, inr (f, z))) = absurd (cc)
Waits-unique answer given a b (inr (_, inr (e, y))) (inr (_, inl f)) = absurd (cc)
Waits-unique answer given a b (inr (_, inr (e, y))) (inr (_, inr (f, z))) = y ∙ sym z

Reads-unique :
    (answer : Answer) (parsed : CheckResponse) (dec : Decision)
    → Reads answer parsed dec
    → dec ≡ decision_of answer parsed
Reads-unique answer parsed dec r =
    let it = Reads-decision_of answer parsed in
    let waits =
      Waits-unique answer parsed.retry_after dec.retry_after (decision_of answer parsed).retry_after
        r.wait it.wait in
    λ i. record {
      allowed = (r.allowed ∙ sym it.allowed) i;
      limit = (r.limit ∙ sym it.limit) i;
      remaining = (r.remaining ∙ sym it.remaining) i;
      reset_at = (r.reset_at ∙ sym it.reset_at) i;
      retry_after = waits i;
      algorithm = (r.algorithm ∙ sym it.algorithm) i;
    }

module _ (codec : Codec) (answer : Answer) (dec : Decision) where
  IsDecided-ok : IsDecided codec answer dec → read_answer codec answer ≡ ok dec
  unfolding read_answer
  IsDecided-ok i = elim i.status [
    | inl st ↦
        rw (i.whole, st, i.decoded, read_answer)
          (ap ok (sym (Reads-unique answer i.parsed dec i.fields)))
    | inr st ↦
        rw (i.whole, st, i.decoded, read_answer)
          (ap ok (sym (Reads-unique answer i.parsed dec i.fields)))
  ]

  status-decided :
      (body : Text)
      → answer.body ≡ some body
      → read_answer codec answer ≡ ok dec
      → (answer.status ≡ 200) ⊎ (answer.status ≡ 429)
  unfolding read_answer
  status-decided body b h = elim (Bool-cases (answer.status == 200)) [
    | inl e ↦ inl ((==_iff answer.status 200).0 e)
    | inr e ↦ elim (Bool-cases (answer.status == 429)) [
      | inl f ↦ inr ((==_iff answer.status 429).0 f)
      | inr f ↦ absurd (ground (arith, b, e, f))
    ]
  ]

  ok-IsDecided : read_answer codec answer ≡ ok dec → IsDecided codec answer dec
  unfolding read_answer
  ok-IsDecided h = elim (Option-cases answer.body) [
    | inl b ↦ absurd (ground (arith, b))
    | inr (body, b) ↦ elim (Option-cases (codec.unmarshal (take answer_limit body))) [
      | inl u ↦ absurd (ground (arith, b, u, status-decided body b h))
      | inr (parsed, u) ↦ record {
        body = body;
        parsed = parsed;
        whole = b;
        status = status-decided body b h;
        decoded = u;
        fields =
            let same : dec ≡ decision_of answer parsed =
              ground (arith, b, u, status-decided body b h) in
            subst (Reads answer parsed) (sym same) (Reads-decision_of answer parsed);
      }
    ]
  ]

  -- The client takes an answer for a decision exactly if its status is 200 or 429 and its body can be
  -- read and decoded, and exactly as the decision with the fields of the body, each for itself; the
  -- seconds to wait are those of the body, or where it gives none or 0 those of the header, or 0.
  pub read_answer_iff : (read_answer codec answer ≡ ok dec) ↔ IsDecided codec answer dec
  read_answer_iff = (ok-IsDecided, IsDecided-ok)
