-- ===== src/Http/SignupLimit/Windows.antt =====
-- The sign-up limit against the plain record of all sign-ups that it has let through.
use go_rate_limiter.Prelude.{
  ℕ, ◌≤◌, ◌<◌, ◌≡◌, refl, ◌∙◌, ap, ◌↔◌, inl, inr, Bool, true, false, List, [], ◌∷◌, ◌++◌,
  if◌then◌else◌, leb, length, length-append, arith, Bool-cases,
}
use go_rate_limiter.Prelude.Text.{Text, text_eq, text_eq_refl, text_eq_iff}
use go_rate_limiter.Http.SignupLimit.{Seen, times_of, put_times, recent, sweep, allow}
use go_rate_limiter.Http.SignupLimit.Tidiness.{
  Ascends, Before, Tidy, recent-recent, recent-append, length-recent-le, recent-Ascends,
  recent-Before, Ascends-append, Before-append, times-put_self, times-put_other, Tidy-mono,
  Tidy-put, Tidy-sweep, sweep-times,
}

-- The sign-ups that were let through, the last one at the end.
abbrev pub History : Type 0
History = List (Text × ℕ)

abbrev pub signups : Text → History → List ℕ
signups client [] = []
signups client ((k, t) ∷ hist) =
    if text_eq k client then t ∷ signups client hist else signups client hist

abbrev pub logged : Bool → Text → ℕ → History → History
logged passes client now hist = if passes then hist ++ (client, now) ∷ [] else hist

signups_self :
    (client : Text) (now : ℕ) (hist : History)
    → signups client (hist ++ (client, now) ∷ []) ≡ signups client hist ++ now ∷ []
signups_self client now [] = ground (arith, text_eq_refl client)
signups_self client now ((k, t) ∷ hist) = ground (arith, signups_self client now hist)

signups-other :
    (client other : Text) (now : ℕ) (hist : History)
    → text_eq client other ≡ false
    → signups other (hist ++ (client, now) ∷ []) ≡ signups other hist
signups-other client other now [] n = ground arith
signups-other client other now ((k, t) ∷ hist) n =
    ground (arith, signups-other client other now hist n)

times-Tidy :
    (now : ℕ) (client : Text) (seen : Seen)
    → Tidy now seen
    → Ascends (times_of client seen) × Before now (times_of client seen)
times-Tidy now client [] g = (tt, tt)
times-Tidy now client ((k, v) ∷ seen) (a, b, c, g) = elim (Bool-cases (text_eq k client)) [
  | inl e ↦ rw e (a, b)
  | inr e ↦ rw e (times-Tidy now client seen g)
]

module _ (limit window : ℕ) where
  -- The states that visits of clients lead to, in the order of time.
  pub data Reached : ℕ → History → Seen → Type 0 where
    start : Reached 0 [] []
    visit :
        {t : ℕ} {hist : History} {seen : Seen} (client : Text) (now : ℕ)
        → t ≤ now
        → Reached t hist seen
        → Reached now
            (logged (allow window now limit client seen).0 client now hist)
            (allow window now limit client seen).1

  -- The map shows of each client what still counts of the history.
  abbrev Shows : ℕ → History → Seen → Type 0
  Shows t hist seen =
      (client : Text) (later : ℕ)
      → t ≤ later
      → recent window later (times_of client seen) ≡ recent window later (signups client hist)

  abbrev Capped : ℕ → History → Type 0
  Capped t hist = (client : Text) → length (recent window t (signups client hist)) ≤ limit

  record Faithful (t : ℕ) (hist : History) (seen : Seen) : Type 0 where
    tidy : Tidy t seen
    shows : Shows t hist seen
    capped : Capped t hist

  module _ (t now : ℕ) (hist : History) (seen : Seen) (client : Text) (h : t ≤ now)
      (f : Faithful t hist seen) where
    abbrev kept : List ℕ
    kept = recent window now (times_of client seen)

    Tidy-now : Tidy now seen
    Tidy-now = Tidy-mono t now seen h f.tidy

    kept-Ascends : Ascends kept
    kept-Ascends =
        recent-Ascends window now (times_of client seen) (times-Tidy now client seen Tidy-now).0

    kept-Before : Before now kept
    kept-Before =
        recent-Before window now now (times_of client seen) (times-Tidy now client seen Tidy-now).1

    still-Capped : Capped now hist
    still-Capped c = omega (arith, length-recent-le window t now (signups c hist) h, f.capped c)

    -- The visit is refused.
    refused-Shows : Shows now hist (put_times client kept seen)
    refused-Shows c later k = elim (Bool-cases (text_eq client c)) [
      | inl e ↦
          rw (← (text_eq_iff client c).0 e, times-put_self client kept seen)
            (recent-recent window now later (times_of client seen) k
              ∙ f.shows client later (omega arith))
      | inr e ↦ rw (times-put_other client c kept seen e) (f.shows c later (omega arith))
    ]

    abbrev grown : History
    grown = hist ++ (client, now) ∷ []

    -- The visit is let through.
    passed-Shows : Shows now grown (put_times client (kept ++ now ∷ []) seen)
    passed-Shows c later k = elim (Bool-cases (text_eq client c)) [
      | inl e ↦
          rw
            (
              ← (text_eq_iff client c).0 e,
              times-put_self client (kept ++ now ∷ []) seen,
              signups_self client now hist,
              recent-append window later kept (now ∷ []),
              recent-append window later (signups client hist) (now ∷ []),
            )
            (ap (λ (ts : List ℕ). ts ++ recent window later (now ∷ []))
              (recent-recent window now later (times_of client seen) k
                ∙ f.shows client later (omega arith)))
      | inr e ↦
          rw (times-put_other client c (kept ++ now ∷ []) seen e, signups-other client c now hist e)
            (f.shows c later (omega arith))
    ]

    passed-Capped : length kept < limit → Capped now grown
    passed-Capped low c = elim (Bool-cases (text_eq client c)) [
      | inl e ↦
          rw
            (
              ← (text_eq_iff client c).0 e,
              signups_self client now hist,
              recent-append window now (signups client hist) (now ∷ []),
              length-append (recent window now (signups client hist))
                  (recent window now (now ∷ [])),
            )
            (ground (arith, ap length (f.shows client now h), low))
      | inr e ↦ rw (signups-other client c now hist e) (still-Capped c)
    ]

    passed-Tidy : Tidy now (put_times client (kept ++ now ∷ []) seen)
    passed-Tidy =
        Tidy-put now client (kept ++ now ∷ []) seen
          (Ascends-append now kept kept-Before kept-Ascends) (Before-append now kept kept-Before)
          Tidy-now

    passed-swept :
        (over : Bool)
        → let added = put_times client (kept ++ now ∷ []) seen in
          length kept < limit → Faithful now grown (if over then sweep window now added else added)
    passed-swept false low = record {
      tidy = passed-Tidy;
      shows = passed-Shows;
      capped = passed-Capped low;
    }
    passed-swept true low =
        let added = put_times client (kept ++ now ∷ []) seen in
        record {
          tidy = Tidy-sweep window now added passed-Tidy;
          shows = λ c later k.
              sweep-times window now later c added k passed-Tidy ∙ passed-Shows c later k;
          capped = passed-Capped low;
        }

    allow-Faithful :
        Faithful now
          (logged (allow window now limit client seen).0 client now hist)
          (allow window now limit client seen).1
    unfolding allow
    allow-Faithful = elim (Bool-cases (leb limit (length kept))) [
      | inl e ↦
          rw (e, allow)
            (record {
              tidy = Tidy-put now client kept seen kept-Ascends kept-Before Tidy-now;
              shows = refused-Shows;
              capped = still-Capped;
            })
      | inr e ↦ rw (e, allow) (passed-swept _ (ground (arith, e)))
    ]

  Reached-Faithful :
      {t : ℕ} {hist : History} {seen : Seen} → Reached t hist seen → Faithful t hist seen
  Reached-Faithful start = record {
    tidy = tt;
    shows = λ c later k. refl;
    capped = λ c. omega arith;
  }
  Reached-Faithful (visit {t} {hist} {seen} client now h r) =
      allow-Faithful t now hist seen client h (Reached-Faithful r)

  -- In every state that visits in the order of time lead to, the next visit of a client is let
  -- through exactly if the client has signed up fewer times than the limit within the window before
  -- it, although the map forgets times and whole clients.
  pub allow_iff :
      (t : ℕ) (hist : History) (seen : Seen) (client : Text) (now : ℕ)
      → Reached t hist seen
      → t ≤ now
      → ((allow window now limit client seen).0 ≡ true)
        ↔ (length (recent window now (signups client hist)) < limit)
  unfolding allow
  allow_iff t hist seen client now r h =
      let same = ap length ((Reached-Faithful r).shows client now h) in
      elim (Bool-cases (leb limit (length (recent window now (times_of client seen))))) [
        | inl e ↦ rw (e, allow) ((λ x. absurd (cc)), λ x. absurd (ground (arith, e, same, x)))
        | inr e ↦ rw (e, allow) ((λ x. ground (arith, e, same)), λ x. refl)
      ]

  -- No client ever signs up more often than the limit allows within one window.
  signups-le :
      (t : ℕ) (hist : History) (seen : Seen) (client : Text)
      → Reached t hist seen
      → length (recent window t (signups client hist)) ≤ limit
  signups-le t hist seen client r = (Reached-Faithful r).capped client
