-- ===== src/Http/CheckHandler/Answers.antt =====
-- Which checks internal/transport/http/handlers/check.go makes, and how each outcome is answered.
use text.Mathlib.Text.{◌==◌ as str_eq}
use text.Mathlib.TextEquality.{eq_iff}
use go_rate_limiter.Prelude.{
  ℕ, if◌then◌else◌, ◌≤◌, ◌≡◌, ◌≢◌, refl, sym, ap, ◌∙◌, ◌↔◌, ltb, ◌⊎◌, inl, inr, true, false, Option,
  none, some, String, [], ◌∷◌, length, arith, Bool-cases, Option-cases, take,
}
use go_rate_limiter.Prelude.Int.{ℤ, pos, negsuc, leb_ℤ}
use go_rate_limiter.Prelude.Text.{Text, text_eq, text_eq_iff, trim_space}
use go_rate_limiter.Errors.{Error, Result, ok, err}
use go_rate_limiter.Entity.{Uuid, RateLimitDecision}
use go_rate_limiter.Observability.{Metrics, record_rate_limit_check}
use go_rate_limiter.Http.{
  Request, Response, Headers, HeaderValue, number, word, rate_limit_headers, set_header, get_header,
  write_json, write_error, apply_rate_limit_headers, check_status_code, format_retry_after,
}
use go_rate_limiter.Http.HeaderLaws.{get_header-set_other, get_header-set_header}
use go_rate_limiter.Http.CheckHandler.{
  CheckRequest, RateLimitChecker, max_route_len, max_subject_len, max_cost, bounded_request,
  read_request, max_body, respond, run_check, check_handler, decoded,
}

-- The cost that a number in a request stands for.
abbrev pub Charges : ℤ → ℕ → Type 0
Charges given n = ((leb_ℤ given (pos 0) ≡ true) × (n ≡ 1)) ⊎ ((given ≡ pos n) × (1 ≤ n))

-- What the handler asks of the checker for the fields of a body: the route and the subject without
-- the spaces around them, and the cost, within their bounds.
pub record IsAsked (raw req : CheckRequest) : Type 0 where
  pub route : req.route ≡ trim_space raw.route
  pub subject : req.subject ≡ trim_space raw.subject
  pub routed : req.route ≢ []
  pub short_route : length req.route ≤ 512
  pub short_subject : length req.subject ≤ 256
  pub charged : (n : ℕ) × (req.cost ≡ pos n) × Charges raw.cost n × (n ≤ 1_000_000)

abbrev charged_cost : ℤ → ℤ
charged_cost c = if leb_ℤ c (pos 0) then pos 1 else c

bounded_cost : (n : ℕ) → leb_ℤ (pos n) (pos max_cost) ≡ true → n ≤ 1_000_000
bounded_cost n h = ground arith

charged_cost-Charges : (c : ℤ) → (n : ℕ) × (charged_cost c ≡ pos n) × Charges c n
charged_cost-Charges (negsuc n) = elim (Bool-cases (leb_ℤ (negsuc n) (pos 0))) [
  | inl e ↦ (1, rw e refl, inl (e, refl))
  | inr e ↦ absurd (ground (arith, e))
]
charged_cost-Charges (pos n) = elim (Bool-cases (leb_ℤ (pos n) (pos 0))) [
  | inl e ↦ (1, rw e refl, inl (e, refl))
  | inr e ↦ (n, rw e refl, inr (refl, ground (arith, e)))
]

Charges-cost : (c : ℤ) (n : ℕ) → Charges c n → charged_cost c ≡ pos n
Charges-cost c n (inl (e, one)) = rw e (ap pos (sym one))
Charges-cost c n (inr (e, h)) = rw e (ground arith)

bounded_request→ : (raw req : CheckRequest) → bounded_request raw ≡ some req → IsAsked raw req
unfolding bounded_request
bounded_request→ raw req h =
    let (n, cost, charges) = charged_cost-Charges raw.cost in
    let sent : req.cost ≡ charged_cost raw.cost = ground arith in
    let small : leb_ℤ (charged_cost raw.cost) (pos max_cost) ≡ true = ground arith in
    record {
      route = ground arith;
      subject = ground arith;
      routed = ground (arith, text_eq_iff (trim_space raw.route) []);
      short_route = ground arith;
      short_subject = ground arith;
      charged = (n, sent ∙ cost, charges, bounded_cost n (rw cost at small));
    }

bounded_request← : (raw req : CheckRequest) → IsAsked raw req → bounded_request raw ≡ some req
unfolding bounded_request
bounded_request← raw req a =
    let (n, cost, charges, small) = a.charged in
    let cost_is = Charges-cost raw.cost n charges in
    let given : text_eq (trim_space raw.route) [] ≡ false =
      ground (arith, a.routed, a.route, text_eq_iff (trim_space raw.route) []) in
    let short : ltb max_route_len (length (trim_space raw.route)) ≡ false =
      ground (arith, ap length a.route, a.short_route) in
    let short' : ltb max_subject_len (length (trim_space raw.subject)) ≡ false =
      ground (arith, ap length a.subject, a.short_subject) in
    let cheap : leb_ℤ (pos n) (pos max_cost) ≡ true = ground (arith, small) in
    rw (given, short, short', cost_is, cheap, bounded_request)
      λ i. some (record { route = sym a.route i; subject = sym a.subject i; cost = sym cost i })

decoded-nonempty :
    (unmarshal : Text → Option CheckRequest) (t : Text) → t ≢ [] → decoded unmarshal t ≡ unmarshal t
decoded-nonempty unmarshal [] n = absurd (n refl)
decoded-nonempty unmarshal (c ∷ t) n = refl

-- A body with nothing in it has no route.
empty-unasked :
    (unmarshal : Text → Option CheckRequest) (t : Text) (raw req : CheckRequest)
    → decoded unmarshal t ≡ some raw
    → IsAsked raw req
    → t ≢ []
unfolding trim_space
empty-unasked unmarshal [] raw req d a e =
    let route : raw.route ≡ [] = ground (arith, d) in a.routed (a.route ∙ rw route refl)
empty-unasked unmarshal (c ∷ t) raw req d a e = cc

module _ (unmarshal : Text → Option CheckRequest) where
  -- The request asks for this: its body, as far as it is read, is not empty and is decoded to it.
  pub record Asks (r : Request) (req : CheckRequest) : Type 0 where
    pub body : Text
    pub raw : CheckRequest
    pub sent : r.body ≡ some body
    pub nonempty : take 1_048_576 body ≢ []
    pub parsed : unmarshal (take 1_048_576 body) ≡ some raw
    pub asked : IsAsked raw req

  read_request→ :
      (r : Request) (req : CheckRequest) → read_request unmarshal r ≡ some req → Asks r req
  unfolding read_request
  read_request→ r req h = elim (Option-cases r.body) [
    | inl e ↦ absurd (ground (arith, e))
    | inr (body, e) ↦ elim (Option-cases (decoded unmarshal (take max_body body))) [
      | inl f ↦ absurd (ground (arith, e, f))
      | inr (raw, f) ↦
          let asked = bounded_request→ raw req (rw (e, f, read_request) at h) in
          let nonempty = empty-unasked unmarshal (take max_body body) raw req f asked in
          record {
            body = body;
            raw = raw;
            sent = e;
            nonempty = nonempty;
            parsed = sym (decoded-nonempty unmarshal (take max_body body) nonempty) ∙ f;
            asked = asked;
          }
    ]
  ]

  read_request← :
      (r : Request) (req : CheckRequest) → Asks r req → read_request unmarshal r ≡ some req
  unfolding read_request
  read_request← r req a =
      let d = decoded-nonempty unmarshal (take max_body a.body) a.nonempty ∙ a.parsed in
      rw (a.sent, d, read_request) (bounded_request← a.raw req a.asked)

  module _ {S : Type 0} (checker : RateLimitChecker S) where
    abbrev handler : Headers → Request → Metrics × S → Response × (Metrics × S)
    handler = check_handler unmarshal checker

    -- The four ways in which a request ends, each with its condition. A refusal leaves the metrics and the
    -- state of the checker.
    pub data Handled (hs : Headers) (r : Request) (m : Metrics) (s : S) : Type 0 where
      wrong_method :
          r.method ≢ "POST"
          → handler hs r (m, s) ≡ (write_error 405 "method_not_allowed" hs, (m, s))
          → Handled hs r m s
      no_tenant :
          r.method ≡ "POST"
          → r.tenant ≡ none
          → handler hs r (m, s) ≡ (write_error 401 "unauthorized" hs, (m, s))
          → Handled hs r m s
      unreadable :
          (t : Uuid)
          → r.method ≡ "POST"
          → r.tenant ≡ some t
          → ((req : CheckRequest) → ¬ Asks r req)
          → handler hs r (m, s) ≡ (write_error 400 "invalid_request" hs, (m, s))
          → Handled hs r m s
      checked :
          (t : Uuid) (req : CheckRequest)
          → r.method ≡ "POST"
          → r.tenant ≡ some t
          → Asks r req
          → (let asked = checker t req.route req.subject req.cost s in
              handler hs r (m, s)
              ≡ (respond hs asked.0, (record_rate_limit_check asked.0 m, asked.1)))
          → Handled hs r m s

    -- Every request ends in one of four ways: 405 where it is no POST; else 401 where it has no tenant;
    -- else 400 where it asks for nothing that can be checked, and in these three nothing is counted
    -- and nobody is asked; else the checker is asked once, for what the first 1,048,576 bytes of the body
    -- are decoded to: the trimmed route of 1 to 512 bytes, the trimmed subject of at most 256
    -- bytes, and the cost, 1 for one that is not positive and at most 1,000,000; the answer is that of the
    -- decision, and it is counted once.
    pub check_handler-cases : (hs : Headers) (r : Request) (m : Metrics) (s : S) → Handled hs r m s
    unfolding check_handler run_check
    check_handler-cases hs r m s = elim (Bool-cases (str_eq r.method "POST")) [
      | inr e ↦
          wrong_method (λ z. let yes = (eq_iff r.method "POST").1 z in cc)
            (rw (e, check_handler) refl)
      | inl e ↦
          let post = (eq_iff r.method "POST").0 e in
          elim (Option-cases r.tenant) [
            | inl f ↦ no_tenant post f (rw (e, f, check_handler) refl)
            | inr (t, f) ↦ elim (Option-cases (read_request unmarshal r)) [
              | inl g ↦
                  unreadable t post f (λ req asks. let there = read_request← r req asks in cc)
                    (rw (e, f, g, check_handler) refl)
              | inr (req, g) ↦
                  checked t req post f (read_request→ r req g) (rw (e, f, g, check_handler) refl)
            ]
          ]
    ]

-- A check that was made is answered with 200 exactly if it was allowed, with 429 exactly if it was
-- denied, and with 503 exactly if it failed.
pub respond-status :
    (hs : Headers) (result : Result RateLimitDecision)
    → let status = (respond hs result).status in
      ((status ≡ 200) ↔ ((d : RateLimitDecision) × (result ≡ ok d) × (d.allowed ≡ true)))
      × ((status ≡ 429) ↔ ((d : RateLimitDecision) × (result ≡ ok d) × (d.allowed ≡ false)))
      × ((status ≡ 503) ↔ ((e : Error) × (result ≡ err e)))
unfolding respond write_json write_error check_status_code
respond-status hs (err e) = (
  ((λ h. absurd (omega arith)), λ h. absurd (let f = h.1 in cc)),
  ((λ h. absurd (omega arith)), λ h. absurd (let f = h.1 in cc)),
  ((λ h. (e, refl)), λ h. refl),
)
respond-status hs (ok d) = (
  ((λ h. (d, refl, ground arith)), λ h. let e = h.1 in let f = h.2 in ground (arith, e, f)),
  ((λ h. (d, refl, ground arith)), λ h. let e = h.1 in let f = h.2 in ground (arith, e, f)),
  ((λ h. absurd (ground arith)), λ h. absurd (let f = h.1 in cc)),
)

pub limits-other :
    (a : String) (d : RateLimitDecision) (hs : Headers)
    → a ≢ "X-RateLimit-Reset"
    → a ≢ "X-RateLimit-Remaining"
    → a ≢ "X-RateLimit-Limit"
    → get_header a (rate_limit_headers d hs) ≡ get_header a hs
limits-other a d hs x y z =
    let one = set_header "X-RateLimit-Limit" (number d.limit) hs in
    let two = set_header "X-RateLimit-Remaining" (number d.remaining) one in
    get_header-set_other a "X-RateLimit-Reset" (number d.reset_at) two x
    ∙ get_header-set_other a "X-RateLimit-Remaining" (number d.remaining) one y
    ∙ get_header-set_other a "X-RateLimit-Limit" (number d.limit) hs z

abbrev pub as_number : Option ℤ → Option HeaderValue
as_number none = none
as_number (some n) = some (number n)

-- A decision with a positive limit is answered with a header `Retry-After` exactly if it is a denial
-- with a positive time to wait, which the header then names, as the field `retry_after` of the body
-- does. No such header was set before.
respond-retry_after :
    (hs : Headers) (d : RateLimitDecision)
    → leb_ℤ d.limit (pos 0) ≡ false
    → get_header "Retry-After" hs ≡ none
    → get_header "Retry-After" (respond hs (ok d)).headers ≡ as_number (format_retry_after d)
unfolding respond write_json apply_rate_limit_headers format_retry_after
respond-retry_after hs d limited n =
    let base = rate_limit_headers d hs in
    let plain = limits-other "Retry-After" d hs (λ e. cc) (λ e. cc) (λ e. cc) ∙ n in
    let typed = λ (inner : Headers).
      get_header-set_other "Retry-After" "Content-Type" (word "application/json") inner (λ e. cc) in
    let named = get_header-set_header "Retry-After" (number d.retry_after) base in
    elim (Bool-cases d.allowed) [
      | inl e ↦ rw (limited, e, respond) (typed base ∙ plain)
      | inr e ↦ elim (Bool-cases (leb_ℤ d.retry_after (pos 0))) [
        | inl f ↦ rw (limited, e, f, respond) (typed base ∙ plain)
        | inr f ↦
            rw (limited, e, f, respond)
              (typed (set_header "Retry-After" (number d.retry_after) base) ∙ named)
      ]
    ]
