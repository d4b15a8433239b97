-- ===== src/Config/Loaded.antt =====
-- Which environments internal/config/config.go accepts, and what it makes of them.
use go_rate_limiter.Prelude.{
  ◌≡◌, ◌≢◌, refl, ◌↔◌, ◌⊎◌, inl, inr, false, String, Option, none, some, List, [], ◌∷◌, drop, All,
  Bool-cases, Option-cases,
}
use go_rate_limiter.Prelude.Int.{ℤ}
use go_rate_limiter.Prelude.Text.{Text, txt, text_eq, text_eq_iff, trim_space, split}
use go_rate_limiter.Prelude.Decimal.{parse_int}
use go_rate_limiter.Prelude.Decimal.RoundTrip.{Fits64, parse_int-format_int}
use go_rate_limiter.Errors.{Error, ok, err, wrap, other}
use go_rate_limiter.Config.{
  Config, default_port, default_rule_cache_ttl, default_shutdown_timeout, trimmed_parts, parsed_or,
  origins, is_behind_proxy, settings, load, addr,
}

trimmed_parts-nonempty : (os : List Text) → All (λ (o : Text). o ≢ []) (trimmed_parts os)
unfolding trimmed_parts
trimmed_parts-nonempty [] = tt
trimmed_parts-nonempty (o ∷ os) = elim (Bool-cases (text_eq (trim_space o) [])) [
  | inl e ↦ rw (e, trimmed_parts) (trimmed_parts-nonempty os)
  | inr e ↦
      let given : trim_space o ≢ [] = λ z. let yes = (text_eq_iff (trim_space o) []).1 z in cc in
      rw (e, trimmed_parts) (given, trimmed_parts-nonempty os)
]

module _ (getenv : String → Text) where
  -- A variable that has the value `n`: it is not set and `n` is the default, or it is read as `n`.
  abbrev pub Reads : (Text → Option ℤ) → String → ℤ → ℤ → Type 0
  Reads parse key fallback n =
      ((getenv key ≡ []) × (n ≡ fallback)) ⊎ ((getenv key ≢ []) × (parse (getenv key) ≡ some n))

  -- A variable that is set to something that cannot be read.
  abbrev pub IsMalformed : (Text → Option ℤ) → String → Type 0
  IsMalformed parse key = (getenv key ≢ []) × (parse (getenv key) ≡ none)

  -- The outcomes of reading one variable.
  parsed_or-cases :
      (parse : Text → Option ℤ) (key message : String) (fallback : ℤ)
      → ((n : ℤ) × (parsed_or getenv parse key message fallback ≡ ok n)
          × Reads parse key fallback n
          × ¬ IsMalformed parse key)
        ⊎ ((e : Error) × (parsed_or getenv parse key message fallback ≡ err e)
            × IsMalformed parse key)
  unfolding parsed_or
  parsed_or-cases parse key message fallback = elim (Bool-cases (text_eq (getenv key) [])) [
    | inl e ↦
        let unset = (text_eq_iff (getenv key) []).0 e in
        inl (fallback, rw (e, parsed_or) refl, inl (unset, refl), λ bad. bad.0 unset)
    | inr e ↦
        let given : getenv key ≢ [] = λ z. let yes = (text_eq_iff (getenv key) []).1 z in cc in
        elim (Option-cases (parse (getenv key))) [
          | inl f ↦ inr (wrap message (other "syntax"), rw (e, f, parsed_or) refl, (given, f))
          | inr (n, f) ↦
              inl (n, rw (e, f, parsed_or) refl, inr (given, f), λ bad. let g = bad.1 in cc)
        ]
  ]

  module _ (parse_duration : Text → Option ℤ) where
    -- What the settings say of the environment.
    pub record IsLoaded (cfg : Config) : Type 0 where
      pub port : Reads parse_int "HTTP_PORT" default_port cfg.http_port
      pub ttl : Reads parse_duration "RULE_CACHE_TTL" default_rule_cache_ttl cfg.rule_cache_ttl
      pub timeout :
          Reads parse_duration "SHUTDOWN_TIMEOUT" default_shutdown_timeout cfg.shutdown_timeout
      pub token : cfg.admin_token ≡ getenv "ADMIN_TOKEN"
      pub proxy :
          (cfg.behind_proxy ≡ false)
          ↔ ((getenv "BEHIND_PROXY" ≡ txt "false") ⊎ (getenv "BEHIND_PROXY" ≡ txt "0"))
      pub nonempty : All (λ (o : Text). o ≢ []) cfg.dashboard_origins

    -- One of the three variables that are parsed cannot be.
    abbrev pub IsRejected : Type 0
    IsRejected =
        IsMalformed parse_int "HTTP_PORT"
        ⊎ IsMalformed parse_duration "RULE_CACHE_TTL"
        ⊎ IsMalformed parse_duration "SHUTDOWN_TIMEOUT"

    origins-nonempty : All (λ (o : Text). o ≢ []) (origins getenv)
    unfolding origins
    origins-nonempty = elim (Bool-cases (text_eq (getenv "DASHBOARD_ORIGINS") [])) [
      | inl e ↦ rw (e, origins) tt
      | inr e ↦ rw (e, origins) (trimmed_parts-nonempty (split b',' (getenv "DASHBOARD_ORIGINS")))
    ]

    proxy_iff :
        (is_behind_proxy getenv ≡ false)
        ↔ ((getenv "BEHIND_PROXY" ≡ txt "false") ⊎ (getenv "BEHIND_PROXY" ≡ txt "0"))
    unfolding is_behind_proxy
    proxy_iff =
        let v = getenv "BEHIND_PROXY" in
        elim (Bool-cases (text_eq v (txt "false"))) [
          | inl e ↦
              rw (e, is_behind_proxy) ((λ _. inl ((text_eq_iff v (txt "false")).0 e)), λ _. refl)
          | inr e ↦ elim (Bool-cases (text_eq v (txt "0"))) [
            | inl f ↦
                rw (e, f, is_behind_proxy) ((λ _. inr ((text_eq_iff v (txt "0")).0 f)), λ _. refl)
            | inr f ↦
                rw (e, f, is_behind_proxy)
                  (
                    (λ h. absurd (cc)),
                    λ h. elim h [
                      | inl z ↦ let yes = (text_eq_iff v (txt "false")).1 z in absurd (cc)
                      | inr z ↦ let yes = (text_eq_iff v (txt "0")).1 z in absurd (cc)
                    ],
                  )
          ]
        ]

    -- The environment is rejected exactly if HTTP_PORT, RULE_CACHE_TTL or SHUTDOWN_TIMEOUT is set and
    -- cannot be read, and otherwise there are settings with what those variables say or their defaults, the token
    -- as it is set, the forwarded addresses trusted unless BEHIND_PROXY is "false" or "0", and no
    -- origin that is empty.
    pub load-cases :
        ((cfg : Config) × (load getenv parse_duration ≡ ok cfg) × IsLoaded cfg × ¬ IsRejected)
        ⊎ ((e : Error) × (load getenv parse_duration ≡ err e) × IsRejected)
    unfolding load
    load-cases =
        elim (parsed_or-cases parse_int "HTTP_PORT" "invalid HTTP_PORT %q: %w" default_port) [
          | inr (e, f, bad) ↦ inr (e, rw (f, load) refl, inl bad)
          | inl (port, f, p, good_p) ↦
              elim (parsed_or-cases parse_duration "RULE_CACHE_TTL" "invalid RULE_CACHE_TTL %q: %w"
                default_rule_cache_ttl) [
                  | inr (e, g, bad) ↦ inr (e, rw (f, g, load) refl, inr (inl bad))
                  | inl (ttl, g, t, good_t) ↦
                      elim (parsed_or-cases parse_duration "SHUTDOWN_TIMEOUT"
                        "invalid SHUTDOWN_TIMEOUT %q: %w" default_shutdown_timeout) [
                          | inr (e, h, bad) ↦ inr (e, rw (f, g, h, load) refl, inr (inr bad))
                          | inl (timeout, h, s, good_s) ↦ inl (
                            settings getenv port ttl timeout,
                            rw (f, g, h, load) refl,
                            record {
                              port = p;
                              ttl = t;
                              timeout = s;
                              token = refl;
                              proxy = proxy_iff;
                              nonempty = origins-nonempty;
                            },
                            λ bad. elim bad [
                              | inl b ↦ good_p b
                              | inr (inl b) ↦ good_t b
                              | inr (inr b) ↦ good_s b
                            ],
                          )
                        ]
                ]
        ]

-- The address of the listener says the port, for every port of 64 bits.
pub addr_port : (c : Config) → Fits64 c.http_port → parse_int (drop 1 (addr c)) ≡ some c.http_port
unfolding addr
addr_port c h = parse_int-format_int c.http_port h
