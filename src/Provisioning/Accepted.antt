-- ===== src/Provisioning/Accepted.antt =====
-- Which projects and keys the provisioning service hands to the store.
use text.Mathlib.Text.{◌==◌ as str_eq}
use text.Mathlib.TextEquality.{eq_iff}
use go_rate_limiter.Prelude.{
  ◌≤◌, ◌≡◌, ◌≢◌, refl, ◌↔◌, ◌⊎◌, inl, inr, true, false, String, none, List, [], ◌∷◌, length, arith,
  map, All, All-map, Bool-cases, sym, ◌∙◌, subst, ap, ◌==◌, ltb, if◌then◌else◌,
}
use go_rate_limiter.Prelude.Text.{Text, text_eq, text_eq_iff, trim_space, to_lower}
use go_rate_limiter.Errors.{Result-cases, Error, Result, ok, err, is, invalid_input, wrap, sentinel}
use go_rate_limiter.Entity.{Uuid, Rule, validate}
use go_rate_limiter.Entity.Validation.{IsValid, validate_iff}
use go_rate_limiter.Provisioning.Texts.{
  IsName, IsHash, is_project_name_iff, is_sha256_hex_iff, is_key_prefix_iff,
}
use go_rate_limiter.Provisioning.{
  NewProject, is_sha256_hex, is_key_prefix, is_role, max_rules_per_project, contains, owned_rule,
  check_rules, or_admin, lowered, check_project, stored, create_project, add_api_key,
}

-- Every rule is valid, and no pattern is one of the list or of an earlier rule.
abbrev pub AreSound : List Text → List Rule → Type 0
AreSound seen [] = Unit {0}
AreSound seen (r ∷ rs) =
    (contains seen r.route_pattern ≡ false) × IsValid r × AreSound (r.route_pattern ∷ seen) rs

check_rules_step :
    (tenant_id : Uuid) (seen : List Text) (r : Rule) (rs checked : List Rule)
    → contains seen (trim_space r.route_pattern) ≡ false
    → validate (owned_rule tenant_id r) ≡ none
    → check_rules tenant_id (trim_space r.route_pattern ∷ seen) rs ≡ ok checked
    → check_rules tenant_id seen (r ∷ rs) ≡ ok (owned_rule tenant_id r ∷ checked)
unfolding check_rules
check_rules_step tenant_id seen r rs checked c v h = rw (c, v, h) refl

check_rules_back :
    (tenant_id : Uuid) (seen : List Text) (r : Rule) (rs checked : List Rule)
    → check_rules tenant_id seen (r ∷ rs) ≡ ok checked
    → (contains seen (trim_space r.route_pattern) ≡ false)
      × (validate (owned_rule tenant_id r) ≡ none)
      × ((rest : List Rule) × (check_rules tenant_id (trim_space r.route_pattern ∷ seen) rs
            ≡ ok rest)
          × (checked ≡ owned_rule tenant_id r ∷ rest))
unfolding check_rules
check_rules_back tenant_id seen r rs checked h =
    elim (Result-cases (check_rules tenant_id (trim_space r.route_pattern ∷ seen) rs)) [
      | inl (rest, e) ↦ (ground arith, ground arith, (rest, e, ground (arith, e)))
      | inr (e, f) ↦ absurd (ground (arith, f))
    ]

check_rules→ :
    (tenant_id : Uuid) (seen : List Text) (rs checked : List Rule)
    → check_rules tenant_id seen rs ≡ ok checked
    → (checked ≡ map (owned_rule tenant_id) rs) × AreSound seen checked
unfolding check_rules
check_rules→ tenant_id seen [] checked h = let e : checked ≡ [] = cc in rw e (refl, tt)
check_rules→ tenant_id seen (r ∷ rs) checked h =
    let (fresh, valid, (rest, e, f)) = check_rules_back tenant_id seen r rs checked h in
    let (same, sound) = check_rules→ tenant_id (trim_space r.route_pattern ∷ seen) rs rest e in
    rw f (rw same refl, (fresh, (validate_iff (owned_rule tenant_id r)).0 valid, sound))

check_rules← :
    (tenant_id : Uuid) (seen : List Text) (rs : List Rule)
    → AreSound seen (map (owned_rule tenant_id) rs)
    → check_rules tenant_id seen rs ≡ ok (map (owned_rule tenant_id) rs)
unfolding check_rules
check_rules← tenant_id seen [] s = refl
check_rules← tenant_id seen (r ∷ rs) (fresh, valid, sound) =
    check_rules_step tenant_id seen r rs _ fresh ((validate_iff (owned_rule tenant_id r)).1 valid)
      (check_rules← tenant_id (trim_space r.route_pattern ∷ seen) rs sound)

-- No two rules have the same pattern.
abbrev pub AreDifferent : List Rule → Type 0
AreDifferent [] = Unit {0}
AreDifferent (r ∷ rs) = All (λ (q : Rule). q.route_pattern ≢ r.route_pattern) rs × AreDifferent rs

-- No pattern is one of the list.
abbrev AreFresh : List Text → List Rule → Type 0
AreFresh seen = All (λ (q : Rule). contains seen q.route_pattern ≡ false)

fresh_pattern :
    (seen : List Text) (s t : Text)
    → contains (t ∷ seen) s ≡ false
    → (s ≢ t) × (contains seen s ≡ false)
fresh_pattern seen s t h =
    (λ e. let yes = (text_eq_iff s t).1 e in absurd (ground arith), ground arith)

not_seen :
    (seen : List Text) (s t : Text)
    → s ≢ t
    → contains seen s ≡ false
    → contains (t ∷ seen) s ≡ false
not_seen seen s t n h = elim (Bool-cases (text_eq s t)) [
  | inl e ↦ absurd (n ((text_eq_iff s t).0 e))
  | inr e ↦ rw e h
]

AreSound→ :
    (seen : List Text) (rs : List Rule)
    → AreSound seen rs
    → All IsValid rs × AreDifferent rs × AreFresh seen rs
AreSound→ seen [] s = (tt, tt, tt)
AreSound→ seen (r ∷ rs) (c, v, s) =
    let (valid, different, fresh) = AreSound→ (r.route_pattern ∷ seen) rs s in
    (
      (v, valid),
      (
        All-map (λ (q : Rule) h. (fresh_pattern seen q.route_pattern r.route_pattern h).0) rs fresh,
        different,
      ),
      (
        c,
        All-map (λ (q : Rule) h. (fresh_pattern seen q.route_pattern r.route_pattern h).1) rs fresh,
      ),
    )

AreFresh-next :
    (seen : List Text) (t : Text) (rs : List Rule)
    → All (λ (q : Rule). q.route_pattern ≢ t) rs
    → AreFresh seen rs
    → AreFresh (t ∷ seen) rs
AreFresh-next seen t [] n f = tt
AreFresh-next seen t (r ∷ rs) (n, ns) (f, fs) =
    (not_seen seen r.route_pattern t n f, AreFresh-next seen t rs ns fs)

AreSound← :
    (seen : List Text) (rs : List Rule)
    → All IsValid rs
    → AreDifferent rs
    → AreFresh seen rs
    → AreSound seen rs
AreSound← seen [] v d f = tt
AreSound← seen (r ∷ rs) (v, vs) (d, ds) (f, fs) =
    (f, v, AreSound← (r.route_pattern ∷ seen) rs vs ds (AreFresh-next seen r.route_pattern rs d fs))

unseen : (rs : List Rule) → AreFresh [] rs
unseen [] = tt
unseen (r ∷ rs) = (refl, unseen rs)

-- A project that may be stored.
pub record IsSound (p : NewProject) : Type 0 where
  pub named : IsName p.name
  pub hashed : IsHash p.key_hash
  pub prefixed : (1 ≤ length p.key_prefix) × (length p.key_prefix ≤ 32)
  pub nonempty : 1 ≤ length p.rules
  pub bounded : length p.rules ≤ 50
  pub valid : All IsValid p.rules
  pub different : AreDifferent p.rules

-- The role of the first key of a project.
abbrev pub given_role : String → String
given_role role = if str_eq role "check" then "check" else "admin"

or_admin-given_role : (role : String) → or_admin role ≡ given_role role
unfolding is_role
or_admin-given_role role = elim (Bool-cases (str_eq role "check")) [
  | inl e ↦ let same = (eq_iff role "check").0 e in rw same refl
  | inr e ↦ elim (Bool-cases (str_eq role "admin")) [
    | inl f ↦ let same = (eq_iff role "admin").0 f in rw same refl
    | inr f ↦ rw (e, f) refl
  ]
]

length-map : {A B : Type 0} (f : A → B) (xs : List A) → length (map f xs) ≡ length xs
length-map f [] = refl
length-map f (x ∷ xs) = omega (arith, length-map f xs)

module _ (unicode_lower : Text → Text) (fresh : Uuid) (name key_hash key_prefix : Text)
    (key_role : String) (rules : List Rule) where
  -- The project of a request, with its texts trimmed and lowered, its rules given to it with their
  -- patterns trimmed, and the role "admin" for one that is not "check".
  abbrev pub requested : NewProject
  requested = record {
    tenant_id = fresh;
    name = to_lower unicode_lower (trim_space name);
    key_hash = to_lower unicode_lower (trim_space key_hash);
    key_prefix = trim_space key_prefix;
    key_role = given_role key_role;
    rules =
        map
          (λ (r : Rule). record r { tenant_id = fresh; route_pattern = trim_space r.route_pattern })
          rules;
  }

  abbrev checked_project : Result NewProject
  checked_project = check_project unicode_lower fresh name key_hash key_prefix key_role rules

  check_project← : IsSound requested → checked_project ≡ ok requested
  unfolding check_project
  check_project← s =
      let size = length-map (owned_rule fresh) rules in
      let nonempty : length rules == 0 ≡ false = ground (arith, s.nonempty, size) in
      let bounded : ltb max_rules_per_project (length rules) ≡ false =
        ground (arith, s.bounded, size) in
      let sound = AreSound← [] requested.rules s.valid s.different (unseen requested.rules) in
      rw
        (
          (is_project_name_iff requested.name).1 s.named,
          (is_sha256_hex_iff requested.key_hash).1 s.hashed,
          (is_key_prefix_iff requested.key_prefix).1 s.prefixed,
          nonempty,
          bounded,
          check_rules← fresh [] rules sound,
          or_admin-given_role key_role,
        )
        refl

  check_project→ : (p : NewProject) → checked_project ≡ ok p → (p ≡ requested) × IsSound p
  unfolding check_project
  check_project→ p h = elim (Result-cases (check_rules fresh [] rules)) [
    | inr (e, f) ↦ absurd (ground (arith, f))
    | inl (checked, f) ↦
        let (same, sound) = check_rules→ fresh [] rules checked f in
        let size = length-map (owned_rule fresh) rules in
        let made : p ≡ requested = ground (arith, f, same, or_admin-given_role key_role) in
        let (valid, different, _) = AreSound→ [] checked sound in
        (
          made,
          rw made (record {
            named = (is_project_name_iff requested.name).0 (ground arith);
            hashed = (is_sha256_hex_iff requested.key_hash).0 (ground arith);
            prefixed = (is_key_prefix_iff requested.key_prefix).0 (ground arith);
            nonempty = ground (arith, size);
            bounded = ground (arith, size);
            valid = rw (← same) valid;
            different = rw (← same) different;
          }),
        )
  ]

  -- A request is accepted exactly as the project that its trimmed and lowered texts make, with the role
  -- "admin" for one that is not "check", and exactly if that project is sound: a name of 3 to 40
  -- letters "a" to "z", digits and hyphens with no hyphen at either end, a hash of 64 hexadecimal digits, a
  -- prefix of 1 to 32 bytes, and 1 to 50 valid rules, no two with the same pattern.
  pub check_project_iff :
      (p : NewProject) → (checked_project ≡ ok p) ↔ ((p ≡ requested) × IsSound p)
  check_project_iff p =
      (check_project→ p, λ h. check_project← (subst IsSound h.0 h.1) ∙ ap ok (sym h.0))

invalid_rules :
    (tenant_id : Uuid) (seen : List Text) (rs : List Rule) (e : Error)
    → check_rules tenant_id seen rs ≡ err e
    → is e invalid_input ≡ true
unfolding check_rules
invalid_rules tenant_id seen [] e h = cc
invalid_rules tenant_id seen (r ∷ rs) e h =
    ground (arith, invalid_rules tenant_id (trim_space r.route_pattern ∷ seen) rs e)

invalid_project :
    (unicode_lower : Text → Text) (fresh : Uuid) (name key_hash key_prefix : Text)
    (key_role : String) (rules : List Rule) (e : Error)
    → check_project unicode_lower fresh name key_hash key_prefix key_role rules ≡ err e
    → is e invalid_input ≡ true
unfolding check_project
invalid_project unicode_lower fresh name key_hash key_prefix key_role rules e f =
    elim (Result-cases (check_rules fresh [] rules)) [
      | inl (checked, g) ↦ ground (arith, g)
      | inr (d, g) ↦ ground (arith, g, invalid_rules fresh [] rules d g)
    ]

module _ (unicode_lower : Text → Text) {S : Type 0} where
  -- Whatever a request says, either it is refused as invalid input and the store is not called, or
  -- the store is called once, with a sound project, and its answer is passed on.
  create_project-cases :
      (store : NewProject → S → Result (Unit {0}) × S) (fresh : Uuid)
      (name key_hash key_prefix : Text) (key_role : String) (rules : List Rule) (s : S)
      → let result =
          create_project unicode_lower store fresh name key_hash key_prefix key_role rules s in
        ((e : Error) × (result ≡ (err e, s)) × (is e invalid_input ≡ true))
        ⊎ ((p : NewProject) × IsSound p × (result ≡ stored unicode_lower store p (store p s)))
  unfolding create_project
  create_project-cases store fresh name key_hash key_prefix key_role rules s =
      let checked = check_project unicode_lower fresh name key_hash key_prefix key_role rules in
      elim (Result-cases checked) [
        | inl (p, f) ↦
            let (_, sound) =
              check_project→ unicode_lower fresh name key_hash key_prefix key_role rules p f in
            inr (p, sound, rw (f, create_project) refl)
        | inr (e, f) ↦ inl (
          e,
          rw (f, create_project) refl,
          invalid_project unicode_lower fresh name key_hash key_prefix key_role rules e f,
        )
      ]

  -- The same of a further key: its hash, prefix and role are checked before the store is called.
  pub add_api_key-cases :
      (store : Uuid → Text → Text → String → S → Result (Unit {0}) × S) (tenant_id : Uuid)
      (key_hash key_prefix : Text) (role : String) (s : S)
      → let result = add_api_key unicode_lower store tenant_id key_hash key_prefix role s in
        ((e : Error) × (result ≡ (err e, s)) × (is e invalid_input ≡ true))
        ⊎ ((hash prefix : Text) × (is_sha256_hex hash ≡ true)
            × (is_key_prefix prefix ≡ true)
            × (is_role role ≡ true)
            × (result ≡ store tenant_id hash prefix role s))
  unfolding add_api_key
  add_api_key-cases store tenant_id key_hash key_prefix role s =
      let hash = lowered unicode_lower key_hash in
      let prefix = trim_space key_prefix in
      elim (Bool-cases (is_sha256_hex hash)) [
        | inr a ↦ inl (
          wrap "%w: key_hash must be 64 lowercase hex characters (sha256)" (sentinel invalid_input),
          rw (a, add_api_key) refl,
          refl,
        )
        | inl a ↦ elim (Bool-cases (is_key_prefix prefix)) [
          | inr b ↦ inl (
            wrap "%w: key_prefix must be 1-32 characters" (sentinel invalid_input),
            rw (a, b, add_api_key) refl,
            refl,
          )
          | inl b ↦ elim (Bool-cases (is_role role)) [
            | inr c ↦ inl (
              wrap "%w: role must be admin or check" (sentinel invalid_input),
              rw (a, b, c, add_api_key) refl,
              refl,
            )
            | inl c ↦ inr (hash, prefix, a, b, c, rw (a, b, c, add_api_key) refl)
          ]
        ]
      ]
