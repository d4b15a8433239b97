-- ===== src/Provisioning.antt =====
-- internal/application/provisioning_service.go over the port `ProjectStore` of
-- internal/domain/ports/project_writer.go. `S` is the state of that store. `fresh` is what
-- `uuid.New()` gives.
pub mod Texts
pub mod Accepted
use text.Mathlib.Text.{◌==◌ as str_eq}
use go_rate_limiter.Prelude.{
  ℕ, zero, suc, Bool, true, false, ◌&&◌, ◌||◌, not, String, Option, none, some, List, [], ◌∷◌,
  if◌then◌else◌, ltb, leb, ◌==◌, length, get_or, all, reverse,
}
use go_rate_limiter.Prelude.Text.{Text, text_eq, trim_space, to_lower}
use go_rate_limiter.Errors.{Error, Result, ok, err, ◌>>=◌, sentinel, wrap, invalid_input}
use go_rate_limiter.Entity.{Uuid, Rule, validate, role_admin, role_check}

pub record NewProject : Type 0 where
  pub tenant_id : Uuid
  pub name : Text
  pub key_hash : Text
  pub key_prefix : Text
  pub key_role : String
  pub rules : List Rule

-- The class `[a-z0-9]`.
abbrev pub is_name_end : ℕ → Bool
is_name_end c = (leb b'a' c && leb c b'z') || (leb b'0' c && leb c b'9')

-- The class `[a-z0-9-]`.
abbrev pub is_name_byte : ℕ → Bool
is_name_byte c = is_name_end c || c == b'-'

-- `^[a-z0-9][a-z0-9-]{1,38}[a-z0-9]$`
unfoldable pub is_project_name : Text → Bool
is_project_name s =
    leb 3 (length s)
    && leb (length s) 40
    && all is_name_byte s
    && is_name_end (get_or s 0 0)
    && is_name_end (get_or (reverse s) 0 0)

-- The class `[0-9a-f]`.
abbrev pub is_hex : ℕ → Bool
is_hex c = (leb b'0' c && leb c b'9') || (leb b'a' c && leb c b'f')

-- `^[0-9a-f]{64}$`
unfoldable pub is_sha256_hex : Text → Bool
is_sha256_hex s = length s == 64 && all is_hex s

unfoldable pub is_key_prefix : Text → Bool
is_key_prefix s = not (text_eq s []) && leb (length s) 32

unfoldable pub is_role : String → Bool
is_role role = str_eq role role_admin || str_eq role role_check

abbrev pub max_rules_per_project : ℕ
max_rules_per_project = 50

abbrev pub invalid : {A : Type 0} → String → Result A
invalid message = err (wrap message (sentinel invalid_input))

-- The keys of the map `seen`.
abbrev pub contains : List Text → Text → Bool
contains [] s = false
contains (t ∷ ts) s = text_eq s t || contains ts s

-- A rule as the loop writes it back into the slice.
abbrev pub owned_rule : Uuid → Rule → Rule
owned_rule tenant_id r = record r {
  tenant_id = tenant_id;
  route_pattern = trim_space r.route_pattern;
}

-- The loop over the rules.
unfoldable pub check_rules : Uuid → List Text → List Rule → Result (List Rule)
check_rules tenant_id seen [] = ok []
check_rules tenant_id seen (r ∷ rs) =
    let rule = owned_rule tenant_id r in
    let rest = check_rules tenant_id (rule.route_pattern ∷ seen) rs in
    if contains seen rule.route_pattern
    then invalid "%w: duplicate route pattern %q"
    else (elim (validate rule) [
      | some e ↦ invalid "%w: rule %d (%s): %v"
      | none ↦ do checked ← rest; ok (rule ∷ checked)
    ])

abbrev pub or_admin : String → String
or_admin role = if is_role role then role else role_admin

module _ (unicode_lower : Text → Text) where
  abbrev pub lowered : Text → Text
  lowered s = to_lower unicode_lower (trim_space s)

  -- What `CreateProject` checks before it calls the store.
  unfoldable pub check_project : Uuid → Text → Text → Text → String → List Rule → Result NewProject
  unfolding check_rules
  check_project fresh name key_hash key_prefix key_role rules =
      if not (is_project_name (lowered name))
      then invalid
          "%w: name must be 3-40 chars, lowercase letters, digits and hyphens, not starting or ending with a hyphen"
      else if not (is_sha256_hex (lowered key_hash))
      then invalid "%w: key_hash must be 64 lowercase hex characters (sha256)"
      else if not (is_key_prefix (trim_space key_prefix))
      then invalid "%w: key_prefix must be 1-32 characters"
      else if length rules == 0
      then invalid "%w: at least one rule is required"
      else if ltb max_rules_per_project (length rules)
      then invalid "%w: at most %d rules per project"
      else do
        checked ← check_rules fresh [] rules
        ok (record {
          tenant_id = fresh;
          name = lowered name;
          key_hash = lowered key_hash;
          key_prefix = trim_space key_prefix;
          key_role = or_admin key_role;
          rules = checked;
        })

  module _ {S : Type 0} (store : NewProject → S → Result (Unit {0}) × S) where
    -- The call of the store, and what is made of its answer.
    abbrev pub stored : NewProject → Result (Unit {0}) × S → Result Uuid × S
    stored p (ok _, s) = (ok p.tenant_id, s)
    stored p (err e, s) = (err e, s)

    unfoldable pub create_project :
        Uuid → Text → Text → Text → String → List Rule → S → Result Uuid × S
    unfolding check_project
    create_project fresh name key_hash key_prefix key_role rules s =
        elim (check_project fresh name key_hash key_prefix key_role rules) [
          | err e ↦ (err e, s)
          | ok p ↦ stored p (store p s)
        ]

  module _ {S : Type 0} (store : Uuid → Text → Text → String → S → Result (Unit {0}) × S) where
    unfoldable pub add_api_key : Uuid → Text → Text → String → S → Result (Unit {0}) × S
    add_api_key tenant_id key_hash key_prefix role s =
        if not (is_sha256_hex (lowered key_hash))
        then (invalid "%w: key_hash must be 64 lowercase hex characters (sha256)", s)
        else if not (is_key_prefix (trim_space key_prefix))
        then (invalid "%w: key_prefix must be 1-32 characters", s)
        else if not (is_role role)
        then (invalid "%w: role must be admin or check", s)
        else store tenant_id (lowered key_hash) (trim_space key_prefix) role s

pub record KeySummary : Type 0 where
  pub id : Uuid
  pub prefix : Text
  pub status : String
  pub role : String
  pub created_at : ℕ

pub record ProjectSummary : Type 0 where
  pub id : Uuid
  pub name : Text
  pub status : String
  pub created_at : ℕ
  pub rule_count : ℕ
  pub rules : List Rule
  pub keys : List KeySummary
