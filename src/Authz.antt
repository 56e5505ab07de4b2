-- ===== src/Authz.antt =====
-- The authorization of an operator: src/authz/service.rs and models.rs, with the allowlists of
-- src/config.rs. A map is the list of its entries in the order of its keys.
pub mod Allows
mod Tests
use mayfly_server.Prelude.{
  Str, List, [], ◌∷◌, Option, none, some, Bool, true, false, ◌||◌, any, find, trim, split_once,
  eq_ignore_ascii_case, if◌then◌else◌,
}

pub record AccessConfig : Type 0 where
  pub allowed_users : List Str
  pub allowed_orgs : List Str
  pub allowed_teams : List Str
  pub allowed_groups : List Str
  pub allowed_roles : List Str
  pub allowed_attributes : List Str

pub record Identity : Type 0 where
  pub provider : Str
  pub subject : Str
  pub username : Str
  pub email : Option Str
  pub display_name : Option Str
  pub realm : Option Str
  pub organizations : List Str
  pub teams : List Str
  pub groups : List Str
  pub roles : List Str
  pub attributes : List (Str × List Str)

-- The reason text names the identity's facts, so it is the identity.
pub data AuthzDecision : Type 0 where
  allow : AuthzDecision
  deny : Identity → AuthzDecision

unfoldable pub contains_ci : List Str → Str → Bool
contains_ci haystack needle = any (λ candidate. eq_ignore_ascii_case candidate needle) haystack

unfoldable pub any_ci : List Str → List Str → Bool
any_ci allowlist facts = any (λ fact. contains_ci allowlist fact) facts

abbrev pub is_none_left : {A : Type 0} → List A → Bool
is_none_left [] = true
is_none_left (x ∷ xs) = false

abbrev pub named : Str → Str × List Str → Bool
named key attribute = eq_ignore_ascii_case attribute.0 key

abbrev pub has_value : Str → Option (Str × List Str) → Bool
has_value value none = false
has_value value (some (k, values)) = any (λ v. eq_ignore_ascii_case v value) values

-- The closure on one entry `key=value` of the allowlist.
unfoldable pub grants : List (Str × List Str) → Option (Str × Str) → Bool
grants attributes none = false
grants attributes (some (key, value)) = has_value (trim value) (find (named (trim key)) attributes)

unfoldable pub attribute_match : AccessConfig → Identity → Bool
attribute_match access identity =
    if is_none_left access.allowed_attributes || is_none_left identity.attributes
    then false
    else any (λ entry. grants identity.attributes (split_once b'=' entry)) access.allowed_attributes

unfoldable pub authorize : AccessConfig → Identity → AuthzDecision
authorize access identity =
    if contains_ci access.allowed_users identity.username
    then allow
    else if any_ci access.allowed_orgs identity.organizations
    then allow
    else if any_ci access.allowed_teams identity.teams
    then allow
    else if any_ci access.allowed_groups identity.groups
    then allow
    else if any_ci access.allowed_roles identity.roles
    then allow
    else if attribute_match access identity
    then allow
    else deny identity
