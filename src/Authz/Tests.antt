-- ===== src/Authz/Tests.antt =====
-- Runs of src/authz.
use mayfly_server.Prelude.{
  ◌≡◌, ◌↔◌, refl, Str, lit, List, [], ◌∷◌, none, eq_ignore_ascii_case, trim, split_once,
}
use mayfly_server.Authz.{
  AccessConfig, Identity, allow, deny, authorize, contains_ci, any_ci, grants, attribute_match,
}
use mayfly_server.Authz.Allows.{Permitted, authorize_iff}

abbrev by_department : AccessConfig
by_department = record {
  allowed_users = [];
  allowed_orgs = [];
  allowed_teams = [];
  allowed_groups = [];
  allowed_roles = [];
  allowed_attributes = lit "dept = Ops" ∷ [];
}

abbrev vasu : List (Str × List Str) → Identity
vasu attributes = record {
  provider = lit "keycloak";
  subject = lit "s";
  username = lit "vasu";
  email = none;
  display_name = none;
  realm = none;
  organizations = [];
  teams = [];
  groups = [];
  roles = [];
  attributes = attributes;
}

authorize_iff_example :
    (authorize by_department (vasu ((lit "Dept", lit "ops" ∷ []) ∷ [])) ≡ allow)
    ↔ Permitted by_department (vasu ((lit "Dept", lit "ops" ∷ []) ∷ []))
authorize_iff_example = authorize_iff by_department (vasu ((lit "Dept", lit "ops" ∷ []) ∷ []))

attribute_is_allowed : authorize by_department (vasu ((lit "Dept", lit "ops" ∷ []) ∷ [])) ≡ allow
unfolding authorize contains_ci any_ci attribute_match grants split_once trim eq_ignore_ascii_case
attribute_is_allowed = refl

-- Only the first of two attributes whose names differ in case counts.
second_attribute_is_ignored :
    let facts = vasu ((lit "DEPT", lit "dev" ∷ []) ∷ (lit "dept", lit "ops" ∷ []) ∷ []) in
    authorize by_department facts ≡ deny facts
unfolding authorize contains_ci any_ci attribute_match grants split_once trim eq_ignore_ascii_case
second_attribute_is_ignored = refl
