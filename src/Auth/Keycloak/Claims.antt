-- ===== src/Auth/Keycloak/Claims.antt =====
-- src/auth/keycloak/claims.rs: from verified claims to an identity and its authorization facts. A
-- map is the list of its entries in the order of its keys.
pub mod Roles
pub mod Attributes
use mayfly_server.Prelude.{
  ℕ, ◌≡◌, Str, lit, List, [], ◌∷◌, ◌++◌, Option, none, some, Bool, true, false, ◌&&◌, not, leb,
  ◌==◌, any, retain, map, reverse, length, take, is_empty, text_eq, strip_prefix,
  eq_ignore_ascii_case, if◌then◌else◌,
}
use mayfly_server.Prelude.Sort.{text_leb}
use mayfly_server.Auth.Provider.{AuthenticatedIdentity, AuthorizationContext}

-- A `serde_json` value: an item of an array is given by its `as_str`.
pub data ClaimValue : Type 0 where
  string : Str → ClaimValue
  array : List (Option Str) → ClaimValue
  other : ClaimValue

-- A set of roles is the list of them.
pub record KeycloakClaims : Type 0 where
  pub sub : Str
  pub preferred_username : Option Str
  pub email : Option Str
  pub name : Option Str
  pub realm_access : Option (List Str)
  pub resource_access : Option (List (Str × List Str))
  pub groups : List Str
  pub extra : List (Str × ClaimValue)

abbrev pub provider_id : Str
provider_id = lit "keycloak"

abbrev username_of : Option Str → Str → Str
username_of none sub = sub
username_of (some u) sub = if not (is_empty u) then u else sub

unfoldable pub to_identity : KeycloakClaims → AuthenticatedIdentity
to_identity claims = record {
  provider = provider_id;
  subject = claims.sub;
  username = username_of claims.preferred_username claims.sub;
  email = claims.email;
  display_name = claims.name;
}

-- The closure `push`.
unfoldable pub push : List Str → Str → List Str
push roles r =
    if not (is_empty r) && not (any (λ x. eq_ignore_ascii_case x r) roles)
    then roles ++ r ∷ []
    else roles

unfoldable pub push_all : List Str → List Str → List Str
unfolding push
push_all roles [] = roles
push_all roles (r ∷ rs) = push_all (push roles r) rs

abbrev pub client_role : Str → Str → Str
client_role client r = client ++ b'/' ∷ r

unfoldable pub push_client : Str → List Str → List Str → List Str
unfolding push
push_client client roles [] = roles
push_client client roles (r ∷ rs) =
    push_client client (push (push roles (client_role client r)) r) rs

unfoldable pub push_clients : List Str → List (Str × List Str) → List Str
unfolding push_client
push_clients roles [] = roles
push_clients roles ((client, set) ∷ resource) = push_clients (push_client client roles set) resource

abbrev pub set_or_empty : {A : Type 0} → Option (List A) → List A
set_or_empty none = []
set_or_empty (some set) = set

unfoldable pub collect_roles : KeycloakClaims → List Str
unfolding push_all push_clients
collect_roles claims =
    push_clients (push_all [] (set_or_empty claims.realm_access))
      (set_or_empty claims.resource_access)

abbrev pub max_attrs : ℕ
max_attrs = 64

abbrev pub max_values : ℕ
max_values = 64

-- `BTreeMap::insert`
unfoldable pub put : Str → List Str → List (Str × List Str) → List (Str × List Str)
put key values [] = (key, values) ∷ []
put key values ((k, vs) ∷ out) =
    let rest = put key values out in
    if text_eq key k
    then (key, values) ∷ out
    else if text_leb key k
    then (key, values) ∷ (k, vs) ∷ out
    else (k, vs) ∷ rest

-- `filter_map`
abbrev pub texts : List (Option Str) → List Str
texts [] = []
texts (none ∷ items) = texts items
texts (some s ∷ items) = s ∷ texts items

abbrev pub none_left : List Str → Bool
none_left [] = true
none_left (v ∷ values) = false

unfoldable pub add_attribute : Str → ClaimValue → List (Str × List Str) → List (Str × List Str)
unfolding put
add_attribute key (string s) out = put key (s ∷ []) out
add_attribute key (array items) out =
    let values = take max_values (texts items) in
    if not (none_left values) then put key values out else out
add_attribute key other out = out

-- The loop, which stops at the limit.
unfoldable pub collect_attributes :
    List (Str × List Str) → List (Str × ClaimValue) → List (Str × List Str)
unfolding add_attribute
collect_attributes out [] = out
collect_attributes out ((key, value) ∷ extra) =
    let rest = collect_attributes (add_attribute key value out) extra in
    if leb max_attrs (length out) then out else rest

-- `trim_start_matches('/')`, `trim_end_matches('/')` and `trim_matches('/')`
unfoldable pub trim_start_slashes : Str → Str
trim_start_slashes [] = []
trim_start_slashes (c ∷ s) = if c == b'/' then trim_start_slashes s else c ∷ s

unfoldable pub trim_end_slashes : Str → Str
unfolding trim_start_slashes
trim_end_slashes s = reverse (trim_start_slashes (reverse s))

-- `str::rsplit_once` on a text: the last occurrence.
unfoldable pub rsplit_once : Str → Str → Option (Str × Str)
rsplit_once pattern [] = none
rsplit_once pattern (c ∷ s) = elim (rsplit_once pattern s) [
  | some (a, b) ↦ some (c ∷ a, b)
  | none ↦ elim (strip_prefix (c ∷ s) pattern) [ none ↦ none | some b ↦ some ([], b) ]
]

abbrev pub not_empty : Str → Option Str
not_empty r = if not (is_empty r) then some r else none

unfoldable pub realm_from_issuer : Str → Option Str
unfolding trim_end_slashes rsplit_once
realm_from_issuer issuer = elim (rsplit_once (lit "/realms/") (trim_end_slashes issuer)) [
  | none ↦ none
  | some (base, realm) ↦ not_empty (trim_end_slashes (trim_start_slashes realm))
]

unfoldable pub normalize_groups : List Str → List Str
unfolding trim_start_slashes
normalize_groups groups = retain (λ g. not (is_empty g)) (map trim_start_slashes groups)

unfoldable pub to_authorization : KeycloakClaims → Str → AuthorizationContext
unfolding collect_roles collect_attributes realm_from_issuer normalize_groups
to_authorization claims issuer = record {
  realm = realm_from_issuer issuer;
  organizations = [];
  teams = [];
  groups = normalize_groups claims.groups;
  roles = collect_roles claims;
  attributes = collect_attributes [] claims.extra;
}
