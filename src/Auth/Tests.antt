-- ===== src/Auth/Tests.antt =====
-- Runs of src/auth.
use mayfly_server.Prelude.{
  ◌≡◌, refl, ◌≤◌, Str, lit, List, [], ◌∷◌, none, some, false, All, length, eq_ignore_ascii_case,
  strip_prefix,
}
use mayfly_server.Prelude.Result.{ok, err}
use mayfly_server.Auth.Provider.{AuthenticationProvider, oidc_device, pending, unauthorized}
use mayfly_server.Auth.Registry.{ProviderRegistry, new, register}
use mayfly_server.Auth.Keycloak.Claims.{
  ClaimValue, string, array, KeycloakClaims, collect_roles, push, push_all, push_client,
  push_clients, collect_attributes, realm_from_issuer, trim_end_slashes, trim_start_slashes,
  rsplit_once,
}
use mayfly_server.Auth.Keycloak.Claims.Roles.{IsHeld, HoldsClient, IsClean, collect_roles-IsClean}
use mayfly_server.Auth.Keycloak.Claims.Attributes.{IsBounded, collect_attributes-IsBounded}
use mayfly_server.Auth.Keycloak.Config.{KeycloakProviderConfig}
use mayfly_server.Auth.Keycloak.Verify.{
  Algorithm, rs256, Jwk, rsa, JsonWebToken, verify_access_token, algorithm_eq, algorithm_for_jwk,
  is_symmetric, Validation, IsStrict, verify_access_token-pinned,
}

abbrev provider : Str → AuthenticationProvider
provider id = record {
  metadata = record { id = id; display_name = id; kind = oidc_device };
  start_device_authorization = err unauthorized;
  poll_device_authorization = λ code. ok pending;
  fetch_identity = λ token. err unauthorized;
  resolve_authorization = λ token identity needs. err unauthorized;
}

abbrev registry : ProviderRegistry
registry = register (new (lit "github")) (provider (lit "github"))

abbrev claims : KeycloakClaims
claims = record {
  sub = lit "s";
  preferred_username = none;
  email = none;
  name = none;
  realm_access = some (lit "Admin" ∷ lit "admin" ∷ []);
  resource_access = some ((lit "mayfly", lit "operator" ∷ []) ∷ []);
  groups = [];
  extra = [];
}

collect_roles-IsClean_example :
    All (IsHeld (collect_roles claims)) (lit "Admin" ∷ lit "admin" ∷ [])
    × All (HoldsClient (collect_roles claims)) ((lit "mayfly", lit "operator" ∷ []) ∷ [])
    × IsClean (collect_roles claims)
collect_roles-IsClean_example = collect_roles-IsClean claims

collected : collect_roles claims ≡ lit "Admin" ∷ lit "mayfly/operator" ∷ lit "operator" ∷ []
unfolding collect_roles push push_all push_client push_clients eq_ignore_ascii_case
collected = refl

abbrev extra : List (Str × ClaimValue)
extra = (lit "department", string (lit "ops")) ∷ (lit "empty", array (none ∷ [])) ∷ []

collect_attributes-IsBounded_example :
    All IsBounded (collect_attributes [] extra) × (length (collect_attributes [] extra) ≤ 64)
collect_attributes-IsBounded_example = collect_attributes-IsBounded extra

the_realm : realm_from_issuer (lit "https://kc/realms/eng/") ≡ some (lit "eng")
unfolding realm_from_issuer rsplit_once trim_end_slashes trim_start_slashes strip_prefix
the_realm = refl

abbrev toy_tokens : JsonWebToken Str
toy_tokens = record {
  decode_header = λ token. ok rs256;
  kid = λ token. some (lit "k1");
  from_jwk = λ jwk. ok (lit "key");
  decode_claims = λ token key validation. ok claims;
}

abbrev rsa_key : Jwk
rsa_key = record { key_algorithm = none; algorithm = rsa }

abbrev config : KeycloakProviderConfig
config = record {
  issuer_url = lit "https://kc/";
  client_id = lit "mayfly-cli";
  client_secret = none;
  scopes = [];
  audience = some (lit "mayfly");
  clock_skew_secs = 60;
}

verified : verify_access_token toy_tokens (lit "t") rsa_key (lit "https://kc") config ≡ ok claims
unfolding verify_access_token algorithm_for_jwk algorithm_eq
verified = refl

verify_access_token-pinned_example :
    (alg : Algorithm) × (key : Str) × (toy_tokens.decode_header (lit "t") ≡ ok alg)
    × (is_symmetric toy_tokens alg ≡ false)
    × (toy_tokens.from_jwk rsa_key ≡ ok key)
    × (algorithm_for_jwk rsa_key ≡ ok alg)
    × ((v : Validation) × (toy_tokens.decode_claims (lit "t") key v ≡ ok claims)
        × IsStrict alg (lit "https://kc") config v)
verify_access_token-pinned_example =
    verify_access_token-pinned toy_tokens (lit "t") rsa_key (lit "https://kc") config claims
      verified
