-- ===== src/Auth/Keycloak/Tests.antt =====
-- Runs of src/auth/keycloak/oidc.rs and mod.rs.
use mayfly_server.Prelude.{
  ◌≡◌, refl, ◌*◌, Str, lit, List, [], ◌∷◌, none, some, text_eq, if◌then◌else◌,
}
use mayfly_server.Prelude.Result.{ok}
use mayfly_server.AgentAuth.Nonce.{nanos_per_sec}
use mayfly_server.Auth.Provider.{pending}
use mayfly_server.Auth.Keycloak.Claims.{KeycloakClaims, to_identity}
use mayfly_server.Auth.Keycloak.Verify.{
  rs256, rsa, Jwk, JsonWebToken, verify_access_token, algorithm_eq, algorithm_for_jwk,
}
use mayfly_server.Auth.Keycloak.Oidc.{
  HttpClient, Reply, JsonValue, OidcCache, OidcDiscovery, discover, fetch_discovery, fetch_jwks,
  find_key, jwk_for_kid, refresh,
}
use mayfly_server.Auth.Keycloak.Oidc as Oidc
use mayfly_server.Auth.Keycloak.Oidc.Limit.{Lookup, refreshes}
use mayfly_server.Auth.Keycloak.Device.{token_outcome}
use mayfly_server.Auth.Keycloak.Provider.{KeycloakProvider, new, fetch_identity, verified_claims}
use mayfly_server.Auth.Keycloak.Provider.Verified.{
  Discovered, IsVerified, fetch_identity-IsVerified,
}

abbrev rsa_key : Jwk
rsa_key = record { key_algorithm = none; algorithm = rsa }

abbrev document : OidcDiscovery
document = record {
  issuer = lit "https://kc";
  token_endpoint = none;
  device_authorization_endpoint = none;
  jwks_uri = lit "https://kc/certs";
}

-- Every page answers with the discovery document and the key `k1`.
abbrev toy_http : HttpClient Unit
toy_http = record {
  get = λ now url. ok (record { status = 200; body = tt });
  post = λ now url form. ok (record { status = 400; body = tt });
  as_discovery = λ body. ok document;
  as_jwks = λ body. ok ((some (lit "k1"), rsa_key) ∷ []);
  as_json = λ body. ok (λ key. some (JsonValue.string (lit "authorization_pending")));
}

abbrev claims : KeycloakClaims
claims = record {
  sub = lit "s";
  preferred_username = some (lit "ana");
  email = none;
  name = none;
  realm_access = none;
  resource_access = none;
  groups = [];
  extra = [];
}

abbrev toy_tokens : JsonWebToken Str
toy_tokens = record {
  decode_header = λ token. ok rs256;
  kid = λ token. some (lit "k1");
  from_jwk = λ jwk. ok (lit "key");
  decode_claims = λ token key validation. ok claims;
}

abbrev self : KeycloakProvider
self = new (record {
  issuer_url = lit "https://kc/";
  client_id = lit "mayfly-cli";
  client_secret = none;
  scopes = [];
  audience = none;
  clock_skew_secs = 60;
})

abbrev lookups : List Lookup
lookups =
    record { kid = lit "k1"; now = 5 * nanos_per_sec }
    ∷ record { kid = lit "k2"; now = 6 * nanos_per_sec }
    ∷ record { kid = lit "k2"; now = 40 * nanos_per_sec }
    ∷ []

-- The second lookup of an unknown key comes too early to refresh the keys.
refreshed_at :
    refreshes toy_http (Oidc.new (lit "u")) lookups
    ≡ some (5 * nanos_per_sec) ∷ some (5 * nanos_per_sec) ∷ some (40 * nanos_per_sec) ∷ []
unfolding jwk_for_kid Oidc.new discover fetch_discovery refresh fetch_jwks find_key text_eq
refreshed_at = refl

identified : (fetch_identity toy_http toy_tokens 7 self (lit "t")).0 ≡ ok (to_identity claims)
unfolding fetch_identity verified_claims new discover fetch_discovery jwk_for_kid refresh fetch_jwks
    find_key Oidc.new text_eq verify_access_token algorithm_for_jwk algorithm_eq
identified = refl

fetch_identity-IsVerified_example :
    (c : KeycloakClaims) × (issuer : Str) × Discovered toy_http toy_tokens 7 self.oidc issuer
    × IsVerified toy_http toy_tokens 7 self.config
        (lit "t")
        (fetch_identity toy_http toy_tokens 7 self (lit "t")).1
        c
        issuer
    × (to_identity claims ≡ to_identity c)
fetch_identity-IsVerified_example =
    fetch_identity-IsVerified toy_http toy_tokens 7 self (lit "t") (to_identity claims) identified

awaiting :
    token_outcome (λ key.
      if text_eq key (lit "error")
      then some (JsonValue.string (lit "authorization_pending"))
      else none)
    ≡ ok pending
unfolding token_outcome text_eq
awaiting = refl
