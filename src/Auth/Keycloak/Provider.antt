-- ===== src/Auth/Keycloak/Provider.antt =====
-- src/auth/keycloak/mod.rs: the device authorization grant and the verification of access tokens.
pub mod Verified
use mayfly_server.Prelude.{
  ℕ, Str, lit, List, [], ◌∷◌, ◌++◌, Option, none, some, Bool, true, false, ◌&&◌, ◌||◌, not, ◌==◌,
  trim, is_empty, text_eq, if◌then◌else◌,
}
use mayfly_server.Prelude.Result.{Result, ok, err, ok_or, ◌>>=◌, ◌>>◌}
use mayfly_server.Auth.Provider.{
  AuthProviderError, transport, unexpected_status, decode, invalid_device_code,
  AuthenticatedIdentity, AuthenticationProvider, AuthorizationContext, AuthorizationNeeds,
  DeviceAuthorization, DeviceTokenOutcome, pending, slow_down, expired, denied, approved,
  oidc_device, ProviderMetadata,
}
use mayfly_server.Auth.Keycloak.Config.{
  KeycloakProviderConfig, discovery_url, device_endpoint_convention, token_endpoint_convention,
}
use mayfly_server.Auth.Keycloak.Claims.{KeycloakClaims, provider_id, to_identity, to_authorization}
use mayfly_server.Auth.Keycloak.Oidc as Oidc
use mayfly_server.Auth.Keycloak.Oidc.{
  HttpClient, Reply, JsonValue, OidcCache, OidcDiscovery, discover, jwk_for_kid, is_success_status,
}
use mayfly_server.Auth.Keycloak.Verify.{JsonWebToken, Jwk, verify_access_token}
use mayfly_server.Auth.Keycloak.Device.{device_authorization, token_outcome}

abbrev pub device_grant_type : Str
device_grant_type = lit "urn:ietf:params:oauth:grant-type:device_code"

-- The HTTP client is a parameter of the methods.
pub record KeycloakProvider : Type 0 where
  pub config : KeycloakProviderConfig
  pub oidc : OidcCache

abbrev pub scopes_or_default : Str → Str
scopes_or_default scopes = if is_empty (trim scopes) then lit "openid profile email" else scopes

unfoldable pub new : KeycloakProviderConfig → KeycloakProvider
new config = record {
  config = record config { scopes = scopes_or_default config.scopes };
  oidc = Oidc.new (discovery_url config);
}

abbrev pub metadata : ProviderMetadata
metadata = record { id = provider_id; display_name = lit "Keycloak"; kind = oidc_device }

abbrev or_convention : Option Str → Str → Str
or_convention none convention = convention
or_convention (some endpoint) convention = endpoint

abbrev with_secret : Option Str → List (Str × Str) → List (Str × Str)
with_secret none form = form
with_secret (some secret) form = form ++ (lit "client_secret", secret) ∷ []

abbrev sent : {Body : Type 0} → Result Str (Reply Body) → Result AuthProviderError (Reply Body)
sent (ok reply) = ok reply
sent (err e) = err (transport e)

abbrev decoded : {A : Type 0} → Result Str A → Result AuthProviderError A
decoded (ok a) = ok a
decoded (err e) = err (decode e)

module _ {Body Key : Type 0} (http : HttpClient Body) (j : JsonWebToken Key) (now : ℕ) where
  abbrev endpoint_of :
      (OidcDiscovery → Option Str) → Str → Result AuthProviderError OidcDiscovery → Str
  endpoint_of which convention (ok d) = or_convention (which d) convention
  endpoint_of which convention (err e) = convention

  unfoldable pub device_endpoint : KeycloakProvider → Str × OidcCache
  unfolding discover
  device_endpoint self =
      let (found, oidc) = discover http now self.oidc in
      (
        endpoint_of (λ d. d.device_authorization_endpoint) (device_endpoint_convention self.config)
            found,
        oidc,
      )

  unfoldable pub token_endpoint : KeycloakProvider → Str × OidcCache
  unfolding discover
  token_endpoint self =
      let (found, oidc) = discover http now self.oidc in
      (endpoint_of (λ d. d.token_endpoint) (token_endpoint_convention self.config) found, oidc)

  abbrev started : Reply Body → Result AuthProviderError DeviceAuthorization
  started reply =
      if not (is_success_status reply.status)
      then err (unexpected_status reply.status)
      else (decoded (http.as_json reply.body) >>= device_authorization)

  unfoldable pub start_device_authorization :
      KeycloakProvider → Result AuthProviderError DeviceAuthorization × OidcCache
  unfolding device_endpoint device_authorization
  start_device_authorization self =
      let (endpoint, oidc) = device_endpoint self in
      let form =
        with_secret self.config.client_secret
          ((lit "client_id", self.config.client_id) ∷ (lit "scope", self.config.scopes) ∷ []) in
      (sent (http.post now endpoint form) >>= started, oidc)

  abbrev polled : Reply Body → Result AuthProviderError DeviceTokenOutcome
  polled reply =
      if not (reply.status == 200) && not (reply.status == 400)
      then err (unexpected_status reply.status)
      else (decoded (http.as_json reply.body) >>= token_outcome)

  unfoldable pub poll_device_authorization :
      KeycloakProvider → Str → Result AuthProviderError DeviceTokenOutcome × OidcCache
  unfolding token_endpoint token_outcome
  poll_device_authorization self device_code =
      let (endpoint, oidc) = token_endpoint self in
      let form = with_secret self.config.client_secret (
        (lit "client_id", self.config.client_id)
        ∷ (lit "device_code", device_code)
        ∷ (lit "grant_type", device_grant_type)
        ∷ []) in
      (sent (http.post now endpoint form) >>= polled, oidc)

  abbrev pub with_jwk :
      KeycloakProviderConfig
      → Str
      → OidcDiscovery
      → Result AuthProviderError Jwk × OidcCache
      → Result AuthProviderError (KeycloakClaims × Str) × OidcCache
  with_jwk config token discovery (err e, oidc) = (err e, oidc)
  with_jwk config token discovery (ok jwk, oidc) = (
    (do
      claims ← verify_access_token j token jwk discovery.issuer config
      ok (claims, discovery.issuer)),
    oidc,
  )

  abbrev pub with_kid :
      KeycloakProviderConfig
      → Str
      → OidcDiscovery
      → OidcCache
      → Result AuthProviderError Str
      → Result AuthProviderError (KeycloakClaims × Str) × OidcCache
  with_kid config token discovery oidc (err e) = (err e, oidc)
  with_kid config token discovery oidc (ok kid) =
      with_jwk config token discovery (jwk_for_kid http kid now oidc)

  -- The header's `kid`.
  abbrev pub kid_of : Str → Result AuthProviderError Str
  kid_of token = do
    alg ← decoded (j.decode_header token)
    ok_or (j.kid token) (decode (lit "access token has no 'kid'"))

  abbrev pub with_discovery :
      KeycloakProviderConfig
      → Str
      → Result AuthProviderError OidcDiscovery × OidcCache
      → Result AuthProviderError (KeycloakClaims × Str) × OidcCache
  with_discovery config token (err e, oidc) = (err e, oidc)
  with_discovery config token (ok discovery, oidc) =
      with_kid config token discovery oidc (kid_of token)

  unfoldable pub verified_claims :
      KeycloakProvider → Str → Result AuthProviderError (KeycloakClaims × Str) × OidcCache
  unfolding discover jwk_for_kid verify_access_token
  verified_claims self token = with_discovery self.config token (discover http now self.oidc)

  unfoldable pub fetch_identity :
      KeycloakProvider → Str → Result AuthProviderError AuthenticatedIdentity × OidcCache
  unfolding verified_claims to_identity
  fetch_identity self token =
      let (verified, oidc) = verified_claims self token in
      ((do (claims, issuer) ← verified; ok (to_identity claims)), oidc)

  unfoldable pub resolve_authorization :
      KeycloakProvider
      → Str
      → AuthenticatedIdentity
      → AuthorizationNeeds
      → Result AuthProviderError AuthorizationContext × OidcCache
  unfolding verified_claims to_authorization
  resolve_authorization self token identity needs =
      let (verified, oidc) = verified_claims self token in
      ((do (claims, issuer) ← verified; ok (to_authorization claims issuer)), oidc)

  -- The provider by its answers at this instant.
  unfoldable pub keycloak_provider : KeycloakProvider → AuthenticationProvider
  unfolding start_device_authorization poll_device_authorization fetch_identity
      resolve_authorization
  keycloak_provider self = record {
    metadata = metadata;
    start_device_authorization = (start_device_authorization self).0;
    poll_device_authorization = λ device_code. (poll_device_authorization self device_code).0;
    fetch_identity = λ token. (fetch_identity self token).0;
    resolve_authorization =
        λ token identity needs. (resolve_authorization self token identity needs).0;
  }
