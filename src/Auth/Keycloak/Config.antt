-- ===== src/Auth/Keycloak/Config.antt =====
-- src/auth/keycloak/config.rs: the configuration of the provider and the URLs that follow from it.
use mayfly_server.Prelude.{ℕ, Str, lit, ◌++◌, Option}
use mayfly_server.Auth.Keycloak.Claims.{trim_end_slashes}

abbrev pub default_clock_skew_secs : ℕ
default_clock_skew_secs = 60

pub record KeycloakProviderConfig : Type 0 where
  pub issuer_url : Str
  pub client_id : Str
  pub client_secret : Option Str
  pub scopes : Str
  pub audience : Option Str
  pub clock_skew_secs : ℕ

unfoldable pub issuer : KeycloakProviderConfig → Str
issuer config = trim_end_slashes config.issuer_url

unfoldable pub discovery_url : KeycloakProviderConfig → Str
unfolding issuer
discovery_url config = issuer config ++ lit "/.well-known/openid-configuration"

unfoldable pub device_endpoint_convention : KeycloakProviderConfig → Str
unfolding issuer
device_endpoint_convention config = issuer config ++ lit "/protocol/openid-connect/auth/device"

unfoldable pub token_endpoint_convention : KeycloakProviderConfig → Str
unfolding issuer
token_endpoint_convention config = issuer config ++ lit "/protocol/openid-connect/token"
