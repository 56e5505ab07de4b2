-- ===== src/Config/Tests.antt =====
-- Runs of src/config.rs and of start-up.
use mayfly_server.Prelude.{
  ◌≡◌, ◌⊎◌, ◌↔◌, refl, lit, [], none, some, true, false, to_ascii_uppercase, starts_with, trim,
  is_whitespace, text_eq,
}
use mayfly_server.Prelude.Result.{ok, err}
use mayfly_server.Config.{
  Config, Filters, KeycloakConfig, development, validation, validate, validate_basics, validate_tls,
  is_production, validate_github, validate_keycloak, validate_default_provider, validate_ca,
  validate_bundle, from_figment, load,
}
use mayfly_server.Config.Defaults.{default_config}
use mayfly_server.Config.Valid.{IsValid, validate_iff}
use mayfly_server.Auth.Github.{GitHubClient, unauthorized, github_provider}
use mayfly_server.Auth.Keycloak.Oidc.{HttpClient}
use mayfly_server.Auth.Keycloak.Verify.{JsonWebToken, invalid_signature}
use mayfly_server.Config.Startup.{
  resolve_tls_config, self_signed, load-self_signed, IsDefault, load-IsDefault, providers,
  extra_providers,
}

-- Every filter parses.
abbrev filters : Filters
filters level = ok tt

-- The base layer alone is refused: it asks for TLS and names no certificate.
defaults_refused :
    validate filters default_config
    ≡ err (validation (lit "server.tls.cert_path is required when TLS is enabled in production"))
unfolding validate validate_basics validate_tls is_production trim is_whitespace
defaults_refused = refl

abbrev keycloak : KeycloakConfig
keycloak = record {
  issuer_url = lit "https://kc/realms/eng";
  client_id = lit "mayfly";
  client_secret = some [];
  scopes = [];
  audience = none;
  clock_skew_seconds = 60;
}

abbrev plain : Config
plain = record default_config {
  server = record default_config.server {
    tls = record default_config.server.tls { enabled = false };
  };
  github = record default_config.github { client_id = lit "Iv1"; client_secret = some (lit "shh") };
  keycloak = some keycloak;
  default_provider = some (lit "keycloak");
}

loaded : load filters (lit "config.yaml") true true (ok plain) ≡ ok plain
unfolding load from_figment validate validate_basics validate_tls is_production trim is_whitespace
    validate_github validate_keycloak validate_default_provider validate_ca validate_bundle text_eq
    to_ascii_uppercase starts_with
loaded = refl

validate_iff_example : (validate filters plain ≡ ok tt) ↔ IsValid filters plain
validate_iff_example = validate_iff filters plain

generated : resolve_tls_config plain.server.tls ≡ self_signed
unfolding resolve_tls_config
generated = refl

load-self_signed_example : (plain.environment ≡ development) ⊎ (plain.server.tls.enabled ≡ false)
load-self_signed_example =
    load-self_signed filters (lit "config.yaml") true true (ok plain) plain loaded generated

abbrev offline : HttpClient Unit
offline = record {
  get = λ now url. err (lit "offline");
  post = λ now url form. err (lit "offline");
  as_discovery = λ body. err [];
  as_jwks = λ body. err [];
  as_json = λ body. err [];
}

abbrev no_tokens : JsonWebToken Unit
no_tokens = record {
  decode_header = λ token. err [];
  kid = λ token. none;
  from_jwk = λ jwk. err [];
  decode_claims = λ token key validation. err invalid_signature;
}

abbrev github : GitHubClient
github = record {
  start_device_flow = err unauthorized;
  poll_device_flow = λ code. err unauthorized;
  get_user = λ token. err unauthorized;
  get_user_orgs = λ token. err unauthorized;
  get_user_teams = λ token. err unauthorized;
}

load-IsDefault_example :
    IsDefault offline no_tokens 7
      (providers plain
        (github_provider github)
        (extra_providers offline no_tokens 7 plain.keycloak))
      (lit "keycloak")
load-IsDefault_example =
    load-IsDefault offline no_tokens 7 filters (lit "config.yaml") true true (ok plain) plain github
      loaded
