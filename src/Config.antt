-- ===== src/Config.antt =====
-- src/config.rs with src/environment.rs: the configuration and its validation. The layers that
-- Figment composes and the parser of log filters belong to other crates, so they are parameters.
pub mod Defaults
pub mod Valid
pub mod Startup
mod Tests
use mayfly_server.Prelude.{
  ℕ, Str, lit, ◌++◌, Option, none, some, Bool, true, false, ◌&&◌, ◌||◌, not, ◌==◌, ltb, trim,
  is_empty, text_eq, to_ascii_uppercase, starts_with, if◌then◌else◌,
}
use mayfly_server.Prelude.Result.{Result, ok, err, reject_if, ◌>>=◌, ◌>>◌}
use mayfly_server.Authz.{AccessConfig}

pub data ConfigError : Type 0 where
  load_failed validation : Str → ConfigError

pub data Environment : Type 0 where
  production development : Environment

unfoldable pub is_production : Environment → Bool
is_production production = true
is_production development = false

pub record TlsConfig : Type 0 where
  pub enabled : Bool
  pub cert_path : Option Str
  pub key_path : Option Str

-- `port` is a `u16`.
pub record ServerConfig : Type 0 where
  pub host : Str
  pub port : ℕ
  pub tls : TlsConfig

pub record DatabaseConfig : Type 0 where
  pub url : Str
  pub max_connections : ℕ

pub data LogFormat : Type 0 where
  pretty json : LogFormat

pub record LoggingConfig : Type 0 where
  pub format : LogFormat
  pub level : Str

-- A `Secret` is the value that it wraps.
pub record GithubConfig : Type 0 where
  pub client_id : Str
  pub client_secret : Option Str
  pub scopes : Str
  pub device_base_url : Str
  pub api_base_url : Str

pub record KeycloakConfig : Type 0 where
  pub issuer_url : Str
  pub client_id : Str
  pub client_secret : Option Str
  pub scopes : Str
  pub audience : Option Str
  pub clock_skew_seconds : ℕ

-- `selection_strategy` is a type of src/ca that only the CA manager reads.
pub record CaConfig : Type 0 where
  pub storage_directory : Str
  pub auto_load : Bool
  pub passphrase_env : Str

pub record BundleConfig : Type 0 where
  pub sync_interval_seconds : ℕ
  pub jitter_percent : ℕ
  pub ttl_seconds : ℕ
  pub signing_key_env : Str

pub record Config : Type 0 where
  pub environment : Environment
  pub server : ServerConfig
  pub database : DatabaseConfig
  pub logging : LoggingConfig
  pub github : GithubConfig
  pub keycloak : Option KeycloakConfig
  pub default_provider : Option Str
  pub ca : CaConfig
  pub bundle : BundleConfig
  pub access : AccessConfig

abbrev or_default : Option Str → Str
or_default none = lit ""
or_default (some s) = s

unfoldable pub github_secret_value : GithubConfig → Str
github_secret_value github = or_default github.client_secret

abbrev unless_empty : Option Str → Option Str
unless_empty none = none
unless_empty (some s) = if is_empty s then none else some s

unfoldable pub keycloak_secret_value : KeycloakConfig → Option Str
keycloak_secret_value keycloak = unless_empty keycloak.client_secret

abbrev pub is_blank : Str → Bool
is_blank s = is_empty (trim s)

abbrev pub is_none : {A : Type 0} → Option A → Bool
is_none none = true
is_none (some a) = false

abbrev pub secret_present : Option Str → Bool
secret_present none = false
secret_present (some s) = not (is_blank s)

abbrev pub known_provider : Str → Option KeycloakConfig → Bool
known_provider id keycloak =
    text_eq id (lit "github") || (text_eq id (lit "keycloak") && not (is_none keycloak))

abbrev pub is_reserved : Str → Bool
is_reserved name = starts_with (to_ascii_uppercase (trim name)) (lit "MAYFLY_")

-- `return Err(ConfigError::Validation(message))` if the test holds.
abbrev pub invalid_if : Bool → Str → Result ConfigError Unit
invalid_if test message = reject_if test (validation message)

unfoldable pub validate_keycloak : Option KeycloakConfig → Result ConfigError Unit
validate_keycloak none = ok tt
validate_keycloak (some keycloak) = do
  invalid_if (is_blank keycloak.issuer_url)
      (lit "keycloak.issuer_url is required when keycloak is configured")
  invalid_if (is_blank keycloak.client_id)
      (lit "keycloak.client_id is required when keycloak is configured")

unfoldable pub validate_default_provider :
    Option Str → Option KeycloakConfig → Result ConfigError Unit
validate_default_provider none keycloak = ok tt
validate_default_provider (some id) keycloak = invalid_if (not (known_provider id keycloak)) (
    lit "default_provider '"
    ++ id
    ++ lit "' is not a configured provider "
    ++ lit "(expected 'github', or 'keycloak' with a [keycloak] section)")

unfoldable pub validate_tls : Environment → TlsConfig → Result ConfigError Unit
unfolding is_production
validate_tls environment tls =
    if tls.enabled && is_production environment
    then (do
      invalid_if (is_none tls.cert_path)
          (lit "server.tls.cert_path is required when TLS is enabled in production")
      invalid_if (is_none tls.key_path)
          (lit "server.tls.key_path is required when TLS is enabled in production"))
    else ok tt

unfoldable pub validate_bundle : BundleConfig → Result ConfigError Unit
validate_bundle bundle = do
  invalid_if (bundle.sync_interval_seconds == 0)
      (lit "bundle.sync_interval_seconds must be at least 1")
  invalid_if (ltb 100 bundle.jitter_percent) (lit "bundle.jitter_percent must be between 0 and 100")
  invalid_if (bundle.ttl_seconds == 0) (lit "bundle.ttl_seconds must be at least 1")
  invalid_if (is_blank bundle.signing_key_env) (lit "bundle.signing_key_env must not be empty")
  invalid_if (is_reserved bundle.signing_key_env) (
      lit "bundle.signing_key_env '"
      ++ bundle.signing_key_env
      ++ lit "' must not start with 'MAYFLY_': that prefix is "
      ++ lit "reserved for configuration environment variables. Use a non-prefixed name such "
      ++ lit "as 'BUNDLE_SIGNING_KEY'.")

unfoldable pub validate_ca : CaConfig → Result ConfigError Unit
validate_ca ca = do
  invalid_if (is_blank ca.storage_directory) (lit "ca.storage_directory must not be empty")
  invalid_if (is_blank ca.passphrase_env) (lit "ca.passphrase_env must not be empty")
  invalid_if (is_reserved ca.passphrase_env) (
      lit "ca.passphrase_env '"
      ++ ca.passphrase_env
      ++ lit "' must not start with 'MAYFLY_': that prefix is reserved "
      ++ lit "for configuration environment variables and would be intercepted by the config "
      ++ lit "loader. Use a non-prefixed name such as 'CA_STORAGE_PASSPHRASE'.")

-- `EnvFilter::try_new`, with the text of its error.
abbrev pub Filters : Type 0
Filters = Str → Result Str Unit

abbrev pub filter_checked : Str → Result Str Unit → Result ConfigError Unit
filter_checked level (ok u) = ok tt
filter_checked level (err e) =
    err (validation (lit "logging.level '" ++ level ++ lit "' is not a valid filter: " ++ e))

unfoldable pub validate_github : GithubConfig → Result ConfigError Unit
validate_github github = do
  invalid_if (is_blank github.client_id) (lit "github.client_id is required")
  invalid_if (not (secret_present github.client_secret)) (lit "github.client_secret is required")

module _ (try_new : Filters) where
  -- The server, the database and the log filter.
  unfoldable pub validate_basics :
      ServerConfig → DatabaseConfig → LoggingConfig → Result ConfigError Unit
  validate_basics server database logging = do
    invalid_if (server.port == 0) (lit "server.port must be between 1 and 65535")
    invalid_if (is_blank server.host) (lit "server.host must not be empty")
    invalid_if (database.max_connections == 0) (lit "database.max_connections must be at least 1")
    invalid_if (is_blank database.url) (lit "database.url must not be empty")
    filter_checked logging.level (try_new logging.level)

  unfoldable pub validate : Config → Result ConfigError Unit
  unfolding validate_basics validate_tls validate_github validate_keycloak validate_default_provider
      validate_ca validate_bundle
  validate config = do
    validate_basics config.server config.database config.logging
    validate_tls config.environment config.server.tls
    validate_github config.github
    validate_keycloak config.keycloak
    validate_default_provider config.default_provider config.keycloak
    validate_ca config.ca
    validate_bundle config.bundle

  -- What Figment extracts: a configuration, or the text of its error.
  unfoldable pub from_figment : Result Str Config → Result ConfigError Config
  unfolding validate
  from_figment (err e) = err (load_failed e)
  from_figment (ok config) = validate config >> ok config

  -- `exists` tells whether the file is there, `figment` is what its layers extract.
  unfoldable pub load : Str → Bool → Bool → Result Str Config → Result ConfigError Config
  unfolding from_figment
  load path required exists figment = do
    invalid_if (required && not exists)
        (lit "configuration file '" ++ path ++ lit "' was specified but does not exist")
    from_figment figment
