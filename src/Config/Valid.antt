-- ===== src/Config/Valid.antt =====
-- What the validation of src/config.rs accepts.
use mayfly_server.Prelude.{
  ◌≡◌, ◌↔◌, ◌⊎◌, refl, arith, ◌≤◌, Str, lit, [], ◌∷◌, ◌++◌, trim, is_empty, to_ascii_uppercase,
  starts_with_iff, Bool-cases, inl, inr, Option, none, some, true, false, text_eq_iff,
}
use mayfly_server.Prelude.Result.{Result, ok, err, ◌>>◌}
use mayfly_server.Config.{
  Environment, production, development, TlsConfig, ServerConfig, DatabaseConfig, LoggingConfig,
  GithubConfig, validate_github, validate_basics, KeycloakConfig, CaConfig, BundleConfig, Config,
  ConfigError, Filters, is_production, is_blank, is_none, is_reserved, secret_present,
  filter_checked, validate_tls, validate_keycloak, validate_default_provider, validate_ca,
  validate_bundle, validate,
}

abbrev pub IsNamed : Str → Type 0
IsNamed s = ¬ (trim s ≡ [])

-- The name, as the loader reads it, begins with its prefix.
abbrev pub IsReserved : Str → Type 0
IsReserved name = (rest : Str) × (to_ascii_uppercase (trim name) ≡ lit "MAYFLY_" ++ rest)

abbrev pub IsGiven : {A : Type 0} → Option A → Type 0
IsGiven {A} o = (a : A) × (o ≡ some a)

abbrev pub TlsReady : Environment → TlsConfig → Type 0
TlsReady development tls = Unit
TlsReady production tls = (tls.enabled ≡ false) ⊎ (IsGiven tls.cert_path × IsGiven tls.key_path)

abbrev pub KeycloakReady : Option KeycloakConfig → Type 0
KeycloakReady none = Unit
KeycloakReady (some k) = IsNamed k.issuer_url × IsNamed k.client_id

-- The default is a provider that the server registers.
abbrev pub DefaultReady : Option Str → Option KeycloakConfig → Type 0
DefaultReady none keycloak = Unit
DefaultReady (some id) keycloak = (id ≡ lit "github") ⊎ ((id ≡ lit "keycloak") × IsGiven keycloak)

abbrev pub CaReady : CaConfig → Type 0
CaReady ca =
    IsNamed ca.storage_directory × IsNamed ca.passphrase_env × (¬ IsReserved ca.passphrase_env)

abbrev pub BundleReady : BundleConfig → Type 0
BundleReady bundle =
    (1 ≤ bundle.sync_interval_seconds)
    × (bundle.jitter_percent ≤ 100)
    × (1 ≤ bundle.ttl_seconds)
    × IsNamed bundle.signing_key_env
    × (¬ IsReserved bundle.signing_key_env)

abbrev pub BasicsReady : Filters → ServerConfig → DatabaseConfig → LoggingConfig → Type 0
BasicsReady try_new server database logging =
    (1 ≤ server.port)
    × IsNamed server.host
    × (1 ≤ database.max_connections)
    × IsNamed database.url
    × (try_new logging.level ≡ ok tt)

abbrev pub GithubReady : GithubConfig → Type 0
GithubReady github =
    IsNamed github.client_id
    × ((secret : Str) × (github.client_secret ≡ some secret) × IsNamed secret)

abbrev pub IsValid : Filters → Config → Type 0
IsValid try_new config =
    BasicsReady try_new config.server config.database config.logging
    × TlsReady config.environment config.server.tls
    × GithubReady config.github
    × KeycloakReady config.keycloak
    × DefaultReady config.default_provider config.keycloak
    × CaReady config.ca
    × BundleReady config.bundle

given : {A : Type 0} (o : Option A) → (is_none o ≡ false) ↔ IsGiven o
given none = (λ h. absurd (ground arith), λ (a, e). absurd (ground arith))
given (some a) = (λ h. (a, refl), λ g. refl)

is_empty_iff : (s : Str) → (is_empty s ≡ false) ↔ (¬ (s ≡ []))
is_empty_iff [] = (λ h. absurd (ground arith), λ h. absurd (h refl))
is_empty_iff (c ∷ s) = (λ h e. ground arith, λ h. refl)

IsNamed-iff : (s : Str) → (is_blank s ≡ false) ↔ IsNamed s
IsNamed-iff s = is_empty_iff (trim s)

IsReserved-iff : (name : Str) → (is_reserved name ≡ false) ↔ (¬ IsReserved name)
IsReserved-iff name =
    let (to, from) = starts_with_iff (to_ascii_uppercase (trim name)) (lit "MAYFLY_") in
    elim (Bool-cases (is_reserved name)) [
      | inl reserved ↦ (λ h. absurd (ground arith), λ h. absurd (h (to reserved)))
      | inr free ↦ (λ h r. ground (arith, from r), λ h. free)
    ]

secret_iff :
    (o : Option Str)
    → (secret_present o ≡ true) ↔ ((secret : Str) × (o ≡ some secret) × IsNamed secret)
secret_iff none = (λ h. absurd (ground arith), λ (s, e, n). absurd (ground arith))
secret_iff (some s) =
    (λ h. (s, refl, (IsNamed-iff s).0 (ground arith)), λ (s', e, n). ground (arith, IsNamed-iff s))

tls_iff :
    (environment : Environment) (tls : TlsConfig)
    → (validate_tls environment tls ≡ ok tt) ↔ TlsReady environment tls
unfolding validate_tls is_production
tls_iff development tls = ground arith
tls_iff production tls = ground (arith, given tls.cert_path, given tls.key_path)

keycloak_iff :
    (keycloak : Option KeycloakConfig)
    → (validate_keycloak keycloak ≡ ok tt) ↔ KeycloakReady keycloak
unfolding validate_keycloak
keycloak_iff none = ground arith
keycloak_iff (some k) = ground (arith, IsNamed-iff k.issuer_url, IsNamed-iff k.client_id)

default_iff :
    (provider : Option Str) (keycloak : Option KeycloakConfig)
    → (validate_default_provider provider keycloak ≡ ok tt) ↔ DefaultReady provider keycloak
unfolding validate_default_provider
default_iff none keycloak = ground arith
default_iff (some id) keycloak =
    ground (arith, given keycloak, text_eq_iff id (lit "github"), text_eq_iff id (lit "keycloak"))

ca_iff : (ca : CaConfig) → (validate_ca ca ≡ ok tt) ↔ CaReady ca
unfolding validate_ca
ca_iff ca = ground (
  arith,
  IsNamed-iff ca.storage_directory,
  IsNamed-iff ca.passphrase_env,
  IsReserved-iff ca.passphrase_env,
)

bundle_iff : (bundle : BundleConfig) → (validate_bundle bundle ≡ ok tt) ↔ BundleReady bundle
unfolding validate_bundle
bundle_iff bundle =
    ground (arith, IsNamed-iff bundle.signing_key_env, IsReserved-iff bundle.signing_key_env)

filter_iff : (level : Str) (r : Result Str Unit) → (filter_checked level r ≡ ok tt) ↔ (r ≡ ok tt)
filter_iff level (ok u) = ground arith
filter_iff level (err e) = ground arith

basics_iff :
    (try_new : Filters) (server : ServerConfig) (database : DatabaseConfig)
    (logging : LoggingConfig)
    → (validate_basics try_new server database logging ≡ ok tt)
      ↔ BasicsReady try_new server database logging
unfolding validate_basics
basics_iff try_new server database logging = ground (
  arith,
  IsNamed-iff server.host,
  IsNamed-iff database.url,
  filter_iff logging.level (try_new logging.level),
)

github_iff : (github : GithubConfig) → (validate_github github ≡ ok tt) ↔ GithubReady github
unfolding validate_github
github_iff github = ground (arith, IsNamed-iff github.client_id, secret_iff github.client_secret)

then_iff :
    {P Q : Type 0} {r k : Result ConfigError Unit}
    → (r ≡ ok tt) ↔ P
    → (k ≡ ok tt) ↔ Q
    → ((r >> k) ≡ ok tt) ↔ (P × Q)
then_iff {r = ok u} (p, p') (q, q') = (λ h. (p refl, q h), λ (a, b). q' b)
then_iff {r = err e} (p, p') (q, q') =
    (λ h. absurd (ground arith), λ (a, b). absurd (ground (arith, p' a)))

-- A configuration passes exactly if its port and its pool are not zero; its host, database URL and
-- GitHub credentials are not blank; its log filter parses; in production, TLS is off or has both
-- files; a Keycloak section names an issuer and a client; the default provider is GitHub or a
-- configured Keycloak; the CA's storage directory and the names of the two secrets' variables are
-- not blank, and neither name, trimmed and in upper case, begins with `MAYFLY_`; and the bundle's
-- interval and lifetime are at least 1 and its jitter at most 100.
pub validate_iff :
    (try_new : Filters) (config : Config)
    → (validate try_new config ≡ ok tt) ↔ IsValid try_new config
unfolding validate
validate_iff try_new config =
    let (accepted, valid) =
      then_iff (basics_iff try_new config.server config.database config.logging) (
        then_iff (tls_iff config.environment config.server.tls) (
          then_iff (github_iff config.github) (
            then_iff (keycloak_iff config.keycloak) (
              then_iff (default_iff config.default_provider config.keycloak)
                (then_iff (ca_iff config.ca) (bundle_iff config.bundle)))))) in
    (
      λ h. let (a, (b, (c, (d, (e, (f, g)))))) = accepted h in (a, b, c, d, e, f, g),
      λ (a, b, c, d, e, f, g). valid (a, (b, (c, (d, (e, (f, g)))))),
    )
