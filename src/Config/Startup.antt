-- ===== src/Config/Startup.antt =====
-- What start-up does with a loaded configuration: the Keycloak provider of src/main.rs, the registry
-- of src/state.rs and the choice of TLS material of src/server.rs.
use mayfly_server.Prelude.{
  ◌≡◌, ◌⊎◌, inl, inr, refl, sym, ◌∙◌, subst, arith, ℕ, Str, List, [], ◌∷◌, Option, none, some, Bool,
  false, text_eq,
}
use mayfly_server.Prelude.Result.{Result, ok, err, Result-cases}
use mayfly_server.Auth.Provider.{AuthenticationProvider}
use mayfly_server.Auth.Registry.{ProviderRegistry, new, register, get, resolve, get-register}
use mayfly_server.Auth.Github.{GitHubClient, github_id, github_provider}
use mayfly_server.Auth.Keycloak.Config.{KeycloakProviderConfig}
use mayfly_server.Auth.Keycloak.Oidc.{HttpClient}
use mayfly_server.Auth.Keycloak.Verify.{JsonWebToken}
use mayfly_server.Auth.Keycloak.Claims.{provider_id}
use mayfly_server.Auth.Keycloak.Provider as Keycloak
use mayfly_server.Auth.Keycloak.Provider.{keycloak_provider, scopes_or_default}
use mayfly_server.Config.{
  Config, Environment, production, development, Filters, KeycloakConfig, TlsConfig,
  keycloak_secret_value, validate, from_figment, load,
}
use mayfly_server.Config.Valid.{IsValid, DefaultReady, TlsReady, validate_iff}

unfoldable pub keycloak_provider_config : KeycloakConfig → KeycloakProviderConfig
unfolding keycloak_secret_value
keycloak_provider_config kc = record {
  issuer_url = kc.issuer_url;
  client_id = kc.client_id;
  client_secret = keycloak_secret_value kc;
  scopes = scopes_or_default kc.scopes;
  audience = kc.audience;
  clock_skew_secs = kc.clock_skew_seconds;
}

-- The certificate that the server presents: the configured files, or a generated one.
pub data TlsMaterial : Type 0 where
  load_pem : Str → Str → TlsMaterial
  self_signed : TlsMaterial

abbrev material_of : Option Str → Option Str → TlsMaterial
material_of (some cert) (some key) = load_pem cert key
material_of _ _ = self_signed

-- `resolve_tls_config`, up to the reading of the files.
unfoldable pub resolve_tls_config : TlsConfig → TlsMaterial
resolve_tls_config tls = material_of tls.cert_path tls.key_path

abbrev pub default_id : Option Str → Str
default_id none = github_id
default_id (some id) = id

-- `AppState::providers`, with the providers that were added.
unfoldable pub register_all : ProviderRegistry → List AuthenticationProvider → ProviderRegistry
unfolding register
register_all r [] = r
register_all r (p ∷ ps) = register_all (register r p) ps

unfoldable pub providers :
    Config → AuthenticationProvider → List AuthenticationProvider → ProviderRegistry
unfolding new register register_all
providers config github extra =
    register_all (register (new (default_id config.default_provider)) github) extra

module _ {Body Key : Type 0} (http : HttpClient Body) (j : JsonWebToken Key) (now : ℕ) where
  -- The provider of a `[keycloak]` section, if there is one.
  unfoldable pub extra_providers : Option KeycloakConfig → List AuthenticationProvider
  unfolding keycloak_provider_config keycloak_provider Keycloak.new
  extra_providers none = []
  extra_providers (some kc) =
      keycloak_provider http j now (Keycloak.new (keycloak_provider_config kc)) ∷ []

generated-only :
    (environment : Environment) (tls : TlsConfig)
    → TlsReady environment tls
    → resolve_tls_config tls ≡ self_signed
    → (environment ≡ development) ⊎ (tls.enabled ≡ false)
unfolding resolve_tls_config
generated-only development tls ready h = inl refl
generated-only production tls (inl off) h = inr off
generated-only production tls (inr ((cert, has_cert), (key, has_key))) h = absurd (ground arith)

get-github :
    (r : ProviderRegistry) (client : GitHubClient)
    → get (register r (github_provider client)) github_id ≡ some (github_provider client)
unfolding text_eq github_provider
get-github r client = get-register r (github_provider client) github_id

module _ {Body Key : Type 0} (http : HttpClient Body) (j : JsonWebToken Key) (now : ℕ) where
  abbrev pub registered : ProviderRegistry → Option KeycloakConfig → ProviderRegistry
  registered r keycloak = register_all r (extra_providers http j now keycloak)

  -- GitHub stays registered, and a configured Keycloak is.
  get-registered-github :
      (r : ProviderRegistry) (client : GitHubClient) (keycloak : Option KeycloakConfig)
      → get (registered (register r (github_provider client)) keycloak) github_id
        ≡ some (github_provider client)
  unfolding register_all extra_providers keycloak_provider text_eq
  get-registered-github r client none = get-github r client
  get-registered-github r client (some kc) =
      get-register (register r (github_provider client)) _ github_id ∙ get-github r client

  get-registered-keycloak :
      (r : ProviderRegistry) (kc : KeycloakConfig)
      → get (registered r (some kc)) provider_id
        ≡ some (keycloak_provider http j now (Keycloak.new (keycloak_provider_config kc)))
  unfolding register_all extra_providers keycloak_provider text_eq
  get-registered-keycloak r kc = get-register r _ provider_id

module _ (try_new : Filters) where
  load-IsValid :
      (path : Str) (required exists : Bool) (figment : Result Str Config) (config : Config)
      → load try_new path required exists figment ≡ ok config
      → IsValid try_new config
  unfolding load from_figment
  load-IsValid path required exists (err e) config h = absurd (ground arith)
  load-IsValid path required exists (ok c) config h = elim (Result-cases (validate try_new c)) [
    | inr (e, failed) ↦ absurd (ground arith)
    | inl (u, valid) ↦
        let same : c ≡ config = ground arith in
        subst (IsValid try_new) same ((validate_iff try_new c).0 valid)
  ]

  -- With a configuration that was loaded, the server presents a self-signed certificate only in
  -- development or if TLS is switched off.
  pub load-self_signed :
      (path : Str) (required exists : Bool) (figment : Result Str Config) (config : Config)
      → load try_new path required exists figment ≡ ok config
      → resolve_tls_config config.server.tls ≡ self_signed
      → (config.environment ≡ development) ⊎ (config.server.tls.enabled ≡ false)
  load-self_signed path required exists figment config h =
      let (basics, ready, github, keycloak, default, ca, bundle) =
        load-IsValid path required exists figment config h in
      generated-only config.environment config.server.tls ready

module _ {Body Key : Type 0} (http : HttpClient Body) (j : JsonWebToken Key) (now : ℕ) where
  abbrev pub IsDefault : ProviderRegistry → Str → Type 0
  IsDefault r id = (p : AuthenticationProvider) × (resolve r none ≡ ok p) × (p.metadata.id ≡ id)

  resolve-get :
      (r : ProviderRegistry) (p : AuthenticationProvider) (id : Str)
      → r.default_id ≡ id
      → get r id ≡ some p
      → p.metadata.id ≡ id
      → IsDefault r id
  unfolding resolve get
  resolve-get r p id same found named = (p, rw (same, found) refl, named)

  registered-default_id :
      (r : ProviderRegistry) (p : AuthenticationProvider) (keycloak : Option KeycloakConfig)
      → (registered http j now (register r p) keycloak).default_id ≡ r.default_id
  unfolding register_all extra_providers register
  registered-default_id r p none = refl
  registered-default_id r p (some kc) = refl

  default_id-IsDefault :
      (provider : Option Str) (keycloak : Option KeycloakConfig) (client : GitHubClient)
      → DefaultReady provider keycloak
      → IsDefault
          (registered http j now
            (register (new (default_id provider)) (github_provider client))
            keycloak)
          (default_id provider)
  unfolding new github_provider keycloak_provider
  default_id-IsDefault none keycloak client ready =
      let r = new github_id in
      resolve-get (registered http j now (register r (github_provider client)) keycloak)
        (github_provider client) github_id
        (registered-default_id r (github_provider client) keycloak)
        (get-registered-github http j now r client keycloak) refl
  default_id-IsDefault (some id) keycloak client (inl github) =
      let r = new id in
      resolve-get (registered http j now (register r (github_provider client)) keycloak)
        (github_provider client) id (registered-default_id r (github_provider client) keycloak)
        (subst
          (λ i.
            get (registered http j now (register r (github_provider client)) keycloak) i
            ≡ some (github_provider client))
          (sym github) (get-registered-github http j now r client keycloak))
        (sym github)
  default_id-IsDefault (some id) keycloak client (inr (named, (kc, given))) =
      let r = register (new id) (github_provider client) in
      subst (λ k. IsDefault (registered http j now r k) id) (sym given)
        (resolve-get (registered http j now r (some kc))
          (keycloak_provider http j now (Keycloak.new (keycloak_provider_config kc))) id
          (registered-default_id (new id) (github_provider client) (some kc))
          (subst
            (λ i.
              get (registered http j now r (some kc)) i
              ≡ some (keycloak_provider http j now (Keycloak.new (keycloak_provider_config kc))))
            (sym named) (get-registered-keycloak http j now r kc))
          (sym named))

  -- With a configuration that was loaded and the providers of start-up, a request that names no
  -- provider always resolves to one: the configured default, or GitHub.
  pub load-IsDefault :
      (try_new : Filters) (path : Str) (required exists : Bool) (figment : Result Str Config)
      (config : Config) (client : GitHubClient)
      → load try_new path required exists figment ≡ ok config
      → IsDefault
          (providers config (github_provider client) (extra_providers http j now config.keycloak))
          (default_id config.default_provider)
  unfolding providers
  load-IsDefault try_new path required exists figment config client h =
      let (basics, tls, github, keycloak, default, ca, bundle) =
        load-IsValid try_new path required exists figment config h in
      default_id-IsDefault config.default_provider config.keycloak client default
