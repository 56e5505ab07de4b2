-- ===== src/Auth/Keycloak/Oidc.antt =====
-- src/auth/keycloak/oidc.rs: the caches of the discovery document and of the signing keys. The HTTP
-- client and the parsers of its replies are parameters; instants are nanoseconds of the monotonic
-- clock. The locks serialise the writers, and a writer looks at the cache again, so a call is one
-- step on the cache.
pub mod Limit
use mayfly_server.Prelude.{
  ℕ, ◌+◌, ◌*◌, ◌-◌, Str, lit, List, ◌++◌, Option, none, some, Bool, true, false, ◌&&◌, not, ltb,
  leb, find, text_eq, if◌then◌else◌,
}
use mayfly_server.Prelude.Result.{Result, ok, err}
use mayfly_server.AgentAuth.Nonce.{nanos_per_sec}
use mayfly_server.Auth.Provider.{
  AuthProviderError, transport, unexpected_status, decode, unauthorized,
}
use mayfly_server.Auth.Keycloak.Verify.{Jwk}

abbrev pub min_jwks_refresh : ℕ
min_jwks_refresh = 30 * nanos_per_sec

pub record OidcDiscovery : Type 0 where
  pub issuer : Str
  pub token_endpoint : Option Str
  pub device_authorization_endpoint : Option Str
  pub jwks_uri : Str

-- `JwkSet`: the keys, each with its `kid`.
abbrev pub JwkSet : Type 0
JwkSet = List (Option Str × Jwk)

pub record JwksCache : Type 0 where
  pub set : Option JwkSet
  pub last_refresh : Option ℕ

pub record OidcCache : Type 0 where
  pub discovery_url : Str
  pub discovery : Option OidcDiscovery
  pub jwks : JwksCache

unfoldable pub new : Str → OidcCache
new discovery_url = record {
  discovery_url = discovery_url;
  discovery = none;
  jwks = record { set = none; last_refresh = none };
}

abbrev has_kid : Str → Option Str × Jwk → Bool
has_kid kid (none, jwk) = false
has_kid kid (some k, jwk) = text_eq k kid

abbrev key_of : Option (Option Str × Jwk) → Option Jwk
key_of none = none
key_of (some (k, jwk)) = some jwk

abbrev pub found_in : Option JwkSet → Str → Option Jwk
found_in none kid = none
found_in (some set) kid = key_of (find (has_kid kid) set)

-- `JwksCache::find`
unfoldable pub find_key : JwksCache → Str → Option Jwk
find_key cache kid = found_in cache.set kid

-- A JSON object's member, as `as_str` and `as_u64` read it.
pub data JsonValue : Type 0 where
  string : Str → JsonValue
  number : ℕ → JsonValue
  other : JsonValue

pub record Reply (Body : Type 0) : Type 0 where
  pub status : ℕ
  pub body : Body

-- The replies of an HTTP client at an instant, or the text of its error, with the parsers of bodies.
pub record HttpClient (Body : Type 0) : Type 0 where
  pub get : ℕ → Str → Result Str (Reply Body)
  pub post : ℕ → Str → List (Str × Str) → Result Str (Reply Body)
  pub as_discovery : Body → Result Str OidcDiscovery
  pub as_jwks : Body → Result Str JwkSet
  pub as_json : Body → Result Str (Str → Option JsonValue)

-- `StatusCode::is_success`
abbrev pub is_success_status : ℕ → Bool
is_success_status status = leb 200 status && ltb status 300

abbrev parsed : {A : Type 0} → Str → Result Str A → Result AuthProviderError A
parsed prefix (ok a) = ok a
parsed prefix (err e) = err (decode (prefix ++ e))

abbrev read :
    {Body A : Type 0}
    → Str
    → (Body → Result Str A)
    → Result Str (Reply Body)
    → Result AuthProviderError A
read prefix parse (err e) = err (transport e)
read prefix parse (ok reply) =
    if not (is_success_status reply.status)
    then err (unexpected_status reply.status)
    else parsed prefix (parse reply.body)

-- Whether the keys were refreshed less than the interval ago.
abbrev pub is_fresh : Option ℕ → ℕ → Bool
is_fresh none now = false
is_fresh (some last) now = ltb (now - last) min_jwks_refresh

abbrev pub is_some : {A : Type 0} → Option A → Bool
is_some none = false
is_some (some a) = true

abbrev pub or_unauthorized : Option Jwk → Result AuthProviderError Jwk
or_unauthorized none = err unauthorized
or_unauthorized (some jwk) = ok jwk

-- The cache after a refresh, and the key in it.
abbrev pub refreshed :
    Str → ℕ → JwksCache → Result AuthProviderError JwkSet → Result AuthProviderError Jwk × JwksCache
refreshed kid now cache (err e) = (err e, cache)
refreshed kid now cache (ok set) =
    (or_unauthorized (found_in (some set) kid), record { set = some set; last_refresh = some now })

-- What `jwk_for_kid` does under the write lock, given the key that it finds there.
abbrev pub refresh_if :
    Option Jwk
    → Str
    → ℕ
    → JwksCache
    → Result AuthProviderError JwkSet
    → Result AuthProviderError Jwk × JwksCache
refresh_if (some jwk) kid now cache fetched = (ok jwk, cache)
refresh_if none kid now cache fetched =
    if is_fresh cache.last_refresh now && is_some cache.set
    then (err unauthorized, cache)
    else refreshed kid now cache fetched

unfoldable pub refresh :
    Str → ℕ → JwksCache → Result AuthProviderError JwkSet → Result AuthProviderError Jwk × JwksCache
unfolding find_key
refresh kid now cache fetched = refresh_if (find_key cache kid) kid now cache fetched

module _ {Body : Type 0} (http : HttpClient Body) where
  unfoldable pub fetch_discovery : ℕ → Str → Result AuthProviderError OidcDiscovery
  fetch_discovery now url = read (lit "discovery document: ") http.as_discovery (http.get now url)

  unfoldable pub fetch_jwks : ℕ → Str → Result AuthProviderError JwkSet
  fetch_jwks now uri = read (lit "jwks: ") http.as_jwks (http.get now uri)

  abbrev pub remembered :
      OidcCache
      → Result AuthProviderError OidcDiscovery
      → Result AuthProviderError OidcDiscovery × OidcCache
  remembered cache (err e) = (err e, cache)
  remembered cache (ok doc) = (ok doc, record cache { discovery = some doc })

  abbrev pub cached_or_fetched :
      Option OidcDiscovery → ℕ → OidcCache → Result AuthProviderError OidcDiscovery × OidcCache
  cached_or_fetched (some doc) now cache = (ok doc, cache)
  cached_or_fetched none now cache = remembered cache (fetch_discovery now cache.discovery_url)

  -- `OidcCache::discovery`
  unfoldable pub discover : ℕ → OidcCache → Result AuthProviderError OidcDiscovery × OidcCache
  unfolding fetch_discovery
  discover now cache = cached_or_fetched cache.discovery now cache

  abbrev pub locked :
      Str
      → ℕ
      → Result AuthProviderError OidcDiscovery × OidcCache
      → Result AuthProviderError Jwk × OidcCache
  locked kid now (err e, cache) = (err e, cache)
  locked kid now (ok doc, cache) =
      let (answer, jwks) = refresh kid now cache.jwks (fetch_jwks now doc.jwks_uri) in
      (answer, record cache { jwks = jwks })

  abbrev pub known_or_locked :
      Option Jwk → Str → ℕ → OidcCache → Result AuthProviderError Jwk × OidcCache
  known_or_locked (some jwk) kid now cache = (ok jwk, cache)
  known_or_locked none kid now cache = locked kid now (discover now cache)

  unfoldable pub jwk_for_kid : Str → ℕ → OidcCache → Result AuthProviderError Jwk × OidcCache
  unfolding discover refresh fetch_jwks
  jwk_for_kid kid now cache = known_or_locked (find_key cache.jwks kid) kid now cache
