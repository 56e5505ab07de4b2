-- ===== src/Auth/Keycloak/Provider/Verified.antt =====
-- What an identity from src/auth/keycloak/mod.rs rests on.
use mayfly_server.Prelude.{◌≡◌, refl, ap, inl, inr, arith, ℕ, Str, Option, none, some}
use mayfly_server.Prelude.Result.{Result, ok, err, ok_or, Result-cases}
use mayfly_server.Auth.Provider.{AuthProviderError, AuthenticatedIdentity}
use mayfly_server.Auth.Keycloak.Config.{KeycloakProviderConfig}
use mayfly_server.Auth.Keycloak.Claims.{KeycloakClaims, to_identity}
use mayfly_server.Auth.Keycloak.Oidc.{
  HttpClient, OidcCache, OidcDiscovery, discover, find_key, jwk_for_kid,
}
use mayfly_server.Auth.Keycloak.Oidc.Limit.{jwk_for_kid-held}
use mayfly_server.Auth.Keycloak.Verify.{JsonWebToken, Jwk, verify_access_token}
use mayfly_server.Auth.Keycloak.Provider.{
  KeycloakProvider, with_discovery, with_kid, with_jwk, kid_of, verified_claims, fetch_identity,
}

module _ {Body Key : Type 0} (http : HttpClient Body) (j : JsonWebToken Key) (now : ℕ) where
  -- The token's key is held under its id, and the token verifies with it for the issuer.
  abbrev pub IsVerified : KeycloakProviderConfig → Str → OidcCache → KeycloakClaims → Str → Type 0
  IsVerified config token oidc claims issuer =
      (kid : Str) × (jwk : Jwk) × (j.kid token ≡ some kid)
      × (find_key oidc.jwks kid ≡ some jwk)
      × (verify_access_token j token jwk issuer config ≡ ok claims)

  ok_or-ok :
      {A : Type 0} (o : Option A) (e : AuthProviderError) (a : A) → ok_or o e ≡ ok a → o ≡ some a
  ok_or-ok none e a h = absurd (ground arith)
  ok_or-ok (some b) e a h = ground arith

  kid_of-ok : (token kid : Str) → kid_of http j now token ≡ ok kid → j.kid token ≡ some kid
  kid_of-ok token kid h = elim (Result-cases (j.decode_header token)) [
    | inr (e, failed) ↦ absurd (ground arith)
    | inl (alg, read) ↦ ok_or-ok (j.kid token) _ kid (rw read at h)
  ]

  with_jwk-IsVerified :
      (config : KeycloakProviderConfig) (token kid : Str) (discovery : OidcDiscovery)
      (found : Result AuthProviderError Jwk × OidcCache) (claims : KeycloakClaims) (issuer : Str)
      → j.kid token ≡ some kid
      → ((jwk : Jwk) → found.0 ≡ ok jwk → find_key found.1.jwks kid ≡ some jwk)
      → (with_jwk http j now config token discovery found).0 ≡ ok (claims, issuer)
      → (discovery.issuer ≡ issuer)
        × IsVerified config token (with_jwk http j now config token discovery found).1 claims issuer
  with_jwk-IsVerified config token kid discovery (err e, oidc) claims issuer named held h =
      absurd (ground arith)
  with_jwk-IsVerified config token kid discovery (ok jwk, oidc) claims issuer named held h =
      elim (Result-cases (verify_access_token j token jwk discovery.issuer config)) [
        | inr (e, failed) ↦ absurd (ground arith)
        | inl (c, verified) ↦
            let (same_claims, same_issuer) : (c ≡ claims) × (discovery.issuer ≡ issuer) =
              ground (arith, verified, h) in
            (same_issuer, (kid, jwk, named, held jwk refl, cc (verified, same_claims, same_issuer)))
      ]

  abbrev pub Discovered : OidcCache → Str → Type 0
  Discovered oidc issuer =
      (discovery : OidcDiscovery) × ((discover http now oidc).0 ≡ ok discovery)
      × (discovery.issuer ≡ issuer)

  verified_claims-IsVerified :
      (self : KeycloakProvider) (token : Str) (claims : KeycloakClaims) (issuer : Str)
      → (verified_claims http j now self token).0 ≡ ok (claims, issuer)
      → Discovered self.oidc issuer
        × IsVerified self.config token (verified_claims http j now self token).1 claims issuer
  unfolding verified_claims
  verified_claims-IsVerified self token claims issuer =
      discovered (discover http now self.oidc) refl
    where
      named :
          (discovery : OidcDiscovery) (oidc : OidcCache) (kid : Result AuthProviderError Str)
          → kid_of http j now token ≡ kid
          → (with_kid http j now self.config token discovery oidc kid).0 ≡ ok (claims, issuer)
          → (discovery.issuer ≡ issuer)
            × IsVerified self.config token
                (with_kid http j now self.config token discovery oidc kid).1
                claims
                issuer
      named discovery oidc (err e) read h = absurd (ground arith)
      named discovery oidc (ok kid) read h =
          with_jwk-IsVerified self.config token kid discovery (jwk_for_kid http kid now oidc) claims
            issuer (kid_of-ok token kid read) (λ jwk. jwk_for_kid-held http kid now oidc jwk) h

      discovered :
          (found : Result AuthProviderError OidcDiscovery × OidcCache)
          → discover http now self.oidc ≡ found
          → (with_discovery http j now self.config token found).0 ≡ ok (claims, issuer)
          → Discovered self.oidc issuer
            × IsVerified self.config token
                (with_discovery http j now self.config token found).1
                claims
                issuer
      discovered (err e, oidc) same h = absurd (ground arith)
      discovered (ok discovery, oidc) same h =
          let (same_issuer, verified) = named discovery oidc (kid_of http j now token) refl h in
          ((discovery, ap (λ found. found.0) same, same_issuer), verified)

  -- An identity is given out only if the token carries a key id, the cache afterwards holds the key
  -- with this id, the token verifies with this key for the issuer of the discovery document, and the
  -- identity is that of the verified claims.
  pub fetch_identity-IsVerified :
      (self : KeycloakProvider) (token : Str) (identity : AuthenticatedIdentity)
      → (fetch_identity http j now self token).0 ≡ ok identity
      → (claims : KeycloakClaims) × (issuer : Str) × Discovered self.oidc issuer
        × IsVerified self.config token (fetch_identity http j now self token).1 claims issuer
        × (identity ≡ to_identity claims)
  unfolding fetch_identity
  fetch_identity-IsVerified self token identity h =
      elim (Result-cases (verified_claims http j now self token).0) [
        | inr (e, failed) ↦ absurd (ground arith)
        | inl ((claims, issuer), done) ↦
            let (found, verified) = verified_claims-IsVerified self token claims issuer done in
            (claims, issuer, found, verified, ground (arith, done, h))
      ]
