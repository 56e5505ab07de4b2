-- ===== src/Auth/Keycloak/Oidc/Limit.antt =====
-- How often the cache of src/auth/keycloak/oidc.rs replaces its keys, and what it answers with.
use mayfly_server.Prelude.{
  ◌≡◌, refl, inl, inr, arith, ◌⊎◌, ◌≤◌, ℕ, ◌+◌, Str, List, [], ◌∷◌, Option, none, some, true, false,
  ◌&&◌, Bool-cases,
}
use mayfly_server.Prelude.Result.{Result, ok, err}
use mayfly_server.Auth.Provider.{AuthProviderError}
use mayfly_server.Auth.Keycloak.Verify.{Jwk}
use mayfly_server.Auth.Keycloak.Oidc.{
  HttpClient, OidcCache, OidcDiscovery, JwksCache, JwkSet, find_key, min_jwks_refresh, is_fresh,
  is_some, refresh, refreshed, refresh_if, discover, fetch_jwks, jwk_for_kid, locked,
  known_or_locked, found_in, or_unauthorized,
}

pub record Lookup : Type 0 where
  pub kid : Str
  pub now : ℕ

-- The keys have been fetched whenever a refresh is recorded.
abbrev pub IsPaired : JwksCache → Type 0
IsPaired cache = (t : ℕ) → cache.last_refresh ≡ some t → is_some cache.set ≡ true

abbrev pub Apart : Option ℕ → Option ℕ → Type 0
Apart none after = Unit
Apart (some a) none = ⊥
Apart (some a) (some b) = (a ≡ b) ⊎ (a + min_jwks_refresh ≤ b)

-- Each recorded refresh is the one before it or at least the interval later.
abbrev pub Spaced : Option ℕ → List (Option ℕ) → Type 0
Spaced last [] = Unit
Spaced last (next ∷ rest) = Apart last next × Spaced next rest

stale-Apart : (last : Option ℕ) (now : ℕ) → is_fresh last now ≡ false → Apart last (some now)
stale-Apart none now h = tt
stale-Apart (some a) now h = inr (ground arith)

or_unauthorized-ok :
    (found : Option Jwk) (jwk : Jwk) → or_unauthorized found ≡ ok jwk → found ≡ some jwk
or_unauthorized-ok none jwk h = absurd (ground arith)
or_unauthorized-ok (some k) jwk h = ground arith

refreshed-held :
    (kid : Str) (now : ℕ) (cache : JwksCache) (fetched : Result AuthProviderError JwkSet)
    (jwk : Jwk)
    → (refreshed kid now cache fetched).0 ≡ ok jwk
    → found_in (refreshed kid now cache fetched).1.set kid ≡ some jwk
refreshed-held kid now cache (err e) jwk h = absurd (ground arith)
refreshed-held kid now cache (ok set) jwk h = or_unauthorized-ok (found_in (some set) kid) jwk h

refresh-held :
    (kid : Str) (now : ℕ) (cache : JwksCache) (fetched : Result AuthProviderError JwkSet)
    (jwk : Jwk)
    → (refresh kid now cache fetched).0 ≡ ok jwk
    → find_key (refresh kid now cache fetched).1 kid ≡ some jwk
unfolding refresh find_key
refresh-held kid now cache fetched jwk = go (found_in cache.set kid) refl
  where
    go :
        (key : Option Jwk)
        → found_in cache.set kid ≡ key
        → (refresh_if key kid now cache fetched).0 ≡ ok jwk
        → found_in (refresh_if key kid now cache fetched).1.set kid ≡ some jwk
    go (some k) e h = ground (arith, e)
    go none e h = elim (Bool-cases (is_fresh cache.last_refresh now && is_some cache.set)) [
      | inl fresh ↦ absurd (ground arith)
      | inr stale ↦ rw stale (refreshed-held kid now cache fetched jwk (rw stale at h))
    ]

module _ {Body : Type 0} (http : HttpClient Body) where
  abbrev KeepsPace : JwksCache → JwksCache → Type 0
  KeepsPace before after = IsPaired after × Apart before.last_refresh after.last_refresh

  -- The refresh that the cache records after each of the lookups.
  abbrev pub refreshes : OidcCache → List Lookup → List (Option ℕ)
  refreshes cache [] = []
  refreshes cache (l ∷ ls) =
      let after = (jwk_for_kid http l.kid l.now cache).1 in
      after.jwks.last_refresh ∷ refreshes after ls

  -- A key that is given out is the one that the cache then holds under its id.
  pub jwk_for_kid-held :
      (kid : Str) (now : ℕ) (cache : OidcCache) (jwk : Jwk)
      → (jwk_for_kid http kid now cache).0 ≡ ok jwk
      → find_key (jwk_for_kid http kid now cache).1.jwks kid ≡ some jwk
  unfolding jwk_for_kid
  jwk_for_kid-held kid now cache jwk = go (find_key cache.jwks kid) refl
    where
      under_lock :
          (found : Result AuthProviderError OidcDiscovery × OidcCache)
          → (locked http kid now found).0 ≡ ok jwk
          → find_key (locked http kid now found).1.jwks kid ≡ some jwk
      under_lock (err e, after) h = absurd (ground arith)
      under_lock (ok doc, after) h =
          refresh-held kid now after.jwks (fetch_jwks http now doc.jwks_uri) jwk h

      go :
          (known : Option Jwk)
          → find_key cache.jwks kid ≡ known
          → (known_or_locked http known kid now cache).0 ≡ ok jwk
          → find_key (known_or_locked http known kid now cache).1.jwks kid ≡ some jwk
      go (some k) e h = ground (arith, e)
      go none e h = under_lock (discover http now cache) h
