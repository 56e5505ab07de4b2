-- ===== src/Auth/Keycloak/Verify.antt =====
-- src/auth/keycloak/verify.rs. The `jsonwebtoken` crate is a parameter: the header of a token, the
-- key of a JWK, and the decoding under a `Validation`.
use mayfly_server.Prelude.{
  ◌≡◌, ℕ, Str, List, [], ◌∷◌, Option, none, some, Bool, true, false, not, arith, inl, inr,
  Bool-cases, Option-cases, refl, ◌⊎◌,
}
use mayfly_server.Prelude.Result.{Result, ok, err, ◌>>=◌, ◌>>◌, reject_if, Result-cases}
use mayfly_server.Auth.Provider.{AuthProviderError, decode}
use mayfly_server.Auth.Keycloak.Claims.{KeycloakClaims}
use mayfly_server.Auth.Keycloak.Config.{KeycloakProviderConfig}

pub data Algorithm : Type 0 where
  hs256 hs384 hs512 es256 es384 rs256 rs384 rs512 ps256 ps384 ps512 ed_dsa : Algorithm

-- The `alg` of a JWK: a signature algorithm, or one for encryption.
pub data KeyAlgorithm : Type 0 where
  signing : Algorithm → KeyAlgorithm
  encryption : KeyAlgorithm

pub data KeyFamily : Type 0 where
  rsa elliptic_curve octet_key octet_key_pair : KeyFamily

pub record Jwk : Type 0 where
  pub key_algorithm : Option KeyAlgorithm
  pub algorithm : KeyFamily

pub record Validation : Type 0 where
  pub algorithms : List Algorithm
  pub issuer : Str
  pub audience : Option Str
  pub validate_aud : Bool
  pub leeway : ℕ
  pub validate_nbf : Bool

pub data ErrorKind : Type 0 where
  invalid_signature expired_signature immature_signature invalid_issuer : ErrorKind
  invalid_audience invalid_algorithm missing_required_claim : ErrorKind
  -- any other, with its text
  structural : Str → ErrorKind

pub record JsonWebToken (Key : Type 0) : Type 0 where
  -- the `alg` of the header
  pub decode_header : Str → Result Str Algorithm
  -- the `kid` of a header that can be decoded
  pub kid : Str → Option Str
  pub from_jwk : Jwk → Result Str Key
  pub decode_claims : Str → Key → Validation → Result ErrorKind KeycloakClaims

-- The derived equality.
unfoldable pub algorithm_eq : Algorithm → Algorithm → Bool
algorithm_eq hs256 hs256 = true
algorithm_eq hs384 hs384 = true
algorithm_eq hs512 hs512 = true
algorithm_eq es256 es256 = true
algorithm_eq es384 es384 = true
algorithm_eq rs256 rs256 = true
algorithm_eq rs384 rs384 = true
algorithm_eq rs512 rs512 = true
algorithm_eq ps256 ps256 = true
algorithm_eq ps384 ps384 = true
algorithm_eq ps512 ps512 = true
algorithm_eq ed_dsa ed_dsa = true
algorithm_eq _ _ = false

abbrev unauthorized : {A : Type 0} → Result AuthProviderError A
unauthorized = err AuthProviderError.unauthorized

unfoldable pub key_algorithm_to_algorithm : KeyAlgorithm → Result AuthProviderError Algorithm
key_algorithm_to_algorithm (signing rs256) = ok rs256
key_algorithm_to_algorithm (signing rs384) = ok rs384
key_algorithm_to_algorithm (signing rs512) = ok rs512
key_algorithm_to_algorithm (signing ps256) = ok ps256
key_algorithm_to_algorithm (signing ps384) = ok ps384
key_algorithm_to_algorithm (signing ps512) = ok ps512
key_algorithm_to_algorithm (signing es256) = ok es256
key_algorithm_to_algorithm (signing es384) = ok es384
key_algorithm_to_algorithm (signing ed_dsa) = ok ed_dsa
key_algorithm_to_algorithm _ = unauthorized

abbrev family_algorithm : KeyFamily → Result AuthProviderError Algorithm
family_algorithm rsa = ok rs256
family_algorithm elliptic_curve = ok es256
family_algorithm _ = unauthorized

abbrev declared_or_inferred : Option KeyAlgorithm → KeyFamily → Result AuthProviderError Algorithm
declared_or_inferred (some key_alg) family = key_algorithm_to_algorithm key_alg
declared_or_inferred none family = family_algorithm family

unfoldable pub algorithm_for_jwk : Jwk → Result AuthProviderError Algorithm
unfolding key_algorithm_to_algorithm
algorithm_for_jwk jwk = declared_or_inferred jwk.key_algorithm jwk.algorithm

unfoldable pub map_jwt_error : ErrorKind → AuthProviderError
map_jwt_error (structural m) = decode m
map_jwt_error _ = AuthProviderError.unauthorized

abbrev decoded : {A : Type 0} → Result Str A → Result AuthProviderError A
decoded (ok a) = ok a
decoded (err m) = err (decode m)

abbrev accepted : Result ErrorKind KeycloakClaims → Result AuthProviderError KeycloakClaims
accepted (ok claims) = ok claims
accepted (err e) = err (map_jwt_error e)

abbrev is_some : Option Str → Bool
is_some none = false
is_some (some a) = true

abbrev pub validation_of : Algorithm → Str → KeycloakProviderConfig → Validation
validation_of alg issuer config = record {
  algorithms = alg ∷ [];
  issuer = issuer;
  audience = config.audience;
  validate_aud = is_some config.audience;
  leeway = config.clock_skew_secs;
  validate_nbf = true;
}

-- The validation admits one algorithm and one issuer, checks the audience if one is configured,
-- checks `nbf`, and has the configured leeway.
pub record IsStrict (alg : Algorithm) (iss : Str) (config : KeycloakProviderConfig) (v : Validation)
    : Type 0 where
  pub algorithms : v.algorithms ≡ alg ∷ []
  pub issuer : v.issuer ≡ iss
  pub audience :
      (config.audience ≡ none)
      ⊎ ((aud : Str) × (v.audience ≡ some aud)
          × (config.audience ≡ some aud)
          × (v.validate_aud ≡ true))
  pub nbf : v.validate_nbf ≡ true
  pub leeway : v.leeway ≡ config.clock_skew_secs

-- The discovery document gives the issuer.
module _ {Key : Type 0} (j : JsonWebToken Key) where
  unfoldable pub verify_access_token :
      Str → Jwk → Str → KeycloakProviderConfig → Result AuthProviderError KeycloakClaims
  verify_access_token token jwk issuer config = do
    header ← decoded (j.decode_header token)
    expected_alg ← algorithm_for_jwk jwk
    reject_if (not (algorithm_eq header expected_alg)) AuthProviderError.unauthorized
    decoding_key ← decoded (j.from_jwk jwk)
    accepted (j.decode_claims token decoding_key (validation_of expected_alg issuer config))

  abbrev pub is_symmetric : Algorithm → Bool
  is_symmetric hs256 = true
  is_symmetric hs384 = true
  is_symmetric hs512 = true
  is_symmetric _ = false

  accepted-ok :
      (r : Result ErrorKind KeycloakClaims) (claims : KeycloakClaims)
      → accepted r ≡ ok claims
      → r ≡ ok claims
  accepted-ok (ok c) claims h = ground arith
  accepted-ok (err e) claims h = absurd (ground arith)

  algorithm_eq→eq : (a b : Algorithm) → algorithm_eq a b ≡ true → a ≡ b
  unfolding algorithm_eq
  algorithm_eq→eq a b h = ground arith

  algorithm_for_jwk-symmetric :
      (declared : Option KeyAlgorithm) (family : KeyFamily) (alg : Algorithm)
      → declared_or_inferred declared family ≡ ok alg
      → is_symmetric alg ≡ false
  unfolding key_algorithm_to_algorithm
  algorithm_for_jwk-symmetric declared family alg h = ground arith

  validation_of-IsStrict :
      (alg : Algorithm) (issuer : Str) (config : KeycloakProviderConfig)
      → IsStrict alg issuer config (validation_of alg issuer config)
  validation_of-IsStrict alg issuer config = record {
    algorithms = refl;
    issuer = refl;
    audience = elim (Option-cases config.audience) [
      | inl absent ↦ inl absent
      | inr (aud, configured) ↦ inr (aud, configured, configured, ground arith)
    ];
    nbf = refl;
    leeway = refl;
  }

  -- Claims are returned only if the token's header names the algorithm that belongs to the key, which
  -- is no HMAC algorithm, and the claims were decoded with this key under a validation that allows
  -- this algorithm alone, requires the discovered issuer and, if one is configured, the audience,
  -- and checks `nbf`, with the configured leeway.
  pub verify_access_token-pinned :
      (token : Str) (jwk : Jwk) (issuer : Str) (config : KeycloakProviderConfig)
      (claims : KeycloakClaims)
      → verify_access_token token jwk issuer config ≡ ok claims
      → (alg : Algorithm) × (key : Key) × (j.decode_header token ≡ ok alg)
        × (is_symmetric alg ≡ false)
        × (j.from_jwk jwk ≡ ok key)
        × (algorithm_for_jwk jwk ≡ ok alg)
        × ((v : Validation) × (j.decode_claims token key v ≡ ok claims)
            × IsStrict alg issuer config v)
  unfolding verify_access_token
  verify_access_token-pinned token jwk issuer config claims h =
      elim (Result-cases (j.decode_header token)) [
        | inr (e, failed) ↦ absurd (ground arith)
        | inl (header, read) ↦ elim (Result-cases (algorithm_for_jwk jwk)) [
          | inr (e, failed) ↦ absurd (ground arith)
          | inl (alg, expected) ↦ elim (Bool-cases (algorithm_eq header alg)) [
            | inr differ ↦ absurd (ground arith)
            | inl same ↦ elim (Result-cases (j.from_jwk jwk)) [
              | inr (e, failed) ↦ absurd (ground arith)
              | inl (key, made) ↦ (
                alg,
                key,
                ground (arith, algorithm_eq→eq header alg same),
                algorithm_for_jwk-symmetric jwk.key_algorithm jwk.algorithm alg
                    (unfold algorithm_for_jwk in expected),
                made,
                expected,
                (
                  validation_of alg issuer config,
                  accepted-ok (j.decode_claims token key (validation_of alg issuer config)) claims
                      (ground arith),
                  validation_of-IsStrict alg issuer config,
                ),
              )
            ]
          ]
        ]
      ]
