-- ===== src/Bundle/Service.antt =====
-- `build_signed_bundle` of src/bundle/service.rs. The CA manager, which is not in the repository,
-- gives the public bundle.
pub mod RoundTrip
pub mod Toy
mod Tests
use mayfly_server.Prelude.{◌≡◌, ℕ, ◌+◌, ◌*◌, max, Str, List, [], ◌∷◌, Bool, true, false}
use mayfly_server.Prelude.Result.{Result, ok, err, reject_if, ◌>>=◌, ◌>>◌}
use mayfly_server.AgentAuth.Nonce.{nanos_per_sec}
use mayfly_server.Bundle.Models.{
  BundleError, BundleKey, SignedBundle, no_enabled_keys, bundle_version, signature_algorithm,
}
use mayfly_server.Bundle.Canonical.{CanonicalInput, canonical_message}
use mayfly_server.Bundle.Signer.{BundleCrates, Ed25519BundleSigner, public_key_openssh, sign_b64}

-- `get_public_bundle`, whose fingerprint is also the answer of `bundle_fingerprint`.
pub record PublicBundle : Type 0 where
  pub generation : ℕ
  pub fingerprint : Str
  pub keys : List BundleKey

abbrev pub none_left : List BundleKey → Bool
none_left [] = true
none_left (key ∷ keys) = false

-- `ttl_seconds.max(1)` of `BundleService::new`
unfoldable pub effective_ttl : ℕ → ℕ
effective_ttl ttl_seconds = max ttl_seconds 1

module _ (c : BundleCrates) where
  abbrev pub input_at : PublicBundle → ℕ → ℕ → CanonicalInput
  input_at public ttl_seconds now = record {
    bundle_version = bundle_version;
    generation = public.generation;
    created_at = c.to_rfc3339_secs now;
    expires_at = c.to_rfc3339_secs (now + ttl_seconds * nanos_per_sec);
    fingerprint = public.fingerprint;
    keys = public.keys;
  }

  abbrev pub signed_with : PublicBundle → Ed25519BundleSigner → ℕ → ℕ → List ℕ → SignedBundle
  signed_with public signer ttl_seconds now message = record {
    bundle_version = bundle_version;
    generation = public.generation;
    created_at = c.to_rfc3339_secs now;
    expires_at = c.to_rfc3339_secs (now + ttl_seconds * nanos_per_sec);
    fingerprint = public.fingerprint;
    keys = public.keys;
    signature_algorithm = signature_algorithm;
    signature = sign_b64 c signer message;
    bundle_signing_public_key = public_key_openssh c signer;
  }

  unfoldable pub build_signed_bundle :
      PublicBundle → Ed25519BundleSigner → ℕ → ℕ → Result BundleError SignedBundle
  unfolding canonical_message sign_b64 public_key_openssh
  build_signed_bundle public signer ttl_seconds now = do
    reject_if (none_left public.keys) no_enabled_keys
    message ← canonical_message (input_at public ttl_seconds now)
    ok (signed_with public signer ttl_seconds now message)
