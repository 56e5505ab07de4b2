-- ===== src/Bundle/Signer.antt =====
-- src/bundle/signer.rs: the Bundle Signing Key and the verification of a bundle. Ed25519, Base64,
-- OpenSSH keys and RFC 3339 are parameters; keys and signatures are lists of bytes.
pub mod Verifies
use mayfly_server.Prelude.{
  ℕ, Str, List, Option, none, some, Bool, not, ◌==◌, ltb, length, text_eq, if◌then◌else◌,
}
use mayfly_server.Prelude.Result.{Result, ok, err, ok_or, reject_if, ◌>>=◌, ◌>>◌}
use mayfly_server.Bundle.Models.{
  BundleError, SignedBundle, unsupported_version, unsupported_algorithm, malformed,
  signature_invalid, untrusted_signer, expired, bundle_version, signature_algorithm,
}
use mayfly_server.Bundle.Canonical.{CanonicalInput, canonical_message}

abbrev pub key_len : ℕ
key_len = 32

abbrev pub signature_length : ℕ
signature_length = 64

pub record BundleCrates : Type 0 where
  -- the public key of a seed, and a signature with it
  pub verifying_key : List ℕ → List ℕ
  pub sign : List ℕ → List ℕ → List ℕ
  -- whether the bytes are a key, and the strict verification of a signature
  pub is_key : List ℕ → Bool
  pub verify_strict : List ℕ → List ℕ → List ℕ → Bool
  pub encode : List ℕ → Str
  pub decode : Str → Option (List ℕ)
  pub to_openssh : List ℕ → Str
  -- an OpenSSH key, with its bytes if it is an Ed25519 key
  pub from_openssh : Str → Option (Option (List ℕ))
  pub to_rfc3339_secs : ℕ → Str
  pub parse_from_rfc3339 : Str → Option ℕ

-- The seed of the key.
pub record Ed25519BundleSigner : Type 0 where
  pub signing_key : List ℕ

abbrev pub sized : ℕ → List ℕ → Option (List ℕ)
sized n bytes = if length bytes == n then some bytes else none

abbrev pub input_of : SignedBundle → CanonicalInput
input_of bundle = record {
  bundle_version = bundle.bundle_version;
  generation = bundle.generation;
  created_at = bundle.created_at;
  expires_at = bundle.expires_at;
  fingerprint = bundle.fingerprint;
  keys = bundle.keys;
}

module _ (c : BundleCrates) where
  unfoldable pub from_seed_b64 : Str → Result BundleError Ed25519BundleSigner
  from_seed_b64 value = do
    raw ← ok_or (c.decode value) malformed
    seed ← ok_or (sized key_len raw) malformed
    ok (record { signing_key = seed })

  unfoldable pub public_key_bytes : Ed25519BundleSigner → List ℕ
  public_key_bytes signer = c.verifying_key signer.signing_key

  unfoldable pub public_key_openssh : Ed25519BundleSigner → Str
  unfolding public_key_bytes
  public_key_openssh signer = c.to_openssh (public_key_bytes signer)

  unfoldable pub sign_b64 : Ed25519BundleSigner → List ℕ → Str
  sign_b64 signer message = c.encode (c.sign signer.signing_key message)

  -- The last step: freshness.
  abbrev pub check_fresh : SignedBundle → ℕ → Result BundleError Unit
  check_fresh bundle now = do
    expires ← ok_or (c.parse_from_rfc3339 bundle.expires_at) malformed
    reject_if (ltb expires now) expired

  -- The signature over the canonical bytes.
  abbrev pub check_message : SignedBundle → List ℕ → ℕ → List ℕ → Result BundleError Unit
  check_message bundle pinned now signature = do
    message ← canonical_message (input_of bundle)
    reject_if (not (c.verify_strict pinned message signature)) signature_invalid
    check_fresh bundle now

  abbrev pub check_signature : SignedBundle → List ℕ → ℕ → Result BundleError Unit
  check_signature bundle pinned now = do
    sig_raw ← ok_or (c.decode bundle.signature) malformed
    signature ← ok_or (sized signature_length sig_raw) malformed
    check_message bundle pinned now signature

  abbrev pub check_signer : SignedBundle → List ℕ → ℕ → List ℕ → Result BundleError Unit
  check_signer bundle pinned now embedded_ed = do
    reject_if (not (text_eq embedded_ed pinned)) untrusted_signer
    reject_if (not (c.is_key pinned)) malformed
    check_signature bundle pinned now

  unfoldable pub verify_signed_bundle : SignedBundle → List ℕ → ℕ → Result BundleError Unit
  unfolding canonical_message
  verify_signed_bundle bundle pinned now = do
    reject_if (not (bundle.bundle_version == bundle_version))
        (unsupported_version bundle.bundle_version)
    reject_if (not (text_eq bundle.signature_algorithm signature_algorithm))
        (unsupported_algorithm bundle.signature_algorithm)
    embedded ← ok_or (c.from_openssh bundle.bundle_signing_public_key) malformed
    embedded_ed ← ok_or embedded malformed
    check_signer bundle pinned now embedded_ed
