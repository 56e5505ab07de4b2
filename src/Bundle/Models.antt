-- ===== src/Bundle/Models.antt =====
-- The signed bundle of src/bundle/models.rs. The texts of errors are left out.
use mayfly_server.Prelude.{ℕ, Str, lit, List}

abbrev pub bundle_version : ℕ
bundle_version = 1

abbrev pub signature_algorithm : Str
signature_algorithm = lit "ssh-ed25519"

pub record BundleKey : Type 0 where
  pub key_id : Str
  pub public_key : Str
  pub fingerprint : Str

pub record SignedBundle : Type 0 where
  pub bundle_version : ℕ
  pub generation : ℕ
  pub created_at : Str
  pub expires_at : Str
  pub fingerprint : Str
  pub keys : List BundleKey
  pub signature_algorithm : Str
  pub signature : Str
  pub bundle_signing_public_key : Str

pub data BundleError : Type 0 where
  unsupported_version : ℕ → BundleError
  unsupported_algorithm : Str → BundleError
  malformed signature_invalid untrusted_signer expired no_enabled_keys crypto : BundleError
