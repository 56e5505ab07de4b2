-- ===== src/Bundle/Seed.antt =====
-- `Ed25519BundleSigner::load_or_create` of src/bundle/signer.rs: where the Bundle Signing Key comes
-- from.
use mayfly_server.Prelude.{
  ◌≡◌, refl, ℕ, Str, List, length, Option, none, some, Bool, true, not, trim, is_empty, arith,
  if◌then◌else◌,
}
use mayfly_server.Prelude.Result.{Result, ok, err}
use mayfly_server.Bundle.Models.{BundleError, crypto}
use mayfly_server.Bundle.Signer.{BundleCrates, Ed25519BundleSigner, from_seed_b64, key_len, sized}

-- The file `bundle_signing.seed`.
pub data SeedFile : Type 0 where
  absent unreadable : SeedFile
  contents : Str → SeedFile

module _ (c : BundleCrates) where
  -- Without a value in the environment. The seed that would be generated, and whether the file can
  -- be written, are given.
  abbrev stored : SeedFile → List ℕ → Bool → Result BundleError Ed25519BundleSigner × SeedFile
  stored (contents text) generated writable = (from_seed_b64 c (trim text), contents text)
  stored unreadable generated writable = (err crypto, unreadable)
  stored absent generated writable =
      if writable
      then (ok (record { signing_key = generated }), contents (c.encode generated))
      else (err crypto, absent)

  abbrev from_env :
      Option Str → SeedFile → List ℕ → Bool → Result BundleError Ed25519BundleSigner × SeedFile
  from_env none file generated writable = stored file generated writable
  from_env (some value) file generated writable =
      if not (is_empty (trim value))
      then (from_seed_b64 c (trim value), file)
      else stored file generated writable

  -- The key, and the file afterwards.
  unfoldable pub load_or_create :
      Option Str → SeedFile → List ℕ → Bool → Result BundleError Ed25519BundleSigner × SeedFile
  unfolding from_seed_b64
  load_or_create env file generated writable = from_env env file generated writable

  -- A key that is generated at a start without a value in the environment and without a file is the
  -- key of every later start without a value, whatever would be generated then.
  pub load_or_create-stable :
      (generated later : List ℕ) (writable : Bool)
      → length generated ≡ key_len
      → c.decode (c.encode generated) ≡ some generated
      → trim (c.encode generated) ≡ c.encode generated
      → let first = load_or_create none absent generated true in
        (first.0 ≡ ok (record { signing_key = generated }))
        × (load_or_create none first.1 later writable ≡ first)
  unfolding load_or_create from_seed_b64
  load_or_create-stable generated later writable long decoded plain =
      let fits : sized key_len generated ≡ some generated = ground (arith, long) in
      (refl, rw (plain, decoded, fits) refl)
