-- ===== src/Bundle/Service/RoundTrip.antt =====
-- A bundle of src/bundle/service.rs is accepted by the verification of src/bundle/signer.rs, and an
-- accepted bundle has the content of a signed one.
use mayfly_server.Prelude.{
  as_bytes, ◌≡◌, refl, ℕ, ◌≤◌, ◌<◌, ◌+◌, ◌*◌, ◌/◌, List, length, some, true, false,
}
use mayfly_server.Prelude.Result.{ok}
use mayfly_server.AgentAuth.Nonce.{nanos_per_sec}
use mayfly_server.Bundle.Models.{SignedBundle}
use mayfly_server.Bundle.Canonical.{CanonicalInput, canonical_v1, canonical_message}
use mayfly_server.Bundle.Canonical.Injective.{SameContent, canonical_message-SameContent}
use mayfly_server.Bundle.Signer.{
  BundleCrates, Ed25519BundleSigner, input_of, signature_length, public_key_bytes,
  public_key_openssh, sign_b64, verify_signed_bundle,
}
use mayfly_server.Bundle.Signer.Verifies.{
  IsAuthentic, verify_signed_bundle-IsAuthentic, IsAuthentic-verify_signed_bundle,
}
use mayfly_server.Bundle.Service.{
  PublicBundle, none_left, input_at, signed_with, build_signed_bundle,
}

-- The first instant that RFC 3339 cannot write: the year 10000.
abbrev pub year_10000 : ℕ
year_10000 = 253402300800 * nanos_per_sec

-- What the crates promise of the keys and signatures that they make, and of instants.
pub record IsLawful (c : BundleCrates) : Type 0 where
  pub openssh :
      (seed : List ℕ)
      → c.from_openssh (c.to_openssh (c.verifying_key seed)) ≡ some (some (c.verifying_key seed))
  pub is_key : (seed : List ℕ) → c.is_key (c.verifying_key seed) ≡ true
  pub decode-encode :
      (seed message : List ℕ)
      → c.decode (c.encode (c.sign seed message)) ≡ some (c.sign seed message)
  pub sign_length : (seed message : List ℕ) → length (c.sign seed message) ≡ signature_length
  pub verify-sign :
      (seed message : List ℕ)
      → c.verify_strict (c.verifying_key seed) message (c.sign seed message) ≡ true
  pub rfc3339 :
      (t : ℕ)
      → t < year_10000
      → c.parse_from_rfc3339 (c.to_rfc3339_secs t) ≡ some (t / nanos_per_sec * nanos_per_sec)

module _ (c : BundleCrates) where
  signed-IsAuthentic :
      IsLawful c
      → (public : PublicBundle) (signer : Ed25519BundleSigner) (ttl_seconds now later : ℕ)
      → now + ttl_seconds * nanos_per_sec < year_10000
      → later ≤ (now + ttl_seconds * nanos_per_sec) / nanos_per_sec * nanos_per_sec
      → IsAuthentic c
          (signed_with c public signer ttl_seconds now
            (as_bytes (canonical_v1 (input_at c public ttl_seconds now))))
          (public_key_bytes c signer)
          later
  unfolding public_key_bytes public_key_openssh sign_b64 canonical_message
  signed-IsAuthentic lawful public signer ttl_seconds now later early fresh =
      let message = as_bytes (canonical_v1 (input_at c public ttl_seconds now)) in
      record {
        version = refl;
        algorithm = refl;
        signer = lawful.openssh signer.signing_key;
        key = lawful.is_key signer.signing_key;
        sig = c.sign signer.signing_key message;
        decoded = lawful.decode-encode signer.signing_key message;
        sig_length = lawful.sign_length signer.signing_key message;
        message = message;
        signed = refl;
        verified = lawful.verify-sign signer.signing_key message;
        expires = (now + ttl_seconds * nanos_per_sec) / nanos_per_sec * nanos_per_sec;
        parsed = lawful.rfc3339 (now + ttl_seconds * nanos_per_sec) early;
        fresh = fresh;
      }

  -- If there is an enabled key and the end of the lifetime can be written, a bundle is built, has the
  -- keys and the generation of the CA manager, and is accepted by whoever pinned the signer's key up
  -- to the whole second in which its lifetime ends.
  pub build_signed_bundle-verifies :
      IsLawful c
      → (public : PublicBundle) (signer : Ed25519BundleSigner) (ttl_seconds now later : ℕ)
      → none_left public.keys ≡ false
      → now + ttl_seconds * nanos_per_sec < year_10000
      → later ≤ (now + ttl_seconds * nanos_per_sec) / nanos_per_sec * nanos_per_sec
      → (bundle : SignedBundle) × (build_signed_bundle c public signer ttl_seconds now ≡ ok bundle)
        × (bundle.keys ≡ public.keys)
        × (bundle.generation ≡ public.generation)
        × (verify_signed_bundle c bundle (public_key_bytes c signer) later ≡ ok tt)
  unfolding build_signed_bundle canonical_message
  build_signed_bundle-verifies lawful public signer ttl_seconds now later enabled early fresh =
      let message = as_bytes (canonical_v1 (input_at c public ttl_seconds now)) in
      (
        signed_with c public signer ttl_seconds now message,
        rw enabled refl,
        refl,
        refl,
        IsAuthentic-verify_signed_bundle c (signed_with c public signer ttl_seconds now message)
            (public_key_bytes c signer) later
            (signed-IsAuthentic lawful public signer ttl_seconds now later early fresh),
      )

  -- If only signed inputs' messages verify with the pinned key, an accepted bundle agrees with one of
  -- these inputs in its version, generation, dates and fingerprint and in the ids and public keys
  -- in their order by id, names the pinned key, and has not expired.
  pub verify_signed_bundle-SameContent :
      (Signed : CanonicalInput → Type 0) (bundle : SignedBundle) (pinned : List ℕ) (now : ℕ)
      → ((message sig : List ℕ)
          → c.verify_strict pinned message sig ≡ true
          → (input : CanonicalInput) × Signed input × (canonical_message input ≡ ok message))
      → verify_signed_bundle c bundle pinned now ≡ ok tt
      → (input : CanonicalInput) × Signed input
        × SameContent (input_of bundle) input
        × (c.from_openssh bundle.bundle_signing_public_key ≡ some (some pinned))
        × ((expires : ℕ) × (c.parse_from_rfc3339 bundle.expires_at ≡ some expires)
            × (now ≤ expires))
  verify_signed_bundle-SameContent Signed bundle pinned now unforged h =
      let a = verify_signed_bundle-IsAuthentic c bundle pinned now h in
      let (input, was_signed, canonical) = unforged a.message a.sig a.verified in
      (
        input,
        was_signed,
        canonical_message-SameContent (input_of bundle) input a.message a.signed canonical,
        a.signer,
        (a.expires, a.parsed, a.fresh),
      )
