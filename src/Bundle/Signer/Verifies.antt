-- ===== src/Bundle/Signer/Verifies.antt =====
-- Which bundles `verify_signed_bundle` of src/bundle/signer.rs accepts.
use mayfly_server.Prelude.{
  ◌≡◌, refl, arith, ℕ, ◌≤◌, ltb, not, ◌==◌, List, length, Option, none, some, Bool, true, false,
  as_bytes, text_eq, text_eq_iff, text_eq_refl,
}
use mayfly_server.Prelude.Result.{Result, ok, err, ok_or, reject_if, ◌>>=◌, ◌>>◌}
use mayfly_server.Bundle.Models.{
  BundleError, SignedBundle, bundle_version, signature_algorithm, malformed, signature_invalid,
  expired, untrusted_signer, unsupported_version, unsupported_algorithm,
}
use mayfly_server.Bundle.Canonical.{canonical_v1, canonical_message}
use mayfly_server.Bundle.Signer.{
  BundleCrates, check_signer, check_signature, check_message, check_fresh, input_of,
  signature_length, sized, verify_signed_bundle,
}

bind-ok :
    {E A B : Type 0} (r : Result E A) (f : A → Result E B) (b : B)
    → (r >>= f) ≡ ok b
    → (a : A) × (r ≡ ok a) × (f a ≡ ok b)
bind-ok (ok a) f b h = (a, refl, h)
bind-ok (err e) f b h = absurd (ground arith)

rejected-ok :
    {E B : Type 0} (test : Bool) (e : E) (k : Result E B) (b : B)
    → (reject_if test e >> k) ≡ ok b
    → (test ≡ false) × (k ≡ ok b)
rejected-ok true e k b h = absurd (ground arith)
rejected-ok false e k b h = (refl, h)

given-ok :
    {E A B : Type 0} (o : Option A) (e : E) (f : A → Result E B) (b : B)
    → (ok_or o e >>= f) ≡ ok b
    → (a : A) × (o ≡ some a) × (f a ≡ ok b)
given-ok none e f b h = absurd (ground arith)
given-ok (some a) e f b h = (a, refl, h)

sized-ok :
    (n : ℕ) (bytes sig : List ℕ) → sized n bytes ≡ some sig → (bytes ≡ sig) × (length sig ≡ n)
sized-ok n bytes sig h = ground arith

module _ (c : BundleCrates) where
  -- The bundle names the pinned key, its signature over its signed bytes verifies with that key, and
  -- it has not expired.
  pub record IsAuthentic (bundle : SignedBundle) (pinned : List ℕ) (now : ℕ) : Type 0 where
    pub version : bundle.bundle_version ≡ bundle_version
    pub algorithm : bundle.signature_algorithm ≡ signature_algorithm
    pub signer : c.from_openssh bundle.bundle_signing_public_key ≡ some (some pinned)
    pub key : c.is_key pinned ≡ true
    pub sig : List ℕ
    pub decoded : c.decode bundle.signature ≡ some sig
    pub sig_length : length sig ≡ signature_length
    pub message : List ℕ
    pub signed : canonical_message (input_of bundle) ≡ ok message
    pub verified : c.verify_strict pinned message sig ≡ true
    pub expires : ℕ
    pub parsed : c.parse_from_rfc3339 bundle.expires_at ≡ some expires
    pub fresh : now ≤ expires

  -- What the steps from the signature on establish.
  message-ok :
      (bundle : SignedBundle) (pinned sig : List ℕ) (now : ℕ)
      → check_message c bundle pinned now sig ≡ ok tt
      → (message : List ℕ) × (canonical_message (input_of bundle) ≡ ok message)
        × (c.verify_strict pinned message sig ≡ true)
        × ((expires : ℕ) × (c.parse_from_rfc3339 bundle.expires_at ≡ some expires)
            × (now ≤ expires))
  message-ok bundle pinned sig now h =
      let checked : List ℕ → Result BundleError Unit = λ message.
        reject_if (not (c.verify_strict pinned message sig)) signature_invalid
        >> check_fresh c bundle now in
      let (message, signed, h1) = bind-ok (canonical_message (input_of bundle)) checked tt h in
      let (verified, h2) =
        rejected-ok (not (c.verify_strict pinned message sig)) signature_invalid
          (check_fresh c bundle now) tt h1 in
      let (expires, parsed, h3) =
        given-ok (c.parse_from_rfc3339 bundle.expires_at) malformed
          (λ expires. reject_if (ltb expires now) expired) tt h2 in
      (message, signed, ground arith, (expires, parsed, ground arith))

  signature-ok :
      (bundle : SignedBundle) (pinned : List ℕ) (now : ℕ)
      → check_signature c bundle pinned now ≡ ok tt
      → (sig : List ℕ) × (c.decode bundle.signature ≡ some sig)
        × (length sig ≡ signature_length)
        × (check_message c bundle pinned now sig ≡ ok tt)
  signature-ok bundle pinned now h =
      let (raw, decoded, h1) =
        given-ok (c.decode bundle.signature) malformed
          (λ raw.
            ok_or (sized signature_length raw) malformed >>= check_message c bundle pinned now)
          tt h in
      let (sig, sig_sized, h2) =
        given-ok (sized signature_length raw) malformed (check_message c bundle pinned now) tt h1 in
      let (same, long) = sized-ok signature_length raw sig sig_sized in
      (sig, cc (decoded, same), long, h2)

  signer-ok :
      (bundle : SignedBundle) (pinned : List ℕ) (now : ℕ)
      → verify_signed_bundle c bundle pinned now ≡ ok tt
      → (bundle.bundle_version ≡ bundle_version)
        × (bundle.signature_algorithm ≡ signature_algorithm)
        × (c.from_openssh bundle.bundle_signing_public_key ≡ some (some pinned))
        × (c.is_key pinned ≡ true)
        × (check_signature c bundle pinned now ≡ ok tt)
  unfolding verify_signed_bundle
  signer-ok bundle pinned now h =
      let signed_by : Option (List ℕ) → Result BundleError Unit =
        λ embedded. ok_or embedded malformed >>= check_signer c bundle pinned now in
      let named : Result BundleError Unit =
        ok_or (c.from_openssh bundle.bundle_signing_public_key) malformed >>= signed_by in
      let (version, h1) =
        rejected-ok (not (bundle.bundle_version == bundle_version))
          (unsupported_version bundle.bundle_version)
          (reject_if (not (text_eq bundle.signature_algorithm signature_algorithm))
              (unsupported_algorithm bundle.signature_algorithm)
            >> named)
          tt h in
      let (algorithm, h2) =
        rejected-ok (not (text_eq bundle.signature_algorithm signature_algorithm))
          (unsupported_algorithm bundle.signature_algorithm) named tt h1 in
      let (embedded, found, h3) =
        given-ok (c.from_openssh bundle.bundle_signing_public_key) malformed signed_by tt h2 in
      let (ed, found_ed, h4) =
        given-ok embedded malformed (check_signer c bundle pinned now) tt h3 in
      let (same, h5) =
        rejected-ok (not (text_eq ed pinned)) untrusted_signer
          (reject_if (not (c.is_key pinned)) malformed >> check_signature c bundle pinned now) tt
          h4 in
      let (key, h6) =
        rejected-ok (not (c.is_key pinned)) malformed (check_signature c bundle pinned now) tt h5 in
      (
        ground arith,
        (text_eq_iff bundle.signature_algorithm signature_algorithm).0 (ground arith),
        ground (arith, found, found_ed, text_eq_iff ed pinned),
        ground arith,
        h6,
      )

  pub verify_signed_bundle-IsAuthentic :
      (bundle : SignedBundle) (pinned : List ℕ) (now : ℕ)
      → verify_signed_bundle c bundle pinned now ≡ ok tt
      → IsAuthentic bundle pinned now
  verify_signed_bundle-IsAuthentic bundle pinned now h =
      let (version, algorithm, signer, key, h1) = signer-ok bundle pinned now h in
      let (sig, decoded, sig_length, h2) = signature-ok bundle pinned now h1 in
      let (message, signed, verified, (expires, parsed, fresh)) =
        message-ok bundle pinned sig now h2 in
      record {
        version = version;
        algorithm = algorithm;
        signer = signer;
        key = key;
        sig = sig;
        decoded = decoded;
        sig_length = sig_length;
        message = message;
        signed = signed;
        verified = verified;
        expires = expires;
        parsed = parsed;
        fresh = fresh;
      }

  pub IsAuthentic-verify_signed_bundle :
      (bundle : SignedBundle) (pinned : List ℕ) (now : ℕ)
      → IsAuthentic bundle pinned now
      → verify_signed_bundle c bundle pinned now ≡ ok tt
  unfolding verify_signed_bundle canonical_message
  IsAuthentic-verify_signed_bundle bundle pinned now a =
      let current : (bundle.bundle_version == bundle_version) ≡ true = ground (arith, a.version) in
      let supported = (text_eq_iff bundle.signature_algorithm signature_algorithm).1 a.algorithm in
      let sized_sig : sized signature_length a.sig ≡ some a.sig = ground (arith, a.sig_length) in
      let fresh : ltb a.expires now ≡ false = ground (arith, a.fresh) in
      let bytes : as_bytes (canonical_v1 (input_of bundle)) ≡ a.message =
        ground (arith, a.version, a.signed) in
      rw
        (
          current,
          supported,
          a.signer,
          text_eq_refl pinned,
          a.key,
          a.decoded,
          sized_sig,
          bytes,
          a.verified,
          a.parsed,
          fresh,
        )
        refl
