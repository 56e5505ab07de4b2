-- ===== src/Bundle/Service/Tests.antt =====
-- Runs of the building and the verification of signed bundles.
use mayfly_server.Prelude.{
  ap, sym, ◌≡◌, refl, arith, ℕ, ◌≤◌, lit, List, some, true, text_eq, text_eq_iff, as_bytes,
}
use mayfly_server.Prelude.Result.{ok}
use mayfly_server.AgentAuth.Decimal.{show_int, digits}
use mayfly_server.Prelude.Sort.{sort_by, insert_sorted, text_leb}
use mayfly_server.Prelude.{utf8}
use mayfly_server.Bundle.Models.{SignedBundle}
use mayfly_server.Bundle.Canonical.{
  CanonicalInput, canonical_v1, canonical_message, append_keys_array, escape,
}
use mayfly_server.Bundle.Canonical.Injective.{SameContent}
use mayfly_server.Bundle.Signer.{
  BundleCrates, input_of, public_key_bytes, public_key_openssh, sign_b64, verify_signed_bundle,
}
use mayfly_server.Prelude.{take, none, true, false, trim, is_whitespace}
use mayfly_server.Bundle.Seed.{absent, load_or_create, load_or_create-stable}
use mayfly_server.Bundle.Service.Toy.{zeros, toy, toy-IsLawful, public, signer}
use mayfly_server.Bundle.Service.{input_at, signed_with, build_signed_bundle}
use mayfly_server.Bundle.Service.RoundTrip.{
  build_signed_bundle-verifies, verify_signed_bundle-SameContent,
}

build_signed_bundle-verifies_example :
    (bundle : SignedBundle) × (build_signed_bundle toy public signer 60 1_500_000_000 ≡ ok bundle)
    × (bundle.keys ≡ public.keys)
    × (bundle.generation ≡ 7)
    × (verify_signed_bundle toy bundle (public_key_bytes toy signer) 61_000_000_000 ≡ ok tt)
build_signed_bundle-verifies_example =
    build_signed_bundle-verifies toy toy-IsLawful public signer 60 1_500_000_000 61_000_000_000 refl
      (omega arith) (omega arith)

abbrev input : CanonicalInput
input = input_at toy public 60 1_500_000_000

abbrev the_message : List ℕ
the_message = as_bytes (canonical_v1 input)

-- Only the message of this input verifies.
abbrev strict : BundleCrates
strict = record toy { verify_strict = λ key message sig. text_eq message the_message }

abbrev Signed : CanonicalInput → Type 0
Signed i = i ≡ input

unforged :
    (message sig : List ℕ)
    → strict.verify_strict (lit "seed") message sig ≡ true
    → (i : CanonicalInput) × Signed i × (canonical_message i ≡ ok message)
unfolding canonical_message
unforged message sig h =
    let same : message ≡ the_message = (text_eq_iff message the_message).0 h in
    (input, refl, ap (λ m. ok m) (sym same))

abbrev bundle : SignedBundle
bundle = signed_with strict public signer 60 1_500_000_000 the_message

accepted : verify_signed_bundle strict bundle (lit "seed") 61_000_000_000 ≡ ok tt
unfolding verify_signed_bundle sign_b64 public_key_openssh public_key_bytes canonical_message
    canonical_v1 append_keys_array escape show_int digits sort_by insert_sorted text_leb as_bytes
    utf8 text_eq
accepted = refl

verify_signed_bundle-SameContent_example :
    (i : CanonicalInput) × Signed i
    × SameContent (input_of bundle) i
    × (strict.from_openssh bundle.bundle_signing_public_key ≡ some (some (lit "seed")))
    × ((expires : ℕ) × (strict.parse_from_rfc3339 bundle.expires_at ≡ some expires)
        × (61_000_000_000 ≤ expires))
verify_signed_bundle-SameContent_example =
    verify_signed_bundle-SameContent strict Signed bundle (lit "seed") 61_000_000_000 unforged
      accepted

load_or_create-stable_example :
    let first = load_or_create toy none absent (take 32 (zeros 64)) true in
    (first.0 ≡ ok (record { signing_key = take 32 (zeros 64) }))
    × (load_or_create toy none first.1 (lit "other") false ≡ first)
unfolding trim is_whitespace
load_or_create-stable_example =
    load_or_create-stable toy (take 32 (zeros 64)) (lit "other") false refl refl refl
