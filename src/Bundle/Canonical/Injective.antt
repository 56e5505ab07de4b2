-- ===== src/Bundle/Canonical/Injective.antt =====
-- The signed bytes of src/bundle/canonical.rs determine what they are computed from.
use mayfly_server.Prelude.{
  ◌≡◌, ◌≢◌, sym, ◌∙◌, refl, ℕ, Str, lit, List, [], ◌∷◌, ◌++◌, map, arith, separated-injective, some,
  as_bytes, as_bytes-injective,
}
use mayfly_server.Prelude.Int.{pos}
use mayfly_server.Prelude.Sort.{sort_by}
use mayfly_server.Prelude.Result.{ok}
use mayfly_server.Json.{escape_all, objects}
use mayfly_server.Json.Injective.{
  unescape, unescape_short, unescape-plain, unescape_code-escaped, append_assoc, append-cancel,
  objects-injective, escape_all-injective,
}
use mayfly_server.AgentAuth.Decimal.{show_int, show_int-lacks, show_int-injective}
use mayfly_server.Bundle.Models.{BundleKey}
use mayfly_server.Bundle.Canonical.{
  CanonicalInput, escape, by_key_id, signed_part, append_keys_array, canonical_v1,
  canonical_message,
}

unescape-escape : (c : ℕ) (r : Str) → unescape (escape c ++ r) ≡ some (c, r)
unfolding escape unescape unescape_short
unescape-escape c r = ground (arith, unescape-plain c r, unescape_code-escaped c r)

escape-not_quote : (c : ℕ) (r s : Str) → escape c ++ r ≢ b'"' ∷ s
unfolding escape
escape-not_quote c r s e = ground arith

-- The keys in the signed order, without their display fingerprints.
abbrev pub signed_keys : List BundleKey → List (Str × Str)
signed_keys keys = map signed_part (sort_by by_key_id keys)

-- The text after the version's digits, cut at the values.
abbrev tail_of : CanonicalInput → Str
tail_of input =
    lit "\"created_at\":\""
    ++ (escape_all escape input.created_at
        ++ b'"'
          ∷ (lit ",\"expires_at\":\""
              ++ (escape_all escape input.expires_at
                  ++ b'"'
                    ∷ (lit ",\"fingerprint\":\""
                        ++ (escape_all escape input.fingerprint
                            ++ b'"'
                              ∷ (lit ",\"generation\":"
                                  ++ (show_int (pos input.generation)
                                      ++ b','
                                        ∷ (lit "\"keys\":["
                                            ++ (objects escape (signed_keys input.keys)
                                                ++ b']' ∷ b'}' ∷ [])))))))))

canonical_v1-split :
    (input : CanonicalInput)
    → canonical_v1 input
      ≡ lit "{\"bundle_version\":" ++ (show_int (pos input.bundle_version) ++ b',' ∷ tail_of input)
unfolding canonical_v1 append_keys_array
canonical_v1-split input = simp append_assoc

-- The same signed content: all but the display fingerprints and the order of the keys.
abbrev pub SameContent : CanonicalInput → CanonicalInput → Type 0
SameContent a b =
    (a.bundle_version ≡ b.bundle_version)
    × (a.generation ≡ b.generation)
    × (a.created_at ≡ b.created_at)
    × (a.expires_at ≡ b.expires_at)
    × (a.fingerprint ≡ b.fingerprint)
    × (signed_keys a.keys ≡ signed_keys b.keys)

pos-injective : (m n : ℕ) → show_int (pos m) ≡ show_int (pos n) → m ≡ n
pos-injective m n e =
    let same : pos m ≡ pos n = show_int-injective (pos m) (pos n) e in ground (arith, same)

number_ends :
    (m n : ℕ) (r s : Str)
    → show_int (pos m) ++ b',' ∷ r ≡ show_int (pos n) ++ b',' ∷ s
    → (m ≡ n) × (r ≡ s)
number_ends m n r s e =
    let (numbers, rest) =
      separated-injective b',' (show_int (pos m)) (show_int (pos n)) r s
        (show_int-lacks b',' (pos m) refl refl) (show_int-lacks b',' (pos n) refl refl) e in
    (pos-injective m n numbers, rest)

text_ends :
    (p a b r s : Str)
    → p ++ (escape_all escape a ++ b'"' ∷ r) ≡ p ++ (escape_all escape b ++ b'"' ∷ s)
    → (a ≡ b) × (r ≡ s)
text_ends p a b r s e =
    escape_all-injective escape unescape-escape escape-not_quote a b r s (append-cancel p _ _ e)

canonical_v1-SameContent :
    (a b : CanonicalInput) → canonical_v1 a ≡ canonical_v1 b → SameContent a b
canonical_v1-SameContent a b e =
    let (versions, r1) = number_ends a.bundle_version b.bundle_version _ _ (
      append-cancel (lit "{\"bundle_version\":") _ _
        (sym (canonical_v1-split a) ∙ e ∙ canonical_v1-split b)) in
    let (created, r2) = text_ends (lit "\"created_at\":\"") a.created_at b.created_at _ _ r1 in
    let (expires, r3) = text_ends (lit ",\"expires_at\":\"") a.expires_at b.expires_at _ _ r2 in
    let (prints, r4) = text_ends (lit ",\"fingerprint\":\"") a.fingerprint b.fingerprint _ _ r3 in
    let (generations, r5) =
      number_ends a.generation b.generation _ _ (append-cancel (lit ",\"generation\":") _ _ r4) in
    let keys =
      objects-injective escape unescape-escape escape-not_quote (signed_keys a.keys)
        (signed_keys b.keys) _ _ (append-cancel (lit "\"keys\":[") _ _ r5) in
    (versions, generations, created, expires, prints, keys)

-- Bundles with the same signed bytes agree in everything but the order of their keys and the
-- fingerprints shown for the keys, whatever characters the texts hold.
pub canonical_message-SameContent :
    (a b : CanonicalInput) (message : List ℕ)
    → canonical_message a ≡ ok message
    → canonical_message b ≡ ok message
    → SameContent a b
unfolding canonical_message
canonical_message-SameContent a b message ha hb =
    let same : as_bytes (canonical_v1 a) ≡ as_bytes (canonical_v1 b) = ground (arith, ha, hb) in
    canonical_v1-SameContent a b (as_bytes-injective (canonical_v1 a) (canonical_v1 b) same)
