-- ===== src/Bundle/Canonical.antt =====
-- src/bundle/canonical.rs: the bytes that the Bundle Signing Key signs.
pub mod Injective
use mayfly_server.Prelude.{
  ℕ, Str, lit, List, [], ◌∷◌, ◌++◌, Bool, not, ◌==◌, ltb, map, as_bytes, if◌then◌else◌,
}
use mayfly_server.Prelude.Int.{pos}
use mayfly_server.Prelude.Sort.{sort_by, text_leb}
use mayfly_server.Prelude.Result.{Result, ok, err}
use mayfly_server.Json.{code_escape, quoted_text, objects}
use mayfly_server.AgentAuth.Decimal.{show_int}
use mayfly_server.Bundle.Models.{BundleKey, BundleError, unsupported_version, bundle_version}

pub record CanonicalInput : Type 0 where
  pub bundle_version : ℕ
  pub generation : ℕ
  pub created_at : Str
  pub expires_at : Str
  pub fingerprint : Str
  pub keys : List BundleKey

-- One round of `json_escape_into`.
unfoldable pub escape : ℕ → Str
escape c =
    if c == b'"'
    then b'\\' ∷ b'"' ∷ []
    else if c == b'\\'
    then b'\\' ∷ b'\\' ∷ []
    else if c == b'\n'
    then b'\\' ∷ b'n' ∷ []
    else if c == b'\r'
    then b'\\' ∷ b'r' ∷ []
    else if c == b'\t'
    then b'\\' ∷ b't' ∷ []
    else if c == 0x08
    then b'\\' ∷ b'b' ∷ []
    else if c == 0x0c
    then b'\\' ∷ b'f' ∷ []
    else if ltb c 0x20
    then code_escape c
    else c ∷ []

abbrev pub by_key_id : BundleKey → BundleKey → Bool
by_key_id a b = text_leb a.key_id b.key_id

-- What of a key is signed.
abbrev pub signed_part : BundleKey → Str × Str
signed_part key = (key.key_id, key.public_key)

unfoldable pub append_keys_array : List BundleKey → Str
unfolding escape
append_keys_array sorted = b'[' ∷ objects escape (map signed_part sorted) ++ b']' ∷ []

unfoldable pub canonical_v1 : CanonicalInput → Str
unfolding append_keys_array escape
canonical_v1 input =
    lit "{\"bundle_version\":"
    ++ show_int (pos input.bundle_version)
    ++ lit ",\"created_at\":"
    ++ quoted_text escape input.created_at
    ++ lit ",\"expires_at\":"
    ++ quoted_text escape input.expires_at
    ++ lit ",\"fingerprint\":"
    ++ quoted_text escape input.fingerprint
    ++ lit ",\"generation\":"
    ++ show_int (pos input.generation)
    ++ lit ",\"keys\":"
    ++ append_keys_array (sort_by by_key_id input.keys)
    ++ b'}' ∷ []

unfoldable pub canonical_message : CanonicalInput → Result BundleError (List ℕ)
unfolding canonical_v1
canonical_message input =
    if not (input.bundle_version == bundle_version)
    then err (unsupported_version input.bundle_version)
    else ok (as_bytes (canonical_v1 input))
