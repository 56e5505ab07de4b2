-- ===== src/CaBundle/Canonical.antt =====
-- The canonical JSON of src/cabundle/models.rs and its fingerprint.
pub mod Injective
use mayfly_server.Prelude.{
  ℕ, map, Str, lit, List, [], ◌∷◌, ◌++◌, Bool, true, false, ltb, ◌==◌, as_bytes, if◌then◌else◌,
}
use mayfly_server.Prelude.Int.{ℤ}
use mayfly_server.Json.{code_escape, quoted_text, objects}
use mayfly_server.AgentAuth.Decimal.{show_int}

pub record CaBundleKey : Type 0 where
  pub key_id : Str
  pub public_key : Str

-- One round of the loop.
unfoldable pub escaped : ℕ → Str
escaped ch =
    if ch == b'"'
    then b'\\' ∷ b'"' ∷ []
    else if ch == b'\\'
    then b'\\' ∷ b'\\' ∷ []
    else if ch == b'\n'
    then b'\\' ∷ b'n' ∷ []
    else if ch == b'\r'
    then b'\\' ∷ b'r' ∷ []
    else if ch == b'\t'
    then b'\\' ∷ b't' ∷ []
    else if ltb ch 0x20
    then code_escape ch
    else ch ∷ []

-- What `json_escape_into` appends.
unfoldable pub json_escape : Str → Str
unfolding escaped
json_escape value = quoted_text escaped value

abbrev pub fields : CaBundleKey → Str × Str
fields key = (key.key_id, key.public_key)

-- The loop over the keys, which puts a comma before each key but the first.
unfoldable pub keys_json : List CaBundleKey → Str
unfolding escaped
keys_json keys = objects escaped (map fields keys)

unfoldable pub canonical_json : ℤ → List CaBundleKey → Str
unfolding keys_json
canonical_json generation keys =
    lit "{\"generation\":" ++ show_int generation ++ lit ",\"keys\":[" ++ keys_json keys ++ lit "]}"

-- SHA-256 with its hexadecimal encoding is a parameter.
unfoldable pub compute_fingerprint : (List ℕ → Str) → ℤ → List CaBundleKey → Str
unfolding canonical_json
compute_fingerprint sha256_hex generation keys =
    lit "sha256:" ++ sha256_hex (as_bytes (canonical_json generation keys))
