-- ===== src/Machines/Token.antt =====
-- src/machines/token.rs. `constant_time_eq` is in Prelude/ConstantTime.
use mayfly_server.Prelude.{
  ℕ, Str, lit, List, ◌++◌, Option, none, some, Bool, false, ◌&&◌, ◌||◌, not, ltb, ◌==◌, is_empty,
  all, len, as_bytes, strip_prefix, is_ascii_alphanumeric, if◌then◌else◌,
}

abbrev pub token_prefix : Str
token_prefix = lit "mf_enroll_"

abbrev max_token_len : ℕ
max_token_len = 256

-- The random bytes and the hexadecimal encoding come from other crates.
unfoldable pub generate_token : (List ℕ → Str) → List ℕ → Str
generate_token hex_encode bytes = token_prefix ++ hex_encode bytes

unfoldable pub hash_token : (List ℕ → Str) → Str → Str
hash_token sha256_hex token = sha256_hex (as_bytes token)

abbrev suffix_ok : Option Str → Bool
suffix_ok none = false
suffix_ok (some suffix) =
    not (is_empty suffix) && all (λ c. is_ascii_alphanumeric c || c == b'_') suffix

unfoldable pub is_well_formed : Str → Bool
is_well_formed token =
    if ltb max_token_len (len token) then false else suffix_ok (strip_prefix token token_prefix)
