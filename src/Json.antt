-- ===== src/Json.antt =====
-- JSON texts that the code writes by hand: src/cabundle/models.rs and src/bundle/canonical.rs differ
-- in the characters that they escape and share the rest.
pub mod Injective
use mayfly_server.Prelude.{ℕ, ◌+◌, ◌-◌, ◌/◌, ◌%◌, Str, lit, List, [], ◌∷◌, ◌++◌, ltb, if◌then◌else◌}

abbrev pub hex_digit : ℕ → ℕ
hex_digit n = if ltb n 10 then b'0' + n else b'a' + (n - 10)

-- `{:04x}` of a value below 0x20 has two leading zeros.
abbrev pub code_escape : ℕ → Str
code_escape ch = b'\\' ∷ b'u' ∷ b'0' ∷ b'0' ∷ hex_digit (ch / 16) ∷ hex_digit (ch % 16) ∷ []

module _ (escape : ℕ → Str) where
  abbrev pub escape_all : Str → Str
  escape_all [] = []
  escape_all (ch ∷ value) = escape ch ++ escape_all value

  abbrev pub quoted_text : Str → Str
  quoted_text value = b'"' ∷ escape_all value ++ b'"' ∷ []

  -- A key's id and its public key.
  abbrev pub key_object : Str × Str → Str
  key_object (key_id, public_key) =
      lit "{\"key_id\":"
      ++ quoted_text key_id
      ++ lit ",\"public_key\":"
      ++ quoted_text public_key
      ++ b'}' ∷ []

  -- The objects after the first one, each behind a comma.
  abbrev pub more_objects : List (Str × Str) → Str
  more_objects [] = []
  more_objects (key ∷ keys) = b',' ∷ key_object key ++ more_objects keys

  abbrev pub objects : List (Str × Str) → Str
  objects [] = []
  objects (key ∷ keys) = key_object key ++ more_objects keys
