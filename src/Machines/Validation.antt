-- ===== src/Machines/Validation.antt =====
-- src/machines/validation.rs. OpenSSH keys come from the `ssh_key` crate.
use mayfly_server.Prelude.{
  ℕ, Str, Option, none, some, Bool, false, ◌&&◌, ◌||◌, not, ltb, leb, ◌==◌, is_empty, all, len,
  split, is_ascii_alphanumeric, if◌then◌else◌, [], ◌∷◌,
}
use mayfly_server.Prelude.Result.{Result, ok_or, ◌>>=◌, ◌>>◌, reject_if}

abbrev pub max_hostname_len : ℕ
max_hostname_len = 253

abbrev pub max_label_len : ℕ
max_label_len = 63

abbrev is_hyphen : ℕ → Bool
is_hyphen c = c == b'-'

abbrev starts_with_hyphen : Str → Bool
starts_with_hyphen [] = false
starts_with_hyphen (c ∷ s) = is_hyphen c

abbrev ends_with_hyphen : Str → Bool
ends_with_hyphen [] = false
ends_with_hyphen (c ∷ []) = is_hyphen c
ends_with_hyphen (c ∷ d ∷ s) = ends_with_hyphen (d ∷ s)

unfoldable pub is_valid_label : Str → Bool
is_valid_label label =
    not (is_empty label)
    && leb (len label) max_label_len
    && not (starts_with_hyphen label)
    && not (ends_with_hyphen label)
    && all (λ c. is_ascii_alphanumeric c || is_hyphen c) label

unfoldable pub is_valid_hostname : Str → Bool
is_valid_hostname hostname =
    if is_empty hostname || ltb max_hostname_len (len hostname)
    then false
    else all is_valid_label (split b'.' hostname)

pub record SshKeys (Key : Type 0) : Type 0 where
  pub from_openssh : Str → Option Key
  pub is_ed25519 : Key → Bool
  pub to_openssh : Key → Option Str
  pub key_fingerprint : Key → Str

pub data PublicKeyError : Type 0 where
  malformed not_ed25519 : PublicKeyError

module _ {Key : Type 0} (k : SshKeys Key) where
  unfoldable pub validate_ed25519_public_key : Str → Result PublicKeyError Str
  validate_ed25519_public_key public_key = do
    key ← ok_or (k.from_openssh public_key) malformed
    reject_if (not (k.is_ed25519 key)) not_ed25519
    ok_or (k.to_openssh key) malformed

  unfoldable pub public_key_fingerprint : Str → Option Str
  public_key_fingerprint public_key = elim (k.from_openssh public_key) [
    | none ↦ none
    | some key ↦ some (k.key_fingerprint key)
  ]
