-- ===== src/CaBundle/Build.antt =====
-- `CaBundle::build` of src/cabundle/models.rs. OpenSSH keys and SHA-256 come from other crates.
pub mod Sorted
pub mod Accepts
use mayfly_server.Prelude.{
  ℕ, Str, List, [], ◌∷◌, Option, none, some, Bool, true, false, ◌&&◌, ◌||◌, not, ltb, leb, ◌==◌,
  is_empty, all, any, len, length, map, text_eq, is_control, is_ascii_alphanumeric, if◌then◌else◌,
}
use mayfly_server.Prelude.Int.{ℤ, pos, int_leb}
use mayfly_server.Prelude.Sort.{sort_by, text_leb}
use mayfly_server.Prelude.Result.{Result, ok, err, ok_or, ◌>>=◌, ◌>>◌, reject_if}
use mayfly_server.Machines.Store.{SqlxError}
use mayfly_server.Machines.Validation.{SshKeys}
use mayfly_server.CaBundle.Canonical.{CaBundleKey, compute_fingerprint}

abbrev pub min_ca_keys : ℕ
min_ca_keys = 1

abbrev pub max_ca_keys : ℕ
max_ca_keys = 64

abbrev max_key_id_len : ℕ
max_key_id_len = 64

abbrev max_public_key_len : ℕ
max_public_key_len = 4096

pub record CaBundle : Type 0 where
  pub generation : ℤ
  pub fingerprint : Str
  pub keys : List CaBundleKey

pub data CaBundleError : Type 0 where
  empty too_many_keys duplicate_key_id duplicate_public_key : CaBundleError
  invalid_key_id invalid_public_key invalid_generation : CaBundleError
  database : SqlxError → CaBundleError

unfoldable pub validate_key_id : Str → Result CaBundleError Unit
validate_key_id key_id = do
  reject_if (is_empty key_id || ltb max_key_id_len (len key_id)) invalid_key_id
  reject_if
      (not (
        all (λ c. is_ascii_alphanumeric c || c == b'-' || c == b'_' || c == b'.' || c == b':')
          key_id))
      invalid_key_id
  ok tt

-- By `key_id`, then by `public_key`.
abbrev pub key_leb : CaBundleKey → CaBundleKey → Bool
key_leb a b =
    if text_eq a.key_id b.key_id
    then text_leb a.public_key b.public_key
    else text_leb a.key_id b.key_id

-- `prev.key_id == key.key_id`, for the key before if there is one.
abbrev pub same_as_prev : Option Str → Str → Bool
same_as_prev none key_id = false
same_as_prev (some prev) key_id = text_eq prev key_id

-- The loop over `windows(2)`.
unfoldable pub has_equal_neighbours : List Str → Bool
has_equal_neighbours [] = false
has_equal_neighbours (a ∷ []) = false
has_equal_neighbours (a ∷ b ∷ texts) = text_eq a b || has_equal_neighbours (b ∷ texts)

module _ {Key : Type 0} (k : SshKeys Key) where
  unfoldable pub validate_ca_public_key : Str → Result CaBundleError Unit
  validate_ca_public_key public_key = do
    reject_if
        (is_empty public_key
          || ltb max_public_key_len (len public_key)
          || any is_control public_key)
        invalid_public_key
    key ← ok_or (k.from_openssh public_key) invalid_public_key
    reject_if (not (k.is_ed25519 key)) invalid_public_key
    ok tt

  -- The loop over the sorted keys.
  unfoldable pub check_keys : Option Str → List CaBundleKey → Result CaBundleError Unit
  check_keys prev [] = ok tt
  check_keys prev (key ∷ keys) = do
    validate_key_id key.key_id
    validate_ca_public_key key.public_key
    reject_if (same_as_prev prev key.key_id) duplicate_key_id
    check_keys (some key.key_id) keys

  unfoldable pub build : (List ℕ → Str) → ℤ → List CaBundleKey → Result CaBundleError CaBundle
  unfolding check_keys has_equal_neighbours
  build sha256_hex generation given = do
    reject_if (not (int_leb (pos 1) generation)) invalid_generation
    reject_if (ltb (length given) min_ca_keys) empty
    reject_if (ltb max_ca_keys (length given)) too_many_keys
    let keys = sort_by key_leb given
    check_keys none keys
    reject_if
        (has_equal_neighbours (sort_by text_leb (map (λ (key : CaBundleKey). key.public_key) keys)))
        duplicate_public_key
    ok (record {
      generation = generation;
      fingerprint = compute_fingerprint sha256_hex generation keys;
      keys = keys;
    })
