-- ===== src/CaBundle/Build/Accepts.antt =====
-- What `CaBundle::build` of src/cabundle/models.rs accepts and returns.
use mayfly_server.Prelude.{
  ◌≡◌, ◌≤◌, ◌↔◌, refl, ap, sym, ◌∙◌, ℕ, Str, List, [], ◌∷◌, true, false, map, text_eq_iff, length,
  All, arith, inl, inr, Option, none, some,
}
use mayfly_server.Prelude.Int.{ℤ, pos, int_leb}
use mayfly_server.Prelude.Sort.{
  text_leb, text_leb_refl, text_leb_total, sort_by, sort_by-perm, IsSorted, sort_by-IsSorted,
}
use mayfly_server.Prelude.Result.{ok, Result-cases}
use mathlib.Core.List.{Perm}
use mayfly_server.Machines.Store.Distinct.{Distinct}
use mayfly_server.Machines.Validation.{SshKeys}
use mayfly_server.CaBundle.Canonical.{CaBundleKey, compute_fingerprint}
use mayfly_server.CaBundle.Build.{
  CaBundle, validate_key_id, validate_ca_public_key, key_leb, has_equal_neighbours, check_keys,
  build,
}
use mayfly_server.CaBundle.Build.Sorted.{
  neighbours_iff, Distinct-sort_by_iff, Distinct-map_iff, All-sort_by,
}

abbrev pub id_of : CaBundleKey → Str
id_of key = key.key_id

abbrev pub public_of : CaBundleKey → Str
public_of key = key.public_key

key_leb_total : (a b : CaBundleKey) → key_leb a b ≡ false → key_leb b a ≡ true
key_leb_total a b h = ground (
  arith,
  text_eq_iff a.key_id b.key_id,
  text_eq_iff b.key_id a.key_id,
  text_leb_total a.key_id b.key_id,
  text_leb_total a.public_key b.public_key,
)

key_leb-ids : (a b : CaBundleKey) → key_leb a b ≡ true → text_leb a.key_id b.key_id ≡ true
key_leb-ids a b h =
    ground (arith, text_eq_iff a.key_id b.key_id, text_leb_refl a.key_id, text_leb_refl b.key_id)

IsSorted-ids :
    (keys : List CaBundleKey)
    → IsSorted key_leb keys
    → IsSorted (λ a b. text_leb (id_of a) (id_of b)) keys
IsSorted-ids [] s = tt
IsSorted-ids (a ∷ []) s = tt
IsSorted-ids (a ∷ b ∷ keys) s = (key_leb-ids a b s.0, IsSorted-ids (b ∷ keys) s.1)

map_id : (texts : List Str) → map (λ (s : Str). s) texts ≡ texts
map_id [] = refl
map_id (s ∷ texts) = ap (λ ts. s ∷ ts) (map_id texts)

texts_iff :
    (texts : List Str)
    → (has_equal_neighbours (sort_by text_leb texts) ≡ false) ↔ Distinct (λ (s : Str). s) texts
texts_iff texts =
    let sorted = sort_by-IsSorted text_leb text_leb_total texts in
    let (to, from) = neighbours_iff (λ (s : Str). s) (sort_by text_leb texts) sorted in
    let (out, back) = Distinct-sort_by_iff (λ (s : Str). s) text_leb texts in
    (
      λ h. out (to (ap has_equal_neighbours (map_id (sort_by text_leb texts)) ∙ h)),
      λ d. sym (ap has_equal_neighbours (map_id (sort_by text_leb texts))) ∙ from (back d),
    )

publics_iff :
    (keys : List CaBundleKey)
    → (has_equal_neighbours (sort_by text_leb (map public_of keys)) ≡ false)
      ↔ Distinct public_of keys
publics_iff keys =
    let (out, back) = texts_iff (map public_of keys) in
    let (to, from) = Distinct-map_iff public_of keys in (λ h. to (out h), λ d. back (from d))

IsSorted-keys : (given : List CaBundleKey) → IsSorted key_leb (sort_by key_leb given)
IsSorted-keys given = sort_by-IsSorted key_leb key_leb_total given

abbrev with_prev : Option Str → List Str → List Str
with_prev none texts = texts
with_prev (some prev) texts = prev ∷ texts

module _ {Key : Type 0} (k : SshKeys Key) where
  -- The single checks of a key.
  abbrev pub IsValidKey : CaBundleKey → Type 0
  IsValidKey key =
      (validate_key_id key.key_id ≡ ok tt) × (validate_ca_public_key k key.public_key ≡ ok tt)

  check_keys-valid :
      (prev : Option Str) (keys : List CaBundleKey)
      → check_keys k prev keys ≡ ok tt
      → All IsValidKey keys × (has_equal_neighbours (with_prev prev (map id_of keys)) ≡ false)
  unfolding check_keys has_equal_neighbours
  check_keys-valid none [] h = (tt, refl)
  check_keys-valid (some p) [] h = (tt, refl)
  check_keys-valid none (key ∷ keys) h =
      let rest = check_keys-valid (some key.key_id) keys (ground arith) in
      (((ground arith, ground arith), rest.0), rest.1)
  check_keys-valid (some p) (key ∷ keys) h =
      let rest = check_keys-valid (some key.key_id) keys (ground arith) in
      (((ground arith, ground arith), rest.0), ground (arith, rest.1))

  valid-check_keys :
      (prev : Option Str) (keys : List CaBundleKey)
      → All IsValidKey keys
      → has_equal_neighbours (with_prev prev (map id_of keys)) ≡ false
      → check_keys k prev keys ≡ ok tt
  unfolding check_keys has_equal_neighbours
  valid-check_keys prev [] v h = refl
  valid-check_keys none (key ∷ keys) v h =
      let rest = valid-check_keys (some key.key_id) keys v.1 h in ground (arith, v.0, rest)
  valid-check_keys (some p) (key ∷ keys) v h =
      let rest = valid-check_keys (some key.key_id) keys v.1 (ground arith) in
      ground (arith, v.0, rest)

  module _ (sha256_hex : List ℕ → Str) where
    -- A bundle of the given generation and keys.
    pub record IsBuilt (generation : ℤ) (given : List CaBundleKey) (b : CaBundle) : Type 0 where
      pub same_generation : b.generation ≡ generation
      pub same_keys : Perm b.keys given
      pub sorted : IsSorted key_leb b.keys
      pub ids : Distinct id_of b.keys
      pub publics : Distinct public_of b.keys
      pub valid : All IsValidKey b.keys
      pub fingerprint : b.fingerprint ≡ compute_fingerprint sha256_hex generation b.keys

    -- A bundle that is built has the given generation, at least 1, and the given keys, 1 to 64 of
    -- them, in the order of their ids, each valid, no two with the same id or the same public key,
    -- and the fingerprint of exactly this content.
    pub build-IsBuilt :
        (generation : ℤ) (given : List CaBundleKey) (b : CaBundle)
        → build k sha256_hex generation given ≡ ok b
        → IsBuilt generation given b
          × (int_leb (pos 1) generation ≡ true)
          × (1 ≤ length given)
          × (length given ≤ 64)
    unfolding build
    build-IsBuilt generation given b h =
        let keys : List CaBundleKey = sort_by key_leb given in
        elim (Result-cases (check_keys k none keys)) [
          | inr (e, failed) ↦ absurd (ground arith)
          | inl (tt, passed) ↦
              let same : b.keys ≡ keys = ground arith in
              let (valid, apart) = check_keys-valid none keys passed in
              (
                record {
                  same_generation = ground arith;
                  same_keys = rw same (sort_by-perm key_leb given);
                  sorted = rw same (IsSorted-keys given);
                  ids = rw same (
                      (neighbours_iff id_of keys (IsSorted-ids keys (IsSorted-keys given))).0
                        apart);
                  publics = rw same ((publics_iff keys).0 (ground arith));
                  valid = rw same valid;
                  fingerprint = ground arith;
                },
                ground arith,
                ground arith,
                ground arith,
              )
        ]

    -- At a generation of at least 1, one to 64 valid keys whose ids are distinct and whose public
    -- keys are distinct do make a bundle.
    pub build_total :
        (generation : ℤ) (given : List CaBundleKey)
        → int_leb (pos 1) generation ≡ true
        → 1 ≤ length given
        → length given ≤ 64
        → All IsValidKey given
        → Distinct id_of given
        → Distinct public_of given
        → (b : CaBundle) × (build k sha256_hex generation given ≡ ok b)
    unfolding build
    build_total generation given g low high v ids publics =
        let keys : List CaBundleKey = sort_by key_leb given in
        let passed : check_keys k none keys ≡ ok tt =
          valid-check_keys none keys (All-sort_by IsValidKey key_leb given v) (
            (neighbours_iff id_of keys (IsSorted-ids keys (IsSorted-keys given))).1
              ((Distinct-sort_by_iff id_of key_leb given).1 ids)) in
        let apart : has_equal_neighbours (sort_by text_leb (map public_of keys)) ≡ false =
          (publics_iff keys).1 ((Distinct-sort_by_iff public_of key_leb given).1 publics) in
        (
          record {
            generation = generation;
            fingerprint = compute_fingerprint sha256_hex generation keys;
            keys = keys;
          },
          ground (arith, passed, apart),
        )
