-- ===== src/CaBundle/Tests.antt =====
-- Runs of src/cabundle on the toy parameters of Audit/Toy and Machines/Toy.
use mayfly_server.Prelude.{
  ◌≡◌, ◌≤◌, refl, lit, [], ◌∷◌, ◌++◌, none, some, true, false, length, arith, len, as_bytes, utf8,
  is_ascii_alphanumeric, is_control, text_eq, trim, is_whitespace, is_empty,
}
use mayfly_server.Prelude.Int.{pos, int_leb}
use mayfly_server.Prelude.Sort.{sort_by, insert_sorted, text_leb}
use mayfly_server.Prelude.Result.{ok, err}
use mayfly_server.Audit.Toy.{toy_digest}
use mayfly_server.Machines.Toy.{clock, keys, sample_row as row, sample_machine as machine}
use mayfly_server.Machines.Models.{from_db_str}
use mayfly_server.Machines.Store.{
  find_by_id, optional_machine, machine_of_row, parse_dt, parse_optional_dt,
}
use mayfly_server.AgentAuth.Decimal.{show_int, digits}
use mayfly_server.CaBundle.Canonical.{
  CaBundleKey, canonical_json, compute_fingerprint, keys_json, json_escape, escaped,
}
use mayfly_server.CaBundle.Canonical.Injective.{canonical_json-injective}
use mayfly_server.CaBundle.Build.{
  CaBundle, build, check_keys, has_equal_neighbours, validate_key_id, validate_ca_public_key,
}
use mayfly_server.CaBundle.Build.Accepts.{IsBuilt, IsValidKey, build-IsBuilt, build_total}
use mayfly_server.CaBundle.Service.{
  CaTables, AckRequest, AckError, ensure_seeded, current_bundle, check_ack, record_ack,
}
use mayfly_server.CaBundle.Service.Acks.{Matches, acked, record_ack-recorded, record_ack_total}
use mayfly_server.CaBundle.Service.Seed.{ensure_seeded-current_bundle}

abbrev first_key : CaBundleKey
first_key = record { key_id = lit "ca-01"; public_key = lit "ssh-ed25519 A" }

abbrev second_key : CaBundleKey
second_key = record { key_id = lit "ca-02"; public_key = lit "ssh-ed25519 B" }

canonical_json-injective_example :
    (pos 7 ≡ pos 7) × (first_key ∷ second_key ∷ [] ≡ first_key ∷ second_key ∷ [])
canonical_json-injective_example =
    canonical_json-injective (pos 7) (pos 7) (first_key ∷ second_key ∷ [])
      (first_key ∷ second_key ∷ []) refl

first_key-valid : IsValidKey keys first_key
unfolding validate_key_id validate_ca_public_key len as_bytes utf8 is_ascii_alphanumeric is_control
first_key-valid = (refl, refl)

second_key-valid : IsValidKey keys second_key
unfolding validate_key_id validate_ca_public_key len as_bytes utf8 is_ascii_alphanumeric is_control
second_key-valid = (refl, refl)

abbrev built : CaBundle
built = record {
  generation = pos 7;
  fingerprint = compute_fingerprint toy_digest (pos 7) (first_key ∷ second_key ∷ []);
  keys = first_key ∷ second_key ∷ [];
}

built_run : build keys toy_digest (pos 7) (second_key ∷ first_key ∷ []) ≡ ok built
unfolding build check_keys has_equal_neighbours validate_key_id validate_ca_public_key len as_bytes
    utf8 is_ascii_alphanumeric is_control sort_by insert_sorted text_leb text_eq
built_run = refl

build-IsBuilt_example :
    IsBuilt keys toy_digest (pos 7) (second_key ∷ first_key ∷ []) built
    × (int_leb (pos 1) (pos 7) ≡ true)
    × (1 ≤ length (second_key ∷ first_key ∷ []))
    × (length (second_key ∷ first_key ∷ []) ≤ 64)
build-IsBuilt_example =
    build-IsBuilt keys toy_digest (pos 7) (second_key ∷ first_key ∷ []) built built_run

build_total_example :
    (b : CaBundle) × (build keys toy_digest (pos 7) (second_key ∷ first_key ∷ []) ≡ ok b)
build_total_example =
    build_total keys toy_digest (pos 7) (second_key ∷ first_key ∷ []) refl (omega arith)
      (omega arith) (second_key-valid, (first_key-valid, tt)) (unfold text_eq in (refl, (refl, tt)))
      (unfold text_eq in (refl, (refl, tt)))

abbrev no_tables : CaTables
no_tables = record { keys = []; generation = none }

abbrev tables : CaTables
tables = ensure_seeded clock no_tables (lit "ca-01") (lit "ssh-ed25519 A") 4_000_000

abbrev served : CaBundle
served = record {
  generation = pos 1;
  fingerprint = compute_fingerprint toy_digest (pos 1) (first_key ∷ []);
  keys = first_key ∷ [];
}

served_now : current_bundle clock keys toy_digest tables ≡ ok served
served_now =
    ensure_seeded-current_bundle clock keys toy_digest no_tables (lit "ca-01") (lit "ssh-ed25519 A")
      4_000_000 refl first_key-valid

machine_found : find_by_id clock (row ∷ []) (lit "m1") ≡ ok (some machine)
unfolding find_by_id optional_machine machine_of_row parse_dt parse_optional_dt from_db_str text_eq
machine_found = refl

abbrev ack : AckRequest
ack = record {
  generation = pos 1;
  fingerprint = lit "sha256:" ++ toy_digest (as_bytes (canonical_json (pos 1) (first_key ∷ [])));
  status = lit " success ";
}

ack-Matches : Matches clock keys toy_digest tables ack served
unfolding trim is_whitespace compute_fingerprint canonical_json keys_json json_escape escaped
    show_int digits as_bytes utf8
ack-Matches = record { current = served_now; success = refl; generation = refl; fingerprint = refl }

served_fingerprint : (is_empty served.fingerprint ≡ false) × (len served.fingerprint ≤ 128)
unfolding compute_fingerprint canonical_json keys_json json_escape escaped show_int digits len
    as_bytes utf8
served_fingerprint = (refl, omega arith)

ack_run :
    (record_ack clock keys toy_digest tables (row ∷ []) (lit "m1") ack 9_000_000).0
    ≡ ok (record { status = lit "recorded"; generation = pos 1 })
ack_run =
    record_ack_total clock keys toy_digest tables (row ∷ []) (lit "m1") ack 9_000_000 served machine
      ack-Matches served_fingerprint.0 served_fingerprint.1 (refl, tt) machine_found

record_ack-recorded_example :
    (b : CaBundle) × Matches clock keys toy_digest tables ack b
    × (pos 1 ≡ b.generation)
    × (find_by_id clock
          (record_ack clock keys toy_digest tables (row ∷ []) (lit "m1") ack 9_000_000).1
          (lit "m1")
        ≡ ok (some (acked clock keys toy_digest b 9_000_000 machine)))
record_ack-recorded_example =
    record_ack-recorded clock keys toy_digest tables (row ∷ []) (lit "m1") ack 9_000_000
      (record { status = lit "recorded"; generation = pos 1 }) machine refl machine_found ack_run

abbrev failed_ack : AckRequest
failed_ack = record ack { status = lit "failure" }

failed_ack_run :
    (record_ack clock keys toy_digest tables (row ∷ []) (lit "m1") failed_ack 9_000_000).0
    ≡ err AckError.invalid_status
unfolding record_ack check_ack trim is_whitespace text_eq
failed_ack_run = refl
