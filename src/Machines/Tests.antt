-- ===== src/Machines/Tests.antt =====
-- Runs of src/machines on the instance of Machines/Toy.
use mayfly_server.Prelude.{
  ◌≡◌, refl, lit, [], ◌∷◌, none, some, true, arith, len, as_bytes, utf8, strip_prefix,
  is_ascii_alphanumeric, split, text_eq, trim, is_control, is_whitespace,
}
use mayfly_server.Prelude.ConstantTime.{constant_time_eq}
use mayfly_server.Prelude.Int.{pos}
use mayfly_server.Prelude.Result.{Result, ok, err}
use mayfly_server.Machines.Toy.{clock, crates, nothing, request}
use mayfly_server.Machines.Models.{
  Machine, MachineStatus, EnrollmentError, IssuedEnrollmentToken, EnrollmentToken, as_str,
  from_db_str,
}
use mayfly_server.Machines.Token.{generate_token, hash_token, is_well_formed}
use mayfly_server.Machines.Validation.{
  is_valid_hostname, is_valid_label, validate_ed25519_public_key,
}
use mayfly_server.Machines.Store.{
  parse_dt, parse_optional_dt, optional_machine, find_by_hostname, find_by_public_key, find_by_id,
  insert, row_of_new, machine_of_new, machine_of_row, delete,
}
use mayfly_server.Machines.Store.Tokens.{find_by_hash, create, consume, token_of_row}
use mayfly_server.Machines.Enrollment.{
  Registry, create_enrollment_token, enroll_registry, enroll_transaction, check_request,
  validate_token_state,
}
use mayfly_server.Machines.Enrollment.Steps.{Reach, here, next, creates, enrolls}
use mayfly_server.Machines.Enrollment.Spent.{single_use_once}
use mayfly_server.Machines.Enrollment.Unique.{IsUnique, Reach-IsUnique}
use mayfly_server.Machines.Protocol.{
  online, derive, HeartbeatRequest, check, validate_heartbeat, record_heartbeat,
  default_heartbeat_interval,
}
use mayfly_server.Machines.Protocol.Heartbeat.{record_heartbeat-online}
use mayfly_server.Machines.Admin.{MachineAdminError, delete_machine}

abbrev with_token : Result EnrollmentError (IssuedEnrollmentToken × Registry)
with_token =
    create_enrollment_token crates nothing (lit "t1") (lit "abc") (lit "admin") 3_600_000_000_000
      true 1_000_000

abbrev or_registry : {A : Type 0} → Result EnrollmentError (A × Registry) → Registry
or_registry (ok (a, r)) = r
or_registry (err e) = nothing

abbrev ready : Registry
ready = or_registry with_token

abbrev enrolled : Result EnrollmentError (Machine × Registry)
enrolled = enroll_registry crates ready request (lit "m1") 2_000_000

abbrev full : Registry
full = or_registry enrolled

abbrev the_machine : Machine
the_machine = record {
  machine_id = lit "m1";
  hostname = lit "web-1";
  public_key = lit "ssh-ed25519 A";
  os = lit "linux";
  arch = lit "arm64";
  agent_version = lit "1.0";
  status = MachineStatus.active;
  ip = none;
  current_generation = pos 0;
  synced_generation = none;
  bundle_fingerprint = none;
  last_sync = none;
  last_seen = none;
  enrolled_at = 2_000_000;
  created_at = 2_000_000;
  updated_at = 2_000_000;
}

abbrev the_token : EnrollmentToken
the_token = record {
  id = lit "t1";
  token_hash = hash_token crates.audit.sha256_hex (lit "mf_enroll_abc");
  created_at = 1_000_000;
  expires_at = 3_600_001_000_000;
  used_at = none;
  created_by = lit "admin";
  single_use = true;
}

with_token_run :
    with_token ≡ ok (record { plaintext = lit "mf_enroll_abc"; issued = the_token }, ready)
unfolding create_enrollment_token create generate_token
with_token_run = refl

enrolled_run : enrolled ≡ ok (the_machine, full)
unfolding create_enrollment_token create generate_token hash_token enroll_registry check_request
    is_well_formed len as_bytes utf8 strip_prefix is_ascii_alphanumeric is_valid_hostname
    is_valid_label split validate_ed25519_public_key enroll_transaction find_by_hash token_of_row
    parse_dt parse_optional_dt constant_time_eq validate_token_state find_by_hostname
    find_by_public_key optional_machine consume insert row_of_new machine_of_new text_eq as_str
enrolled_run = refl

token_found :
    find_by_hash clock ready.tokens (hash_token crates.audit.sha256_hex (lit "mf_enroll_abc"))
    ≡ ok (some the_token)
unfolding create_enrollment_token create generate_token hash_token find_by_hash token_of_row
    parse_dt parse_optional_dt text_eq as_bytes utf8
token_found = refl

single_use_once_example :
    (e : EnrollmentError) × (enroll_registry crates full
        (record request { hostname = lit "web-2" })
        (lit "m2")
        3_000_000
      ≡ err e)
single_use_once_example =
    single_use_once crates ready full full request (record request { hostname = lit "web-2" })
      (lit "m1") (lit "m2") 2_000_000 3_000_000 the_machine the_token enrolled_run token_found refl
      here refl

nothing-IsUnique : IsUnique nothing
nothing-IsUnique = record {
  machine_ids = tt;
  hostnames = tt;
  public_keys = tt;
  token_ids = tt;
  token_hashes = tt;
}

past : Reach crates nothing full
past =
    next
      (next here (
        creates (lit "t1") (lit "abc") (lit "admin") 3_600_000_000_000 true 1_000_000
          (record { plaintext = lit "mf_enroll_abc"; issued = the_token }) with_token_run))
      (enrolls request (lit "m1") 2_000_000 the_machine enrolled_run)

Reach-IsUnique_example : IsUnique full
Reach-IsUnique_example = Reach-IsUnique crates nothing full past nothing-IsUnique

abbrev beat : HeartbeatRequest
beat = record {
  agent_version = lit " 1.1 ";
  hostname = lit "web-1";
  os = lit "linux";
  kernel = lit "6.1";
  ip = lit "10.0.0.7";
  current_generation = pos 4;
  uptime_seconds = pos 60;
}

beat_valid : validate_heartbeat beat ≡ ok (some (lit "10.0.0.7"))
unfolding validate_heartbeat check trim len as_bytes utf8 is_control is_whitespace
beat_valid = refl

found : find_by_id clock full.machines (lit "m1") ≡ ok (some the_machine)
unfolding create_enrollment_token create generate_token hash_token enroll_registry check_request
    is_well_formed len as_bytes utf8 strip_prefix is_ascii_alphanumeric is_valid_hostname
    is_valid_label split validate_ed25519_public_key enroll_transaction find_by_hash token_of_row
    parse_dt parse_optional_dt constant_time_eq validate_token_state find_by_hostname
    find_by_public_key optional_machine consume insert row_of_new machine_of_new text_eq as_str
    find_by_id machine_of_row from_db_str
found = refl

record_heartbeat-online_example :
    let after = record the_machine {
      last_seen = some 5_000_000;
      updated_at = 5_000_000;
      agent_version = lit "1.1";
      ip = some (lit "10.0.0.7");
      current_generation = pos 4;
    } in
    let (answer, rows) = record_heartbeat clock full.machines (lit "m1") beat 5_500_000 in
    (answer
      ≡ ok (record {
        status = lit "ok";
        server_time = 5 ∷ [];
        next_heartbeat_seconds = default_heartbeat_interval;
      }))
    × (find_by_id clock rows (lit "m1") ≡ ok (some after))
    × (derive after.last_seen 6_000_000 ≡ online)
unfolding trim
record_heartbeat-online_example =
    record_heartbeat-online clock full.machines (lit "m1") beat 5_500_000 6_000_000
      (some (lit "10.0.0.7")) the_machine Reach-IsUnique_example.machine_ids refl found beat_valid
      (omega arith)

deleted : (delete_machine clock full.machines (lit "m1")).0 ≡ ok the_machine
unfolding create_enrollment_token create generate_token hash_token enroll_registry check_request
    is_well_formed len as_bytes utf8 strip_prefix is_ascii_alphanumeric is_valid_hostname
    is_valid_label split validate_ed25519_public_key enroll_transaction find_by_hash token_of_row
    parse_dt parse_optional_dt constant_time_eq validate_token_state find_by_hostname
    find_by_public_key optional_machine consume insert row_of_new machine_of_new text_eq as_str
    find_by_id machine_of_row from_db_str delete_machine delete
deleted = refl

not_deleted :
    (delete_machine clock full.machines (lit "m9")).0 ≡ err (MachineAdminError.not_found (lit "m9"))
unfolding create_enrollment_token create generate_token hash_token enroll_registry check_request
    is_well_formed len as_bytes utf8 strip_prefix is_ascii_alphanumeric is_valid_hostname
    is_valid_label split validate_ed25519_public_key enroll_transaction find_by_hash token_of_row
    parse_dt parse_optional_dt constant_time_eq validate_token_state find_by_hostname
    find_by_public_key optional_machine consume insert row_of_new machine_of_new text_eq as_str
    find_by_id delete_machine delete
not_deleted = refl
