-- ===== src/Machines/Enrollment.antt =====
-- src/machines/service.rs. The one SQLite transaction of `enroll` is `enroll_transaction`: it yields
-- the new tables with `ok` only. The audit event is appended after the commit.
pub mod Lemmas
pub mod Steps
pub mod Spent
pub mod Unique
use mayfly_server.Prelude.{
  ℕ, ◌+◌, Str, lit, List, [], ◌∷◌, ◌++◌, Option, none, some, Bool, true, false, ◌&&◌, not, leb,
  text_eq, as_bytes, contains, if◌then◌else◌,
}
use mayfly_server.Prelude.ConstantTime.{constant_time_eq}
use mayfly_server.Prelude.Result.{Result, ok, err, ok_or, ◌>>=◌, ◌>>◌, reject_if}
use mayfly_server.Audit.Model.{AuditError, AuditEntry, NewAuditEntry}
use mayfly_server.Audit.Hash.{Externals}
use mayfly_server.Audit.Repository.{AuditTable}
use mayfly_server.Audit.Verifier.{append_audit_event}
use mayfly_server.Machines.Models.{
  Machine, NewMachine, EnrollmentToken, NewEnrollmentToken, IssuedEnrollmentToken, EnrollRequest,
  EnrollResponse, EnrollmentError, MachineStatus, token_invalid, token_expired, token_already_used,
  invalid_request, public_key_invalid, host_already_enrolled, public_key_already_exists, internal,
}
use mayfly_server.Machines.Token.{generate_token, hash_token, is_well_formed}
use mayfly_server.Machines.Validation.{
  SshKeys, is_valid_hostname, validate_ed25519_public_key, public_key_fingerprint, PublicKeyError,
}
use mayfly_server.Machines.Store.{
  Chrono, SqlxError, decode, database, MachineRow, find_by_hostname, find_by_public_key, insert,
}
use mayfly_server.Machines.Store.Tokens.{TokenRow, create, find_by_hash, consume}

-- What the service takes from other crates.
pub record Crates (Value Key : Type 0) : Type 0 where
  pub audit : Externals Value
  pub chrono : Chrono
  pub ssh : SshKeys Key
  pub hex_encode : List ℕ → Str
  -- `json!({…})` with text members
  pub json_object : List (Str × Str) → Value

pub record ServiceConfig : Type 0 where
  pub server_identity : Str
  pub heartbeat_interval : ℕ
  pub sync_interval : ℕ
  pub bundle_signing_key : Option Str

pub record Registry : Type 0 where
  pub machines : List MachineRow
  pub tokens : List TokenRow

pub record State : Type 0 where
  pub registry : Registry
  pub audit_log : AuditTable

abbrev pub is_some : {A : Type 0} → Option A → Bool
is_some none = false
is_some (some a) = true

-- `?` on a query: a database error becomes `Internal`.
abbrev pub query : {A : Type 0} → Result SqlxError A → Result EnrollmentError A
query (ok a) = ok a
query (err e) = err internal

unfoldable pub map_insert_error : SqlxError → EnrollmentError
map_insert_error decode = internal
map_insert_error (database message) =
    if contains message (lit "machines.hostname")
    then host_already_enrolled
    else if contains message (lit "machines.public_key")
    then public_key_already_exists
    else internal

abbrev pub inserted : {A : Type 0} → Result SqlxError A → Result EnrollmentError A
inserted (ok a) = ok a
inserted (err e) = err (map_insert_error e)

abbrev pub checked_key : Result PublicKeyError Str → Result EnrollmentError Str
checked_key (ok k) = ok k
checked_key (err e) = err public_key_invalid

unfoldable pub validate_token_state : EnrollmentToken → ℕ → Result EnrollmentError Unit
validate_token_state token now = do
  reject_if (leb token.expires_at now) token_expired
  reject_if (token.single_use && is_some token.used_at) token_already_used
  ok tt

abbrev pub event_machine_enrolled : Str
event_machine_enrolled = lit "machine.enrolled"

abbrev or_unknown : Option Str → Str
or_unknown none = lit "unknown"
or_unknown (some fingerprint) = fingerprint

module _ {Value Key : Type 0} (x : Crates Value Key) where
  abbrev pub new_token : Str → Str → Str → ℕ → Bool → ℕ → NewEnrollmentToken
  new_token id plaintext created_by ttl single_use now = record {
    id = id;
    token_hash = hash_token x.audit.sha256_hex plaintext;
    created_at = now;
    expires_at = now + ttl;
    created_by = created_by;
    single_use = single_use;
  }

  -- The id and the random bytes are drawn by other crates.
  unfoldable pub create_enrollment_token :
      Registry
      → Str
      → List ℕ
      → Str
      → ℕ
      → Bool
      → ℕ
      → Result EnrollmentError (IssuedEnrollmentToken × Registry)
  create_enrollment_token r id bytes created_by ttl single_use now = do
    let plaintext = generate_token x.hex_encode bytes
    (issued, tokens) ←
        query (create x.chrono r.tokens (new_token id plaintext created_by ttl single_use now))
    ok (record { plaintext = plaintext; issued = issued }, record r { tokens = tokens })

  abbrev pub new_machine : EnrollRequest → Str → Str → ℕ → NewMachine
  new_machine request machine_id public_key now = record {
    machine_id = machine_id;
    hostname = request.hostname;
    public_key = public_key;
    os = request.os;
    arch = request.arch;
    agent_version = request.agent_version;
    status = MachineStatus.active;
    enrolled_at = now;
  }

  -- From `begin` to `commit`.
  unfoldable pub enroll_transaction :
      Registry → EnrollRequest → Str → Str → Str → ℕ → Result EnrollmentError (Machine × Registry)
  unfolding validate_token_state
  enroll_transaction r request token_hash public_key machine_id now = do
    found ← query (find_by_hash x.chrono r.tokens token_hash)
    token ← ok_or found token_invalid
    reject_if (not (constant_time_eq (as_bytes token.token_hash) (as_bytes token_hash)))
        token_invalid
    validate_token_state token now
    same_host ← query (find_by_hostname x.chrono r.machines request.hostname)
    reject_if (is_some same_host) host_already_enrolled
    same_key ← query (find_by_public_key x.chrono r.machines public_key)
    reject_if (is_some same_key) public_key_already_exists
    let consumed = consume x.chrono r.tokens token.id token.single_use now
    reject_if (not consumed.0) token_already_used
    (machine, machines) ←
        inserted (insert x.chrono r.machines (new_machine request machine_id public_key now))
    ok (machine, record { machines = machines; tokens = consumed.1 })

  -- The checks before the transaction: the normalized key and the token's hash.
  unfoldable pub check_request : EnrollRequest → Result EnrollmentError (Str × Str)
  check_request request = do
    reject_if (not (is_well_formed request.enrollment_token)) token_invalid
    reject_if (not (is_valid_hostname request.hostname)) invalid_request
    public_key ← checked_key (validate_ed25519_public_key x.ssh request.public_key)
    ok (public_key, hash_token x.audit.sha256_hex request.enrollment_token)

  unfoldable pub enroll_registry :
      Registry → EnrollRequest → Str → ℕ → Result EnrollmentError (Machine × Registry)
  unfolding check_request enroll_transaction
  enroll_registry r request machine_id now = do
    (public_key, token_hash) ← check_request request
    enroll_transaction r request token_hash public_key machine_id now

  abbrev pub enrolled_event : Machine → NewAuditEntry Value
  enrolled_event machine = record {
    event_type = event_machine_enrolled;
    actor = lit "system";
    subject = some machine.machine_id;
    metadata = x.json_object (
        (lit "hostname", machine.hostname)
        ∷ (lit "agent_version", machine.agent_version)
        ∷ (
          lit "public_key_fingerprint",
          or_unknown (public_key_fingerprint x.ssh machine.public_key),
        )
        ∷ []);
  }

  abbrev pub response : ServiceConfig → Machine → EnrollResponse
  response config machine = record {
    machine_id = machine.machine_id;
    heartbeat_interval = config.heartbeat_interval;
    sync_interval = config.sync_interval;
    server_identity = config.server_identity;
    bundle_signing_key = config.bundle_signing_key;
  }

  -- The rest of `enroll`, after the commit.
  unfoldable pub audit_enrollment :
      ServiceConfig → State → Machine → ℕ → Result EnrollmentError EnrollResponse × State
  audit_enrollment config s machine now =
      elim (append_audit_event x.audit s.audit_log (enrolled_event machine) now) [
        | ok (e, log) ↦ (ok (response config machine), record s { audit_log = log })
        | err cause ↦ (err internal, s)
      ]

  -- The clock is read once at the start and once for the audit event.
  unfoldable pub enroll :
      ServiceConfig
      → State
      → EnrollRequest
      → Str
      → ℕ
      → ℕ
      → Result EnrollmentError EnrollResponse × State
  unfolding enroll_registry audit_enrollment
  enroll config s request machine_id now audited_at =
      elim (enroll_registry s.registry request machine_id now) [
        | ok (machine, registry) ↦
            audit_enrollment config (record s { registry = registry }) machine audited_at
        | err e ↦ (err e, s)
      ]
