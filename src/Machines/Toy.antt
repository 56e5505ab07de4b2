-- ===== src/Machines/Toy.antt =====
-- An instance of the parameters of src/machines that can be run, and a registry with one token.
use mayfly_server.Prelude.{◌/◌, ◌*◌, Str, lit, List, [], ◌∷◌, ◌++◌, none, some, true}
use mayfly_server.Audit.Toy.{toy, toy_instant}
use mayfly_server.Prelude.Int.{pos}
use mayfly_server.Machines.Models.{EnrollRequest, Machine, MachineStatus}
use mayfly_server.Machines.Store.{Chrono, MachineRow}
use mayfly_server.Machines.Validation.{SshKeys}
use mayfly_server.Machines.Enrollment.{Crates, Registry}

abbrev pub clock : Chrono
clock = record {
  to_rfc3339_millis = λ t. t / 1_000_000 ∷ [];
  to_rfc3339_secs = λ t. t / 1_000_000_000 * 1_000 ∷ [];
  parse_from_rfc3339 = toy_instant;
}

abbrev pub keys : SshKeys Str
keys = record {
  from_openssh = some;
  is_ed25519 = λ k. true;
  to_openssh = some;
  key_fingerprint = λ k. lit "SHA256:" ++ k;
}

abbrev joined : List (Str × Str) → Str
joined [] = []
joined ((k, v) ∷ members) = k ++ v ++ joined members

abbrev pub crates : Crates Str Str
crates = record {
  audit = toy;
  chrono = clock;
  ssh = keys;
  hex_encode = λ bytes. bytes;
  json_object = joined;
}

abbrev pub nothing : Registry
nothing = record { machines = []; tokens = [] }

abbrev pub request : EnrollRequest
request = record {
  enrollment_token = lit "mf_enroll_abc";
  hostname = lit "web-1";
  public_key = lit "ssh-ed25519 A";
  os = lit "linux";
  arch = lit "arm64";
  agent_version = lit "1.0";
}

-- A row, and the machine that it decodes to.
abbrev pub sample_row : MachineRow
sample_row = record {
  machine_id = lit "m1";
  hostname = lit "web-1";
  public_key = lit "key";
  os = lit "linux";
  arch = lit "arm64";
  agent_version = lit "1.0";
  status = lit "active";
  ip = none;
  current_generation = pos 0;
  synced_generation = none;
  bundle_fingerprint = none;
  last_sync = none;
  last_seen = none;
  enrolled_at = 2 ∷ [];
  created_at = 2 ∷ [];
  updated_at = 2 ∷ [];
}

abbrev pub sample_machine : Machine
sample_machine = record {
  machine_id = lit "m1";
  hostname = lit "web-1";
  public_key = lit "key";
  os = lit "linux";
  arch = lit "arm64";
  agent_version = lit "1.0";
  status = MachineStatus.active;
  ip = none;
  current_generation = pos 0;
  synced_generation = none;
  bundle_fingerprint = none;
  last_sync = none;
  last_seen = none;
  enrolled_at = 2_000_000;
  created_at = 2_000_000;
  updated_at = 2_000_000;
}
