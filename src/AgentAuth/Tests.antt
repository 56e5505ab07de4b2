-- ===== src/AgentAuth/Tests.antt =====
-- Runs of src/agentauth with a toy signature: the digest of the key and the message.
use mayfly_server.Prelude.{
  ℕ, ◌≡◌, ◌≢◌, ◌↔◌, refl, Str, lit, List, [], ◌∷◌, ◌++◌, none, some, true, arith, as_bytes, text_eq,
  ◌+◌,
}
use mayfly_server.Prelude.Int.{pos}
use mayfly_server.Prelude.Result.{ok}
use mayfly_server.Audit.Toy.{toy_digest}
use mayfly_server.Machines.Toy.{clock, sample_row as row, sample_machine as machine}
use mayfly_server.Machines.Models.{Machine, MachineStatus, from_db_str, as_str}
use mayfly_server.Machines.Store.{MachineRow, find_by_id, machine_of_row, update_status}
use mayfly_server.Machines.Admin.{set_status}
use mayfly_server.AgentAuth.Decimal.{show_int, parse_i64}
use mayfly_server.AgentAuth.Nonce.{check_and_record, nonce_ttl}
use mayfly_server.AgentAuth.Nonce.Replay.{Call}
use mayfly_server.AgentAuth.Signing.{
  SigningCrates, canonical_string, verify_signature, body_sha256_hex,
}
use mayfly_server.AgentAuth.Signing.Injective.{
  SignedFields, IsOneLine, SameFields, canonical_string-injective,
}
use mayfly_server.AgentAuth.Middleware.{
  Request, SignedHeaders, skew, read_headers, check_machine, check_signed, verify_machine_signature,
}
use mayfly_server.AgentAuth.Middleware.Accepts.{
  IsGenuine, HasHeaders, verify_machine_signature-accepts_iff,
}
use mayfly_server.AgentAuth.Middleware.Replays.{
  Arrival, serve, replay_rejected, replay_accepted_at_edge,
}
use mayfly_server.AgentAuth.Middleware.Lifecycle.{still, set_status-locks_out}

abbrev crates : SigningCrates Str (List ℕ)
crates = record {
  from_openssh = some;
  ed25519 = λ k. some (as_bytes k);
  from_bytes = some;
  base64_decode = some;
  verify_strict = λ key message signature. text_eq (toy_digest (key ++ message)) signature;
  sha256_hex = toy_digest;
}

abbrev signed : Str → ℕ → Request
signed timestamp t = record {
  machine_id = some (lit "m1");
  timestamp = some timestamp;
  nonce = some (lit "n1");
  signature = some (
      toy_digest (
        as_bytes (lit "key")
        ++ as_bytes (
            canonical_string (lit "m1") (pos t) (lit "n1") (lit "POST") (lit "/v1/heartbeat")
              (toy_digest (b'{' ∷ b'}' ∷ [])))));
  method = lit "POST";
  path = lit "/v1/heartbeat";
  body = b'{' ∷ b'}' ∷ [];
}

abbrev request : Request
request = signed (lit "1000") 1000

abbrev ahead : Request
ahead = signed (lit "1060") 1060

abbrev at_1000 : ℕ
at_1000 = 1_000_500_000_000

accepted : (verify_machine_signature crates clock (row ∷ []) [] request at_1000).0 ≡ ok machine
unfolding verify_machine_signature check_signed read_headers parse_i64 skew check_machine find_by_id
    text_eq machine_of_row from_db_str verify_signature as_bytes canonical_string show_int
    body_sha256_hex check_and_record
accepted = refl

ahead_accepted : (verify_machine_signature crates clock (row ∷ []) [] ahead at_1000).0 ≡ ok machine
unfolding verify_machine_signature check_signed read_headers parse_i64 skew check_machine find_by_id
    text_eq machine_of_row from_db_str verify_signature as_bytes canonical_string show_int
    body_sha256_hex check_and_record
ahead_accepted = refl

abbrev headers_of : Str → ℕ → SignedHeaders
headers_of timestamp t = record {
  machine_id = lit "m1";
  timestamp_raw = timestamp;
  nonce = lit "n1";
  signature = toy_digest (
      as_bytes (lit "key")
      ++ as_bytes (
          canonical_string (lit "m1") (pos t) (lit "n1") (lit "POST") (lit "/v1/heartbeat")
            (toy_digest (b'{' ∷ b'}' ∷ []))));
  timestamp = pos t;
}

request_headers : read_headers request ≡ ok (headers_of (lit "1000") 1000)
unfolding read_headers parse_i64
request_headers = refl

ahead_headers : read_headers ahead ≡ ok (headers_of (lit "1060") 1060)
unfolding read_headers parse_i64
ahead_headers = refl

abbrev calls : List Call
calls =
    record { machine_id = lit "m1"; nonce = lit "n2"; now = 7 }
    ∷ record { machine_id = lit "m2"; nonce = lit "n1"; now = 90 }
    ∷ []

abbrev fields : SignedFields
fields = record {
  machine_id = lit "m1";
  timestamp = pos 1000;
  nonce = lit "n1";
  method = lit "POST";
  path = lit "/v1/heartbeat";
  body_hash = lit "00";
}

fields-IsOneLine : IsOneLine fields
fields-IsOneLine = record { machine_id = refl; nonce = refl; method = refl; path = refl }

canonical_string-injective_example : SameFields fields fields
canonical_string-injective_example =
    canonical_string-injective fields fields fields-IsOneLine fields-IsOneLine refl

verify_machine_signature-accepts_iff_example :
    ((verify_machine_signature crates clock (row ∷ []) [] request at_1000).0 ≡ ok machine) ↔ (
      (h : SignedHeaders) × IsGenuine crates clock (row ∷ []) request at_1000 h machine
      × HasHeaders request h
      × ((check_and_record [] h.machine_id h.nonce at_1000).0 ≡ true))
verify_machine_signature-accepts_iff_example =
    verify_machine_signature-accepts_iff crates clock (row ∷ []) [] request at_1000 machine

abbrev anonymous : Request
anonymous = record request { machine_id = none }

anonymous-forged :
    (h : SignedHeaders) (m : Machine) → ¬ IsGenuine crates clock (row ∷ []) anonymous at_1000 h m
unfolding read_headers
anonymous-forged h m g = ground (arith, g.headers)

abbrev arrivals : List Arrival
arrivals = record { machines = row ∷ []; request = anonymous; now = 1_010_000_000_000 } ∷ []

replay_rejected_example :
    (verify_machine_signature crates clock
      (row ∷ [])
      (serve crates clock
        (verify_machine_signature crates clock (row ∷ []) [] request at_1000).1
        arrivals)
      request
      1_050_000_000_000).0
    ≢ ok machine
replay_rejected_example =
    replay_rejected crates clock (row ∷ []) (row ∷ []) [] request at_1000 1_050_000_000_000
      (headers_of (lit "1000") 1000) machine machine arrivals accepted request_headers (omega arith)
      (omega arith) (omega arith, tt)

replay_accepted_at_edge_example :
    (verify_machine_signature crates clock
      (row ∷ [])
      (verify_machine_signature crates clock (row ∷ []) [] ahead at_1000).1
      ahead
      (at_1000 + nonce_ttl)).0
    ≡ ok machine
replay_accepted_at_edge_example =
    replay_accepted_at_edge crates clock (row ∷ []) [] ahead at_1000 (headers_of (lit "1060") 1060)
      machine ahead_accepted ahead_headers refl

abbrev revoked_rows : List MachineRow
revoked_rows = (set_status clock (row ∷ []) (lit "m1") MachineStatus.revoked 9_000_000).1

revoked :
    (set_status clock (row ∷ []) (lit "m1") MachineStatus.revoked 9_000_000).0
    ≡ ok (record machine { status = MachineStatus.revoked; updated_at = 9_000_000 })
unfolding set_status update_status find_by_id text_eq machine_of_row from_db_str as_str
revoked = refl

set_status-locks_out_example :
    (verify_machine_signature crates clock revoked_rows [] request at_1000).0 ≢ ok machine
set_status-locks_out_example =
    set_status-locks_out crates clock (row ∷ []) revoked_rows (lit "m1") MachineStatus.revoked
      9_000_000 at_1000 (record machine { status = MachineStatus.revoked; updated_at = 9_000_000 })
      machine [] request revoked refl still refl
