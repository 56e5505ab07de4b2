-- ===== src/Machines/Protocol/Heartbeat.antt =====
-- What `record_heartbeat` of src/machines/protocol.rs does to the table.
use mayfly_server.Prelude.{
  ℕ, ◌≡◌, refl, Str, List, [], ◌∷◌, true, arith, map, inl, inr, Option, some, find, lit,
  Option-cases, Bool-cases, is_empty, trim, none, if◌then◌else◌, ◌/◌, ◌*◌, ◌+◌, ◌<◌, ap,
}
use mayfly_server.Prelude.Int.{ℤ}
use mayfly_server.Prelude.Result.{ok, err, Result-cases}
use mayfly_server.Machines.Models.{Machine}
use mayfly_server.Machines.Store.{
  Chrono, MachineRow, HeartbeatUpdate, has_id, touch, update_last_seen, machine_of_row, find_by_id,
  parse_dt, parse_optional_dt, optional_machine,
}
use mayfly_server.Machines.Store.Distinct.{
  Distinct, occurs, count-Distinct, update_rows-absent, map-update_rows,
}
use mayfly_server.Machines.Enrollment.Lemmas.{updated, find-update_rows, find-hit}
use mayfly_server.Machines.Protocol.{
  HeartbeatRequest, RegistryError, online, derive, validate_heartbeat, heartbeat_update,
  record_heartbeat, default_heartbeat_interval,
}
use mayfly_server.Machines.Protocol.Liveness.{derive_iff}
use mayfly_server.AgentAuth.Nonce.{nanos_per_sec}

-- The columns that no heartbeat assigns.
pub record Kept : Type 0 where
  pub machine_id : Str
  pub hostname : Str
  pub public_key : Str
  pub os : Str
  pub arch : Str
  pub status : Str
  pub synced_generation : Option ℤ
  pub bundle_fingerprint : Option Str
  pub last_sync : Option Str
  pub enrolled_at : Str
  pub created_at : Str

abbrev pub kept : MachineRow → Kept
kept r = record {
  machine_id = r.machine_id;
  hostname = r.hostname;
  public_key = r.public_key;
  os = r.os;
  arch = r.arch;
  status = r.status;
  synced_generation = r.synced_generation;
  bundle_fingerprint = r.bundle_fingerprint;
  last_sync = r.last_sync;
  enrolled_at = r.enrolled_at;
  created_at = r.created_at;
}

module _ (c : Chrono) where
  -- A heartbeat, accepted or not, adds and removes no row and keeps the identity, the keys, the
  -- lifecycle status and the sync state of every machine, in the order of the table.
  pub record_heartbeat-kept :
      (rows : List MachineRow) (id : Str) (request : HeartbeatRequest) (now : ℕ)
      → map kept (record_heartbeat c rows id request now).1 ≡ map kept rows
  unfolding record_heartbeat update_last_seen
  record_heartbeat-kept rows id request now = elim (Result-cases (validate_heartbeat request)) [
    | inr (e, failed) ↦ ground arith
    | inl (ip, passed) ↦ ground (
      arith,
      map-update_rows kept (has_id id) (touch c (heartbeat_update c id request ip now)) rows
          (λ r. refl),
    )
  ]

  -- A refused heartbeat leaves the table as it was, when the ids are distinct.
  pub record_heartbeat-refused :
      (rows : List MachineRow) (id : Str) (request : HeartbeatRequest) (now : ℕ) (e : RegistryError)
      → Distinct (λ (r : MachineRow). r.machine_id) rows
      → (record_heartbeat c rows id request now).0 ≡ err e
      → (record_heartbeat c rows id request now).1 ≡ rows
  unfolding record_heartbeat update_last_seen
  record_heartbeat-refused rows id request now e d h =
      elim (Result-cases (validate_heartbeat request)) [
        | inr (f, failed) ↦ ground arith
        | inl (ip, passed) ↦ ground (
          arith,
          count-Distinct (λ (r : MachineRow). r.machine_id) id rows d,
          update_rows-absent (λ (r : MachineRow). r.machine_id) id
              (touch c (heartbeat_update c id request ip now)) rows,
        )
      ]

  find-heartbeat :
      (rows : List MachineRow) (u : HeartbeatUpdate)
      → find (has_id u.machine_id) (update_last_seen c rows u).1
        ≡ updated
            (has_id u.machine_id)
            (has_id u.machine_id)
            (touch c u)
            (find (has_id u.machine_id) rows)
  unfolding update_last_seen
  find-heartbeat rows u =
      find-update_rows (has_id u.machine_id) (has_id u.machine_id) (touch c u) rows (λ r. refl)

  -- The columns keep milliseconds.
  abbrev pub to_millis : ℕ → ℕ
  to_millis t = t / 1_000_000 * 1_000_000

  -- A machine's value after a heartbeat.
  abbrev pub touched : HeartbeatUpdate → Machine → Machine
  touched u m = record m {
    last_seen = some (to_millis u.now);
    updated_at = to_millis u.now;
    agent_version = u.agent_version;
    ip = u.ip;
    current_generation = u.current_generation;
  }

  touch-machine :
      (u : HeartbeatUpdate) (row : MachineRow) (m : Machine)
      → c.parse_from_rfc3339 (c.to_rfc3339_millis u.now) ≡ some (to_millis u.now)
      → machine_of_row c row ≡ ok m
      → machine_of_row c (touch c u row) ≡ ok (touched u m)
  unfolding machine_of_row parse_dt parse_optional_dt
  touch-machine u row m parses h = ground arith

  heartbeat-find_by_id :
      (rows : List MachineRow) (u : HeartbeatUpdate) (m : Machine)
      → c.parse_from_rfc3339 (c.to_rfc3339_millis u.now) ≡ some (to_millis u.now)
      → find_by_id c rows u.machine_id ≡ ok (some m)
      → find_by_id c (update_last_seen c rows u).1 u.machine_id ≡ ok (some (touched u m))
  unfolding find_by_id optional_machine
  heartbeat-find_by_id rows u m parses h = elim (Option-cases (find (has_id u.machine_id) rows)) [
    | inl missing ↦ absurd (ground arith)
    | inr (row, found) ↦ elim (Result-cases (machine_of_row c row)) [
      | inr (e, failed) ↦ absurd (ground arith)
      | inl (n, decoded) ↦
          rw (find-heartbeat rows u, found, find-hit (has_id u.machine_id) rows row found)
            (ground (arith, touch-machine u row n parses decoded))
    ]
  ]

  pub found-occurs :
      (rows : List MachineRow) (id : Str) (m : Machine)
      → find_by_id c rows id ≡ ok (some m)
      → occurs (λ (r : MachineRow). r.machine_id) id rows ≡ true
  unfolding find_by_id optional_machine
  found-occurs [] id m h = absurd (ground arith)
  found-occurs (r ∷ rows) id m h = elim (Bool-cases (has_id id r)) [
    | inl hit ↦ ground arith
    | inr miss ↦ ground (arith, found-occurs rows id m (ground arith))
  ]

  heartbeat-accepted :
      (rows : List MachineRow) (id : Str) (request : HeartbeatRequest) (now : ℕ) (ip : Option Str)
      → validate_heartbeat request ≡ ok ip
      → Distinct (λ (r : MachineRow). r.machine_id) rows
      → occurs (λ (r : MachineRow). r.machine_id) id rows ≡ true
      → record_heartbeat c rows id request now ≡ (
        ok (record {
          status = lit "ok";
          server_time = c.to_rfc3339_millis now;
          next_heartbeat_seconds = default_heartbeat_interval;
        }),
        (update_last_seen c rows (heartbeat_update c id request ip now)).1,
      )
  unfolding record_heartbeat update_last_seen
  heartbeat-accepted rows id request now ip valid d there =
      ground (arith, count-Distinct (λ (r : MachineRow). r.machine_id) id rows d)

  -- The address that the agent reports, if it is not blank.
  abbrev pub reported_ip : HeartbeatRequest → Option Str
  reported_ip request = if is_empty (trim request.ip) then none else some (trim request.ip)

  validate_heartbeat-ip :
      (request : HeartbeatRequest) (ip : Option Str)
      → validate_heartbeat request ≡ ok ip
      → reported_ip request ≡ ip
  unfolding validate_heartbeat
  validate_heartbeat-ip request ip h = elim (Bool-cases (is_empty (trim request.ip))) [
    | inl blank ↦ ground arith
    | inr given ↦ ground arith
  ]

  -- A valid heartbeat of a machine in the table is answered with `ok`, and the machine read
  -- afterwards is the one from before with the version of the request, trimmed, its address,
  -- trimmed, or none if that is blank, its generation, and the time of the heartbeat in
  -- milliseconds, from which it counts as online until 121 seconds have passed. The ids of the table are distinct, and the crate reads back the text it wrote for
  -- the time.
  pub record_heartbeat-online :
      (rows : List MachineRow) (id : Str) (request : HeartbeatRequest) (now later : ℕ)
      (ip : Option Str) (m : Machine)
      → Distinct (λ (r : MachineRow). r.machine_id) rows
      → c.parse_from_rfc3339 (c.to_rfc3339_millis now) ≡ some (to_millis now)
      → find_by_id c rows id ≡ ok (some m)
      → validate_heartbeat request ≡ ok ip
      → later < to_millis now + 121 * nanos_per_sec
      → let after = record m {
        last_seen = some (to_millis now);
        updated_at = to_millis now;
        agent_version = trim request.agent_version;
        ip = reported_ip request;
        current_generation = request.current_generation;
      } in
        let (answer, rows') = record_heartbeat c rows id request now in
        (answer
          ≡ ok (record {
            status = lit "ok";
            server_time = c.to_rfc3339_millis now;
            next_heartbeat_seconds = default_heartbeat_interval;
          }))
        × (find_by_id c rows' id ≡ ok (some after))
        × (derive after.last_seen later ≡ online)
  record_heartbeat-online rows id request now later ip m d parses found valid recent =
      let done = heartbeat-accepted rows id request now ip valid d (found-occurs rows id m found) in
      (
        ap (λ p. p.0) done,
        rw (done, validate_heartbeat-ip request ip valid)
            (heartbeat-find_by_id rows (heartbeat_update c id request ip now) m parses found),
        (derive_iff (some (to_millis now)) later online).1 recent,
      )
