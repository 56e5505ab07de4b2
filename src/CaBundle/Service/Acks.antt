-- ===== src/CaBundle/Service/Acks.antt =====
-- What the acknowledgements of src/cabundle/service.rs do to the machines' table.
use mayfly_server.Prelude.{
  ◌≡◌, refl, ap, ℕ, Str, lit, List, Option, some, false, map, find, text_eq_iff, trim, arith, inl,
  inr, Option-cases, is_empty, len, ◌≤◌,
}
use mayfly_server.Prelude.Int.{ℤ, int_eq_iff}
use mayfly_server.Prelude.Result.{ok, err, Result-cases}
use mayfly_server.Machines.Models.{Machine}
use mayfly_server.Machines.Store.{
  Chrono, MachineRow, has_id, find_by_id, optional_machine, machine_of_row, parse_dt,
  parse_optional_dt,
}
use mayfly_server.Machines.Store.Distinct.{
  Distinct, count-Distinct, update_rows-absent, map-update_rows,
}
use mayfly_server.Machines.Enrollment.Lemmas.{find-update_rows, find-hit}
use mayfly_server.Machines.Protocol.Heartbeat.{to_millis, found-occurs}
use mayfly_server.Machines.Validation.{SshKeys}
use mayfly_server.CaBundle.Build.{CaBundle}
use mayfly_server.CaBundle.Service.{
  CaTables, AckRequest, AckResponse, AckError, current_bundle, check_ack, record_ack, write_ack,
  synced,
}

-- The columns that no acknowledgement assigns.
pub record Unsynced : Type 0 where
  pub machine_id : Str
  pub hostname : Str
  pub public_key : Str
  pub status : Str
  pub current_generation : ℤ
  pub last_seen : Option Str
  pub enrolled_at : Str

abbrev pub unsynced : MachineRow → Unsynced
unsynced r = record {
  machine_id = r.machine_id;
  hostname = r.hostname;
  public_key = r.public_key;
  status = r.status;
  current_generation = r.current_generation;
  last_seen = r.last_seen;
  enrolled_at = r.enrolled_at;
}

module _ {Key : Type 0} (c : Chrono) (k : SshKeys Key) (sha256_hex : List ℕ → Str) where
  -- An acknowledgement, accepted or not, adds and removes no machine and keeps their identities,
  -- keys, lifecycle status and reported state.
  pub record_ack-unsynced :
      (tables : CaTables) (rows : List MachineRow) (id : Str) (ack : AckRequest) (now : ℕ)
      → map unsynced (record_ack c k sha256_hex tables rows id ack now).1 ≡ map unsynced rows
  unfolding record_ack write_ack
  record_ack-unsynced tables rows id ack now =
      elim (Result-cases (check_ack c k sha256_hex tables ack)) [
        | inr (e, failed) ↦ ground arith
        | inl (b, passed) ↦ ground (
          arith,
          map-update_rows unsynced (has_id id) (synced c b.generation b.fingerprint now) rows
              (λ r. refl),
        )
      ]

  -- A refused acknowledgement leaves the table as it was, when the ids are distinct.
  pub record_ack-refused :
      (tables : CaTables) (rows : List MachineRow) (id : Str) (ack : AckRequest) (now : ℕ)
      (e : AckError)
      → Distinct (λ (r : MachineRow). r.machine_id) rows
      → (record_ack c k sha256_hex tables rows id ack now).0 ≡ err e
      → (record_ack c k sha256_hex tables rows id ack now).1 ≡ rows
  unfolding record_ack write_ack
  record_ack-refused tables rows id ack now e d h =
      elim (Result-cases (check_ack c k sha256_hex tables ack)) [
        | inr (f, failed) ↦ ground arith
        | inl (b, passed) ↦ ground (
          arith,
          count-Distinct (λ (r : MachineRow). r.machine_id) id rows d,
          update_rows-absent (λ (r : MachineRow). r.machine_id) id
              (synced c b.generation b.fingerprint now) rows,
        )
      ]

  -- What a passed check says.
  pub record Matches (tables : CaTables) (ack : AckRequest) (b : CaBundle) : Type 0 where
    pub current : current_bundle c k sha256_hex tables ≡ ok b
    pub success : trim ack.status ≡ lit "success"
    pub generation : ack.generation ≡ b.generation
    pub fingerprint : trim ack.fingerprint ≡ b.fingerprint

  check_ack-Matches :
      (tables : CaTables) (ack : AckRequest) (b : CaBundle)
      → check_ack c k sha256_hex tables ack ≡ ok b
      → Matches tables ack b
  unfolding check_ack
  check_ack-Matches tables ack b h = elim (Result-cases (current_bundle c k sha256_hex tables)) [
    | inr (e, failed) ↦ absurd (ground arith)
    | inl (d, found) ↦ record {
      current = ground arith;
      success = ground (arith, text_eq_iff (trim ack.status) (lit "success"));
      generation = ground (arith, int_eq_iff ack.generation d.generation);
      fingerprint = ground (arith, text_eq_iff (trim ack.fingerprint) d.fingerprint);
    }
  ]

  record_ack-Matches :
      (tables : CaTables) (rows : List MachineRow) (id : Str) (ack : AckRequest) (now : ℕ)
      (a : AckResponse)
      → (record_ack c k sha256_hex tables rows id ack now).0 ≡ ok a
      → (b : CaBundle) × Matches tables ack b
        × (a ≡ record { status = lit "recorded"; generation = b.generation })
        × ((record_ack c k sha256_hex tables rows id ack now).1
            ≡ (write_ack c rows id b.generation b.fingerprint now).1)
  unfolding record_ack
  record_ack-Matches tables rows id ack now a h =
      elim (Result-cases (check_ack c k sha256_hex tables ack)) [
        | inr (e, failed) ↦ absurd (ground arith)
        | inl (b, passed) ↦ (b, check_ack-Matches tables ack b passed, ground arith, ground arith)
      ]

  -- A machine's value after its acknowledgement of a bundle.
  abbrev pub acked : CaBundle → ℕ → Machine → Machine
  acked b now m = record m {
    synced_generation = some b.generation;
    bundle_fingerprint = some b.fingerprint;
    last_sync = some (to_millis c now);
    updated_at = to_millis c now;
  }

  synced-machine :
      (b : CaBundle) (now : ℕ) (row : MachineRow) (m : Machine)
      → c.parse_from_rfc3339 (c.to_rfc3339_millis now) ≡ some (to_millis c now)
      → machine_of_row c row ≡ ok m
      → machine_of_row c (synced c b.generation b.fingerprint now row) ≡ ok (acked b now m)
  unfolding machine_of_row parse_dt parse_optional_dt
  synced-machine b now row m parses h = ground arith

  write_ack-find_by_id :
      (rows : List MachineRow) (id : Str) (b : CaBundle) (now : ℕ) (m : Machine)
      → c.parse_from_rfc3339 (c.to_rfc3339_millis now) ≡ some (to_millis c now)
      → find_by_id c rows id ≡ ok (some m)
      → find_by_id c (write_ack c rows id b.generation b.fingerprint now).1 id
        ≡ ok (some (acked b now m))
  unfolding find_by_id optional_machine write_ack
  write_ack-find_by_id rows id b now m parses h =
      let moved =
        find-update_rows (has_id id) (has_id id) (synced c b.generation b.fingerprint now) rows
          (λ r. refl) in
      elim (Option-cases (find (has_id id) rows)) [
        | inl missing ↦ absurd (ground arith)
        | inr (row, found) ↦ elim (Result-cases (machine_of_row c row)) [
          | inr (e, failed) ↦ absurd (ground arith)
          | inl (n, decoded) ↦
              rw (moved, found, find-hit (has_id id) rows row found)
                (ground (arith, synced-machine b now row n parses decoded))
        ]
      ]

  -- An acknowledgement is recorded only if it reports success for the generation and the
  -- fingerprint of the bundle that is served now; the machine read afterwards is the one from
  -- before with exactly this generation and fingerprint as its sync state. The machine could be
  -- read before, and the crate reads back the text it wrote for the time.
  pub record_ack-recorded :
      (tables : CaTables) (rows : List MachineRow) (id : Str) (ack : AckRequest) (now : ℕ)
      (a : AckResponse) (m : Machine)
      → c.parse_from_rfc3339 (c.to_rfc3339_millis now) ≡ some (to_millis c now)
      → find_by_id c rows id ≡ ok (some m)
      → (record_ack c k sha256_hex tables rows id ack now).0 ≡ ok a
      → (b : CaBundle) × Matches tables ack b
        × (a.generation ≡ b.generation)
        × (find_by_id c (record_ack c k sha256_hex tables rows id ack now).1 id
            ≡ ok (some (acked b now m)))
  record_ack-recorded tables rows id ack now a m parses found h =
      let (b, matches, answer, after) = record_ack-Matches tables rows id ack now a h in
      (
        b,
        matches,
        ap (λ (r : AckResponse). r.generation) answer,
        rw after (write_ack-find_by_id rows id b now m parses found),
      )

  matching-check_ack :
      (tables : CaTables) (ack : AckRequest) (b : CaBundle)
      → Matches tables ack b
      → (is_empty b.fingerprint ≡ false)
      → (len b.fingerprint ≤ 128)
      → check_ack c k sha256_hex tables ack ≡ ok b
  unfolding check_ack
  matching-check_ack tables ack b m filled short = ground (
    arith,
    m.current,
    m.success,
    m.generation,
    m.fingerprint,
    int_eq_iff ack.generation b.generation,
    text_eq_iff (trim ack.status) (lit "success"),
    text_eq_iff (trim ack.fingerprint) b.fingerprint,
  )

  -- An acknowledgement that matches the bundle served now, by a machine of the table, is recorded,
  -- if the bundle's fingerprint is a text of 1 to 128 bytes and the ids are distinct.
  pub record_ack_total :
      (tables : CaTables) (rows : List MachineRow) (id : Str) (ack : AckRequest) (now : ℕ)
      (b : CaBundle) (m : Machine)
      → Matches tables ack b
      → is_empty b.fingerprint ≡ false
      → len b.fingerprint ≤ 128
      → Distinct (λ (r : MachineRow). r.machine_id) rows
      → find_by_id c rows id ≡ ok (some m)
      → (record_ack c k sha256_hex tables rows id ack now).0
        ≡ ok (record { status = lit "recorded"; generation = b.generation })
  unfolding record_ack write_ack
  record_ack_total tables rows id ack now b m matches filled short d found = ground (
    arith,
    matching-check_ack tables ack b matches filled short,
    found-occurs c rows id m found,
    count-Distinct (λ (r : MachineRow). r.machine_id) id rows d,
  )
