-- ===== src/Machines/Store.antt =====
-- src/machines/repository.rs: the tables `machines` and `machine_enrollment_tokens` as lists of rows
-- in the order of insertion, with the queries. A query that SQLite cannot serve for want of its
-- file is not modelled; undecodable rows and UNIQUE constraints are.
pub mod Tokens
pub mod Distinct
use mayfly_server.Prelude.{
  ℕ, ◌+◌, Str, lit, List, [], ◌∷◌, ◌++◌, Option, none, some, Bool, true, false, ◌&&◌, ◌||◌, not,
  ◌==◌, any, find, count, retain, text_eq, if◌then◌else◌, map, leb, take,
}
use mayfly_server.Prelude.Int.{ℤ, pos}
use mayfly_server.Prelude.Sort.{sort_by, text_leb}
use mayfly_server.Prelude.Result.{Result, ok, err, ok_or, ◌>>=◌, ◌>>◌, reject_if, collect}
use mayfly_server.Machines.Models.{Machine, MachineStatus, NewMachine, as_str, from_db_str}

-- Instants as texts, from the `chrono` crate.
pub record Chrono : Type 0 where
  pub to_rfc3339_millis : ℕ → Str
  pub to_rfc3339_secs : ℕ → Str
  pub parse_from_rfc3339 : Str → Option ℕ

pub data SqlxError : Type 0 where
  decode : SqlxError
  -- with SQLite's message
  database : Str → SqlxError

pub record MachineRow : Type 0 where
  pub machine_id : Str
  pub hostname : Str
  pub public_key : Str
  pub os : Str
  pub arch : Str
  pub agent_version : Str
  pub status : Str
  pub ip : Option Str
  pub current_generation : ℤ
  pub synced_generation : Option ℤ
  pub bundle_fingerprint : Option Str
  pub last_sync : Option Str
  pub last_seen : Option Str
  pub enrolled_at : Str
  pub created_at : Str
  pub updated_at : Str

-- `UPDATE … SET … WHERE …`, and the number of rows affected.
module _ {ℓ} {Row : Type ℓ} where
  abbrev pub update_rows : (Row → Bool) → (Row → Row) → List Row → List Row
  update_rows p f [] = []
  update_rows p f (r ∷ rs) = (if p r then f r else r) ∷ update_rows p f rs

abbrev pub has_id : Str → MachineRow → Bool
has_id machine_id r = text_eq r.machine_id machine_id

abbrev newer_or_equal : Option Str → Option Str → Bool → Bool
newer_or_equal none none tie = tie
newer_or_equal (some a) none tie = true
newer_or_equal none (some b) tie = false
newer_or_equal (some a) (some b) tie = if text_eq a b then tie else text_leb b a

abbrev pub more_recent : MachineRow → MachineRow → Bool
more_recent r s = newer_or_equal r.last_seen s.last_seen (text_leb s.created_at r.created_at)

pub record HeartbeatUpdate : Type 0 where
  pub machine_id : Str
  pub now : ℕ
  pub agent_version : Str
  pub ip : Option Str
  pub current_generation : ℤ

module _ (c : Chrono) where
  unfoldable pub parse_dt : Str → Result SqlxError ℕ
  parse_dt value = ok_or (c.parse_from_rfc3339 value) decode

  -- `.as_deref().map(parse_dt).transpose()`
  unfoldable pub parse_optional_dt : Option Str → Result SqlxError (Option ℕ)
  unfolding parse_dt
  parse_optional_dt none = ok none
  parse_optional_dt (some value) = do t ← parse_dt value; ok (some t)

  -- `TryFrom<MachineRow> for Machine`
  unfoldable pub machine_of_row : MachineRow → Result SqlxError Machine
  unfolding parse_dt parse_optional_dt
  machine_of_row row = do
    status ← ok_or (from_db_str row.status) decode
    last_seen ← parse_optional_dt row.last_seen
    last_sync ← parse_optional_dt row.last_sync
    enrolled_at ← parse_dt row.enrolled_at
    created_at ← parse_dt row.created_at
    updated_at ← parse_dt row.updated_at
    ok (record {
      machine_id = row.machine_id;
      hostname = row.hostname;
      public_key = row.public_key;
      os = row.os;
      arch = row.arch;
      agent_version = row.agent_version;
      status = status;
      ip = row.ip;
      current_generation = row.current_generation;
      synced_generation = row.synced_generation;
      bundle_fingerprint = row.bundle_fingerprint;
      last_sync = last_sync;
      last_seen = last_seen;
      enrolled_at = enrolled_at;
      created_at = created_at;
      updated_at = updated_at;
    })

  -- `fetch_optional` and `row.map(Machine::try_from).transpose()`
  unfoldable pub optional_machine : Option MachineRow → Result SqlxError (Option Machine)
  optional_machine none = ok none
  optional_machine (some row) = do m ← machine_of_row row; ok (some m)

  unfoldable pub find_by_hostname : List MachineRow → Str → Result SqlxError (Option Machine)
  unfolding optional_machine
  find_by_hostname rows hostname = optional_machine (find (λ r. text_eq r.hostname hostname) rows)

  unfoldable pub find_by_public_key : List MachineRow → Str → Result SqlxError (Option Machine)
  unfolding optional_machine
  find_by_public_key rows public_key =
      optional_machine (find (λ r. text_eq r.public_key public_key) rows)

  unfoldable pub find_by_id : List MachineRow → Str → Result SqlxError (Option Machine)
  unfolding optional_machine
  find_by_id rows machine_id = optional_machine (find (has_id machine_id) rows)

  -- `ORDER BY last_seen DESC NULLS LAST, created_at DESC LIMIT ?`
  unfoldable pub list_recent : List MachineRow → ℕ → Result SqlxError (List Machine)
  list_recent rows limit = collect machine_of_row (take limit (sort_by more_recent rows))

  -- `ORDER BY hostname ASC`
  unfoldable pub list_all : List MachineRow → Result SqlxError (List Machine)
  list_all rows = collect machine_of_row (sort_by (λ r s. text_leb r.hostname s.hostname) rows)

  unfoldable pub row_of_new : NewMachine → MachineRow
  row_of_new new = record {
    machine_id = new.machine_id;
    hostname = new.hostname;
    public_key = new.public_key;
    os = new.os;
    arch = new.arch;
    agent_version = new.agent_version;
    status = as_str new.status;
    ip = none;
    current_generation = pos 0;
    synced_generation = none;
    bundle_fingerprint = none;
    last_sync = none;
    last_seen = none;
    enrolled_at = c.to_rfc3339_millis new.enrolled_at;
    created_at = c.to_rfc3339_millis new.enrolled_at;
    updated_at = c.to_rfc3339_millis new.enrolled_at;
  }

  -- The value that `insert` returns.
  unfoldable pub machine_of_new : NewMachine → Machine
  machine_of_new new = record {
    machine_id = new.machine_id;
    hostname = new.hostname;
    public_key = new.public_key;
    os = new.os;
    arch = new.arch;
    agent_version = new.agent_version;
    status = new.status;
    ip = none;
    current_generation = pos 0;
    synced_generation = none;
    bundle_fingerprint = none;
    last_sync = none;
    last_seen = none;
    enrolled_at = new.enrolled_at;
    created_at = new.enrolled_at;
    updated_at = new.enrolled_at;
  }

  -- The INSERT, under the constraints of the migration.
  unfoldable pub insert :
      List MachineRow → NewMachine → Result SqlxError (Machine × List MachineRow)
  unfolding row_of_new machine_of_new
  insert rows new = do
    reject_if (any (has_id new.machine_id) rows)
        (database (lit "UNIQUE constraint failed: machines.machine_id"))
    reject_if (any (λ r. text_eq r.hostname new.hostname) rows)
        (database (lit "UNIQUE constraint failed: machines.hostname"))
    reject_if (any (λ r. text_eq r.public_key new.public_key) rows)
        (database (lit "UNIQUE constraint failed: machines.public_key"))
    ok (machine_of_new new, rows ++ row_of_new new ∷ [])

  abbrev pub touch : HeartbeatUpdate → MachineRow → MachineRow
  touch u r = record r {
    last_seen = some (c.to_rfc3339_millis u.now);
    updated_at = c.to_rfc3339_millis u.now;
    agent_version = u.agent_version;
    ip = u.ip;
    current_generation = u.current_generation;
  }

  unfoldable pub update_last_seen : List MachineRow → HeartbeatUpdate → Bool × List MachineRow
  update_last_seen rows u =
      (count (has_id u.machine_id) rows == 1, update_rows (has_id u.machine_id) (touch u) rows)

  abbrev pub restatus : MachineStatus → ℕ → MachineRow → MachineRow
  restatus status now r = record r { status = as_str status; updated_at = c.to_rfc3339_millis now }

  unfoldable pub update_status : List MachineRow → Str → MachineStatus → ℕ → Bool × List MachineRow
  update_status rows machine_id status now = (
    count (has_id machine_id) rows == 1,
    update_rows (has_id machine_id) (restatus status now) rows,
  )

unfoldable pub delete : List MachineRow → Str → Bool × List MachineRow
delete rows machine_id =
    (count (has_id machine_id) rows == 1, retain (λ r. not (has_id machine_id r)) rows)
