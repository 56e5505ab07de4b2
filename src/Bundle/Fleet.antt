-- ===== src/Bundle/Fleet.antt =====
-- What the fleet has synced, in src/bundle/service.rs, and the outcomes of acknowledgements in
-- src/bundle/models.rs.
pub mod Counts
use mayfly_server.Prelude.{
  ℕ, suc, Str, lit, List, [], ◌∷◌, Option, none, some, Bool, true, false, ◌||◌, ◌==◌, map, count,
  trim, text_eq, to_ascii_lowercase, length, any, if◌then◌else◌,
}
use mayfly_server.Prelude.Int.{ℤ, pos, int_eq}
use mayfly_server.Machines.Store.{Chrono, MachineRow, has_id, update_rows}
use mayfly_server.Machines.Protocol.{LivenessStatus, online, stale, offline, derive}
use mayfly_server.Rollout.Health.{bump}

pub data AckOutcome : Type 0 where
  applied rolled_back signature_failed : AckOutcome

abbrev outcome_named : Str → Option AckOutcome
outcome_named s =
    if text_eq s (lit "applied") || text_eq s (lit "success")
    then some applied
    else if text_eq s (lit "rollback") || text_eq s (lit "rolled_back")
    then some rolled_back
    else if text_eq s (lit "signature_failed")
    then some signature_failed
    else none

-- `AckOutcome::parse`
unfoldable pub parse_outcome : Str → Option AckOutcome
parse_outcome status = outcome_named (map to_ascii_lowercase (trim status))

unfoldable pub audit_event : AckOutcome → Str
audit_event applied = lit "bundle.applied"
audit_event rolled_back = lit "bundle.rollback"
audit_event signature_failed = lit "bundle.signature_failed"

unfoldable pub is_success : AckOutcome → Bool
is_success applied = true
is_success rolled_back = false
is_success signature_failed = false

pub record FleetStatus (F64 : Type 0) : Type 0 where
  pub latest_generation : ℕ
  pub total_machines : ℕ
  pub online : ℕ
  pub stale : ℕ
  pub offline : ℕ
  pub rollout_percentage : F64
  pub oldest_generation : Option ℤ
  pub newest_generation : Option ℤ
  pub generations : List (ℤ × ℕ)

-- The variables of the loop.
pub record Tally : Type 0 where
  pub online : ℕ
  pub stale : ℕ
  pub offline : ℕ
  pub on_latest : ℕ
  pub counts : List (ℤ × ℕ)

abbrev pub no_tally : Tally
no_tally = record { online = 0; stale = 0; offline = 0; on_latest = 0; counts = [] }

abbrev pub seen : LivenessStatus → Tally → Tally
seen online t = record t { online = suc t.online }
seen stale t = record t { stale = suc t.stale }
seen offline t = record t { offline = suc t.offline }

abbrev pub synced_to : ℕ → Option ℤ → Tally → Tally
synced_to latest none t = t
synced_to latest (some g) t = record t {
  counts = bump g t.counts;
  on_latest = if int_eq g (pos latest) then suc t.on_latest else t.on_latest;
}

abbrev first_key : List (ℤ × ℕ) → Option ℤ
first_key [] = none
first_key ((g, n) ∷ counts) = some g

abbrev last_key : List (ℤ × ℕ) → Option ℤ
last_key [] = none
last_key ((g, n) ∷ []) = some g
last_key (c ∷ d ∷ counts) = last_key (d ∷ counts)

module _ (c : Chrono) where
  abbrev pub synced : ℤ → Str → ℕ → MachineRow → MachineRow
  synced generation fingerprint now r = record r {
    synced_generation = some generation;
    bundle_fingerprint = some fingerprint;
    last_sync = some (c.to_rfc3339_millis now);
  }

  unfoldable pub record_applied : List MachineRow → Str → ℤ → Str → ℕ → Bool × List MachineRow
  record_applied rows machine_id generation fingerprint now = (
    count (has_id machine_id) rows == 1,
    update_rows (has_id machine_id) (synced generation fingerprint now) rows,
  )

  abbrev pub seen_at : Option Str → Option ℕ
  seen_at none = none
  seen_at (some s) = c.parse_from_rfc3339 s

  -- The loop over the rows.
  unfoldable pub tally_rows : ℕ → ℕ → List MachineRow → Tally → Tally
  unfolding derive bump
  tally_rows latest now [] t = t
  tally_rows latest now (r ∷ rows) t =
      tally_rows latest now rows
        (synced_to latest r.synced_generation (seen (derive (seen_at r.last_seen) now) t))

  -- `f64` is a parameter: the percentage is 100 times a quotient, rounded to one decimal place.
  unfoldable pub fleet_status :
      {F64 : Type 0} → F64 → (ℕ → ℕ → F64) → ℕ → List MachineRow → ℕ → FleetStatus F64
  unfolding tally_rows
  fleet_status zero_percent percent latest_generation rows now =
      let t = tally_rows latest_generation now rows no_tally in
      record {
        latest_generation = latest_generation;
        total_machines = length rows;
        online = t.online;
        stale = t.stale;
        offline = t.offline;
        rollout_percentage =
            if length rows == 0 then zero_percent else percent t.on_latest (length rows);
        oldest_generation = first_key t.counts;
        newest_generation = last_key t.counts;
        generations = t.counts;
      }

-- `SELECT 1 FROM machines WHERE machine_id = ?`
unfoldable pub machine_exists : List MachineRow → Str → Bool
machine_exists rows machine_id = any (has_id machine_id) rows
