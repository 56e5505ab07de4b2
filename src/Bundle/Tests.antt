-- ===== src/Bundle/Tests.antt =====
-- Runs of src/bundle.
use mayfly_server.Prelude.{◌≡◌, ◌↔◌, refl, lit, List, [], ◌∷◌, Option, none, some, true, false, All}
use mayfly_server.Prelude.Int.{ℤ, pos}
use mayfly_server.Prelude.Result.{ok}
use mayfly_server.Machines.Store.{MachineRow}
use mayfly_server.Prelude.{ℕ, ◌+◌, ◌*◌, ◌/◌, ◌==◌, count, if◌then◌else◌}
use mayfly_server.Machines.Toy.{clock}
use mayfly_server.Rollout.Counts.{machines_at}
use mayfly_server.Bundle.Fleet.{fleet_status}
use mayfly_server.Bundle.Fleet.Counts.{row_synced_to, fleet_status-counts}
use mayfly_server.Bundle.Retirement.{
  CaRecord, RetirementAssessment, may_still_trust, assess_retirement, scan, HasMovedOn, cutoff_of,
  assess_retirement-safe_iff,
}

abbrev row : Option ℤ → MachineRow
row synced = record {
  machine_id = lit "m1";
  hostname = lit "web-1";
  public_key = lit "key";
  os = lit "linux";
  arch = lit "arm64";
  agent_version = lit "1.0";
  status = lit "active";
  ip = none;
  current_generation = pos 0;
  synced_generation = synced;
  bundle_fingerprint = none;
  last_sync = none;
  last_seen = none;
  enrolled_at = [];
  created_at = [];
  updated_at = [];
}

abbrev old_key : CaRecord
old_key = record {
  id = lit "id1";
  key_id = lit "ca-01";
  enabled = false;
  disabled_generation = some 4;
}

abbrev machines : List MachineRow
machines = row (some (pos 4)) ∷ row (some (pos 3)) ∷ row none ∷ []

abbrev assessed : RetirementAssessment
assessed = record {
  id = lit "id1";
  key_id = lit "ca-01";
  safe = false;
  affected_machines = 2;
  oldest_generation = some (pos 3);
  latest_generation = some (pos 3);
  reason = may_still_trust 2 4;
}

assessed_run : assess_retirement (some old_key) 6 machines (lit "id1") ≡ ok assessed
unfolding assess_retirement scan
assessed_run = refl

assess_retirement-safe_iff_example :
    (false ≡ true) ↔ ((false ≡ false) × All (HasMovedOn (cutoff_of (some 4) 6)) machines)
assess_retirement-safe_iff_example =
    assess_retirement-safe_iff old_key 6 machines (lit "id1") assessed assessed_run

abbrev percent : ℕ → ℕ → ℕ
percent part whole = part * 100 / whole

abbrev fleet : List MachineRow
fleet = row (some (pos 3)) ∷ row none ∷ row (some (pos 2)) ∷ []

fleet_status-counts_example :
    let f = fleet_status clock 0 percent 3 fleet 9 in
    (f.online + f.stale + f.offline ≡ f.total_machines)
    × (machines_at (pos 2) f.generations ≡ count (row_synced_to (pos 2)) fleet)
    × (f.rollout_percentage ≡ (
        if f.total_machines == 0
        then 0
        else percent (count (row_synced_to (pos 3)) fleet) f.total_machines))
fleet_status-counts_example = fleet_status-counts clock 3 9 0 percent fleet (pos 2)
