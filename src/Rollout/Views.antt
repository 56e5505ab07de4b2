-- ===== src/Rollout/Views.antt =====
-- The views of src/rollout/service.rs that are counted machine by machine: the machines and the
-- breakdown. A count is a natural number.
use mayfly_server.Prelude.{
  ℕ, suc, ◌+◌, ◌-◌, Str, lit, List, [], ◌∷◌, Option, none, some, Bool, true, false, not, count,
  retain, map, text_eq, if◌then◌else◌,
}
use mayfly_server.Prelude.Int.{ℤ, pos, negsuc, int_eq}
use mayfly_server.Machines.Models.{MachineStatus, as_str, status_eq}
use mayfly_server.Machines.Store.{Chrono}
use mayfly_server.Machines.Protocol.{LivenessStatus, online, stale, offline}
use mayfly_server.Machines.Admin.{MachineView}
use mayfly_server.Rollout.Snapshot.{
  RolloutService, RolloutState, Category, MachineFailure, Metadata, current, stuck, categorize,
  effective_failure,
}

pub record MachineRollout : Type 0 where
  pub machine_id : Str
  pub hostname : Str
  pub status : Str
  pub liveness : Str
  pub synced_generation : Option ℤ
  pub latest_generation : Option ℤ
  pub current_generation : ℤ
  pub up_to_date : Bool
  pub generations_behind : ℕ
  pub state : RolloutState
  pub category : Category
  pub last_sync : Option Str
  pub last_seen : Option Str
  pub last_failure : Option MachineFailure

pub record RolloutBreakdown : Type 0 where
  pub healthy : ℕ
  pub stale : ℕ
  pub offline : ℕ
  pub failed : ℕ
  pub pending : ℕ

abbrev pub liveness_str : LivenessStatus → Str
liveness_str online = lit "ONLINE"
liveness_str stale = lit "STALE"
liveness_str offline = lit "OFFLINE"

-- `(l - s).max(0)`
abbrev pub behind : ℤ → ℤ → ℕ
behind (pos l) (pos s) = l - s
behind (pos l) (negsuc s) = l + s + 1
behind (negsuc l) (pos s) = 0
behind (negsuc l) (negsuc s) = s - l

abbrev pub generations_behind_of : Option ℤ → Option ℤ → ℕ
generations_behind_of (some s) (some l) = behind l s
generations_behind_of none (some l) = behind l (pos 0)
generations_behind_of s none = 0

unfoldable pub generations_behind : MachineView → ℕ
generations_behind m = generations_behind_of m.synced_generation m.latest_generation

abbrev pub is_active : MachineView → Bool
is_active m = status_eq m.status MachineStatus.active

-- `Some(g) == latest`
abbrev pub is_generation : Option ℤ → ℤ → Bool
is_generation none g = false
is_generation (some l) g = int_eq l g

module _ {Value : Type 0} (c : Chrono) (d : Metadata Value) where
  abbrev pub active : RolloutService Value → List MachineView
  active s = retain is_active s.machines

  abbrev pub completed_count : RolloutService Value → ℕ
  completed_count s = count (λ (m : MachineView). m.up_to_date) (active s)

  unfoldable pub machine_rollout : RolloutService Value → MachineView → MachineRollout
  unfolding categorize effective_failure
  machine_rollout s m = record {
    machine_id = m.machine_id;
    hostname = m.hostname;
    status = as_str m.status;
    liveness = liveness_str m.liveness;
    synced_generation = m.synced_generation;
    latest_generation = m.latest_generation;
    current_generation = m.current_generation;
    up_to_date = m.up_to_date;
    generations_behind = generations_behind m;
    state = (categorize c d s m).0;
    category = (categorize c d s m).1;
    last_sync = m.last_sync;
    last_seen = m.last_seen;
    last_failure = effective_failure c d s m;
  }

  unfoldable pub machines : RolloutService Value → List MachineRollout
  unfolding machine_rollout
  machines s = map (machine_rollout s) s.machines

  abbrev pub is_current : RolloutState → Bool
  is_current current = true
  is_current _ = false

  abbrev pub is_stuck : RolloutState → Bool
  is_stuck stuck = true
  is_stuck _ = false

  abbrev pub in_state : Str → RolloutState → Bool
  in_state state st =
      if text_eq state (lit "current")
      then is_current st
      else if text_eq state (lit "lagging")
      then not (is_current st)
      else if text_eq state (lit "stuck")
      then is_stuck st
      else true

  abbrev pub on_generation : Option ℤ → MachineRollout → Bool
  on_generation none m = true
  on_generation (some g) m = is_generation m.synced_generation g

  unfoldable pub machines_filtered : RolloutService Value → Str → Option ℤ → List MachineRollout
  machines_filtered s state generation =
      retain (on_generation generation)
        (retain (λ (m : MachineRollout). in_state state m.state) (machines s))

  abbrev pub has_failure : Option MachineFailure → Bool
  has_failure none = false
  has_failure (some f) = true

  abbrev pub add_liveness : LivenessStatus → RolloutBreakdown → RolloutBreakdown
  add_liveness offline b = record b { offline = suc b.offline }
  add_liveness stale b = record b { stale = suc b.stale }
  add_liveness online b = record b { pending = suc b.pending }

  -- One round of the loop.
  unfoldable pub tally : RolloutService Value → MachineView → RolloutBreakdown → RolloutBreakdown
  tally s m b =
      if m.up_to_date
      then record b { healthy = suc b.healthy }
      else if has_failure (effective_failure c d s m)
      then record b { failed = suc b.failed }
      else add_liveness m.liveness b

  unfoldable pub tally_all :
      RolloutService Value → List MachineView → RolloutBreakdown → RolloutBreakdown
  unfolding tally
  tally_all s [] b = b
  tally_all s (m ∷ ms) b = tally_all s ms (tally s m b)

  abbrev pub empty_breakdown : RolloutBreakdown
  empty_breakdown = record { healthy = 0; stale = 0; offline = 0; failed = 0; pending = 0 }

  unfoldable pub breakdown : RolloutService Value → RolloutBreakdown
  unfolding tally_all
  breakdown s = tally_all s (active s) empty_breakdown
