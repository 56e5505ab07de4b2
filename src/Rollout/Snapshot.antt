-- ===== src/Rollout/Snapshot.antt =====
-- The snapshot of src/rollout/service.rs with its loading, and the category of a machine. Fields of
-- JSON metadata and RFC 3339 texts are parameters.
use mayfly_server.Prelude.{
  ℕ, ◌-◌, ◌*◌, Str, lit, List, [], ◌∷◌, Option, none, some, Bool, true, false, ◌||◌, not, leb, any,
  find, text_eq, if◌then◌else◌,
}
use mayfly_server.Prelude.Int.{ℤ, pos}
use mayfly_server.Prelude.Result.{Result, ok, err, ◌>>=◌}
use mayfly_server.Audit.Model.{AuditError, AuditEntry}
use mayfly_server.Audit.Hash.{Externals}
use mayfly_server.Audit.Repository.{AuditTable}
use mayfly_server.Audit.Search.{AuditQuery, default_query, descending, search}
use mayfly_server.Machines.Models.{MachineStatus}
use mayfly_server.Machines.Store.{Chrono, SqlxError, MachineRow}
use mayfly_server.Machines.Validation.{SshKeys}
use mayfly_server.Machines.Protocol.{LivenessStatus, online, stale, offline}
use mayfly_server.Machines.Admin as Admin
use mayfly_server.Machines.Admin.{MachineView, MachineFilter}
use mayfly_server.AgentAuth.Nonce.{nanos_per_sec}

abbrev pub failure_window_hours : ℕ
failure_window_hours = 24

abbrev pub eta_window_seconds : ℕ
eta_window_seconds = 3600

abbrev pub bundle_event_scan : ℕ
bundle_event_scan = 1000

-- `Value::get` with `as_str` and with `as_i64`.
pub record Metadata (Value : Type 0) : Type 0 where
  pub meta_string : Value → Str → Option Str
  pub meta_i64 : Value → Str → Option ℤ

pub data RolloutError : Type 0 where
  database : SqlxError → RolloutError
  audit : AuditError → RolloutError

pub record MachineFailure : Type 0 where
  pub event_type : Str
  pub generation : Option ℤ
  pub reason : Option Str
  pub at : Str

pub record RecentFailure : Type 0 where
  pub failure : MachineFailure
  pub at : ℕ

-- The categories `CAT_…` and the states.
pub data Category : Type 0 where
  up_to_date revoked_machine disabled_machine bundle_verification_failure helper_failure : Category
  offline_machine heartbeat_stale generation_mismatch : Category

pub data RolloutState : Type 0 where
  current lagging stuck : RolloutState

-- `failures` is the map as a list of its entries, one for each machine.
pub record RolloutService (Value : Type 0) : Type 0 where
  pub machines : List MachineView
  pub latest_generation : Option ℤ
  pub bundle_fingerprint : Option Str
  pub configured : Bool
  pub failures : List (Str × RecentFailure)
  pub bundle_events : List (AuditEntry Value)
  pub now : ℕ

abbrev pub is_failure_event : Str → Bool
is_failure_event event_type =
    text_eq event_type (lit "bundle.rollback") || text_eq event_type (lit "bundle.signature_failed")

abbrev pub has_machine : Str → Str × RecentFailure → Bool
has_machine machine_id entry = text_eq entry.0 machine_id

abbrev pub failure_of : Option (Str × RecentFailure) → Option RecentFailure
failure_of none = none
failure_of (some (mid, rf)) = some rf

abbrev pub or_else : {A : Type 0} → Option A → Option A → Option A
or_else none b = b
or_else (some a) b = some a

module _ {Value : Type 0} (c : Chrono) (d : Metadata Value) where
  unfoldable pub event_machine_id : AuditEntry Value → Option Str
  event_machine_id e = or_else e.subject (d.meta_string e.metadata (lit "machine_id"))

  abbrev pub recent_failure : AuditEntry Value → RecentFailure
  recent_failure e = record {
    failure = record {
      event_type = e.event_type;
      generation = d.meta_i64 e.metadata (lit "generation");
      reason = d.meta_string e.metadata (lit "reason");
      at = c.to_rfc3339_secs e.recorded_at;
    };
    at = e.recorded_at;
  }

  -- `entry(mid).or_insert_with(…)`
  abbrev pub or_insert :
      List (Str × RecentFailure) → Str → RecentFailure → List (Str × RecentFailure)
  or_insert failures mid rf =
      if any (has_machine mid) failures then failures else (mid, rf) ∷ failures

  abbrev pub insert_event :
      List (Str × RecentFailure) → AuditEntry Value → List (Str × RecentFailure)
  insert_event failures e =
      if not (is_failure_event e.event_type) then failures else elim (event_machine_id e) [
        | none ↦ failures
        | some mid ↦ or_insert failures mid (recent_failure e)
      ]

  -- The loop over the events, newest first.
  unfoldable pub collect_failures :
      List (Str × RecentFailure) → List (AuditEntry Value) → List (Str × RecentFailure)
  unfolding event_machine_id
  collect_failures failures [] = failures
  collect_failures failures (e ∷ events) = collect_failures (insert_event failures e) events

  unfoldable pub effective_failure : RolloutService Value → MachineView → Option MachineFailure
  effective_failure s m = elim (failure_of (find (has_machine m.machine_id) s.failures)) [
    | none ↦ none
    | some rf ↦ elim (parse m.last_sync) [
      | none ↦ some rf.failure
      | some last_sync ↦ if leb rf.at last_sync then none else some rf.failure
    ]
  ]
    where
      parse : Option Str → Option ℕ
      parse none = none
      parse (some t) = c.parse_from_rfc3339 t

  abbrev pub liveness_category : LivenessStatus → Category
  liveness_category offline = offline_machine
  liveness_category stale = heartbeat_stale
  liveness_category online = generation_mismatch

  abbrev pub failure_category : Option MachineFailure → LivenessStatus → Category
  failure_category none l = liveness_category l
  failure_category (some f) l =
      if text_eq f.event_type (lit "bundle.signature_failed")
      then bundle_verification_failure
      else if text_eq f.event_type (lit "bundle.rollback")
      then helper_failure
      else liveness_category l

  -- The `match` on the status of a machine that is not up to date.
  abbrev pub lagging_category : MachineStatus → Option MachineFailure → LivenessStatus → Category
  lagging_category MachineStatus.revoked f l = revoked_machine
  lagging_category MachineStatus.disabled f l = disabled_machine
  lagging_category MachineStatus.active f l = failure_category f l
  lagging_category MachineStatus.pending f l = failure_category f l

  abbrev pub is_stuck_category : Category → Bool
  is_stuck_category offline_machine = true
  is_stuck_category bundle_verification_failure = true
  is_stuck_category helper_failure = true
  is_stuck_category disabled_machine = true
  is_stuck_category revoked_machine = true
  is_stuck_category up_to_date = false
  is_stuck_category heartbeat_stale = false
  is_stuck_category generation_mismatch = false

  unfoldable pub categorize : RolloutService Value → MachineView → RolloutState × Category
  unfolding effective_failure
  categorize s m =
      let category = lagging_category m.status (effective_failure s m) m.liveness in
      if m.up_to_date
      then (current, up_to_date)
      else (if is_stuck_category category then stuck else lagging, category)

abbrev pub loaded : {E A : Type 0} → (E → RolloutError) → Result E A → Result RolloutError A
loaded f (ok a) = ok a
loaded f (err e) = err (f e)

abbrev pub no_filter : MachineFilter
no_filter = record {
  status = none;
  liveness = none;
  hostname = none;
  generation = none;
  os = none;
  arch = none;
  agent_version = none;
}

abbrev pub generation_of : Option (ℕ × Str) → Option ℤ
generation_of none = none
generation_of (some (generation, fingerprint)) = some (pos generation)

abbrev pub fingerprint_of : Option (ℕ × Str) → Option Str
fingerprint_of none = none
fingerprint_of (some (generation, fingerprint)) = some fingerprint

-- The CA manager, which is not in the repository, gives its generation and fingerprint.
module _ {Value Key : Type 0} (x : Externals Value) (json_extract : Str → Str → Option Str)
    (c : Chrono) (d : Metadata Value) (k : SshKeys Key) (to_lowercase : Str → Str) where
  abbrev pub recent_bundle_events : ℕ → AuditQuery
  recent_bundle_events now = record default_query {
    event_prefix = some (lit "bundle.");
    since = some (now - failure_window_hours * 3600 * nanos_per_sec);
    limit = pos bundle_event_scan;
    order = descending;
  }

  unfoldable pub load :
      List MachineRow
      → Option (ℕ × Str)
      → Bool
      → AuditTable
      → ℕ
      → Result RolloutError (RolloutService Value)
  load rows ca configured log now = do
    machines ← loaded database (Admin.list c k to_lowercase rows now (generation_of ca) no_filter)
    page ← loaded audit (search x json_extract log (recent_bundle_events now))
    ok (record {
      machines = machines;
      latest_generation = generation_of ca;
      bundle_fingerprint = fingerprint_of ca;
      configured = configured;
      failures = collect_failures c d [] page.entries;
      bundle_events = page.entries;
      now = now;
    })
