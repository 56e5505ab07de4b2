-- ===== src/Machines/Admin.antt =====
-- src/machines/admin.rs: machine views, filters, and the lifecycle operations of the operator.
pub mod Deletes
use mayfly_server.Prelude.{
  ℕ, Str, lit, List, Option, none, some, Bool, true, false, ◌&&◌, ◌||◌, leb, ◌==◌, not, retain, map,
  contains, eq_ignore_ascii_case, if◌then◌else◌,
}
use mayfly_server.Prelude.Int.{ℤ, int_eq, int_leb}
use mayfly_server.Prelude.Result.{Result, ok, err, ok_or, ◌>>=◌, ◌>>◌, reject_if}
use mayfly_server.Machines.Models.{Machine, MachineStatus, status_eq}
use mayfly_server.Machines.Protocol.{LivenessStatus, online, stale, offline, derive}
use mayfly_server.Machines.Store.{
  Chrono, SqlxError, MachineRow, find_by_id, list_all, update_status, delete,
}
use mayfly_server.Machines.Validation.{SshKeys, public_key_fingerprint}

pub record MachineView : Type 0 where
  pub machine_id : Str
  pub hostname : Str
  pub status : MachineStatus
  pub liveness : LivenessStatus
  pub os : Str
  pub arch : Str
  pub agent_version : Str
  pub fingerprint : Str
  pub ip : Option Str
  pub current_generation : ℤ
  pub synced_generation : Option ℤ
  pub latest_generation : Option ℤ
  pub up_to_date : Bool
  pub bundle_fingerprint : Option Str
  pub last_seen : Option Str
  pub last_sync : Option Str
  pub enrolled_at : Str

pub record MachineFilter : Type 0 where
  pub status : Option MachineStatus
  pub liveness : Option LivenessStatus
  pub hostname : Option Str
  pub generation : Option ℤ
  pub os : Option Str
  pub arch : Option Str
  pub agent_version : Option Str

pub data MachineAdminError : Type 0 where
  not_found : Str → MachineAdminError
  database : SqlxError → MachineAdminError

abbrev pub liveness_eq : LivenessStatus → LivenessStatus → Bool
liveness_eq online online = true
liveness_eq stale stale = true
liveness_eq offline offline = true
liveness_eq _ _ = false

unfoldable pub is_up_to_date : Option ℤ → Option ℤ → Bool
is_up_to_date (some synced) (some latest) = int_leb latest synced
is_up_to_date (some synced) none = false
is_up_to_date none latest = false

abbrev or_unknown : Option Str → Str
or_unknown none = lit "unknown"
or_unknown (some fingerprint) = fingerprint

-- `if let Some(wanted) = filter { if !test(wanted) { return false; } }`
abbrev pub passes : {A : Type 0} → Option A → (A → Bool) → Bool
passes none test = true
passes (some wanted) test = test wanted

abbrev is_generation : Option ℤ → ℤ → Bool
is_generation none g = false
is_generation (some s) g = int_eq s g

-- `str::to_lowercase` of the standard library, which maps by the Unicode tables, is a parameter.
module _ (to_lowercase : Str → Str) where
  unfoldable pub matches : MachineFilter → MachineView → Bool
  matches f view =
      passes f.status (λ s. status_eq view.status s)
      && passes f.liveness (λ l. liveness_eq view.liveness l)
      && passes f.hostname (λ h. contains (to_lowercase view.hostname) (to_lowercase h))
      && passes f.generation
          (λ g. int_eq view.current_generation g || is_generation view.synced_generation g)
      && passes f.os (λ o. eq_ignore_ascii_case view.os o)
      && passes f.arch (λ a. eq_ignore_ascii_case view.arch a)
      && passes f.agent_version (λ v. eq_ignore_ascii_case view.agent_version v)

abbrev pub queried : {A : Type 0} → Result SqlxError A → Result MachineAdminError A
queried (ok a) = ok a
queried (err e) = err (database e)

module _ {Key : Type 0} (c : Chrono) (k : SshKeys Key) where
  abbrev rendered : Option ℕ → Option Str
  rendered none = none
  rendered (some t) = some (c.to_rfc3339_secs t)

  unfoldable pub from_machine : Machine → ℕ → Option ℤ → MachineView
  unfolding is_up_to_date
  from_machine m now latest_generation = record {
    machine_id = m.machine_id;
    hostname = m.hostname;
    status = m.status;
    liveness = derive m.last_seen now;
    os = m.os;
    arch = m.arch;
    agent_version = m.agent_version;
    fingerprint = or_unknown (public_key_fingerprint k m.public_key);
    ip = m.ip;
    current_generation = m.current_generation;
    synced_generation = m.synced_generation;
    latest_generation = latest_generation;
    up_to_date = is_up_to_date m.synced_generation latest_generation;
    bundle_fingerprint = m.bundle_fingerprint;
    last_seen = rendered m.last_seen;
    last_sync = rendered m.last_sync;
    enrolled_at = c.to_rfc3339_secs m.enrolled_at;
  }

  unfoldable pub list :
      (Str → Str)
      → List MachineRow
      → ℕ
      → Option ℤ
      → MachineFilter
      → Result SqlxError (List MachineView)
  list to_lowercase rows now latest_generation filter = do
    machines ← list_all c rows
    ok (
        retain (matches to_lowercase filter)
          (map (λ m. from_machine m now latest_generation) machines))

  abbrev viewed : ℕ → Option ℤ → Option Machine → Option MachineView
  viewed now latest_generation none = none
  viewed now latest_generation (some m) = some (from_machine m now latest_generation)

  unfoldable pub get : List MachineRow → ℕ → Option ℤ → Str → Result SqlxError (Option MachineView)
  get rows now latest_generation machine_id = do
    found ← find_by_id c rows machine_id
    ok (viewed now latest_generation found)

module _ (c : Chrono) where
  -- The update is its own statement: the table comes back in every case.
  unfoldable pub set_status :
      List MachineRow → Str → MachineStatus → ℕ → Result MachineAdminError Machine × List MachineRow
  set_status rows machine_id status now =
      let (updated, rows') = update_status c rows machine_id status now in
      (
        if not updated then err (not_found machine_id) else (do
          found ← queried (find_by_id c rows' machine_id)
          ok_or found (not_found machine_id)),
        rows',
      )

  abbrev pub delete_existing :
      List MachineRow → Str → Machine → Result MachineAdminError Machine × List MachineRow
  delete_existing rows machine_id existing =
      let (deleted, rows') = delete rows machine_id in
      (if not deleted then err (not_found machine_id) else ok existing, rows')

  unfoldable pub delete_machine :
      List MachineRow → Str → Result MachineAdminError Machine × List MachineRow
  delete_machine rows machine_id =
      elim (do found ← queried (find_by_id c rows machine_id); ok_or found (not_found machine_id)) [
        | err e ↦ (err e, rows)
        | ok existing ↦ delete_existing rows machine_id existing
      ]
