-- ===== src/Machines/Protocol.antt =====
-- src/machines/protocol.rs: derived liveness, heartbeats, and the listing of servers. The table is
-- that of Machines/Store; the service adds no state.
pub mod Liveness
pub mod Heartbeat
use mayfly_server.Prelude.{
  ℕ, ◌+◌, ◌-◌, ◌/◌, Str, lit, List, Option, none, some, Bool, true, false, ◌||◌, ltb, leb, any, not,
  is_empty, len, trim, is_control, map, if◌then◌else◌,
}
use mayfly_server.Prelude.Int.{ℤ, is_negative}
use mayfly_server.Prelude.Result.{Result, ok, err, ◌>>=◌, ◌>>◌, reject_if}
use mayfly_server.Machines.Models.{Machine}
use mayfly_server.Machines.Store.{
  Chrono, SqlxError, MachineRow, HeartbeatUpdate, update_last_seen, list_recent,
}

abbrev pub online_within_secs : ℕ
online_within_secs = 120

abbrev pub stale_within_secs : ℕ
stale_within_secs = 600

abbrev max_agent_version_len : ℕ
max_agent_version_len = 64

abbrev max_hostname_len : ℕ
max_hostname_len = 253

abbrev max_os_len : ℕ
max_os_len = 64

abbrev max_kernel_len : ℕ
max_kernel_len = 128

abbrev max_ip_len : ℕ
max_ip_len = 64

abbrev pub default_heartbeat_interval : ℕ
default_heartbeat_interval = 60

pub data LivenessStatus : Type 0 where
  online stale offline : LivenessStatus

-- `(now - seen).num_seconds()` cuts towards zero, so an instant in the future counts as at most 0.
abbrev pub elapsed_secs : ℕ → ℕ → ℕ
elapsed_secs seen now = (now - seen) / 1_000_000_000

unfoldable pub derive : Option ℕ → ℕ → LivenessStatus
derive none now = offline
derive (some seen) now =
    if leb (elapsed_secs seen now) online_within_secs
    then online
    else if leb (elapsed_secs seen now) stale_within_secs
    then stale
    else offline

pub record HeartbeatRequest : Type 0 where
  pub agent_version : Str
  pub hostname : Str
  pub os : Str
  pub kernel : Str
  pub ip : Str
  pub current_generation : ℤ
  pub uptime_seconds : ℤ

pub record HeartbeatResponse : Type 0 where
  pub status : Str
  pub server_time : Str
  pub next_heartbeat_seconds : ℕ

pub record ServerSummary : Type 0 where
  pub machine_id : Str
  pub hostname : Str
  pub last_seen : Option Str
  pub status : LivenessStatus
  pub ip : Option Str
  pub current_generation : ℤ
  pub agent_version : Str

pub data HeartbeatField : Type 0 where
  agent_version hostname os kernel : HeartbeatField

-- The messages of `Validation`, one constructor for each.
pub data Invalid : Type 0 where
  empty too_long control_characters : HeartbeatField → Invalid
  negative_generation negative_uptime invalid_ip : Invalid

pub data RegistryError : Type 0 where
  validation : Invalid → RegistryError
  unknown_machine : RegistryError
  database : SqlxError → RegistryError

-- `check` inside `validate_heartbeat`.
unfoldable pub check : HeartbeatField → Str → ℕ → Result RegistryError Unit
check field value max = do
  let trimmed = trim value
  reject_if (is_empty trimmed) (validation (empty field))
  reject_if (ltb max (len trimmed)) (validation (too_long field))
  reject_if (any is_control trimmed) (validation (control_characters field))
  ok tt

unfoldable pub validate_heartbeat : HeartbeatRequest → Result RegistryError (Option Str)
validate_heartbeat request = do
  check agent_version request.agent_version max_agent_version_len
  check hostname request.hostname max_hostname_len
  check os request.os max_os_len
  check kernel request.kernel max_kernel_len
  reject_if (is_negative request.current_generation) (validation negative_generation)
  reject_if (is_negative request.uptime_seconds) (validation negative_uptime)
  let ip = trim request.ip
  if is_empty ip then ok none else do
    reject_if (ltb max_ip_len (len ip) || any is_control ip) (validation invalid_ip)
    ok (some ip)

module _ (c : Chrono) where
  abbrev pub heartbeat_update : Str → HeartbeatRequest → Option Str → ℕ → HeartbeatUpdate
  heartbeat_update machine_id request ip now = record {
    machine_id = machine_id;
    now = now;
    agent_version = trim request.agent_version;
    ip = ip;
    current_generation = request.current_generation;
  }

  -- The table comes back in every case: the update is its own statement.
  unfoldable pub record_heartbeat :
      List MachineRow
      → Str
      → HeartbeatRequest
      → ℕ
      → Result RegistryError HeartbeatResponse × List MachineRow
  record_heartbeat rows machine_id request now = elim (validate_heartbeat request) [
    | err e ↦ (err e, rows)
    | ok ip ↦
        let (updated, rows') =
          update_last_seen c rows (heartbeat_update machine_id request ip now) in
        (
          if not updated
              then err unknown_machine
              else ok (record {
                status = lit "ok";
                server_time = c.to_rfc3339_millis now;
                next_heartbeat_seconds = default_heartbeat_interval;
              }),
          rows',
        )
  ]

  abbrev rendered : Option ℕ → Option Str
  rendered none = none
  rendered (some t) = some (c.to_rfc3339_millis t)

  abbrev pub summary : ℕ → Machine → ServerSummary
  summary now m = record {
    machine_id = m.machine_id;
    hostname = m.hostname;
    last_seen = rendered m.last_seen;
    status = derive m.last_seen now;
    ip = m.ip;
    current_generation = m.current_generation;
    agent_version = m.agent_version;
  }

  abbrev listed : ℕ → Result SqlxError (List Machine) → Result RegistryError (List ServerSummary)
  listed now (err e) = err (database e)
  listed now (ok machines) = ok (map (summary now) machines)

  unfoldable pub list_servers : List MachineRow → ℕ → ℕ → Result RegistryError (List ServerSummary)
  list_servers rows now limit = listed now (list_recent c rows limit)
