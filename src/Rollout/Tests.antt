-- ===== src/Rollout/Tests.antt =====
-- Runs of src/rollout on a snapshot of three machines.
use mayfly_server.Prelude.{
  ◌≡◌, Str, lit, List, [], ◌∷◌, Option, none, some, Bool, true, false, not, count, find, refl,
  text_eq, to_ascii_lowercase,
}
use mayfly_server.Prelude.Int.{ℤ, pos}
use mayfly_server.Machines.Toy.{clock, keys}
use mayfly_server.Machines.Models.{MachineStatus}
use mayfly_server.Machines.Protocol.{LivenessStatus, online, stale, offline}
use mayfly_server.Machines.Admin.{MachineView, list}
use mayfly_server.Machines.Store.{list_all}
use mayfly_server.Prelude.Sort.{sort_by, text_leb, insert_sorted}
use mayfly_server.Audit.Verifier.{append_audit_event}
use mayfly_server.Audit.Hash.{canonicalize, compute_entry_hash}
use mayfly_server.Rollout.Snapshot.{
  RolloutService, RolloutError, MachineFailure, Metadata, load, effective_failure, collect_failures,
  event_machine_id,
}
use mayfly_server.Rollout.Failures.{is_failure_of, shown, load-effective_failure}
use mayfly_server.Prelude.Result.{Result, ok, err, collect}
use mayfly_server.Audit.Model.{NewAuditEntry}
use mayfly_server.Audit.Repository.{AuditTable, latest_row, insert_row, decode_row, append_entry}
use mayfly_server.Audit.Chain.Append.{empty_table, record_all}
use mayfly_server.Audit.Search.{search, effective_limit, selects, like, like_escape, is_failure}
use mayfly_server.Audit.Toy.{toy}
use mayfly_server.Rollout.Explain.{explain}
use mayfly_server.Rollout.Counts.{explained_count, explain-count}

abbrev no_metadata : Metadata Str
no_metadata = record { meta_string = λ v key. none; meta_i64 = λ v key. none }

abbrev view : Str → MachineStatus → LivenessStatus → Option ℤ → Bool → MachineView
view id status liveness synced done = record {
  machine_id = id;
  hostname = id;
  status = status;
  liveness = liveness;
  os = lit "linux";
  arch = lit "arm64";
  agent_version = lit "1.0";
  fingerprint = lit "f";
  ip = none;
  current_generation = pos 1;
  synced_generation = synced;
  latest_generation = some (pos 2);
  up_to_date = done;
  bundle_fingerprint = none;
  last_seen = none;
  last_sync = none;
  enrolled_at = [];
}

abbrev views : List MachineView
views =
    view (lit "a") MachineStatus.active online (some (pos 2)) true
    ∷ view (lit "b") MachineStatus.active offline (some (pos 1)) false
    ∷ view (lit "c") MachineStatus.revoked stale none false
    ∷ []

abbrev snapshot : RolloutService Str
snapshot = record {
  machines = views;
  latest_generation = some (pos 2);
  bundle_fingerprint = none;
  configured = true;
  failures = [];
  bundle_events = [];
  now = 1_000_000_000_000;
}

explain-count_example :
    explained_count (explain clock no_metadata snapshot).categories
    ≡ count (λ (m : MachineView). not m.up_to_date) views
explain-count_example = explain-count clock no_metadata snapshot

abbrev rollback : Str → NewAuditEntry Str
rollback machine = record {
  event_type = lit "bundle.rollback";
  actor = lit "machine";
  subject = some machine;
  metadata = lit "m";
}

-- Two failures of one machine and, between them, one of another machine.
abbrev failed_log : AuditTable
failed_log = record_all toy empty_table (
    (rollback (lit "b"), 5_000_000)
    ∷ (rollback (lit "a"), 6_000_000)
    ∷ (rollback (lit "b"), 7_000_000)
    ∷ [])

abbrev or_snapshot : Result RolloutError (RolloutService Str) → RolloutService Str
or_snapshot (ok s) = s
or_snapshot (err e) = snapshot

abbrev loading : Result RolloutError (RolloutService Str)
loading =
    load toy (λ v key. none) clock no_metadata keys (λ t. t) [] (some (2, lit "f")) true failed_log
      100_000_000

loading_run : loading ≡ ok (or_snapshot loading)
unfolding load list list_all collect sort_by text_leb to_ascii_lowercase search effective_limit
    selects like like_escape record_all append_audit_event append_entry canonicalize insert_row
    latest_row decode_row
loading_run = refl

load-effective_failure_example :
    let m = view (lit "b") MachineStatus.active offline (some (pos 1)) false in
    effective_failure clock no_metadata (or_snapshot loading) m
    ≡ shown clock no_metadata m
        (find (is_failure_of clock no_metadata m.machine_id) (or_snapshot loading).bundle_events)
load-effective_failure_example =
    load-effective_failure toy (λ v key. none) clock no_metadata keys (λ t. t) []
      (some (2, lit "f")) true failed_log 100_000_000 (or_snapshot loading)
      (view (lit "b") MachineStatus.active offline (some (pos 1)) false) loading_run

-- The newest of the failures is the one that the machine shows.
abbrev shown_at : Option MachineFailure → Str
shown_at none = []
shown_at (some f) = f.at

newest_failure_is_shown :
    shown_at (
      effective_failure clock no_metadata
        (or_snapshot loading)
        (view (lit "b") MachineStatus.active offline (some (pos 1)) false))
    ≡ clock.to_rfc3339_secs 7_000_000
unfolding load list list_all collect sort_by text_leb to_ascii_lowercase search effective_limit
    selects like like_escape record_all append_audit_event append_entry canonicalize insert_row
    latest_row decode_row compute_entry_hash insert_sorted effective_failure collect_failures
    event_machine_id text_eq is_failure
newest_failure_is_shown = refl
