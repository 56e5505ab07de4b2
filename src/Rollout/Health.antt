-- ===== src/Rollout/Health.antt =====
-- The views of src/rollout/service.rs that sum up the rollout: generations, estimate, health and
-- status. Counts are natural numbers; `f64` with its operations is a parameter.
use mayfly_server.Prelude.{
  ℕ, suc, ◌+◌, ◌-◌, ◌*◌, Str, lit, List, [], ◌∷◌, Option, none, some, Bool, true, false, ◌&&◌, ◌||◌,
  not, ltb, leb, ◌==◌, length, count, map, text_eq, if◌then◌else◌,
}
use mayfly_server.Prelude.Int.{ℤ, int_eq, int_leb}
use mayfly_server.Audit.Model.{AuditEntry}
use mayfly_server.Machines.Store.{Chrono}
use mayfly_server.Machines.Protocol.{LivenessStatus, online, stale, offline}
use mayfly_server.Machines.Admin.{MachineView, liveness_eq}
use mayfly_server.AgentAuth.Nonce.{nanos_per_sec}
use mayfly_server.Rollout.Snapshot.{RolloutService, Metadata, eta_window_seconds}
use mayfly_server.Rollout.Views.{
  RolloutBreakdown, is_generation, active, completed_count, breakdown,
}

-- `f64`
pub record Floats (F64 : Type 0) : Type 0 where
  pub from : ℕ → F64
  pub times : F64 → F64 → F64
  pub over : F64 → F64 → F64
  pub round : F64 → F64
  pub ceil : F64 → F64
  pub half : F64
  pub as_u8 : F64 → ℕ
  -- of a value that is not negative
  pub as_i64 : F64 → ℕ

pub record GenerationDetail (F64 : Type 0) : Type 0 where
  pub generation : ℤ
  pub machines : ℕ
  pub percentage : F64
  pub is_latest : Bool

pub record RolloutEta (F64 : Type 0) : Type 0 where
  pub complete : Bool
  pub remaining : ℕ
  pub applies_last_hour : ℕ
  pub per_hour : F64
  pub eta_seconds : Option ℕ
  pub estimated_completion : Option Str

pub data HealthStatus : Type 0 where
  healthy degraded blocked failed : HealthStatus

-- The formatted reasons, one constructor for each text.
pub data HealthReason : Type 0 where
  signature_failures : ℕ → HealthReason
  no_active_machines : HealthReason
  all_on_latest : ℕ → HealthReason
  none_reachable : ℕ → HealthReason
  on_latest : ℕ → ℕ → ℕ → HealthReason
  rollbacks : ℕ → HealthReason

pub record RolloutHealth : Type 0 where
  pub status : HealthStatus
  pub score : ℕ
  pub reasons : List HealthReason

pub record RolloutStatus (F64 : Type 0) : Type 0 where
  pub configured : Bool
  pub latest_generation : Option ℤ
  pub bundle_fingerprint : Option Str
  pub total_machines : ℕ
  pub active_machines : ℕ
  pub completed : ℕ
  pub remaining : ℕ
  pub never_synced : ℕ
  pub percentage : F64
  pub online : ℕ
  pub stale : ℕ
  pub offline : ℕ
  pub breakdown : RolloutBreakdown
  pub generations : List (GenerationDetail F64)
  pub eta : RolloutEta F64
  pub health : RolloutHealth

-- `*counts.entry(g).or_insert(0) += 1` on a map in the order of its keys.
unfoldable pub bump : ℤ → List (ℤ × ℕ) → List (ℤ × ℕ)
bump g [] = (g, 1) ∷ []
bump g ((h, n) ∷ counts) =
    let rest = bump g counts in
    if int_eq g h
    then (h, suc n) ∷ counts
    else if int_leb g h
    then (g, 1) ∷ (h, n) ∷ counts
    else (h, n) ∷ rest

-- The loop over the machines.
unfoldable pub population : List (ℤ × ℕ) → List MachineView → List (ℤ × ℕ)
unfolding bump
population counts [] = counts
population counts (m ∷ machines) =
    population (elim m.synced_generation [ none ↦ counts | some g ↦ bump g counts ]) machines

abbrev pub is_reachable : LivenessStatus → Bool
is_reachable online = true
is_reachable stale = true
is_reachable offline = false

module _ {Value : Type 0} (c : Chrono) (d : Metadata Value) where
  abbrev pub of_latest : Option ℤ → Option ℤ → Bool
  of_latest (some latest) (some g) = int_eq g latest
  of_latest _ _ = true

  unfoldable pub applies_last_hour : RolloutService Value → ℕ
  applies_last_hour s =
      count
        (λ (e : AuditEntry Value).
          text_eq e.event_type (lit "bundle.applied")
          && leb (s.now - eta_window_seconds * nanos_per_sec) e.recorded_at
          && of_latest s.latest_generation (d.meta_i64 e.metadata (lit "generation")))
        s.bundle_events

  abbrev pub count_events : Str → RolloutService Value → ℕ
  count_events event_type s =
      count (λ (e : AuditEntry Value). text_eq e.event_type event_type) s.bundle_events

  module _ {F64 : Type 0} (f : Floats F64) where
    unfoldable pub percentage : ℕ → ℕ → F64
    percentage part whole =
        if whole == 0
        then f.from 0
        else f.over
            (f.round
              (f.times (f.over (f.times (f.from part) (f.from 100)) (f.from whole)) (f.from 10)))
            (f.from 10)

    abbrev pub detail : RolloutService Value → ℤ × ℕ → GenerationDetail F64
    detail s (generation, machines) = record {
      generation = generation;
      machines = machines;
      percentage = percentage machines (length s.machines);
      is_latest = is_generation s.latest_generation generation;
    }

    unfoldable pub generations : RolloutService Value → List (GenerationDetail F64)
    unfolding population
    generations s = map (detail s) (population [] s.machines)

    abbrev pub eta_secs : ℕ → ℕ → ℕ
    eta_secs remaining applies =
        f.as_i64 (
          f.ceil (f.times (f.over (f.from remaining) (f.from applies)) (f.from eta_window_seconds)))

    -- The completed machines are among the active ones, so `remaining` is not negative.
    unfoldable pub eta : RolloutService Value → RolloutEta F64
    unfolding applies_last_hour
    eta s =
        let remaining = length (active c d s) - completed_count c d s in
        let applies = applies_last_hour s in
        let known = not (remaining == 0 || applies == 0) in
        record {
          complete = remaining == 0;
          remaining = remaining;
          applies_last_hour = applies;
          per_hour = f.from applies;
          eta_seconds = if known then some (eta_secs remaining applies) else none;
          estimated_completion =
              if known
              then some (c.to_rfc3339_secs (s.now + eta_secs remaining applies * nanos_per_sec))
              else none;
        }

    unfoldable pub health : RolloutService Value → RolloutHealth
    health s =
        let active_count = length (active c d s) in
        let completed = completed_count c d s in
        let remaining = active_count - completed in
        let pct = percentage completed active_count in
        let failures = count_events (lit "bundle.signature_failed") s in
        let rolled_back = count_events (lit "bundle.rollback") s in
        let reachable =
          count (λ (m : MachineView). not m.up_to_date && is_reachable m.liveness) (active c d s) in
        if ltb 0 failures
        then record {
          status = failed;
          score = f.as_u8 (f.times pct f.half);
          reasons = signature_failures failures ∷ [];
        }
        else if active_count == 0
        then record { status = healthy; score = 100; reasons = no_active_machines ∷ [] }
        else if remaining == 0
        then record { status = healthy; score = 100; reasons = all_on_latest active_count ∷ [] }
        else if reachable == 0
        then record {
          status = blocked;
          score = f.as_u8 pct;
          reasons = none_reachable remaining ∷ [];
        }
        else record {
          status = degraded;
          score = f.as_u8 pct;
          reasons =
              on_latest completed active_count remaining
              ∷ (if ltb 0 rolled_back then rollbacks rolled_back ∷ [] else []);
        }

    abbrev pub with_liveness : LivenessStatus → RolloutService Value → ℕ
    with_liveness l s = count (λ (m : MachineView). liveness_eq m.liveness l) s.machines

    abbrev never_synced_view : MachineView → Bool
    never_synced_view m = elim m.synced_generation [ none ↦ true | some g ↦ false ]

    unfoldable pub status : RolloutService Value → RolloutStatus F64
    unfolding breakdown generations eta health
    status s = record {
      configured = s.configured;
      latest_generation = s.latest_generation;
      bundle_fingerprint = s.bundle_fingerprint;
      total_machines = length s.machines;
      active_machines = length (active c d s);
      completed = completed_count c d s;
      remaining = length (active c d s) - completed_count c d s;
      never_synced = count never_synced_view s.machines;
      percentage = percentage (completed_count c d s) (length (active c d s));
      online = with_liveness online s;
      stale = with_liveness stale s;
      offline = with_liveness offline s;
      breakdown = breakdown c d s;
      generations = generations s;
      eta = eta s;
      health = health s;
    }
