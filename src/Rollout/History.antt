-- ===== src/Rollout/History.antt =====
-- `timeline` and `history` of src/rollout/service.rs, from their own searches of the audit log.
use mayfly_server.Prelude.{
  ℕ, suc, Str, lit, List, [], ◌∷◌, Option, none, some, Bool, any, ltb, length, map, text_eq, min,
  max, if◌then◌else◌,
}
use mayfly_server.Prelude.Int.{ℤ, pos, negsuc, int_eq, int_leb}
use mayfly_server.Prelude.Sort.{sort_by}
use mayfly_server.Prelude.Result.{Result, ok, ◌>>=◌}
use mayfly_server.Audit.Model.{AuditEntry}
use mayfly_server.Audit.Hash.{Externals}
use mayfly_server.Audit.Repository.{AuditTable}
use mayfly_server.Audit.Search.{AuditQuery, default_query, ascending, descending, search}
use mayfly_server.Machines.Store.{Chrono}
use mayfly_server.Rollout.Snapshot.{
  RolloutService, RolloutError, Metadata, audit, event_machine_id, loaded,
}
use mayfly_server.Rollout.Views.{is_generation}
use mayfly_server.Rollout.Health.{population}

abbrev timeline_max_limit : ℕ
timeline_max_limit = 500

abbrev history_event_scan : ℕ
history_event_scan = 1000

pub data Outcome : Type 0 where
  downloaded applied rolled_back verification_failed other : Outcome

pub record TimelineEvent : Type 0 where
  pub position : ℕ
  pub at : Str
  pub event_type : Str
  pub outcome : Outcome
  pub machine_id : Option Str
  pub generation : Option ℤ
  pub reason : Option Str

pub record RolloutTimeline : Type 0 where
  pub count : ℕ
  pub events : List TimelineEvent

pub record Agg : Type 0 where
  pub first : ℕ
  pub last : ℕ
  pub total : ℕ

pub record GenerationHistory : Type 0 where
  pub generation : ℤ
  pub is_latest : Bool
  pub machines_on_generation : ℕ
  pub first_applied_at : Option Str
  pub last_applied_at : Option Str
  pub total_applies : ℕ

pub record RolloutHistory : Type 0 where
  pub latest_generation : Option ℤ
  pub generations : List GenerationHistory

unfoldable pub outcome_of : Str → Outcome
outcome_of event_type =
    if text_eq event_type (lit "bundle.downloaded")
    then downloaded
    else if text_eq event_type (lit "bundle.applied")
    then applied
    else if text_eq event_type (lit "bundle.rollback")
    then rolled_back
    else if text_eq event_type (lit "bundle.signature_failed")
    then verification_failed
    else other

-- `limit.clamp(1, TIMELINE_MAX_LIMIT)`
abbrev pub timeline_limit : ℤ → ℕ
timeline_limit (negsuc n) = 1
timeline_limit (pos n) =
    if ltb n 1 then 1 else if ltb timeline_max_limit n then timeline_max_limit else n

abbrev pub timeline_query : ℤ → AuditQuery
timeline_query limit = record default_query {
  event_prefix = some (lit "bundle.");
  limit = pos (timeline_limit limit);
  order = descending;
}

abbrev pub history_query : AuditQuery
history_query = record default_query {
  event_type = some (lit "bundle.applied");
  limit = pos history_event_scan;
  order = ascending;
}

abbrev pub value_at : {A : Type 0} → ℤ → List (ℤ × A) → Option A
value_at g [] = none
value_at g ((h, a) ∷ entries) = if int_eq g h then some a else value_at g entries

-- `entry(gen).and_modify(…).or_insert(…)` on a map in the order of its keys.
unfoldable pub add_apply : ℤ → ℕ → List (ℤ × Agg) → List (ℤ × Agg)
add_apply g at [] = (g, record { first = at; last = at; total = 1 }) ∷ []
add_apply g at ((h, a) ∷ applies) =
    let rest = add_apply g at applies in
    if int_eq g h
    then (h, record { first = min a.first at; last = max a.last at; total = suc a.total }) ∷ applies
    else if int_leb g h
    then (g, record { first = at; last = at; total = 1 }) ∷ (h, a) ∷ applies
    else (h, a) ∷ rest

-- `for g in applies.keys() { if !gens.contains(g) { gens.push(*g) } }`, before the sort.
unfoldable pub union_keys : List ℤ → List ℤ → List ℤ
union_keys gens [] = gens
union_keys gens (g ∷ keys) = union_keys (if any (int_eq g) gens then gens else g ∷ gens) keys

abbrev first_of : {A : Type 0} → ℤ × A → ℤ
first_of (g, a) = g

abbrev or_zero : Option ℕ → ℕ
or_zero none = 0
or_zero (some n) = n

module _ {Value : Type 0} (x : Externals Value) (json_extract : Str → Str → Option Str) (c : Chrono)
    (d : Metadata Value) where
  abbrev pub timeline_event : AuditEntry Value → TimelineEvent
  timeline_event e = record {
    position = e.chain_position;
    at = c.to_rfc3339_secs e.recorded_at;
    event_type = e.event_type;
    outcome = outcome_of e.event_type;
    machine_id = event_machine_id c d e;
    generation = d.meta_i64 e.metadata (lit "generation");
    reason = d.meta_string e.metadata (lit "reason");
  }

  unfoldable pub timeline : AuditTable → ℤ → Result RolloutError RolloutTimeline
  unfolding outcome_of
  timeline log limit = do
    page ← loaded audit (search x json_extract log (timeline_query limit))
    ok (record { count = length page.entries; events = map timeline_event page.entries })

  -- The loop over the applied events.
  unfoldable pub collect_applies : List (ℤ × Agg) → List (AuditEntry Value) → List (ℤ × Agg)
  unfolding add_apply
  collect_applies applies [] = applies
  collect_applies applies (e ∷ events) =
      collect_applies
        (elim (d.meta_i64 e.metadata (lit "generation")) [
          | none ↦ applies
          | some g ↦ add_apply g e.recorded_at applies
        ])
        events

  abbrev shown : (Agg → ℕ) → Option Agg → Option Str
  shown instant none = none
  shown instant (some a) = some (c.to_rfc3339_secs (instant a))

  abbrev total_of : Option Agg → ℕ
  total_of none = 0
  total_of (some a) = a.total

  abbrev pub generation_history : Option ℤ → List (ℤ × ℕ) → List (ℤ × Agg) → ℤ → GenerationHistory
  generation_history latest counts applies g = record {
    generation = g;
    is_latest = is_generation latest g;
    machines_on_generation = or_zero (value_at g counts);
    first_applied_at = shown (λ (a : Agg). a.first) (value_at g applies);
    last_applied_at = shown (λ (a : Agg). a.last) (value_at g applies);
    total_applies = total_of (value_at g applies);
  }

  unfoldable pub history : RolloutService Value → AuditTable → Result RolloutError RolloutHistory
  unfolding collect_applies union_keys
  history s log = do
    page ← loaded audit (search x json_extract log history_query)
    let counts = population [] s.machines
    let applies = collect_applies [] page.entries
    let gens = sort_by int_leb (union_keys (map first_of counts) (map first_of applies))
    ok (record {
      latest_generation = s.latest_generation;
      generations = map (generation_history s.latest_generation counts applies) gens;
    })
