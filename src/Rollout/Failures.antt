-- ===== src/Rollout/Failures.antt =====
-- The failures that src/rollout/service.rs collects from the audit log.
use mayfly_server.Prelude.{
  ◌≡◌, refl, ap, ◌∙◌, Str, List, [], ◌∷◌, Option, none, some, Bool, true, false, ◌&&◌, leb, any,
  find, lit, ◌||◌, text_eq, text_eq_iff, arith, if◌then◌else◌, Bool-cases, Option-cases, inl, inr,
  ℕ,
}
use mayfly_server.Prelude.Result.{ok, Result-cases}
use mayfly_server.Audit.Model.{AuditEntry}
use mayfly_server.Audit.Hash.{Externals}
use mayfly_server.Audit.Repository.{AuditTable}
use mayfly_server.Machines.Store.{Chrono, MachineRow}
use mayfly_server.Machines.Validation.{SshKeys}
use mayfly_server.Machines.Admin as Admin
use mayfly_server.Machines.Admin.{MachineView}
use mayfly_server.Audit.Search.{search}
use mayfly_server.Rollout.Snapshot.{
  RolloutService, MachineFailure, RecentFailure, Metadata, generation_of, no_filter,
  recent_bundle_events, is_failure_event, has_machine, failure_of, or_else, event_machine_id,
  recent_failure, or_insert, insert_event, collect_failures, effective_failure, load,
}

module _ {A : Type 0} (p : A → Bool) where
  find-none : (xs : List A) → any p xs ≡ false → find p xs ≡ none
  find-none [] h = refl
  find-none (x ∷ xs) h = ground (arith, find-none xs)

  find-some : (xs : List A) → any p xs ≡ true → (a : A) × (find p xs ≡ some a)
  find-some [] h = ground arith
  find-some (x ∷ xs) h = elim (Bool-cases (p x)) [
    | inl holds ↦ (x, rw holds refl)
    | inr fails ↦ let (a, found) = find-some xs (ground arith) in (a, rw fails found)
  ]

module _ {Value : Type 0} (c : Chrono) (d : Metadata Value) where
  -- The event is a rollback or a signature failure of the machine that its subject names, or else
  -- its metadata.
  unfoldable pub is_failure_of : Str → AuditEntry Value → Bool
  is_failure_of mid e =
      (text_eq e.event_type (lit "bundle.rollback")
        || text_eq e.event_type (lit "bundle.signature_failed"))
      && elim (or_else e.subject (d.meta_string e.metadata (lit "machine_id"))) [
        | none ↦ false
        | some id ↦ text_eq id mid
      ]

  abbrev known : List (Str × RecentFailure) → Str → Option RecentFailure
  known failures mid = failure_of (find (has_machine mid) failures)

  abbrev recorded : Option (AuditEntry Value) → Option RecentFailure
  recorded none = none
  recorded (some e) = some (recent_failure c d e)

  or_else-none : (o : Option RecentFailure) → o ≡ or_else o none
  or_else-none none = refl
  or_else-none (some rf) = refl

  or_else_assoc : (o p q : Option RecentFailure) → or_else (or_else o p) q ≡ or_else o (or_else p q)
  or_else_assoc none p q = refl
  or_else_assoc (some rf) p q = refl

  known-or_insert :
      (failures : List (Str × RecentFailure)) (id : Str) (rf : RecentFailure) (mid : Str)
      → known (or_insert c d failures id rf) mid
        ≡ or_else (known failures mid) (if text_eq id mid then some rf else none)
  known-or_insert failures id rf mid = elim (Bool-cases (text_eq id mid)) [
    | inl equal ↦
        let same = ap (λ i. any (has_machine i) failures) ((text_eq_iff id mid).0 equal) in
        elim (Bool-cases (any (has_machine mid) failures)) [
          | inl there ↦
              let (a, found) = find-some (has_machine mid) failures there in
              rw (same, there, equal, found) refl
          | inr absent ↦
              let found = find-none (has_machine mid) failures absent in
              rw (same, absent, equal, found) refl
        ]
    | inr other ↦ elim (Bool-cases (any (has_machine id) failures)) [
      | inl there ↦ rw (there, other) (or_else-none (known failures mid))
      | inr absent ↦ rw (absent, other) (or_else-none (known failures mid))
    ]
  ]

  -- What one event adds is known of its machine only, and only if nothing was.
  known-insert_event :
      (failures : List (Str × RecentFailure)) (e : AuditEntry Value) (mid : Str)
      → known (insert_event c d failures e) mid
        ≡ or_else
            (known failures mid)
            (if is_failure_of mid e then some (recent_failure c d e) else none)
  unfolding is_failure_of event_machine_id
  known-insert_event failures e mid = elim (Bool-cases (is_failure_event e.event_type)) [
    | inr other ↦ rw other (or_else-none (known failures mid))
    | inl failed ↦ elim (Option-cases (event_machine_id c d e)) [
      | inl nobody ↦ rw (failed, nobody) (or_else-none (known failures mid))
      | inr (id, named) ↦
          rw (failed, named) (known-or_insert failures id (recent_failure c d e) mid)
    ]
  ]

  known-collect_failures :
      (failures : List (Str × RecentFailure)) (events : List (AuditEntry Value)) (mid : Str)
      → known (collect_failures c d failures events) mid
        ≡ or_else (known failures mid) (recorded (find (is_failure_of mid) events))
  unfolding collect_failures
  known-collect_failures failures [] mid = or_else-none (known failures mid)
  known-collect_failures failures (e ∷ events) mid = elim (Bool-cases (is_failure_of mid e)) [
    | inl h ↦
        rw
          (
            known-collect_failures (insert_event c d failures e) events mid,
            known-insert_event failures e mid,
            h,
          )
          (or_else_assoc (known failures mid) (some (recent_failure c d e))
            (recorded (find (is_failure_of mid) events)))
    | inr h ↦
        rw
          (
            known-collect_failures (insert_event c d failures e) events mid,
            known-insert_event failures e mid,
            h,
          )
          (or_else_assoc (known failures mid) none (recorded (find (is_failure_of mid) events)))
  ]

  abbrev pub synced_at : Option Str → Option ℕ
  synced_at none = none
  synced_at (some t) = c.parse_from_rfc3339 t

  -- The last sync that the view shows is the instant or after it.
  abbrev pub is_recovered : Option ℕ → ℕ → Bool
  is_recovered none at = false
  is_recovered (some last_sync) at = leb at last_sync

  abbrev fresh : Option ℕ → Option RecentFailure → Option MachineFailure
  fresh sync none = none
  fresh sync (some rf) = if is_recovered sync rf.at then none else some rf.failure

  -- What a machine shows, if this is its newest failure: the view's last sync, which is written in
  -- whole seconds, is compared with the event's instant.
  unfoldable pub shown : MachineView → Option (AuditEntry Value) → Option MachineFailure
  shown m none = none
  shown m (some e) =
      if is_recovered (synced_at m.last_sync) e.recorded_at
      then none
      else some (record {
        event_type = e.event_type;
        generation = d.meta_i64 e.metadata (lit "generation");
        reason = d.meta_string e.metadata (lit "reason");
        at = c.to_rfc3339_secs e.recorded_at;
      })

  fresh-recorded :
      (m : MachineView) (o : Option (AuditEntry Value))
      → fresh (synced_at m.last_sync) (recorded o) ≡ shown m o
  unfolding shown
  fresh-recorded m none = refl
  fresh-recorded m (some e) = refl

  effective_failure-known :
      (s : RolloutService Value) (m : MachineView)
      → effective_failure c d s m ≡ fresh (synced_at m.last_sync) (known s.failures m.machine_id)
  unfolding effective_failure
  effective_failure-known s m = elim (Option-cases (known s.failures m.machine_id)) [
    | inl never ↦ rw (never, effective_failure) refl
    | inr (rf, found) ↦ elim (Option-cases m.last_sync) [
      | inl unsynced ↦ rw (found, unsynced, effective_failure) refl
      | inr (t, synced) ↦ elim (Option-cases (c.parse_from_rfc3339 t)) [
        | inl unparsed ↦ rw (found, synced, unparsed, effective_failure) refl
        | inr (at, parsed) ↦ rw (found, synced, parsed, effective_failure) refl
      ]
    ]
  ]

  effective_failure-collected :
      (s : RolloutService Value) (m : MachineView)
      → s.failures ≡ collect_failures c d [] s.bundle_events
      → effective_failure c d s m ≡ shown m (find (is_failure_of m.machine_id) s.bundle_events)
  effective_failure-collected s m collected =
      effective_failure-known s m
      ∙ ap (fresh (synced_at m.last_sync)) (
          ap (λ (f : List (Str × RecentFailure)). known f m.machine_id) collected
          ∙ known-collect_failures [] s.bundle_events m.machine_id)
      ∙ fresh-recorded m (find (is_failure_of m.machine_id) s.bundle_events)

module _ {Value Key : Type 0} (x : Externals Value) (json_extract : Str → Str → Option Str)
    (c : Chrono) (d : Metadata Value) (k : SshKeys Key) (to_lowercase : Str → Str) where
  load-collected :
      (rows : List MachineRow) (ca : Option (ℕ × Str)) (configured : Bool) (log : AuditTable)
      (now : ℕ) (s : RolloutService Value)
      → load x json_extract c d k to_lowercase rows ca configured log now ≡ ok s
      → s.failures ≡ collect_failures c d [] s.bundle_events
  unfolding load
  load-collected rows ca configured log now s loaded =
      elim (Result-cases (Admin.list c k to_lowercase rows now (generation_of ca) no_filter)) [
        | inr (e, failed) ↦ absurd (ground arith)
        | inl (machines, listed) ↦
            elim (Result-cases (
              search x json_extract log
                (recent_bundle_events x json_extract c d k to_lowercase now))) [
                  | inr (e, failed) ↦ absurd (ground arith)
                  | inl (page, found) ↦ ground arith
                ]
      ]

  -- On a snapshot that was loaded, a machine shows the failure of the first fetched event that is a
  -- rollback or a signature failure of that machine, with the event's type, generation, reason and
  -- time, unless the last sync of the machine's view, read back from its text in whole seconds, is
  -- that event's instant or later; then, and if no fetched event is such a failure, it shows none.
  pub load-effective_failure :
      (rows : List MachineRow) (ca : Option (ℕ × Str)) (configured : Bool) (log : AuditTable)
      (now : ℕ) (s : RolloutService Value) (m : MachineView)
      → load x json_extract c d k to_lowercase rows ca configured log now ≡ ok s
      → effective_failure c d s m
        ≡ shown c d m (find (is_failure_of c d m.machine_id) s.bundle_events)
  load-effective_failure rows ca configured log now s m loaded =
      effective_failure-collected c d s m (load-collected rows ca configured log now s loaded)
