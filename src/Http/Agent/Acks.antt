-- ===== src/Http/Agent/Acks.antt =====
-- What an acknowledgement and a fetch of src/routes/ca_bundle.rs do.
use mayfly_server.Prelude.{
  lit, any, count, ap, ◌∙◌, ◌++◌, ◌∷◌, [], ◌≤◌, map, is_empty, len, to_ascii_lowercase, ◌≡◌, inl,
  inr, refl, arith, ℕ, Str, List, Option, some, Bool, true, false, not, trim, if◌then◌else◌,
  Bool-cases,
}
use mayfly_server.Prelude.Int.{ℤ, is_negative}
use mayfly_server.Prelude.Result.{ok, ok_or, reject_if}
use mayfly_server.Audit.Model.{AuditEntry, NewAuditEntry}
use mayfly_server.Audit.Verifier.{append_audit_event}
use mayfly_server.Machines.Models.{Machine}
use mayfly_server.Machines.Store.{MachineRow, has_id, update_rows}
use mayfly_server.Machines.Enrollment.{State}
use mayfly_server.Bundle.Fleet.{
  AckOutcome, parse_outcome, audit_event, is_success, record_applied, synced, machine_exists,
}
use mayfly_server.Http.Errors.{ApiError, bad_request}
use mayfly_server.Http.Handler.{
  App, Handler, append, lift, pure, ◌>>=◌, ◌>>◌, bind-ok, lift-bind, ok_or-ok, append-ok,
}
use mayfly_server.Http.Agent.{
  BundleService, BundleAckRequest, BundleAckResponse, require_bundle, apply_outcome, bundle_event,
  record_outcome, check_named, is_bad_fingerprint, ack_ca_bundle, unknown,
}
use mayfly_server.Http.Agent.Outcomes.{
  Reported, IsAckEvent, parse_outcome-Reported, bundle_event-IsAckEvent,
}

rejected-ok : (test : Bool) (e : ApiError) (u : Unit {0}) → reject_if test e ≡ ok u → test ≡ false
rejected-ok true e u h = absurd (ground arith)
rejected-ok false e u h = refl

any-count : {A : Type 0} (p : A → Bool) (xs : List A) → any p xs ≡ false → count p xs ≡ 0
any-count p [] h = refl
any-count p (x ∷ xs) h = ground (arith, any-count p xs)

module _ {Value Key : Type 0} (app : App Value Key) (bundles : Option BundleService) where
  -- The rows after an outcome: a successful one is written, at the generation and the fingerprint
  -- that the agent named.
  abbrev pub rows_after :
      AckOutcome → Str → BundleAckRequest → ℕ → List MachineRow → List MachineRow
  rows_after outcome machine_id ack now rows =
      if is_success outcome
      then update_rows (has_id machine_id)
          (synced app.crates.chrono ack.generation (trim ack.fingerprint) now) rows
      else rows

  apply_outcome-ok :
      (outcome : AckOutcome) (machine_id : Str) (ack : BundleAckRequest) (now : ℕ) (s t : State)
      (known : Bool)
      → apply_outcome app bundles outcome machine_id ack.generation (trim ack.fingerprint) now s
        ≡ (ok known, t)
      → (t.registry.machines ≡ rows_after outcome machine_id ack now s.registry.machines)
        × (t.registry.tokens ≡ s.registry.tokens)
        × (t.audit_log ≡ s.audit_log)
  unfolding apply_outcome record_applied
  apply_outcome-ok outcome machine_id ack now s t known h = elim (Bool-cases (is_success outcome)) [
    | inl success ↦ ground arith
    | inr other ↦ ground arith
  ]

  apply_outcome-known :
      (outcome : AckOutcome) (machine_id : Str) (generation : ℤ) (fingerprint : Str) (now : ℕ)
      (s t : State) (known : Bool)
      → apply_outcome app bundles outcome machine_id generation fingerprint now s ≡ (ok known, t)
      → not known ≡ false
      → any (has_id machine_id) s.registry.machines ≡ true
  unfolding apply_outcome record_applied machine_exists
  apply_outcome-known outcome machine_id generation fingerprint now s t known h k =
      elim (Bool-cases (is_success outcome)) [
        | inl success ↦ ground (arith, any-count (has_id machine_id) s.registry.machines)
        | inr other ↦ ground arith
      ]

  -- The state after an outcome is recorded, with the audit event for it.
  abbrev pub Recorded : AckOutcome → Str → BundleAckRequest → ℕ → State → State → Type 0
  Recorded outcome machine_id ack now s s' =
      (any (has_id machine_id) s.registry.machines ≡ true)
      × (s'.registry.machines ≡ rows_after outcome machine_id ack now s.registry.machines)
      × (s'.registry.tokens ≡ s.registry.tokens)
      × ((e : AuditEntry Value) × (append_audit_event app.crates.audit s.audit_log
              (bundle_event app bundles outcome machine_id ack (trim ack.fingerprint)) now
            ≡ ok (e, s'.audit_log)))

  record_outcome-Recorded :
      (outcome : AckOutcome) (machine_id : Str) (ack : BundleAckRequest) (now : ℕ) (s s' : State)
      (r : BundleAckResponse)
      → record_outcome app bundles outcome machine_id ack (trim ack.fingerprint) now s ≡ (ok r, s')
      → Recorded outcome machine_id ack now s s'
  unfolding record_outcome
  record_outcome-Recorded outcome machine_id ack now s s' r h =
      let event = bundle_event app bundles outcome machine_id ack (trim ack.fingerprint) in
      let answer : BundleAckResponse = record {
        status = lit "recorded";
        generation = ack.generation;
      } in
      let finish : Handler BundleAckResponse = append app event now >> pure answer in
      let (known, t, applied, h1) =
        bind-ok
          (apply_outcome app bundles outcome machine_id ack.generation (trim ack.fingerprint) now)
          (λ known. lift (reject_if (not known) (unknown app bundles)) >> finish) s s' r h in
      let (u, passed, h2) =
        lift-bind (reject_if (not known) (unknown app bundles)) (λ u. finish) t s' r h1 in
      let (v, w, logged, h3) = bind-ok (append app event now) (λ v. pure answer) t s' r h2 in
      let (e, appended, kept) = append-ok app event now t w v logged in
      let (machines, tokens, log) = apply_outcome-ok outcome machine_id ack now s t known applied in
      let same : w ≡ s' = ground arith in
      let registry : s'.registry ≡ t.registry = cc (same, kept) in
      (
        apply_outcome-known outcome machine_id ack.generation (trim ack.fingerprint) now s t known
            applied (rejected-ok (not known) (unknown app bundles) u passed),
        ap (λ r. r.machines) registry ∙ machines,
        ap (λ r. r.tokens) registry ∙ tokens,
        (e, cc (appended, same, log)),
      )

  -- The state after the acknowledgement, by the type of its event and whether it is written.
  abbrev pub Acknowledged : Str → Bool → Machine → BundleAckRequest → ℕ → State → State → Type 0
  Acknowledged event_type written machine ack now s s' =
      (any (has_id machine.machine_id) s.registry.machines ≡ true)
      × (s'.registry.machines ≡ (
          if written
          then update_rows (has_id machine.machine_id)
              (λ row. record row {
                synced_generation = some ack.generation;
                bundle_fingerprint = some (trim ack.fingerprint);
                last_sync = some (app.crates.chrono.to_rfc3339_millis now);
              })
              s.registry.machines
          else s.registry.machines))
      × (s'.registry.tokens ≡ s.registry.tokens)
      × ((event : NewAuditEntry Value) × (e : AuditEntry Value) × IsAckEvent app bundles event_type
            machine ack event
          × (append_audit_event app.crates.audit s.audit_log event now ≡ ok (e, s'.audit_log)))

  -- An acknowledgement that is answered with success has a generation that is not negative and,
  -- trimmed, a fingerprint of 1 to 128 bytes and, up to case, one of the words `applied`, `success`,
  -- `rollback`, `rolled_back` and `signature_failed`, and its machine is in the table. The first two
  -- words alone are written to the rows of this machine: the generation and the fingerprint of the
  -- request and the time; the machines are otherwise as before, and so are the tokens. The audit log has been extended by an event of the
  -- agent about this machine, whose type is `bundle.applied`, `bundle.rollback` or
  -- `bundle.signature_failed` by the word, with the request's generation and fingerprint.
  pub ack_ca_bundle-Recorded :
      (machine : Machine) (ack : BundleAckRequest) (now : ℕ) (s s' : State) (r : BundleAckResponse)
      → ack_ca_bundle app bundles machine ack now s ≡ (ok r, s')
      → (event_type : Str) × (written : Bool) × Reported
          (map to_ascii_lowercase (trim ack.status))
          event_type
          written
        × (is_negative ack.generation ≡ false)
        × (is_empty (trim ack.fingerprint) ≡ false)
        × (len (trim ack.fingerprint) ≤ 128)
        × Acknowledged event_type written machine ack now s s'
  unfolding ack_ca_bundle
  ack_ca_bundle-Recorded machine ack now s s' r h =
      let bad : ApiError = bad_request (lit "unknown ack status '" ++ ack.status ++ lit "'") in
      let negative : ApiError = bad_request (lit "generation must not be negative") in
      let invalid : ApiError = bad_request (lit "invalid fingerprint") in
      let id = machine.machine_id in
      let (service, configured, h1) =
        lift-bind (require_bundle app bundles)
          (λ service.
            lift (ok_or (parse_outcome ack.status) bad) >>= check_named app bundles id ack now)
          s s' r h in
      let (outcome, known, h2) =
        lift-bind (ok_or (parse_outcome ack.status) bad) (check_named app bundles id ack now) s s' r
          h1 in
      let finish : Handler BundleAckResponse =
        record_outcome app bundles outcome id ack (trim ack.fingerprint) now in
      let (u, positive, h3) =
        lift-bind (reject_if (is_negative ack.generation) negative)
          (λ u.
            lift (reject_if (is_bad_fingerprint app bundles (trim ack.fingerprint)) invalid)
            >> finish)
          s s' r h2 in
      let (v, sound, h4) =
        lift-bind (reject_if (is_bad_fingerprint app bundles (trim ack.fingerprint)) invalid)
          (λ v. finish) s s' r h3 in
      let fits =
        rejected-ok (is_bad_fingerprint app bundles (trim ack.fingerprint)) invalid v sound in
      let (known_machine, machines, tokens, (e, logged)) =
        record_outcome-Recorded outcome id ack now s s' r h4 in
      (
        audit_event outcome,
        is_success outcome,
        parse_outcome-Reported ack.status outcome
            (ok_or-ok (parse_outcome ack.status) bad outcome known),
        rejected-ok (is_negative ack.generation) negative u positive,
        ground arith,
        ground arith,
        (
          known_machine,
          machines,
          tokens,
          (
            bundle_event app bundles outcome id ack (trim ack.fingerprint),
            e,
            bundle_event-IsAckEvent app bundles outcome machine ack,
            logged,
          ),
        ),
      )
