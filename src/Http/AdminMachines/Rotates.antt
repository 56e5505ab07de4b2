-- ===== src/Http/AdminMachines/Rotates.antt =====
-- The rotation of a machine's identity in src/routes/admin_machines.rs.
use mayfly_server.Prelude.{◌≡◌, refl, ℕ, ◌*◌, Str, List, [], ◌∷◌, ◌++◌, none, true, arith, inl, inr}
use mayfly_server.Prelude.Result.{Result, ok, ok_or, Result-cases}
use mayfly_server.Audit.Context.{Headers}
use mayfly_server.Audit.Model.{AuditEntry, NewAuditEntry}
use mayfly_server.Audit.Verifier.{append_audit_event}
use mayfly_server.AgentAuth.Nonce.{nanos_per_sec}
use mayfly_server.Machines.Models.{Machine, IssuedEnrollmentToken}
use mayfly_server.Machines.Token.{generate_token}
use mayfly_server.Machines.Store.{find_by_id, MachineRow}
use mayfly_server.Machines.Admin.{MachineAdminError}
use mayfly_server.Machines.Store.Tokens.{row_of_new_token, create}
use mayfly_server.Machines.Admin as Admin
use mayfly_server.Machines.Admin.Deletes.{delete_machine-gone}
use mayfly_server.Machines.Enrollment as Enrollment
use mayfly_server.Machines.Enrollment.{State, Registry, new_token}
use mayfly_server.Machines.Enrollment.Steps.{create-tokens}
use mayfly_server.Authz.{Identity}
use mayfly_server.Authz.Allows.{Permitted}
use mayfly_server.Http.Errors.{internal}
use mayfly_server.Http.Handler.{
  App, Handler, Member, append, lift, mapped, pure, ◌>>=◌, ◌>>◌, bind-ok, lift-bind, append-ok,
}
use mayfly_server.Http.Identity.{resolve_identity}
use mayfly_server.Http.AdminMachines.{
  MintEnrollmentTokenResponse, reissue_identity, replace_machine, mint_token, audit_machine,
  machine_event, token_members, on_machines, reenroll_token_ttl_seconds,
}
use mayfly_server.Http.AdminMachines.Guarded.{authorize_machine_admin-bind}

on_machines-bind :
    {A B : Type 0} (op : List MachineRow → Result MachineAdminError A × List MachineRow)
    (f : A → Handler B) (s s' : State) (b : B)
    → (on_machines op >>= f) s ≡ (ok b, s')
    → (a : A) × ((op s.registry.machines).0 ≡ ok a)
      × (f a (record s { registry = record s.registry { machines = (op s.registry.machines).1 } })
          ≡ (ok b, s'))
on_machines-bind op f s s' b h = elim (Result-cases (op s.registry.machines).0) [
  | inr (e, failed) ↦ absurd (ground arith)
  | inl (a, done) ↦ (a, done, rw done at h)
]

module _ {Value Key : Type 0} (app : App Value Key) where
  mint_token-bind :
      {B : Type 0} (token_id : Str) (bytes : List ℕ) (by : Str) (now : ℕ)
      (f : IssuedEnrollmentToken → Handler B) (s s' : State) (b : B)
      → (mint_token app token_id bytes by now >>= f) s ≡ (ok b, s')
      → (issued : IssuedEnrollmentToken) × (r : Registry) × (Enrollment.create_enrollment_token
            app.crates s.registry token_id bytes by
            (reenroll_token_ttl_seconds * nanos_per_sec)
            true
            now
          ≡ ok (issued, r))
        × (f issued (record s { registry = r }) ≡ (ok b, s'))
  unfolding mint_token
  mint_token-bind token_id bytes by now f s s' b h =
      elim (Result-cases (
        Enrollment.create_enrollment_token app.crates s.registry token_id bytes by
          (reenroll_token_ttl_seconds * nanos_per_sec) true now)) [
            | inr (e, failed) ↦ absurd (ground arith)
            | inl ((issued, r), created) ↦ (issued, r, created, rw created at h)
          ]

  create-machines :
      (token_id : Str) (bytes : List ℕ) (by : Str) (ttl now : ℕ) (r r' : Registry)
      (issued : IssuedEnrollmentToken)
      → Enrollment.create_enrollment_token app.crates r token_id bytes by ttl true now
        ≡ ok (issued, r')
      → (r'.machines ≡ r.machines)
        × (issued.issued.single_use ≡ true)
        × (issued.plaintext ≡ generate_token app.crates.hex_encode bytes)
  unfolding Enrollment.create_enrollment_token create
  create-machines token_id bytes by ttl now r r' issued h = ground arith

  audit-pure :
      {A : Type 0} (identity : Identity) (headers : Headers) (request_id action : Str)
      (machine : Machine) (extra : List (Str × Member Value)) (now : ℕ) (a b : A) (s s' : State)
      → (audit_machine app identity headers request_id action machine extra now >> pure a) s
        ≡ (ok b, s')
      → (a ≡ b)
        × (s'.registry ≡ s.registry)
        × ((e : AuditEntry Value) × (append_audit_event app.crates.audit s.audit_log
                (machine_event app identity headers request_id action machine extra now)
                now
              ≡ ok (e, s'.audit_log)))
  unfolding audit_machine
  audit-pure identity headers request_id action machine extra now a b s s' h =
      let event = machine_event app identity headers request_id action machine extra now in
      let (u, t, written, done) = bind-ok (append app event now) (λ u. pure a) s s' b h in
      let (e, logged, kept) = append-ok app event now s t u written in
      (ground arith, ground (arith, kept), (e, ground (arith, logged)))

  -- A re-enrollment or identity rotation that is answered was asked for by a permitted operator: the
  -- machine is gone from the registry, exactly one enrollment token has been added, which is
  -- single-use, valid for an hour and created in the operator's name, and its text is returned; the
  -- audit log is extended by one event of this action in the operator's name.
  pub reissue_identity-rotates :
      (headers : Headers) (request_id token id action token_id : Str) (bytes : List ℕ) (now : ℕ)
      (s s' : State) (r : MintEnrollmentTokenResponse)
      → reissue_identity app headers request_id token id token_id bytes action now s ≡ (ok r, s')
      → (identity : Identity) × (resolve_identity app none token ≡ ok identity)
        × Permitted app.access identity
        × (find_by_id app.crates.chrono s'.registry.machines id ≡ ok none)
        × (s'.registry.tokens
            ≡ s.registry.tokens
              ++ row_of_new_token app.crates.chrono (
                  new_token app.crates token_id
                    (generate_token app.crates.hex_encode bytes)
                    identity.username
                    (reenroll_token_ttl_seconds * nanos_per_sec)
                    true
                    now)
                ∷ [])
        × (r.single_use ≡ true)
        × (r.token ≡ generate_token app.crates.hex_encode bytes)
        × ((event : NewAuditEntry Value) × (e : AuditEntry Value) × (event.event_type ≡ action)
            × (event.actor ≡ identity.username)
            × (append_audit_event app.crates.audit s.audit_log event now ≡ ok (e, s'.audit_log)))
  unfolding reissue_identity replace_machine machine_event
  reissue_identity-rotates headers request_id token id action token_id bytes now s s' r h =
      let (identity, resolved, permitted, replaced) =
        authorize_machine_admin-bind app token action now
          (replace_machine app headers request_id id token_id bytes action now) s s' r h in
      let (ca, configured, rest) =
        lift-bind (ok_or app.ca internal)
          (λ ca. lift (mapped (λ e. internal) ca.primary_public_key) >>= λ key. minting identity) s
          s' r replaced in
      let (key, readable, deleting) =
        lift-bind (mapped (λ e. internal) ca.primary_public_key) (λ key. minting identity) s s' r
          rest in
      let (old, deleted, minting_rest) =
        on_machines-bind (λ rows. Admin.delete_machine app.crates.chrono rows id)
          (after_delete identity) s s' r deleting in
      let middle : State = record s {
        registry = record s.registry {
          machines = (Admin.delete_machine app.crates.chrono s.registry.machines id).1;
        };
      } in
      let (issued, registry, created, auditing) =
        mint_token-bind token_id bytes identity.username now (answer identity old) middle s' r
          minting_rest in
      let (same_machines, once, plain) =
        create-machines token_id bytes identity.username
          (reenroll_token_ttl_seconds * nanos_per_sec) now middle.registry registry issued
          created in
      let (answered, kept, logged) =
        audit-pure identity headers request_id action old (token_members app issued) now
          (response issued) r (record middle { registry = registry }) s' auditing in
      (
        identity,
        resolved,
        permitted,
        rw (kept, same_machines)
            (delete_machine-gone app.crates.chrono s.registry.machines id old deleted),
        rw kept (
            create-tokens app.crates token_id bytes identity.username
              (reenroll_token_ttl_seconds * nanos_per_sec) true now middle.registry registry issued
              created),
        rw (← answered) once,
        rw (← answered) plain,
        (
          machine_event app identity headers request_id action old (token_members app issued) now,
          logged.0,
          refl,
          refl,
          logged.1,
        ),
      )
    where
      response : IssuedEnrollmentToken → MintEnrollmentTokenResponse
      response issued = record {
        token = issued.plaintext;
        id = issued.issued.id;
        expires_at = app.to_rfc3339 issued.issued.expires_at;
        single_use = issued.issued.single_use;
      }

      answer : Identity → Machine → IssuedEnrollmentToken → Handler MintEnrollmentTokenResponse
      answer identity old issued =
          audit_machine app identity headers request_id action old (token_members app issued) now
          >> pure (response issued)

      after_delete : Identity → Machine → Handler MintEnrollmentTokenResponse
      after_delete identity old =
          mint_token app token_id bytes identity.username now >>= answer identity old

      minting : Identity → Handler MintEnrollmentTokenResponse
      minting identity =
          on_machines (λ rows. Admin.delete_machine app.crates.chrono rows id)
          >>= after_delete identity
