-- ===== src/Http/Tests.antt =====
-- Runs of src/routes.
use mayfly_server.Prelude.{
  ◌≡◌, refl, ◌*◌, Str, lit, [], ◌∷◌, none, some, true, text_eq, eq_ignore_ascii_case, ◌+◌,
}
use mayfly_server.Prelude.Result.{Result, ok}
use mayfly_server.Audit.Model.{AuditEntry, NewAuditEntry}
use mayfly_server.Audit.Context.{Headers}
use mayfly_server.Audit.Verifier.{append_audit_event}
use mayfly_server.Machines.Enrollment.{State}
use mayfly_server.Authz.{Identity}
use mayfly_server.Authz.Allows.{Permitted}
use mayfly_server.Auth.Registry.{new, register, get, resolve}
use mayfly_server.Ca.Sign.{CertificateResponse}
use mayfly_server.Http.Errors.{ApiError}
use mayfly_server.Http.Handler.{CaManager, append}
use mayfly_server.Audit.Repository.{append_entry, insert_row}
use mayfly_server.Audit.Hash.{canonicalize}
use mayfly_server.Machines.Admin
use mayfly_server.Machines.Models.{MachineStatus, from_db_str}
use mayfly_server.Machines.Token.{generate_token}
use mayfly_server.Machines.Store.{find_by_id, machine_of_row, delete}
use mayfly_server.Machines.Store.Tokens.{row_of_new_token, create}
use mayfly_server.Machines.Enrollment.{new_token, create_enrollment_token}
use mayfly_server.Authz.{authorize, contains_ci}
use mayfly_server.Http.AdminMachines.{
  MintEnrollmentTokenResponse, set_lifecycle, delete_machine, reissue_identity, audit_machine,
}
use mayfly_server.Http.AdminMachines.Rotates.{reissue_identity-rotates}
use mayfly_server.Http.AdminMachines.Guarded.{IsOperator, Refuses, mutations-Refuses}
use mayfly_server.Http.Identity.{resolve_identity, authorize_machine_admin}
use mayfly_server.Http.Issue.{IssueCertificateRequest, issue, IsIssuance, issue-Permitted}
use mayfly_server.Http.Toy.{app, state, certificate}

abbrev no_headers : Headers
no_headers name = none

abbrev request : IssueCertificateRequest
request = record {
  public_key = lit "ssh-ed25519 A";
  hostname = lit "web-1";
  ttl_seconds = 0;
  provider = none;
}

abbrev issued : Result ApiError CertificateResponse × State
issued = issue app no_headers (lit "r1") (lit "good") request 5_000_000 state

issued_run : issued ≡ (ok certificate, issued.1)
unfolding issue resolve_identity resolve get register text_eq new authorize contains_ci
    eq_ignore_ascii_case append append_audit_event append_entry canonicalize insert_row
issued_run = refl

issue-Permitted_example :
    (ca : CaManager) × (identity : Identity) × (app.ca ≡ some ca)
    × (resolve_identity app none (lit "good") ≡ ok identity)
    × Permitted app.access identity
    × (ca.sign_certificate (record {
      principal = identity.username;
      hostname = lit "web-1";
      public_key = lit "ssh-ed25519 A";
      ttl_seconds = 0;
    })
        ≡ ok certificate)
    × ((event : NewAuditEntry Str) × (e : AuditEntry Str) × IsIssuance app request identity
          certificate event
        × (append_audit_event app.crates.audit state.audit_log event 5_000_000
            ≡ ok (e, issued.1.audit_log)))
    × (issued.1.registry ≡ state.registry)
issue-Permitted_example =
    issue-Permitted app no_headers (lit "r1") (lit "good") request 5_000_000 state issued.1
      certificate issued_run

stranger : ¬ IsOperator app (lit "bad")
unfolding resolve_identity resolve get register text_eq new
stranger (identity, resolved, permitted) = cc

mutations-Refuses_example :
    Refuses app
      (set_lifecycle app no_headers
        (lit "r1")
        (lit "bad")
        (lit "m1")
        MachineStatus.revoked
        (lit "machine.revoked")
        5_000_000)
      state
    × Refuses app (delete_machine app no_headers (lit "r1") (lit "bad") (lit "m1") 5_000_000) state
    × Refuses app
        (reissue_identity app no_headers
          (lit "r1")
          (lit "bad")
          (lit "m1")
          (lit "t1")
          (7 ∷ [])
          (lit "machine.revoked")
          5_000_000)
        state
mutations-Refuses_example =
    mutations-Refuses app no_headers (lit "r1") (lit "bad") (lit "m1") (lit "machine.revoked")
      (lit "t1") (7 ∷ []) MachineStatus.revoked 5_000_000 state stranger

abbrev rotated : Result ApiError MintEnrollmentTokenResponse × State
rotated =
    reissue_identity app no_headers (lit "r1") (lit "good") (lit "m1") (lit "t1") (7 ∷ [])
      (lit "machine.reenroll_requested") 5_000_000 state

abbrev minted : MintEnrollmentTokenResponse
minted = record {
  token = generate_token app.crates.hex_encode (7 ∷ []);
  id = lit "t1";
  expires_at = app.to_rfc3339 (5_000_000 + 3600 * 1_000_000_000);
  single_use = true;
}

rotated_run : rotated ≡ (ok minted, rotated.1)
unfolding reissue_identity authorize_machine_admin resolve_identity resolve get register text_eq new
    authorize contains_ci eq_ignore_ascii_case append append_audit_event append_entry canonicalize
    insert_row mayfly_server.Machines.Admin.delete_machine find_by_id machine_of_row from_db_str
    delete create_enrollment_token create audit_machine
rotated_run = refl

reissue_identity-rotates_example :
    (identity : Identity) × (resolve_identity app none (lit "good") ≡ ok identity)
    × Permitted app.access identity
    × (find_by_id app.crates.chrono rotated.1.registry.machines (lit "m1") ≡ ok none)
    × (rotated.1.registry.tokens
        ≡ row_of_new_token app.crates.chrono (
            new_token app.crates
              (lit "t1")
              (generate_token app.crates.hex_encode (7 ∷ []))
              identity.username
              (3600 * 1_000_000_000)
              true
              5_000_000)
          ∷ [])
    × (minted.single_use ≡ true)
    × (minted.token ≡ generate_token app.crates.hex_encode (7 ∷ []))
    × ((event : NewAuditEntry Str) × (e : AuditEntry Str) × (event.event_type
          ≡ lit "machine.reenroll_requested")
        × (event.actor ≡ identity.username)
        × (append_audit_event app.crates.audit state.audit_log event 5_000_000
            ≡ ok (e, rotated.1.audit_log)))
reissue_identity-rotates_example =
    reissue_identity-rotates app no_headers (lit "r1") (lit "good") (lit "m1")
      (lit "machine.reenroll_requested") (lit "t1") (7 ∷ []) 5_000_000 state rotated.1 minted
      rotated_run
