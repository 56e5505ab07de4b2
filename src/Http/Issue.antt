-- ===== src/Http/Issue.antt =====
-- `issue` of src/routes/certificates.rs: authenticate, authorize, sign, audit.
use mayfly_server.Prelude.{◌≡◌, refl, ℕ, Str, lit, List, [], ◌∷◌, Option, some, arith, inl, inr}
use mayfly_server.Prelude.Int.{pos}
use mayfly_server.Prelude.Result.{ok, ok_or, Result-cases}
use mayfly_server.Audit.Model.{AuditEntry, NewAuditEntry}
use mayfly_server.Audit.Context.{Headers}
use mayfly_server.Audit.Verifier.{append_audit_event}
use mayfly_server.Machines.Enrollment.{State}
use mayfly_server.Authz.{Identity, authorize}
use mayfly_server.Authz.Allows.{Permitted, authorize_iff}
use mayfly_server.Ca.Sign.{CertificateRequest, CertificateResponse}
use mayfly_server.Ca.Errors.{of_ca_error}
use mayfly_server.Http.Errors.{internal}
use mayfly_server.Http.Handler.{
  App, CaManager, Handler, Member, text, optional, number, texts, nested, append, lift, mapped,
  pure, ◌>>=◌, ◌>>◌, bind-ok, lift-bind, ok_or-ok, append-ok,
}
use mayfly_server.Http.Identity.{resolve_identity, reason, client_context, admitted, admitted-bind}

pub record IssueCertificateRequest : Type 0 where
  pub public_key : Str
  pub hostname : Str
  pub ttl_seconds : ℕ
  pub provider : Option Str

unfoldable pub certificate_request : IssueCertificateRequest → Identity → CertificateRequest
certificate_request request identity = record {
  principal = identity.username;
  hostname = request.hostname;
  public_key = request.public_key;
  ttl_seconds = request.ttl_seconds;
}

module _ {Value Key : Type 0} (app : App Value Key) where
  unfoldable pub certificate_denied : IssueCertificateRequest → Identity → NewAuditEntry Value
  certificate_denied request identity = record {
    event_type = lit "certificate.denied";
    actor = identity.username;
    subject = some request.hostname;
    metadata = app.json (
        (lit "reason", text (reason app identity))
        ∷ (lit "provider", text identity.provider)
        ∷ (lit "subject", text identity.subject)
        ∷ []);
  }

  unfoldable pub certificate_issued :
      IssueCertificateRequest
      → Identity
      → CertificateResponse
      → Headers
      → Str
      → ℕ
      → NewAuditEntry Value
  certificate_issued request identity response headers request_id now = record {
    event_type = lit "certificate.issued";
    actor = identity.username;
    subject = some request.hostname;
    metadata = app.json (
        (lit "serial", number (pos response.serial))
        ∷ (lit "fingerprint", text response.fingerprint)
        ∷ (lit "principal", text response.principal)
        ∷ (lit "ttl_seconds", number (pos response.ttl_seconds))
        ∷ (lit "valid_before", text response.valid_before)
        ∷ (lit "ca_key_id", text response.ca_key_id)
        ∷ (lit "ca_fingerprint", text response.ca_fingerprint)
        ∷ (lit "provider", text identity.provider)
        ∷ (lit "subject", text identity.subject)
        ∷ (lit "realm", optional identity.realm)
        ∷ (lit "groups", texts identity.groups)
        ∷ (lit "roles", texts identity.roles)
        ∷ (lit "client", nested (client_context app identity headers request_id now))
        ∷ []);
  }

  -- The steps after the authorization.
  unfoldable pub sign_and_audit :
      CaManager
      → Headers
      → Str
      → IssueCertificateRequest
      → ℕ
      → Identity
      → Handler CertificateResponse
  sign_and_audit ca headers request_id request now identity = do
    response ←
        lift (mapped of_ca_error (ca.sign_certificate (certificate_request request identity)))
    append app (certificate_issued request identity response headers request_id now) now
    pure response

  unfoldable pub authorize_and_sign :
      CaManager
      → Headers
      → Str
      → IssueCertificateRequest
      → ℕ
      → Identity
      → Handler CertificateResponse
  unfolding sign_and_audit
  authorize_and_sign ca headers request_id request now identity = do
    permitted ←
        admitted app (certificate_denied request) identity now (authorize app.access identity)
    sign_and_audit ca headers request_id request now permitted

  unfoldable pub issue :
      Headers → Str → Str → IssueCertificateRequest → ℕ → Handler CertificateResponse
  unfolding authorize_and_sign
  issue headers request_id token request now = do
    ca ← lift (ok_or app.ca internal)
    identity ← lift (resolve_identity app request.provider token)
    authorize_and_sign ca headers request_id request now identity

  sign_and_audit-ok :
      (ca : CaManager) (headers : Headers) (request_id : Str) (request : IssueCertificateRequest)
      (now : ℕ) (identity : Identity) (s s' : State) (r : CertificateResponse)
      → sign_and_audit ca headers request_id request now identity s ≡ (ok r, s')
      → (ca.sign_certificate (certificate_request request identity) ≡ ok r)
        × ((e : AuditEntry Value) × (append_audit_event app.crates.audit s.audit_log
                (certificate_issued request identity r headers request_id now)
                now
              ≡ ok (e, s'.audit_log)))
        × (s'.registry ≡ s.registry)
  unfolding sign_and_audit
  sign_and_audit-ok ca headers request_id request now identity s s' r h =
      elim (Result-cases (ca.sign_certificate (certificate_request request identity))) [
        | inr (e, failed) ↦ absurd (ground arith)
        | inl (response, signed) ↦
            let event = certificate_issued request identity response headers request_id now in
            let (u, t, written, done) =
              bind-ok (append app event now) (λ u. pure response) s s' r (rw signed at h) in
            let (e, logged, kept) = append-ok app event now s t u written in
            (ground arith, (e, ground (arith, logged)), ground arith)
      ]

  -- The event of a certificate that was issued to the identity.
  pub record IsIssuance (request : IssueCertificateRequest) (identity : Identity)
      (r : CertificateResponse) (event : NewAuditEntry Value) : Type 0 where
    pub event_type : event.event_type ≡ lit "certificate.issued"
    pub actor : event.actor ≡ identity.username
    pub subject : event.subject ≡ some request.hostname
    pub metadata :
        (rest : List (Str × Member Value)) × (event.metadata
          ≡ app.json (
              (lit "serial", number (pos r.serial))
              ∷ (lit "fingerprint", text r.fingerprint)
              ∷ (lit "principal", text r.principal)
              ∷ rest))

  certificate_issued-IsIssuance :
      (headers : Headers) (request_id : Str) (request : IssueCertificateRequest) (now : ℕ)
      (identity : Identity) (r : CertificateResponse)
      → IsIssuance request identity r (certificate_issued request identity r headers request_id now)
  unfolding certificate_issued
  certificate_issued-IsIssuance headers request_id request now identity r = record {
    event_type = refl;
    actor = refl;
    subject = refl;
    metadata = (_, refl);
  }

  -- A certificate is given out only if the server has a CA and the token resolves to an identity that
  -- the allowlists permit; its signature was requested for the identity's own username as the
  -- principal and the request's key, host and lifetime; and the audit log has been extended by a
  -- `certificate.issued` event of this user and host that names the certificate's serial,
  -- fingerprint and principal, while the machines and the enrollment tokens are as before.
  pub issue-Permitted :
      (headers : Headers) (request_id token : Str) (request : IssueCertificateRequest) (now : ℕ)
      (s s' : State) (r : CertificateResponse)
      → issue headers request_id token request now s ≡ (ok r, s')
      → (ca : CaManager) × (identity : Identity) × (app.ca ≡ some ca)
        × (resolve_identity app request.provider token ≡ ok identity)
        × Permitted app.access identity
        × (ca.sign_certificate (record {
          principal = identity.username;
          hostname = request.hostname;
          public_key = request.public_key;
          ttl_seconds = request.ttl_seconds;
        })
            ≡ ok r)
        × ((event : NewAuditEntry Value) × (e : AuditEntry Value) × IsIssuance request identity r
              event
            × (append_audit_event app.crates.audit s.audit_log event now ≡ ok (e, s'.audit_log)))
        × (s'.registry ≡ s.registry)
  unfolding issue authorize_and_sign certificate_request
  issue-Permitted headers request_id token request now s s' r h =
      let (ca, configured, rest) =
        lift-bind (ok_or app.ca internal)
          (λ ca.
            lift (resolve_identity app request.provider token)
            >>= authorize_and_sign ca headers request_id request now)
          s s' r h in
      let (identity, resolved, decided) =
        lift-bind (resolve_identity app request.provider token)
          (authorize_and_sign ca headers request_id request now) s s' r rest in
      let (allowed, signed) =
        admitted-bind app (certificate_denied request) identity now (authorize app.access identity)
          (sign_and_audit ca headers request_id request now) s s' r decided in
      let (certified, logged, same_registry) =
        sign_and_audit-ok ca headers request_id request now identity s s' r signed in
      (
        ca,
        identity,
        ok_or-ok app.ca internal ca configured,
        resolved,
        (authorize_iff app.access identity).0 allowed,
        certified,
        (
          certificate_issued request identity r headers request_id now,
          logged.0,
          certificate_issued-IsIssuance headers request_id request now identity r,
          logged.1,
        ),
        same_registry,
      )
