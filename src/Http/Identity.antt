-- ===== src/Http/Identity.antt =====
-- The resolution and the authorization of the caller in src/routes/auth.rs and the `authorize_admin`
-- of src/routes/admin_machines.rs and src/routes/ops.rs.
use mayfly_server.Prelude.{
  ◌≡◌, refl, arith, inl, inr, ℕ, Str, lit, [], ◌∷◌, ◌++◌, Option, none, some, not, trim, is_empty,
  strip_prefix, if◌then◌else◌,
}
use mayfly_server.Prelude.Result as Results
use mayfly_server.Prelude.Result.{Result, ok, err, ok_or, Result-cases}
use mayfly_server.Audit.Model.{NewAuditEntry}
use mayfly_server.Audit.Verifier.{append_audit_event}
use mayfly_server.Machines.Enrollment.{State}
use mayfly_server.Audit.Context.{
  Headers, HeaderValue, readable, opaque, from_headers, with_provider,
}
use mayfly_server.Auth.Provider.{AuthenticatedIdentity, AuthorizationContext, AuthorizationNeeds}
use mayfly_server.Auth.Registry.{resolve}
use mayfly_server.Authz.{
  AccessConfig, Identity, AuthzDecision, allow, deny, authorize, is_none_left,
}
use mayfly_server.Http.Errors.{ApiError, unauthorized, denied, internal, of_provider_error}
use mayfly_server.Http.Handler.{
  App, Handler, text, nested, append, lift, mapped, pure, ◌>>=◌, ◌>>◌, bind-ok,
}

unfoldable pub needs_from_access : AccessConfig → AuthorizationNeeds
needs_from_access access = record {
  organizations = not (is_none_left access.allowed_orgs);
  teams = not (is_none_left access.allowed_teams);
  groups = not (is_none_left access.allowed_groups);
  roles = not (is_none_left access.allowed_roles);
  attributes = not (is_none_left access.allowed_attributes);
}

abbrev or_lower : Option Str → Str → Option Str
or_lower none value = strip_prefix value (lit "bearer ")
or_lower (some t) value = some t

abbrev kept_token : Option Str → Option Str
kept_token none = none
kept_token (some t) = if not (is_empty (trim t)) then some (trim t) else none

-- `BearerToken::from_request_parts`
unfoldable pub bearer_token : Option HeaderValue → Result ApiError Str
bearer_token none = err (unauthorized (lit "missing authorization header"))
bearer_token (some opaque) = err (unauthorized (lit "malformed authorization header"))
bearer_token (some (readable value)) =
    ok_or (kept_token (or_lower (strip_prefix value (lit "Bearer ")) value))
      (unauthorized (lit "expected 'Bearer <token>' authorization"))

abbrev pub identity_of : AuthenticatedIdentity → AuthorizationContext → Identity
identity_of authd context = record {
  provider = authd.provider;
  subject = authd.subject;
  username = authd.username;
  email = authd.email;
  display_name = authd.display_name;
  realm = context.realm;
  organizations = context.organizations;
  teams = context.teams;
  groups = context.groups;
  roles = context.roles;
  attributes = context.attributes;
}

module _ {Value Key : Type 0} (app : App Value Key) where
  unfoldable pub resolve_identity : Option Str → Str → Result ApiError Identity
  unfolding needs_from_access
  resolve_identity selector token = mapped of_provider_error (
      Results.◌>>=◌ (resolve app.providers selector) λ provider.
        Results.◌>>=◌ (provider.fetch_identity token) λ authd.
          Results.◌>>=◌ (provider.resolve_authorization token authd (needs_from_access app.access))
            λ context. ok (identity_of authd context))

  -- The reason of a denial.
  unfoldable pub reason : Identity → Str
  reason identity =
      lit "'"
      ++ identity.username
      ++ lit "' (provider="
      ++ identity.provider
      ++ lit ") is not in any allowlist (orgs="
      ++ app.debug identity.organizations
      ++ lit ", teams="
      ++ app.debug identity.teams
      ++ lit ", groups="
      ++ app.debug identity.groups
      ++ lit ", roles="
      ++ app.debug identity.roles
      ++ lit ")"

  unfoldable pub client_context : Identity → Headers → Str → ℕ → Value
  client_context identity headers request_id now = app.context_value (
      with_provider (from_headers app.crates.chrono headers (some request_id) now)
        identity.provider)

  -- The arms of the decision: a denial is audited before the request is refused.
  abbrev pub admitted :
      (Identity → NewAuditEntry Value) → Identity → ℕ → AuthzDecision → Handler Identity
  admitted event identity now allow = pure identity
  admitted event identity now (deny facts) = do append app (event facts) now; lift (err denied)

  abbrev pub machine_denied : Str → Identity → NewAuditEntry Value
  machine_denied action identity = record {
    event_type = lit "machine.admin_denied";
    actor = identity.username;
    subject = some action;
    metadata = app.json ((lit "reason", text (reason identity)) ∷ []);
  }

  -- `authorize_admin` of src/routes/admin_machines.rs
  unfoldable pub authorize_machine_admin : Str → Str → ℕ → Handler Identity
  unfolding reason
  authorize_machine_admin token action now = do
    identity ← lift (resolve_identity none token)
    admitted (machine_denied action) identity now (authorize app.access identity)

  abbrev pub admin_denied : Str → Str → Headers → Str → ℕ → Identity → NewAuditEntry Value
  admin_denied event_type action headers request_id now identity = record {
    event_type = event_type;
    actor = identity.username;
    subject = some action;
    metadata = app.json (
        (lit "reason", text (reason identity))
        ∷ (lit "provider", text identity.provider)
        ∷ (lit "subject", text identity.subject)
        ∷ (lit "client", nested (client_context identity headers request_id now))
        ∷ []);
  }

  -- `authorize_admin` of src/routes/admin.rs, with `ca.admin_denied`, and of src/routes/ops.rs, with
  -- `ops.admin_denied`.
  unfoldable pub authorize_admin : Str → Headers → Str → Str → Str → ℕ → Handler Identity
  unfolding reason client_context
  authorize_admin event_type headers request_id token action now = do
    identity ← lift (resolve_identity none token)
    admitted (admin_denied event_type action headers request_id now) identity now
        (authorize app.access identity)

  pub admitted-bind :
      {B : Type 0} (event : Identity → NewAuditEntry Value) (identity : Identity) (now : ℕ)
      (decision : AuthzDecision) (f : Identity → Handler B) (s s' : State) (b : B)
      → (admitted event identity now decision >>= f) s ≡ (ok b, s')
      → (decision ≡ allow) × (f identity s ≡ (ok b, s'))
  admitted-bind event identity now allow f s s' b h = (refl, h)
  admitted-bind event identity now (deny facts) f s s' b h =
      let (i, t, passed, rest) = bind-ok (admitted event identity now (deny facts)) f s s' b h in
      let (u, t', written, refused) =
        bind-ok (append app (event facts) now) (λ u. lift (err denied)) s t i passed in
      absurd (ground arith)

  pub admitted-ok :
      (event : Identity → NewAuditEntry Value) (identity i : Identity) (now : ℕ)
      (decision : AuthzDecision) (s t : State)
      → admitted event identity now decision s ≡ (ok i, t)
      → (decision ≡ allow) × (identity ≡ i) × (s ≡ t)
  admitted-ok event identity i now allow s t h = (refl, ground arith, ground arith)
  admitted-ok event identity i now (deny facts) s t h =
      let (u, t', written, refused) =
        bind-ok (append app (event facts) now) (λ u. lift (err denied)) s t i h in
      absurd (ground arith)

  -- A denial never passes, and writes to the audit log at most.
  pub admitted-denied :
      {B : Type 0} (event : Identity → NewAuditEntry Value) (identity facts : Identity) (now : ℕ)
      (f : Identity → Handler B) (s : State)
      → let after = (admitted event identity now (deny facts) >>= f) s in
        ((e : ApiError) × (after.0 ≡ err e)) × (after.1.registry ≡ s.registry)
  unfolding append
  admitted-denied event identity facts now f s =
      elim (Result-cases (append_audit_event app.crates.audit s.audit_log (event facts) now)) [
        | inl ((e, log), written) ↦ rw written ((denied, refl), refl)
        | inr (e, failed) ↦ rw failed ((internal, refl), refl)
      ]
