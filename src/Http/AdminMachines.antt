-- ===== src/Http/AdminMachines.antt =====
-- src/routes/admin_machines.rs: the operators' handlers for machines.
pub mod Guarded
pub mod Rotates
use mayfly_server.Prelude.{
  ℕ, ◌*◌, Str, lit, List, [], ◌∷◌, ◌++◌, Option, none, some, Bool, true, not, trim, is_empty,
  text_eq, if◌then◌else◌,
}
use mayfly_server.Prelude.Int.{ℤ, pos}
use mayfly_server.Prelude.Result as Results
use mayfly_server.Prelude.Result.{Result, ok, err, ok_or}
use mayfly_server.Audit.Model.{NewAuditEntry}
use mayfly_server.Audit.Context.{Headers}
use mayfly_server.AgentAuth.Nonce.{nanos_per_sec}
use mayfly_server.Machines.Models.{
  Machine, MachineStatus, as_str, from_db_str, EnrollmentError, IssuedEnrollmentToken,
}
use mayfly_server.Machines.Store.{MachineRow, SqlxError}
use mayfly_server.Machines.Protocol.{LivenessStatus, online, stale, offline}
use mayfly_server.Machines.Admin as Admin
use mayfly_server.Machines.Admin.{MachineAdminError, MachineFilter, MachineView, from_machine}
use mayfly_server.Machines.Enrollment as Enrollment
use mayfly_server.Machines.Enrollment.{Registry, State}
use mayfly_server.Authz.{Identity}
use mayfly_server.Http.Errors.{ApiError, bad_request, not_found, internal, of_machine_error}
use mayfly_server.Http.Handler.{
  App, CaManager, Handler, Member, text, nested, append, lift, mapped, pure, ◌>>=◌, ◌>>◌,
}
use mayfly_server.Http.Identity.{authorize_machine_admin, client_context}
use mayfly_server.Http.MachineQuery.{MachineListQuery, into_filter}

pub record DeleteMachineResponse : Type 0 where
  pub deleted : Bool
  pub machine_id : Str
  pub hostname : Str

pub record MintEnrollmentTokenResponse : Type 0 where
  pub token : Str
  pub id : Str
  pub expires_at : Str
  pub single_use : Bool

abbrev pub reenroll_token_ttl_seconds : ℕ
reenroll_token_ttl_seconds = 3600

-- A service's operation on the table of machines.
abbrev pub on_machines :
    {A : Type 0} → (List MachineRow → Result MachineAdminError A × List MachineRow) → Handler A
on_machines op s =
    let (r, rows) = op s.registry.machines in
    (mapped of_machine_error r, record s { registry = record s.registry { machines = rows } })

-- A read of the table.
abbrev pub read_machines : {A : Type 0} → (List MachineRow → Result SqlxError A) → Handler A
read_machines query s = (mapped (λ e. internal) (query s.registry.machines), s)

abbrev pub minted :
    Registry
    → Result EnrollmentError (IssuedEnrollmentToken × Registry)
    → Result ApiError IssuedEnrollmentToken × Registry
minted r (ok (issued, r')) = (ok issued, r')
minted r (err e) = (err internal, r)

module _ {Value Key : Type 0} (app : App Value Key) where
  abbrev generation_of : Option CaManager → Option ℤ
  generation_of none = none
  generation_of (some ca) = some (pos ca.generation)

  abbrev pub latest_generation : Option ℤ
  latest_generation = generation_of app.ca

  -- The optional members come last.
  unfoldable pub machine_event :
      Identity → Headers → Str → Str → Machine → List (Str × Member Value) → ℕ → NewAuditEntry Value
  machine_event identity headers request_id action machine extra now = record {
    event_type = action;
    actor = identity.username;
    subject = some machine.machine_id;
    metadata = app.json (
        (lit "hostname", text machine.hostname)
        ∷ (lit "status", text (as_str machine.status))
        ∷ (lit "agent_version", text machine.agent_version)
        ∷ (lit "provider", text identity.provider)
        ∷ (lit "subject", text identity.subject)
        ∷ (lit "client", nested (client_context app identity headers request_id now))
        ∷ extra);
  }

  unfoldable pub audit_machine :
      Identity → Headers → Str → Str → Machine → List (Str × Member Value) → ℕ → Handler Unit
  audit_machine identity headers request_id action machine extra now =
      append app (machine_event identity headers request_id action machine extra now) now

  unfoldable pub list_machines : Str → MachineListQuery → ℕ → Handler (List MachineView)
  list_machines token query now = do
    identity ← authorize_machine_admin app token (lit "machine.list") now
    filter ← lift (into_filter app.to_lowercase query)
    read_machines λ rows.
        Admin.list app.crates.chrono app.crates.ssh app.to_lowercase rows now latest_generation
          filter

  unfoldable pub get_machine : Str → Str → ℕ → Handler MachineView
  get_machine token id now = do
    identity ← authorize_machine_admin app token (lit "machine.get") now
    found ←
        read_machines
          λ rows. Admin.get app.crates.chrono app.crates.ssh rows now latest_generation id
    lift (ok_or found (not_found (lit "machine '" ++ id ++ lit "' was not found")))

  -- The steps of `set_lifecycle` after the authorization.
  unfoldable pub change_status :
      Headers → Str → Str → MachineStatus → Str → ℕ → Identity → Handler MachineView
  change_status headers request_id id target action now identity = do
    machine ← on_machines λ rows. Admin.set_status app.crates.chrono rows id target now
    audit_machine identity headers request_id action machine [] now
    pure (from_machine app.crates.chrono app.crates.ssh machine now latest_generation)

  unfoldable pub set_lifecycle :
      Headers → Str → Str → Str → MachineStatus → Str → ℕ → Handler MachineView
  unfolding change_status
  set_lifecycle headers request_id token id target action now = do
    identity ← authorize_machine_admin app token action now
    change_status headers request_id id target action now identity

  module _ (headers : Headers) (request_id token id : Str) (now : ℕ) where
    unfoldable pub approve : Handler MachineView
    unfolding set_lifecycle
    approve =
        set_lifecycle headers request_id token id MachineStatus.active (lit "machine.approved") now

    unfoldable pub disable : Handler MachineView
    unfolding set_lifecycle
    disable =
        set_lifecycle headers request_id token id MachineStatus.disabled (lit "machine.disabled")
          now

    unfoldable pub enable : Handler MachineView
    unfolding set_lifecycle
    enable =
        set_lifecycle headers request_id token id MachineStatus.active (lit "machine.enabled") now

    unfoldable pub revoke : Handler MachineView
    unfolding set_lifecycle
    revoke =
        set_lifecycle headers request_id token id MachineStatus.revoked (lit "machine.revoked") now

  unfoldable pub remove_machine : Headers → Str → Str → ℕ → Identity → Handler DeleteMachineResponse
  remove_machine headers request_id id now identity = do
    machine ← on_machines λ rows. Admin.delete_machine app.crates.chrono rows id
    audit_machine identity headers request_id (lit "machine.deleted") machine [] now
    pure (record { deleted = true; machine_id = machine.machine_id; hostname = machine.hostname })

  unfoldable pub delete_machine : Headers → Str → Str → Str → ℕ → Handler DeleteMachineResponse
  unfolding remove_machine
  delete_machine headers request_id token id now = do
    identity ← authorize_machine_admin app token (lit "machine.delete") now
    remove_machine headers request_id id now identity

  -- The token's id and random bytes are drawn by other crates.
  unfoldable pub mint_token : Str → List ℕ → Str → ℕ → Handler IssuedEnrollmentToken
  mint_token token_id bytes created_by now s =
      let (r, registry) = minted s.registry (
        Enrollment.create_enrollment_token app.crates s.registry token_id bytes created_by
          (reenroll_token_ttl_seconds * nanos_per_sec) true now) in
      (r, record s { registry = registry })

  abbrev pub token_members : IssuedEnrollmentToken → List (Str × Member Value)
  token_members issued =
      (lit "enrollment_token_id", text issued.issued.id)
      ∷ (lit "token_expires_at", text (app.to_rfc3339 issued.issued.expires_at))
      ∷ []

  -- The steps of `reissue_identity` after the authorization.
  unfoldable pub replace_machine :
      Headers → Str → Str → Str → List ℕ → Str → ℕ → Identity → Handler MintEnrollmentTokenResponse
  unfolding mint_token
  replace_machine headers request_id id token_id bytes action now identity = do
    ca ← lift (ok_or app.ca internal)
    server_identity ← lift (mapped (λ e. internal) ca.primary_public_key)
    old ← on_machines λ rows. Admin.delete_machine app.crates.chrono rows id
    issued ← mint_token token_id bytes identity.username now
    audit_machine identity headers request_id action old (token_members issued) now
    pure (record {
      token = issued.plaintext;
      id = issued.issued.id;
      expires_at = app.to_rfc3339 issued.issued.expires_at;
      single_use = issued.issued.single_use;
    })

  unfoldable pub reissue_identity :
      Headers → Str → Str → Str → Str → List ℕ → Str → ℕ → Handler MintEnrollmentTokenResponse
  unfolding replace_machine
  reissue_identity headers request_id token id token_id bytes action now = do
    identity ← authorize_machine_admin app token action now
    replace_machine headers request_id id token_id bytes action now identity

  unfoldable pub reenroll :
      Headers → Str → Str → Str → Str → List ℕ → ℕ → Handler MintEnrollmentTokenResponse
  unfolding reissue_identity
  reenroll headers request_id token id token_id bytes now =
      reissue_identity headers request_id token id token_id bytes (lit "machine.reenroll_requested")
        now

  unfoldable pub rotate_identity :
      Headers → Str → Str → Str → Str → List ℕ → ℕ → Handler MintEnrollmentTokenResponse
  unfolding reissue_identity
  rotate_identity headers request_id token id token_id bytes now =
      reissue_identity headers request_id token id token_id bytes
        (lit "machine.identity_rotation_requested") now
