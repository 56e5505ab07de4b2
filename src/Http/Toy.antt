-- ===== src/Http/Toy.antt =====
-- An instance of the parameters of src/routes that can be run: one provider that knows the token
-- `good` of the operator `vasu`, who is the only one on the allowlists.
use mayfly_server.Prelude.{Str, lit, List, [], ◌∷◌, ◌++◌, none, some, text_eq, if◌then◌else◌}
use mayfly_server.Prelude.Result.{ok, err}
use mayfly_server.Audit.Chain.Append.{empty_table}
use mayfly_server.Machines.Toy.{crates, sample_row}
use mayfly_server.Machines.Enrollment.{State}
use mayfly_server.Auth.Provider.{
  AuthenticatedIdentity, AuthenticationProvider, oauth2_device, pending, unauthorized,
}
use mayfly_server.Auth.Registry.{new, register}
use mayfly_server.Authz.{Identity}
use mayfly_server.Ca.Sign.{CertificateResponse}
use mayfly_server.Http.Handler.{App, CaManager, Member}

abbrev vasu : AuthenticatedIdentity
vasu = record {
  provider = lit "github";
  subject = lit "7";
  username = lit "vasu";
  email = none;
  display_name = none;
}

abbrev github : AuthenticationProvider
github = record {
  metadata = record { id = lit "github"; display_name = lit "GitHub"; kind = oauth2_device };
  start_device_authorization = err unauthorized;
  poll_device_authorization = λ code. ok pending;
  fetch_identity = λ token. if text_eq token (lit "good") then ok vasu else err unauthorized;
  resolve_authorization = λ token identity needs. ok (record {
    realm = none;
    organizations = [];
    teams = [];
    groups = [];
    roles = [];
    attributes = [];
  });
}

abbrev pub certificate : CertificateResponse
certificate = record {
  certificate = lit "cert";
  serial = 9;
  valid_after = lit "a";
  valid_before = lit "b";
  ttl_seconds = 300;
  principal = lit "vasu";
  fingerprint = lit "f";
  ca_key_id = lit "ca-01";
  ca_fingerprint = lit "cf";
}

abbrev pub manager : CaManager
manager = record {
  sign_certificate = λ request. ok certificate;
  primary_public_key = ok (lit "ssh-ed25519 CA");
  generation = 3;
}

abbrev keys : List (Str × Member Str) → Str
keys [] = []
keys ((k, m) ∷ members) = k ++ keys members

abbrev pub app : App Str Str
app = record {
  crates = crates;
  json = keys;
  context_value = λ context. lit "context";
  to_rfc3339 = λ t. t ∷ [];
  to_lowercase = λ s. s;
  debug = λ names. lit "[]";
  providers = register (new (lit "github")) github;
  access = record {
    allowed_users = lit "Vasu" ∷ [];
    allowed_orgs = [];
    allowed_teams = [];
    allowed_groups = [];
    allowed_roles = [];
    allowed_attributes = [];
  };
  ca = some manager;
}

abbrev pub state : State
state = record {
  registry = record { machines = sample_row ∷ []; tokens = [] };
  audit_log = empty_table;
}

abbrev pub operator : Identity
operator = record {
  provider = lit "github";
  subject = lit "7";
  username = lit "vasu";
  email = none;
  display_name = none;
  realm = none;
  organizations = [];
  teams = [];
  groups = [];
  roles = [];
  attributes = [];
}
