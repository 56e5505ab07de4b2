-- ===== src/Auth/Github.antt =====
-- The GitHub provider of src/auth/github.rs over the client of src/github/client.rs, which is given
-- by the answers of its methods.
use mayfly_server.Prelude.{ℕ, Str, lit, List, [], Option, none, if◌then◌else◌}
use mayfly_server.Prelude.Result.{Result, ok, err, ◌>>=◌}
use mayfly_server.Prelude.Int.{pos}
use mayfly_server.AgentAuth.Decimal.{show_int}
use mayfly_server.Auth.Provider.{
  AuthProviderError, AuthenticatedIdentity, AuthenticationProvider, AuthorizationContext,
  AuthorizationNeeds, DeviceAuthorization, DeviceTokenOutcome, oauth2_device,
}

pub record GitHubUser : Type 0 where
  pub login : Str
  pub id : ℕ
  pub name : Option Str
  pub email : Option Str

pub data GitHubError : Type 0 where
  transport : Str → GitHubError
  unexpected_status : ℕ → GitHubError
  decode : Str → GitHubError
  unauthorized rate_limited invalid_device_code : GitHubError

pub record GitHubClient : Type 0 where
  pub start_device_flow : Result GitHubError DeviceAuthorization
  pub poll_device_flow : Str → Result GitHubError DeviceTokenOutcome
  pub get_user : Str → Result GitHubError GitHubUser
  pub get_user_orgs : Str → Result GitHubError (List Str)
  pub get_user_teams : Str → Result GitHubError (List Str)

-- `From<GitHubError> for AuthProviderError`
unfoldable pub of_github_error : GitHubError → AuthProviderError
of_github_error (transport m) = AuthProviderError.transport m
of_github_error (unexpected_status n) = AuthProviderError.unexpected_status n
of_github_error (decode m) = AuthProviderError.decode m
of_github_error unauthorized = AuthProviderError.unauthorized
of_github_error rate_limited = AuthProviderError.rate_limited
of_github_error invalid_device_code = AuthProviderError.invalid_device_code

abbrev pub converted : {A : Type 0} → Result GitHubError A → Result AuthProviderError A
converted (ok a) = ok a
converted (err e) = err (of_github_error e)

unfoldable pub fetch_or_empty : Result GitHubError (List Str) → List Str
fetch_or_empty (ok values) = values
fetch_or_empty (err e) = []

abbrev pub github_id : Str
github_id = lit "github"

module _ (client : GitHubClient) where
  abbrev pub identity_of : GitHubUser → AuthenticatedIdentity
  identity_of user = record {
    provider = github_id;
    subject = show_int (pos user.id);
    username = user.login;
    email = user.email;
    display_name = user.name;
  }

  unfoldable pub fetch_identity : Str → Result AuthProviderError AuthenticatedIdentity
  fetch_identity access_token = do
    user ← converted (client.get_user access_token)
    ok (identity_of user)

  unfoldable pub resolve_authorization :
      Str
      → AuthenticatedIdentity
      → AuthorizationNeeds
      → Result AuthProviderError AuthorizationContext
  unfolding fetch_or_empty
  resolve_authorization access_token identity needs = ok (record {
    realm = none;
    organizations =
        if needs.organizations then fetch_or_empty (client.get_user_orgs access_token) else [];
    teams = if needs.teams then fetch_or_empty (client.get_user_teams access_token) else [];
    groups = [];
    roles = [];
    attributes = [];
  })

  unfoldable pub github_provider : AuthenticationProvider
  unfolding fetch_identity resolve_authorization
  github_provider = record {
    metadata = record { id = github_id; display_name = lit "GitHub"; kind = oauth2_device };
    start_device_authorization = converted client.start_device_flow;
    poll_device_authorization = λ device_code. converted (client.poll_device_flow device_code);
    fetch_identity = fetch_identity;
    resolve_authorization = resolve_authorization;
  }
