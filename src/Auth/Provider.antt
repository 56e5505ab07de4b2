-- ===== src/Auth/Provider.antt =====
-- The authentication abstraction of src/auth/provider.rs: a provider is a record of its methods,
-- each with the answer that it gives at the time of the call.
use mayfly_server.Prelude.{ℕ, Str, List, Option, Bool}
use mayfly_server.Prelude.Result.{Result}

pub data ProviderKind : Type 0 where
  oauth2_device oidc_device : ProviderKind

pub record ProviderMetadata : Type 0 where
  pub id : Str
  pub display_name : Str
  pub kind : ProviderKind

pub record AuthenticatedIdentity : Type 0 where
  pub provider : Str
  pub subject : Str
  pub username : Str
  pub email : Option Str
  pub display_name : Option Str

pub record AuthorizationNeeds : Type 0 where
  pub organizations : Bool
  pub teams : Bool
  pub groups : Bool
  pub roles : Bool
  pub attributes : Bool

pub record AuthorizationContext : Type 0 where
  pub realm : Option Str
  pub organizations : List Str
  pub teams : List Str
  pub groups : List Str
  pub roles : List Str
  pub attributes : List (Str × List Str)

pub data AuthProviderError : Type 0 where
  transport : Str → AuthProviderError
  unexpected_status : ℕ → AuthProviderError
  decode : Str → AuthProviderError
  unauthorized rate_limited invalid_device_code unknown_provider : AuthProviderError

pub record DeviceAuthorization : Type 0 where
  pub device_code : Str
  pub user_code : Str
  pub verification_uri : Str
  pub expires_in : ℕ
  pub interval : ℕ

pub data DeviceTokenOutcome : Type 0 where
  pending slow_down expired denied : DeviceTokenOutcome
  -- with the access token and its scopes
  approved : Str → Str → DeviceTokenOutcome

pub record AuthenticationProvider : Type 0 where
  pub metadata : ProviderMetadata
  pub start_device_authorization : Result AuthProviderError DeviceAuthorization
  pub poll_device_authorization : Str → Result AuthProviderError DeviceTokenOutcome
  pub fetch_identity : Str → Result AuthProviderError AuthenticatedIdentity
  pub resolve_authorization :
      Str
      → AuthenticatedIdentity
      → AuthorizationNeeds
      → Result AuthProviderError AuthorizationContext
