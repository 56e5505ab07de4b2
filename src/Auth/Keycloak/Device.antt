-- ===== src/Auth/Keycloak/Device.antt =====
-- The bodies of the device authorization grant in src/auth/keycloak/mod.rs.
use mayfly_server.Prelude.{ℕ, Str, lit, [], ◌++◌, Option, none, some, ◌||◌, text_eq, if◌then◌else◌}
use mayfly_server.Prelude.Result.{Result, ok, err, ok_or, ◌>>=◌}
use mayfly_server.Auth.Provider.{
  AuthProviderError, decode, invalid_device_code, DeviceAuthorization, DeviceTokenOutcome, pending,
  slow_down, expired, denied, approved,
}
use mayfly_server.Auth.Keycloak.Oidc.{JsonValue}

abbrev pub JsonObject : Type 0
JsonObject = Str → Option JsonValue

abbrev str_of : Option JsonValue → Option Str
str_of (some (JsonValue.string s)) = some s
str_of _ = none

abbrev as_u64_or : ℕ → Option JsonValue → ℕ
as_u64_or default (some (JsonValue.number n)) = n
as_u64_or default _ = default

abbrev text_or_empty : Option Str → Str
text_or_empty none = []
text_or_empty (some s) = s

unfoldable pub string_field : JsonObject → Str → Result AuthProviderError Str
string_field body key = ok_or (str_of (body key)) (decode (lit "missing field '" ++ key ++ lit "'"))

unfoldable pub device_authorization : JsonObject → Result AuthProviderError DeviceAuthorization
unfolding string_field
device_authorization body = do
  device_code ← string_field body (lit "device_code")
  user_code ← string_field body (lit "user_code")
  verification_uri ← string_field body (lit "verification_uri")
  ok (record {
    device_code = device_code;
    user_code = user_code;
    verification_uri = verification_uri;
    expires_in = as_u64_or 0 (body (lit "expires_in"));
    interval = as_u64_or 5 (body (lit "interval"));
  })

abbrev pub outcome_of_error : Option Str → Result AuthProviderError DeviceTokenOutcome
outcome_of_error none =
    err (decode (lit "token response had neither access_token nor a known error"))
outcome_of_error (some error) =
    if text_eq error (lit "authorization_pending")
    then ok pending
    else if text_eq error (lit "slow_down")
    then ok slow_down
    else if text_eq error (lit "expired_token")
    then ok expired
    else if text_eq error (lit "access_denied")
    then ok denied
    else if text_eq error (lit "invalid_grant") || text_eq error (lit "unsupported_grant_type")
    then err invalid_device_code
    else err (decode (lit "token response had neither access_token nor a known error"))

abbrev outcome_of_token :
    Option Str → Option Str → Option Str → Result AuthProviderError DeviceTokenOutcome
outcome_of_token (some token) scope error = ok (approved token (text_or_empty scope))
outcome_of_token none scope error = outcome_of_error error

-- What the body of a token response means.
unfoldable pub token_outcome : JsonObject → Result AuthProviderError DeviceTokenOutcome
token_outcome body =
    outcome_of_token (str_of (body (lit "access_token"))) (str_of (body (lit "scope")))
      (str_of (body (lit "error")))
