-- ===== src/Http/Errors.antt =====
-- `ApiError` of src/errors.rs, and the conversions into it of src/authz/errors.rs,
-- src/auth/provider.rs, src/machines/admin.rs and src/machines/errors.rs. The cause of an internal
-- error is only logged.
use mayfly_server.Prelude.{ℕ, Str, lit, ◌++◌}
use mayfly_server.Machines.Admin.{MachineAdminError, database}
use mayfly_server.Auth.Provider.{
  AuthProviderError, transport, unexpected_status, decode, rate_limited, invalid_device_code,
  unknown_provider,
}

pub data ApiError : Type 0 where
  bad_request unauthorized forbidden not_found conflict too_many_requests : Str → ApiError
  internal : ApiError

unfoldable pub status : ApiError → ℕ
status (bad_request m) = 400
status (ApiError.unauthorized m) = 401
status (forbidden m) = 403
status (ApiError.not_found m) = 404
status (conflict m) = 409
status (too_many_requests m) = 429
status internal = 500

unfoldable pub code : ApiError → Str
code (bad_request m) = lit "bad_request"
code (ApiError.unauthorized m) = lit "unauthorized"
code (forbidden m) = lit "forbidden"
code (ApiError.not_found m) = lit "not_found"
code (conflict m) = lit "conflict"
code (too_many_requests m) = lit "rate_limited"
code internal = lit "internal_error"

unfoldable pub client_message : ApiError → Str
client_message (bad_request m) = m
client_message (ApiError.unauthorized m) = m
client_message (forbidden m) = m
client_message (ApiError.not_found m) = m
client_message (conflict m) = m
client_message (too_many_requests m) = m
client_message internal = lit "internal server error"

-- `From<AuthzError>`
abbrev pub denied : ApiError
denied = forbidden (lit "access denied")

-- `From<AuthProviderError>`
unfoldable pub of_provider_error : AuthProviderError → ApiError
of_provider_error AuthProviderError.unauthorized =
    ApiError.unauthorized (lit "the access token is invalid or expired")
of_provider_error rate_limited = too_many_requests (lit "upstream rate limit exceeded; retry later")
of_provider_error invalid_device_code = bad_request (lit "the device_code is invalid")
of_provider_error unknown_provider = bad_request (lit "unknown authentication provider")
of_provider_error (transport m) = internal
of_provider_error (unexpected_status n) = internal
of_provider_error (decode m) = internal

-- `From<MachineAdminError>`
unfoldable pub of_machine_error : MachineAdminError → ApiError
of_machine_error (MachineAdminError.not_found id) =
    ApiError.not_found (lit "machine '" ++ id ++ lit "' was not found")
of_machine_error (database e) = internal
