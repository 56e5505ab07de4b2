-- ===== src/Ca/Errors.antt =====
-- `CaError` of src/ca/errors.rs with its conversion into `ApiError`. A message that only the log
-- shows is not kept.
use mayfly_server.Prelude.{Str, lit, [], ◌∷◌, ◌++◌}
use mayfly_server.Http.Errors.{ApiError, bad_request, not_found, conflict, internal}

pub data CaError : Type 0 where
  key_file storage_passphrase_missing parse decrypt not_ed25519 no_keys_configured : CaError
  too_many_keys no_enabled_keys sign encode storage : CaError
  cannot_disable_last cannot_retire_enabled cannot_delete_active : Str → CaError
  duplicate_key_id : Str → CaError
  duplicate_public_key duplicate_fingerprint : Str → Str → CaError
  ca_not_found key_id_in_use public_key_in_use fingerprint_in_use : Str → CaError
  passphrase_mismatch : CaError
  invalid_request invalid_input : Str → CaError

abbrev quoted : Str → Str
quoted s = b'\'' ∷ s ++ b'\'' ∷ []

unfoldable pub of_ca_error : CaError → ApiError
of_ca_error (invalid_request msg) = bad_request msg
of_ca_error (invalid_input msg) = bad_request msg
of_ca_error passphrase_mismatch =
    bad_request (lit "passphrase does not match the CA storage passphrase")
of_ca_error (ca_not_found id) = not_found (lit "ca " ++ quoted id ++ lit " was not found")
of_ca_error (key_id_in_use id) =
    conflict (lit "ca key id " ++ quoted id ++ lit " is already in use")
of_ca_error (public_key_in_use id) =
    conflict (lit "ca public key is already managed (matches key id " ++ quoted id ++ lit ")")
of_ca_error (fingerprint_in_use id) =
    conflict (lit "ca fingerprint is already managed (matches key id " ++ quoted id ++ lit ")")
of_ca_error (duplicate_key_id id) = conflict (lit "duplicate ca key id " ++ quoted id)
of_ca_error (duplicate_public_key first second) = conflict (
    lit "duplicate ca public key shared by key ids "
    ++ quoted first
    ++ lit " and "
    ++ quoted second)
of_ca_error (duplicate_fingerprint first second) = conflict (
    lit "duplicate ca key fingerprint shared by key ids "
    ++ quoted first
    ++ lit " and "
    ++ quoted second)
of_ca_error (cannot_disable_last id) =
    conflict (lit "cannot disable ca " ++ quoted id ++ lit ": it is the last enabled CA")
of_ca_error (cannot_retire_enabled id) =
    conflict
      (lit "cannot retire ca " ++ quoted id ++ lit ": it is still enabled (disable it first)")
of_ca_error (cannot_delete_active id) =
    conflict (lit "cannot delete ca " ++ quoted id ++ lit ": it is still active (disable it first)")
of_ca_error _ = internal
