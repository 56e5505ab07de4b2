-- ===== src/Audit/Context.antt =====
-- src/audit/context.rs: what the audit log keeps of a request's headers. `HeaderMap::get` is a
-- parameter; RFC 3339 texts are those of Machines/Store.
use mayfly_server.Prelude.{
  ℕ, ◌-◌, ◌/◌, Str, lit, List, [], ◌∷◌, Option, none, some, Bool, not, leb, ◌==◌, take, retain,
  trim, split, is_empty, is_control, text_eq, if◌then◌else◌,
}
use mayfly_server.Prelude.Int.{ℤ, pos, negsuc}
use mayfly_server.Machines.Store.{Chrono}

-- A header value, if it is there: a text, or bytes that are none (`to_str` fails).
pub data HeaderValue : Type 0 where
  readable : Str → HeaderValue
  opaque : HeaderValue

abbrev pub Headers : Type 0
Headers = Str → Option HeaderValue

abbrev pub max_value_len : ℕ
max_value_len = 256

pub record RequestAuditContext : Type 0 where
  pub provider : Option Str
  pub request_id : Option Str
  pub session_id : Option Str
  pub machine_id : Option Str
  pub remote_ip : Option Str
  pub forwarded_for : Option Str
  pub user_agent : Option Str
  pub cli_version : Option Str
  pub cli_build : Option Str
  pub platform : Option Str
  pub platform_version : Option Str
  pub arch : Option Str
  pub hostname : Option Str
  pub timezone : Option Str
  pub utc_offset : Option Str
  pub client_timestamp : Option Str
  pub server_timestamp : Str
  pub clock_drift_ms : Option ℤ
  pub locale : Option Str
  pub secure_storage : Option Str
  pub ssh_version : Option Str
  pub terminal : Option Str
  pub ci : Option Bool
  pub container : Option Bool
  pub certificate_id : Option Str
  pub request_duration_ms : Option ℤ

unfoldable pub sanitize : Str → Str
sanitize value = take max_value_len (retain (λ c. not (is_control c)) value)

abbrev pub kept : Str → Option Str
kept s = if not (is_empty s) then some s else none

abbrev pub sanitized : Option Str → Option Str
sanitized none = none
sanitized (some s) = some (sanitize s)

abbrev pub trimmed : Option HeaderValue → Option Str
trimmed none = none
trimmed (some opaque) = none
trimmed (some (readable s)) = kept (trim s)

unfoldable pub header_value : Headers → Str → Option Str
unfolding sanitize
header_value headers name = sanitized (trimmed (headers name))

abbrev first_part : List Str → Option Str
first_part [] = none
first_part (part ∷ parts) = kept (trim part)

unfoldable pub remote_ip : Headers → Option Str
unfolding header_value
remote_ip headers = elim (header_value headers (lit "x-real-ip")) [
  | some real ↦ some real
  | none ↦ elim (header_value headers (lit "x-forwarded-for")) [
    | none ↦ none
    | some chain ↦ first_part (split b',' chain)
  ]
]

abbrev negated : ℕ → ℤ
negated n = if n == 0 then pos 0 else negsuc (n - 1)

-- `(now - client).num_milliseconds()`, cut towards zero
abbrev pub drift : ℕ → ℕ → ℤ
drift now client =
    if leb client now
    then pos ((now - client) / 1_000_000)
    else negated ((client - now) / 1_000_000)

abbrev drift_of : ℕ → Option ℕ → Option ℤ
drift_of now none = none
drift_of now (some client) = some (drift now client)

abbrev parsed : Chrono → Option Str → Option ℕ
parsed c none = none
parsed c (some s) = c.parse_from_rfc3339 s

abbrev is_true : Option Str → Option Bool
is_true none = none
is_true (some v) = some (text_eq v (lit "true"))

module _ (c : Chrono) where
  unfoldable pub from_headers : Headers → Option Str → ℕ → RequestAuditContext
  unfolding header_value remote_ip
  from_headers headers request_id now =
      let client_timestamp = header_value headers (lit "x-mayfly-client-timestamp") in
      record {
        provider = none;
        request_id = sanitized request_id;
        session_id = header_value headers (lit "x-mayfly-session-id");
        machine_id = header_value headers (lit "x-mayfly-machine-id");
        remote_ip = remote_ip headers;
        forwarded_for = header_value headers (lit "x-forwarded-for");
        user_agent = header_value headers (lit "user-agent");
        cli_version = header_value headers (lit "x-mayfly-client-version");
        cli_build = header_value headers (lit "x-mayfly-client-build");
        platform = header_value headers (lit "x-mayfly-platform");
        platform_version = header_value headers (lit "x-mayfly-platform-version");
        arch = header_value headers (lit "x-mayfly-arch");
        hostname = header_value headers (lit "x-mayfly-hostname");
        timezone = header_value headers (lit "x-mayfly-timezone");
        utc_offset = header_value headers (lit "x-mayfly-utc-offset");
        client_timestamp = client_timestamp;
        server_timestamp = c.to_rfc3339_millis now;
        clock_drift_ms = drift_of now (parsed c client_timestamp);
        locale = header_value headers (lit "x-mayfly-locale");
        secure_storage = header_value headers (lit "x-mayfly-secure-storage");
        ssh_version = header_value headers (lit "x-mayfly-ssh-version");
        terminal = header_value headers (lit "x-mayfly-terminal");
        ci = is_true (header_value headers (lit "x-mayfly-ci"));
        container = is_true (header_value headers (lit "x-mayfly-container"));
        certificate_id = none;
        request_duration_ms = none;
      }

abbrev pub with_provider : RequestAuditContext → Str → RequestAuditContext
with_provider context provider = record context { provider = some provider }
