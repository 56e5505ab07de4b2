-- ===== src/AgentAuth/Middleware.antt =====
-- src/agentauth/middleware.rs. A request holds what the HTTP layer hands over: each signing header
-- as the text of its first value, if there is one and it is visible ASCII.
pub mod Accepts
pub mod Lifecycle
pub mod Replays
use mayfly_server.Prelude.{
  ℕ, ◌+◌, ◌-◌, ◌/◌, ◌*◌, ◌^◌, Str, List, Option, none, some, Bool, not, ltb, ◌==◌, length, is_empty,
  if◌then◌else◌,
}
use mayfly_server.Prelude.Int.{ℤ, pos, negsuc, int_leb}
use mayfly_server.Prelude.Result.{Result, ok, err, ok_or, ◌>>=◌, ◌>>◌, reject_if}
use mayfly_server.Machines.Models.{Machine, MachineStatus, status_eq}
use mayfly_server.Machines.Store.{Chrono, SqlxError, MachineRow, find_by_id}
use mayfly_server.AgentAuth.Decimal.{parse_i64}
use mayfly_server.AgentAuth.Nonce.{NonceCache, check_and_record, nanos_per_sec}
use mayfly_server.AgentAuth.Signing.{
  SigningCrates, SignatureError, body_sha256_hex, canonical_string, verify_signature,
}

abbrev pub max_signed_body_bytes : ℕ
max_signed_body_bytes = 64 * 1024

abbrev pub timestamp_skew_secs : ℕ
timestamp_skew_secs = 60

pub record Request : Type 0 where
  pub machine_id : Option Str
  pub timestamp : Option Str
  pub nonce : Option Str
  pub signature : Option Str
  pub method : Str
  pub path : Str
  pub body : List ℕ

pub data ApiError : Type 0 where
  -- the two texts of `Unauthorized`, and `Internal`
  authentication_failed malformed_headers internal : ApiError

unfoldable pub header_value : Option Str → Result ApiError Str
header_value none = err malformed_headers
header_value (some v) = if is_empty v then err malformed_headers else ok v

-- `now.timestamp()`
abbrev pub timestamp_secs : ℕ → ℕ
timestamp_secs now = now / nanos_per_sec

-- `(-d).abs()` on `i64` in a release build: a distance of `2 ^ 63` is the least `i64`, which `abs`
-- leaves as it is.
abbrev wrapped_abs : ℕ → ℤ
wrapped_abs d =
    if ltb d (2 ^ 63) then pos d else if d == 2 ^ 63 then negsuc (2 ^ 63 - 1) else pos (2 ^ 64 - d)

-- `(now.timestamp() - timestamp).abs()` on `i64`, with the wrap-around of a release build; a debug
-- build panics there.
unfoldable pub skew : ℕ → ℤ → ℤ
skew secs (pos t) = pos (if ltb secs t then t - secs else secs - t)
skew secs (negsuc n) = wrapped_abs (secs + n + 1)

abbrev pub queried : {A : Type 0} → Result SqlxError A → Result ApiError A
queried (ok a) = ok a
queried (err e) = err internal

abbrev pub verified : Result SignatureError Unit → Result ApiError Unit
verified (ok u) = ok tt
verified (err e) = err authentication_failed

-- The signing headers, read and parsed.
pub record SignedHeaders : Type 0 where
  pub machine_id : Str
  pub timestamp_raw : Str
  pub nonce : Str
  pub signature : Str
  pub timestamp : ℤ

unfoldable pub read_headers : Request → Result ApiError SignedHeaders
unfolding header_value
read_headers request = do
  machine_id ← header_value request.machine_id
  timestamp_raw ← header_value request.timestamp
  nonce ← header_value request.nonce
  signature ← header_value request.signature
  timestamp ← ok_or (parse_i64 timestamp_raw) authentication_failed
  ok (record {
    machine_id = machine_id;
    timestamp_raw = timestamp_raw;
    nonce = nonce;
    signature = signature;
    timestamp = timestamp;
  })

module _ {Key VerifyingKey : Type 0} (x : SigningCrates Key VerifyingKey) (c : Chrono) where
  abbrev pub canonical_of : Request → SignedHeaders → Str
  canonical_of request h =
      canonical_string h.machine_id h.timestamp h.nonce request.method request.path
        (body_sha256_hex x request.body)

  -- Steps 4, 5 and 5b.
  unfoldable pub check_machine : List MachineRow → Request → SignedHeaders → Result ApiError Machine
  check_machine machines request h = do
    found ← queried (find_by_id c machines h.machine_id)
    machine ← ok_or found authentication_failed
    verified (verify_signature x machine.public_key (canonical_of request h) h.signature)
    reject_if (not (status_eq machine.status MachineStatus.active)) authentication_failed
    ok machine

  -- Steps 1 to 5b: they write nothing.
  unfoldable pub check_signed :
      List MachineRow → Request → ℕ → Result ApiError (SignedHeaders × Machine)
  check_signed machines request now = do
    h ← read_headers request
    reject_if (not (int_leb (skew (timestamp_secs now) h.timestamp) (pos timestamp_skew_secs)))
        authentication_failed
    reject_if (ltb max_signed_body_bytes (length request.body)) authentication_failed
    machine ← check_machine machines request h
    ok (h, machine)

  -- Step 6: the machine that the handler then sees, and the nonce cache.
  unfoldable pub verify_machine_signature :
      List MachineRow → NonceCache → Request → ℕ → Result ApiError Machine × NonceCache
  verify_machine_signature machines cache request now = elim (check_signed machines request now) [
    | err e ↦ (err e, cache)
    | ok (h, machine) ↦
        let (fresh, cache') = check_and_record cache h.machine_id h.nonce now in
        (if fresh then ok machine else err authentication_failed, cache')
  ]
