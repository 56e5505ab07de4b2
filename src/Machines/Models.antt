-- ===== src/Machines/Models.antt =====
-- src/machines/models.rs and src/machines/errors.rs. Instants are nanoseconds since the Unix epoch.
use mayfly_server.Prelude.{ℕ, Str, lit, Option, none, some, Bool, text_eq, if◌then◌else◌, ◌≡◌, refl}
use mayfly_server.Prelude.Int.{ℤ}

pub data MachineStatus : Type 0 where
  pending active disabled revoked : MachineStatus

-- The derived equality.
abbrev pub status_eq : MachineStatus → MachineStatus → Bool
status_eq pending pending = Bool.true
status_eq active active = Bool.true
status_eq disabled disabled = Bool.true
status_eq revoked revoked = Bool.true
status_eq _ _ = Bool.false

unfoldable pub as_str : MachineStatus → Str
as_str pending = lit "pending"
as_str active = lit "active"
as_str disabled = lit "disabled"
as_str revoked = lit "revoked"

unfoldable pub from_db_str : Str → Option MachineStatus
from_db_str value =
    if text_eq value (lit "pending")
    then some pending
    else if text_eq value (lit "active")
    then some active
    else if text_eq value (lit "disabled")
    then some disabled
    else if text_eq value (lit "revoked")
    then some revoked
    else none

-- A stored status reads back.
pub from_db_str-as_str : (s : MachineStatus) → from_db_str (as_str s) ≡ some s
unfolding from_db_str as_str text_eq
from_db_str-as_str pending = refl
from_db_str-as_str active = refl
from_db_str-as_str disabled = refl
from_db_str-as_str revoked = refl

pub record Machine : Type 0 where
  pub machine_id : Str
  pub hostname : Str
  pub public_key : Str
  pub os : Str
  pub arch : Str
  pub agent_version : Str
  pub status : MachineStatus
  pub ip : Option Str
  pub current_generation : ℤ
  pub synced_generation : Option ℤ
  pub bundle_fingerprint : Option Str
  pub last_sync : Option ℕ
  pub last_seen : Option ℕ
  pub enrolled_at : ℕ
  pub created_at : ℕ
  pub updated_at : ℕ

pub record NewMachine : Type 0 where
  pub machine_id : Str
  pub hostname : Str
  pub public_key : Str
  pub os : Str
  pub arch : Str
  pub agent_version : Str
  pub status : MachineStatus
  pub enrolled_at : ℕ

pub record EnrollmentToken : Type 0 where
  pub id : Str
  pub token_hash : Str
  pub created_at : ℕ
  pub expires_at : ℕ
  pub used_at : Option ℕ
  pub created_by : Str
  pub single_use : Bool

pub record NewEnrollmentToken : Type 0 where
  pub id : Str
  pub token_hash : Str
  pub created_at : ℕ
  pub expires_at : ℕ
  pub created_by : Str
  pub single_use : Bool

pub record IssuedEnrollmentToken : Type 0 where
  pub plaintext : Str
  pub issued : EnrollmentToken

pub record EnrollRequest : Type 0 where
  pub enrollment_token : Str
  pub hostname : Str
  pub os : Str
  pub arch : Str
  pub agent_version : Str
  pub public_key : Str

pub record EnrollResponse : Type 0 where
  pub machine_id : Str
  pub heartbeat_interval : ℕ
  pub sync_interval : ℕ
  pub server_identity : Str
  pub bundle_signing_key : Option Str

-- `EnrollmentError`; the message of `InvalidRequest` is always the same, and the cause of
-- `Internal` is only logged.
pub data EnrollmentError : Type 0 where
  token_invalid token_expired token_already_used invalid_request public_key_invalid :
      EnrollmentError
  host_already_enrolled public_key_already_exists internal : EnrollmentError

unfoldable pub status_code : EnrollmentError → ℕ
status_code token_invalid = 401
status_code token_expired = 401
status_code invalid_request = 400
status_code public_key_invalid = 400
status_code token_already_used = 409
status_code host_already_enrolled = 409
status_code public_key_already_exists = 409
status_code internal = 500
