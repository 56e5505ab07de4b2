-- ===== src/Audit/Model.antt =====
-- src/audit/model.rs and the error type of src/errors.rs. The type of JSON values is a parameter,
-- since it is `serde_json`'s.
use mayfly_server.Prelude.{ℕ, Str, Option}

pub data AuditError : Type 0 where
  serialization corrupt repository : AuditError

pub record NewAuditEntry (Value : Type 0) : Type 0 where
  pub event_type : Str
  pub actor : Str
  pub subject : Option Str
  pub metadata : Value

pub record AuditEntry (Value : Type 0) : Type 0 where
  pub id : ℕ
  pub chain_position : ℕ
  pub event_type : Str
  pub actor : Str
  pub subject : Option Str
  pub metadata : Value
  -- nanoseconds since the Unix epoch
  pub recorded_at : ℕ
  pub previous_hash : Str
  pub canonical_json : Str
  pub entry_hash : Str

pub record AuditTip : Type 0 where
  pub chain_position : ℕ
  pub entry_hash : Str

-- The reason texts of `verify_chain`, one constructor for each.
pub data BreakReason : Type 0 where
  expected_position : ℕ → BreakReason
  previous_hash_mismatch canonical_mismatch entry_hash_mismatch : BreakReason
  recompute_failed : AuditError → BreakReason

pub data AuditVerificationResult : Type 0 where
  valid : ℕ → AuditVerificationResult
  broken : ℕ → BreakReason → AuditVerificationResult
