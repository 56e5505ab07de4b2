-- ===== src/Audit/Hash.antt =====
-- src/audit/hash.rs. SHA-256, hexadecimal digests, RFC 3339 texts and JSON texts come from other
-- crates: they are the fields of `Externals`, and what the code relies on is `IsLawful`.
use mayfly_server.Prelude.{
  ℕ, ◌*◌, ◌/◌, ◌≡◌, ◌↔◌, Str, lit, List, ◌++◌, Option, some, Bool, as_bytes, as_bytes-injective,
  length, ap,
}
use mayfly_server.Prelude.ConstantTime.{constant_time_eq, constant_time_eq_iff}
use mayfly_server.Prelude.Result.{Result, ok_or}
use mayfly_server.Audit.Model.{AuditError, AuditEntry, serialization}

-- The fields that `serde_json` writes, in this order.
pub record Canonical (Value : Type 0) : Type 0 where
  pub chain_position : ℕ
  pub event_type : Str
  pub actor : Str
  pub subject : Option Str
  pub recorded_at : Str
  pub metadata : Value

pub record Externals (Value : Type 0) : Type 0 where
  pub sha256_hex : List ℕ → Str
  pub to_rfc3339_millis : ℕ → Str
  pub parse_from_rfc3339 : Str → Option ℕ
  pub value_to_string : Value → Option Str
  pub value_from_str : Str → Option Value
  pub canonical_to_string : Canonical Value → Option Str

-- A rendered instant parses back to itself cut to milliseconds, a written JSON value reads back,
-- and a SHA-256 digest has 64 hexadecimal digits.
pub record IsLawful {Value : Type 0} (x : Externals Value) : Type 0 where
  pub parse-to_rfc3339_millis :
      (t : ℕ) → x.parse_from_rfc3339 (x.to_rfc3339_millis t) ≡ some (t / 1_000_000 * 1_000_000)
  pub value_from_str-to_string :
      (v : Value) (s : Str) → x.value_to_string v ≡ some s → x.value_from_str s ≡ some v
  pub len-sha256_hex : (b : List ℕ) → length (as_bytes (x.sha256_hex b)) ≡ 64

abbrev pub genesis_previous_hash : Str
genesis_previous_hash = lit "df245b05e4a1ca45e4eb8a6e002f84f9abf9f22dd751b84129c351546d02656b"

module _ {Value : Type 0} (x : Externals Value) where
  unfoldable pub canonicalize : ℕ → Str → Str → Option Str → ℕ → Value → Result AuditError Str
  canonicalize chain_position event_type actor subject recorded_at metadata =
      ok_or (x.canonical_to_string canonical) serialization
    where
      canonical : Canonical Value
      canonical = record {
        chain_position = chain_position;
        event_type = event_type;
        actor = actor;
        subject = subject;
        recorded_at = x.to_rfc3339_millis recorded_at;
        metadata = metadata;
      }

  unfoldable pub compute_entry_hash : Str → Str → Str
  compute_entry_hash canonical_json previous_hash =
      x.sha256_hex (as_bytes canonical_json ++ as_bytes previous_hash)

  -- `AuditEntry::recompute_canonical_json`
  unfoldable pub recompute_canonical_json : AuditEntry Value → Result AuditError Str
  recompute_canonical_json e =
      canonicalize e.chain_position e.event_type e.actor e.subject e.recorded_at e.metadata

unfoldable pub hashes_equal : Str → Str → Bool
hashes_equal left right = constant_time_eq (as_bytes left) (as_bytes right)

-- The comparison of two digests is equality of the texts.
pub hashes_equal_iff : (s t : Str) → (hashes_equal s t ≡ Bool.true) ↔ (s ≡ t)
unfolding hashes_equal
hashes_equal_iff s t = (
  λ h. as_bytes-injective s t ((constant_time_eq_iff (as_bytes s) (as_bytes t)).0 h),
  λ e. (constant_time_eq_iff (as_bytes s) (as_bytes t)).1 (ap as_bytes e),
)
