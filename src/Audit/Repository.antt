-- ===== src/Audit/Repository.antt =====
-- src/audit/repository.rs: the table `audit_log` as a list of rows in the order of insertion, with
-- the append, `latest_entry` and `list_entries`. A transaction that fails leaves the table as it
-- was, so the new table comes with `ok` only.
use mayfly_server.Prelude.{
  ℕ, suc, ◌+◌, Str, List, [], ◌∷◌, ◌++◌, Option, none, some, ◌==◌, leb, any, if◌then◌else◌,
}
use mayfly_server.Prelude.Result.{Result, ok, ok_or, ◌>>=◌, ◌>>◌, reject_if, collect}
use mayfly_server.Audit.Model.{
  AuditError, AuditEntry, NewAuditEntry, corrupt, serialization, repository,
}
use mayfly_server.Audit.Hash.{Externals, canonicalize, compute_entry_hash, genesis_previous_hash}

pub record AuditRow : Type 0 where
  pub id : ℕ
  pub chain_position : ℕ
  pub event_type : Str
  pub actor : Str
  pub subject : Option Str
  pub metadata : Str
  pub recorded_at : Str
  pub previous_hash : Str
  pub canonical_json : Str
  pub entry_hash : Str

-- The rows, and SQLite's AUTOINCREMENT counter.
pub record AuditTable : Type 0 where
  pub rows : List AuditRow
  pub sequence : ℕ

abbrev pub later : AuditRow → Option AuditRow → AuditRow
later r none = r
later r (some s) = if leb s.chain_position r.chain_position then r else s

-- `ORDER BY chain_position DESC LIMIT 1`
unfoldable pub latest_row : List AuditRow → Option AuditRow
latest_row [] = none
latest_row (r ∷ rs) = some (later r (latest_row rs))

-- `ORDER BY chain_position ASC`
unfoldable pub insert_asc : AuditRow → List AuditRow → List AuditRow
insert_asc r [] = r ∷ []
insert_asc r (s ∷ rs) =
    let rest = insert_asc r rs in
    if leb r.chain_position s.chain_position then r ∷ s ∷ rs else s ∷ rest

unfoldable pub order_asc : List AuditRow → List AuditRow
unfolding insert_asc
order_asc [] = []
order_asc (r ∷ rs) = insert_asc r (order_asc rs)

abbrev pub next_link : Option AuditRow → ℕ × Str
next_link none = (1, genesis_previous_hash)
next_link (some r) = (r.chain_position + 1, r.entry_hash)

module _ {Value : Type 0} (x : Externals Value) where
  -- `TryFrom<AuditRow> for AuditEntry`
  unfoldable pub decode_row : AuditRow → Result AuditError (AuditEntry Value)
  decode_row row = do
    metadata ← ok_or (x.value_from_str row.metadata) corrupt
    recorded_at ← ok_or (x.parse_from_rfc3339 row.recorded_at) corrupt
    ok (record {
      id = row.id;
      chain_position = row.chain_position;
      event_type = row.event_type;
      actor = row.actor;
      subject = row.subject;
      metadata = metadata;
      recorded_at = recorded_at;
      previous_hash = row.previous_hash;
      canonical_json = row.canonical_json;
      entry_hash = row.entry_hash;
    })

  -- The INSERT, under the UNIQUE constraint on `chain_position`.
  unfoldable pub insert_row : AuditTable → AuditRow → Result AuditError AuditTable
  insert_row t row = do
    reject_if (any (λ r. r.chain_position == row.chain_position) t.rows) repository
    ok (record { rows = t.rows ++ row ∷ []; sequence = suc t.sequence })

  unfoldable pub append_entry :
      AuditTable → NewAuditEntry Value → ℕ → Result AuditError (AuditEntry Value × AuditTable)
  append_entry t new now = do
    let recorded_at_text = x.to_rfc3339_millis now
    recorded_at ← ok_or (x.parse_from_rfc3339 recorded_at_text) corrupt
    metadata_text ← ok_or (x.value_to_string new.metadata) serialization
    let link = next_link (latest_row t.rows)
    canonical_json ←
        canonicalize x link.0 new.event_type new.actor new.subject recorded_at new.metadata
    let entry_hash = compute_entry_hash x canonical_json link.1
    let id = suc t.sequence
    t' ← insert_row t (record {
      id = id;
      chain_position = link.0;
      event_type = new.event_type;
      actor = new.actor;
      subject = new.subject;
      metadata = metadata_text;
      recorded_at = recorded_at_text;
      previous_hash = link.1;
      canonical_json = canonical_json;
      entry_hash = entry_hash;
    })
    ok (
      record {
        id = id;
        chain_position = link.0;
        event_type = new.event_type;
        actor = new.actor;
        subject = new.subject;
        metadata = new.metadata;
        recorded_at = recorded_at;
        previous_hash = link.1;
        canonical_json = canonical_json;
        entry_hash = entry_hash;
      },
      t',
    )

  unfoldable pub latest_entry : AuditTable → Result AuditError (Option (AuditEntry Value))
  latest_entry t = elim (latest_row t.rows) [
    | none ↦ ok none
    | some row ↦ do e ← decode_row row; ok (some e)
  ]

  unfoldable pub list_entries : AuditTable → Result AuditError (List (AuditEntry Value))
  list_entries t = collect decode_row (order_asc t.rows)
