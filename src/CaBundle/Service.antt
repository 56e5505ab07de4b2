-- ===== src/CaBundle/Service.antt =====
-- src/cabundle/repository.rs and src/cabundle/service.rs: the tables `ca_keys` and
-- `ca_bundle_state`, the seed, and the acknowledgements, which are written to the machines' table.
pub mod Acks
pub mod Seed
use mayfly_server.Prelude.{
  ℕ, ◌+◌, Str, lit, List, [], ◌∷◌, Option, none, some, Bool, true, false, ◌||◌, not, ltb, ◌==◌,
  is_empty, len, length, map, retain, count, text_eq, trim, if◌then◌else◌,
}
use mayfly_server.Prelude.Int.{ℤ, pos, int_eq}
use mayfly_server.Prelude.Sort.{sort_by, text_leb}
use mayfly_server.Prelude.Result.{Result, ok, err, ◌>>=◌, ◌>>◌, reject_if}
use mayfly_server.Machines.Store.{Chrono, SqlxError, MachineRow, has_id, update_rows}
use mayfly_server.Machines.Validation.{SshKeys}
use mayfly_server.CaBundle.Canonical.{CaBundleKey}
use mayfly_server.CaBundle.Build.{CaBundle, CaBundleError, build}

abbrev max_fingerprint_len : ℕ
max_fingerprint_len = 128

pub record CaKeyRow : Type 0 where
  pub key_id : Str
  pub public_key : Str
  pub created_at : Str
  pub generation : ℤ
  pub enabled : ℤ

-- The keys in the order of insertion, and the generation of the one row of the state.
pub record CaTables : Type 0 where
  pub keys : List CaKeyRow
  pub generation : Option ℤ

pub record CaKeyRecord : Type 0 where
  pub key_id : Str
  pub public_key : Str
  pub created_at : Str
  pub generation : ℤ
  pub enabled : Bool

pub record AckRequest : Type 0 where
  pub generation : ℤ
  pub fingerprint : Str
  pub status : Str

pub record AckResponse : Type 0 where
  pub status : Str
  pub generation : ℤ

pub data AckError : Type 0 where
  -- the two messages of `Invalid`
  invalid_status invalid_fingerprint : AckError
  mismatch unknown_machine : AckError
  bundle : CaBundleError → AckError

-- `From<CaKeyRow> for CaKeyRecord`
abbrev pub record_of_row : CaKeyRow → CaKeyRecord
record_of_row row = record {
  key_id = row.key_id;
  public_key = row.public_key;
  created_at = row.created_at;
  generation = row.generation;
  enabled = not (int_eq row.enabled (pos 0));
}

unfoldable pub current_generation : CaTables → ℤ
current_generation tables = elim tables.generation [ none ↦ pos 0 | some g ↦ g ]

-- `WHERE enabled = 1 ORDER BY key_id`
unfoldable pub list_enabled : CaTables → List CaKeyRecord
list_enabled tables = map record_of_row (
    sort_by (λ (a b : CaKeyRow). text_leb a.key_id b.key_id)
      (retain (λ r. int_eq r.enabled (pos 1)) tables.keys))

abbrev pub key_of_record : CaKeyRecord → CaBundleKey
key_of_record r = record { key_id = r.key_id; public_key = r.public_key }

module _ (c : Chrono) where
  -- The transaction of `ensure_seeded`.
  unfoldable pub ensure_seeded : CaTables → Str → Str → ℕ → CaTables
  ensure_seeded tables key_id public_key now =
      if length tables.keys == 0
      then record {
        keys =
            record {
              key_id = key_id;
              public_key = public_key;
              created_at = c.to_rfc3339_millis now;
              generation = pos 1;
              enabled = pos 1;
            }
            ∷ tables.keys;
        generation = some (pos 1);
      }
      else tables

  abbrev pub synced : ℤ → Str → ℕ → MachineRow → MachineRow
  synced generation fingerprint now r = record r {
    synced_generation = some generation;
    bundle_fingerprint = some fingerprint;
    last_sync = some (c.to_rfc3339_millis now);
    updated_at = c.to_rfc3339_millis now;
  }

  -- `record_ack` of the repository.
  unfoldable pub write_ack : List MachineRow → Str → ℤ → Str → ℕ → Bool × List MachineRow
  write_ack rows machine_id generation fingerprint now = (
    count (has_id machine_id) rows == 1,
    update_rows (has_id machine_id) (synced generation fingerprint now) rows,
  )

module _ {Key : Type 0} (c : Chrono) (k : SshKeys Key) (sha256_hex : List ℕ → Str) where
  unfoldable pub current_bundle : CaTables → Result CaBundleError CaBundle
  current_bundle tables =
      build k sha256_hex (current_generation tables) (map key_of_record (list_enabled tables))

  abbrev pub loaded : {A : Type 0} → Result CaBundleError A → Result AckError A
  loaded (ok a) = ok a
  loaded (err e) = err (bundle e)

  -- The checks before the write: the current bundle, which the acknowledgement matches.
  unfoldable pub check_ack : CaTables → AckRequest → Result AckError CaBundle
  check_ack tables ack = do
    reject_if (not (text_eq (trim ack.status) (lit "success"))) invalid_status
    let fingerprint = trim ack.fingerprint
    reject_if (is_empty fingerprint || ltb max_fingerprint_len (len fingerprint))
        invalid_fingerprint
    b ← loaded (current_bundle tables)
    reject_if (not (int_eq ack.generation b.generation) || not (text_eq fingerprint b.fingerprint))
        mismatch
    ok b

  -- `record_ack` of the service. The machines' table comes back in every case.
  unfoldable pub record_ack :
      CaTables
      → List MachineRow
      → Str
      → AckRequest
      → ℕ
      → Result AckError AckResponse × List MachineRow
  record_ack tables rows machine_id ack now = elim (check_ack tables ack) [
    | err e ↦ (err e, rows)
    | ok b ↦
        let (updated, rows') = write_ack c rows machine_id b.generation b.fingerprint now in
        (
          if not updated
              then err unknown_machine
              else ok (record { status = lit "recorded"; generation = b.generation }),
          rows',
        )
  ]
