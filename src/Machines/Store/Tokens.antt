-- ===== src/Machines/Store/Tokens.antt =====
-- The token half of src/machines/repository.rs.
use mayfly_server.Prelude.{
  ℕ, Str, lit, List, [], ◌∷◌, ◌++◌, Option, none, some, Bool, true, false, ◌&&◌, not, ◌==◌, any,
  find, count, text_eq, if◌then◌else◌,
}
use mayfly_server.Prelude.Result.{Result, ok, ◌>>=◌, ◌>>◌, reject_if}
use mayfly_server.Machines.Models.{EnrollmentToken, NewEnrollmentToken}
use mayfly_server.Machines.Store.{
  Chrono, SqlxError, database, parse_dt, parse_optional_dt, update_rows,
}

pub record TokenRow : Type 0 where
  pub id : Str
  pub token_hash : Str
  pub created_at : Str
  pub expires_at : Str
  pub used_at : Option Str
  pub created_by : Str
  pub single_use : ℕ

abbrev pub is_unused : TokenRow → Bool
is_unused r = elim r.used_at [ none ↦ true | some t ↦ false ]

abbrev pub of_bool : Bool → ℕ
of_bool true = 1
of_bool false = 0

abbrev pub has_hash : Str → TokenRow → Bool
has_hash token_hash r = text_eq r.token_hash token_hash

-- The WHERE clauses of the two updates.
abbrev pub consumable : Str → Bool → TokenRow → Bool
consumable token_id single_use r =
    text_eq r.id token_id && (if single_use then is_unused r else true)

module _ (c : Chrono) where
  -- `TryFrom<TokenRow> for EnrollmentToken`
  unfoldable pub token_of_row : TokenRow → Result SqlxError EnrollmentToken
  unfolding parse_dt parse_optional_dt
  token_of_row row = do
    used_at ← parse_optional_dt c row.used_at
    created_at ← parse_dt c row.created_at
    expires_at ← parse_dt c row.expires_at
    ok (record {
      id = row.id;
      token_hash = row.token_hash;
      created_at = created_at;
      expires_at = expires_at;
      used_at = used_at;
      created_by = row.created_by;
      single_use = not (row.single_use == 0);
    })

  -- The values of the INSERT.
  abbrev pub row_of_new_token : NewEnrollmentToken → TokenRow
  row_of_new_token new = record {
    id = new.id;
    token_hash = new.token_hash;
    created_at = c.to_rfc3339_millis new.created_at;
    expires_at = c.to_rfc3339_millis new.expires_at;
    used_at = none;
    created_by = new.created_by;
    single_use = of_bool new.single_use;
  }

  -- The INSERT, under the constraints of the migration.
  unfoldable pub create :
      List TokenRow → NewEnrollmentToken → Result SqlxError (EnrollmentToken × List TokenRow)
  create rows new = do
    reject_if (any (λ r. text_eq r.id new.id) rows)
        (database (lit "UNIQUE constraint failed: machine_enrollment_tokens.id"))
    reject_if (any (λ r. text_eq r.token_hash new.token_hash) rows)
        (database (lit "UNIQUE constraint failed: machine_enrollment_tokens.token_hash"))
    ok (
      record {
        id = new.id;
        token_hash = new.token_hash;
        created_at = new.created_at;
        expires_at = new.expires_at;
        used_at = none;
        created_by = new.created_by;
        single_use = new.single_use;
      },
      rows ++ row_of_new_token new ∷ [],
    )

  unfoldable pub find_by_hash : List TokenRow → Str → Result SqlxError (Option EnrollmentToken)
  find_by_hash rows token_hash = elim (find (has_hash token_hash) rows) [
    | none ↦ ok none
    | some row ↦ do t ← token_of_row row; ok (some t)
  ]

  abbrev pub stamp : ℕ → TokenRow → TokenRow
  stamp now r = record r { used_at = some (c.to_rfc3339_millis now) }

  unfoldable pub consume : List TokenRow → Str → Bool → ℕ → Bool × List TokenRow
  consume rows token_id single_use now = (
    count (consumable token_id single_use) rows == 1,
    update_rows (consumable token_id single_use) (stamp now) rows,
  )
