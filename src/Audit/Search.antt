-- ===== src/Audit/Search.antt =====
-- src/audit/query.rs and the filtered queries of src/audit/repository.rs. `json_extract` of SQLite,
-- restricted to text values, is a parameter.
pub mod Like
pub mod Pages
use mayfly_server.Prelude.{
  ℕ, ◌+◌, Str, lit, List, [], ◌∷◌, ◌++◌, Option, none, some, Bool, true, false, ◌&&◌, ◌||◌, not,
  ltb, leb, ◌==◌, any, map, retain, length, take, text_eq, eq_ignore_ascii_case, to_ascii_lowercase,
  if◌then◌else◌,
}
use mayfly_server.Prelude.Int.{ℤ, pos, int_leb, negsuc}
use mayfly_server.Prelude.Sort.{sort_by, text_leb}
use mayfly_server.Prelude.Result.{Result, ok, err, ◌>>=◌, collect}
use mayfly_server.Audit.Model.{AuditError, AuditEntry}
use mayfly_server.Audit.Hash.{Externals}
use mayfly_server.Audit.Repository.{AuditRow, AuditTable, order_asc, decode_row}

pub data Order : Type 0 where
  ascending descending : Order

pub data ResultFilter : Type 0 where
  success failure : ResultFilter

abbrev pub max_limit : ℕ
max_limit = 1000

pub record AuditQuery : Type 0 where
  pub event_type : Option Str
  pub event_prefix : Option Str
  pub actor : Option Str
  pub subject : Option Str
  pub machine : Option Str
  pub provider : Option Str
  pub serial : Option Str
  pub request_id : Option Str
  pub result : Option ResultFilter
  pub since : Option ℕ
  pub until : Option ℕ
  pub after_position : Option ℤ
  pub before_position : Option ℤ
  pub limit : ℤ
  pub order : Order

-- `AuditQuery::default()`
abbrev pub default_query : AuditQuery
default_query = record {
  event_type = none;
  event_prefix = none;
  actor = none;
  subject = none;
  machine = none;
  provider = none;
  serial = none;
  request_id = none;
  result = none;
  since = none;
  until = none;
  after_position = none;
  before_position = none;
  limit = pos 0;
  order = descending;
}

-- `clamp(1, MAX_LIMIT)` on `i64`
abbrev pub clamp_limit : ℤ → ℕ
clamp_limit (negsuc n) = 1
clamp_limit (pos n) = if ltb n 1 then 1 else if ltb max_limit n then max_limit else n

unfoldable pub effective_limit : AuditQuery → ℕ
effective_limit query = clamp_limit query.limit

-- The three replacements, which do not touch each other's results.
unfoldable pub like_escape : Str → Str
like_escape [] = []
like_escape (c ∷ value) =
    if c == b'\\' || c == b'%' || c == b'_'
    then b'\\' ∷ c ∷ like_escape value
    else c ∷ like_escape value

abbrev pub tails : Str → List Str
tails [] = [] ∷ []
tails (c ∷ s) = (c ∷ s) ∷ tails s

abbrev same_letter : ℕ → ℕ → Bool
same_letter a b = to_ascii_lowercase a == to_ascii_lowercase b

abbrev pub one : (ℕ → Bool) → (Str → Bool) → Str → Bool
one test rest [] = false
one test rest (c ∷ s) = test c && rest s

-- `LIKE … ESCAPE '\'` of SQL, with SQLite's comparison of ASCII letters.
unfoldable mutual
  pub like : Str → Str → Bool
  like [] [] = true
  like [] (c ∷ s) = false
  like (p ∷ pattern) s =
      if p == b'%'
      then any (like pattern) (tails s)
      else if p == b'_'
      then one (λ c. true) (like pattern) s
      else if p == b'\\'
      then like_literal pattern s
      else one (same_letter p) (like pattern) s

  -- After the escape character.
  pub like_literal : Str → Str → Bool
  like_literal [] s = false
  like_literal (p ∷ pattern) s = one (same_letter p) (like pattern) s

-- `lower` of SQLite, on ASCII letters.
abbrev pub lower : Str → Str
lower s = map to_ascii_lowercase s

-- `FAILURE_PREDICATE`
unfoldable pub is_failure : Str → Bool
is_failure event_type =
    any (λ pattern. like pattern (lower event_type))
      (lit "%denied%" ∷ lit "%failed%" ∷ lit "%rejected%" ∷ lit "%rollback%" ∷ lit "%error%" ∷ [])

-- A condition that is pushed for `Some` only.
abbrev pub wanted : {A : Type 0} → Option A → (A → Bool) → Bool
wanted none test = true
wanted (some a) test = test a

-- A comparison with NULL is not true.
abbrev pub equals : Option Str → Str → Bool
equals none s = false
equals (some v) s = text_eq v s

abbrev pub equals_nocase : Option Str → Str → Bool
equals_nocase none s = false
equals_nocase (some v) s = eq_ignore_ascii_case v s

abbrev pub has_result : Str → ResultFilter → Bool
has_result event_type failure = is_failure event_type
has_result event_type success = not (is_failure event_type)

pub record AuditPage (Value : Type 0) : Type 0 where
  pub entries : List (AuditEntry Value)
  pub has_more : Bool

-- The WHERE clause of `push_filters`.
module _ {Value : Type 0} (x : Externals Value) (json_extract : Str → Str → Option Str) where
  unfoldable pub selects : AuditQuery → AuditRow → Bool
  selects query r =
      wanted query.event_type (λ t. text_eq r.event_type t)
      && wanted query.event_prefix (λ p. like (like_escape p ++ b'%' ∷ []) r.event_type)
      && wanted query.actor (λ a. eq_ignore_ascii_case r.actor a)
      && wanted query.subject (λ s. equals r.subject s)
      && wanted query.machine
          (λ m. equals r.subject m || equals (json_extract r.metadata (lit "$.hostname")) m)
      && wanted query.provider (λ p. equals_nocase (json_extract r.metadata (lit "$.provider")) p)
      && wanted query.serial (λ s. equals (json_extract r.metadata (lit "$.serial")) s)
      && wanted query.request_id
          (λ i. equals (json_extract r.metadata (lit "$.client.request_id")) i)
      && wanted query.result (λ f. has_result r.event_type f)
      && wanted query.since (λ t. text_leb (x.to_rfc3339_millis t) r.recorded_at)
      && wanted query.until (λ t. text_leb r.recorded_at (x.to_rfc3339_millis t))
      && wanted query.after_position (λ p. not (int_leb (pos r.chain_position) p))
      && wanted query.before_position (λ p. not (int_leb p (pos r.chain_position)))

  abbrev pub ordered : Order → List AuditRow → List AuditRow
  ordered ascending rows = order_asc rows
  ordered descending rows = sort_by (λ (r s : AuditRow). leb s.chain_position r.chain_position) rows

  unfoldable pub search : AuditTable → AuditQuery → Result AuditError (AuditPage Value)
  search t query = do
    let limit = effective_limit query
    let rows = take (limit + 1) (ordered query.order (retain (selects query) t.rows))
    entries ← collect (decode_row x) rows
    let has_more = ltb limit (length entries)
    ok (record { entries = if has_more then take limit entries else entries; has_more = has_more })

  -- `count` of the repository and of the service.
  unfoldable pub count_entries : AuditTable → AuditQuery → ℕ
  count_entries t query = length (retain (selects query) t.rows)
