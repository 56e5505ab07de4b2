-- ===== src/Http/MachineQuery.antt =====
-- The query parameters of the listing of machines in src/routes/admin_machines.rs.
use mayfly_server.Prelude.{
  Str, lit, ◌++◌, Option, none, some, not, trim, is_empty, text_eq, if◌then◌else◌,
}
use mayfly_server.Prelude.Int.{ℤ}
use mayfly_server.Prelude.Result as Results
use mayfly_server.Prelude.Result.{Result, ok, err, ok_or}
use mayfly_server.Machines.Models.{from_db_str}
use mayfly_server.Machines.Protocol.{LivenessStatus, online, stale, offline}
use mayfly_server.Machines.Admin.{MachineFilter}
use mayfly_server.Http.Errors.{ApiError, bad_request}

pub record MachineListQuery : Type 0 where
  pub status : Option Str
  pub liveness : Option Str
  pub hostname : Option Str
  pub generation : Option ℤ
  pub os : Option Str
  pub arch : Option Str
  pub agent_version : Option Str

unfoldable pub non_empty : Option Str → Option Str
non_empty none = none
non_empty (some s) = if not (is_empty (trim s)) then some (trim s) else none

abbrev parsed : {A : Type 0} → (Str → Result ApiError A) → Option Str → Result ApiError (Option A)
parsed parse none = ok none
parsed parse (some v) = Results.◌>>=◌ (parse v) λ a. ok (some a)

unfoldable pub parse_opt :
    {A : Type 0} → Option Str → (Str → Result ApiError A) → Result ApiError (Option A)
unfolding non_empty
parse_opt value parse = parsed parse (non_empty value)

module _ (to_lowercase : Str → Str) where
  unfoldable pub parse_liveness : Str → Option LivenessStatus
  parse_liveness value =
      if text_eq (to_lowercase value) (lit "online")
      then some online
      else if text_eq (to_lowercase value) (lit "stale")
      then some stale
      else if text_eq (to_lowercase value) (lit "offline")
      then some offline
      else none

  unfoldable pub into_filter : MachineListQuery → Result ApiError MachineFilter
  unfolding parse_opt parse_liveness
  into_filter query =
      Results.◌>>=◌
        (parse_opt query.status λ v.
          ok_or (from_db_str (to_lowercase v))
            (bad_request (lit "unknown status '" ++ v ++ lit "'")))
        λ status.
          Results.◌>>=◌
            (parse_opt query.liveness λ v.
              ok_or (parse_liveness v) (bad_request (lit "unknown liveness '" ++ v ++ lit "'")))
            λ liveness. ok (record {
              status = status;
              liveness = liveness;
              hostname = non_empty query.hostname;
              generation = query.generation;
              os = non_empty query.os;
              arch = non_empty query.arch;
              agent_version = non_empty query.agent_version;
            })
