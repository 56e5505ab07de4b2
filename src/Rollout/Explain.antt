-- ===== src/Rollout/Explain.antt =====
-- `explain` and `stuck` of src/rollout/service.rs. The fixed descriptions and recommendations are
-- texts of the category and are left out.
use mayfly_server.Prelude.{
  ℕ, ◌-◌, Str, List, [], ◌∷◌, Option, Bool, ◌&&◌, ◌||◌, not, ltb, ◌==◌, length, take, retain, map,
  ◌++◌,
}
use mayfly_server.Prelude.Int.{ℤ}
use mayfly_server.Prelude.Sort.{sort_by, text_leb}
use mayfly_server.Machines.Store.{Chrono}
use mayfly_server.Machines.Admin.{MachineView}
use mayfly_server.Rollout.Snapshot.{
  RolloutService, Category, MachineFailure, Metadata, categorize, effective_failure, up_to_date,
  revoked_machine, disabled_machine, bundle_verification_failure, helper_failure, offline_machine,
  heartbeat_stale, generation_mismatch,
}
use mayfly_server.Rollout.Views.{
  active, completed_count, generations_behind, liveness_str, is_stuck,
}

abbrev explain_sample : ℕ
explain_sample = 10

pub record ExplainCategory : Type 0 where
  pub category : Category
  pub count : ℕ
  pub machines : List Str

pub record RolloutExplanation : Type 0 where
  pub latest_generation : Option ℤ
  pub complete : Bool
  pub remaining : ℕ
  pub categories : List ExplainCategory

pub record StuckMachine : Type 0 where
  pub machine_id : Str
  pub hostname : Str
  pub category : Category
  pub generations_behind : ℕ
  pub liveness : Str
  pub last_sync : Option Str
  pub last_seen : Option Str
  pub last_failure : Option MachineFailure

pub record StuckReport : Type 0 where
  pub count : ℕ
  pub stuck : List StuckMachine

-- The place of a category in a list of all, by which two are compared.
abbrev pub category_index : Category → ℕ
category_index up_to_date = 0
category_index bundle_verification_failure = 1
category_index helper_failure = 2
category_index offline_machine = 3
category_index heartbeat_stale = 4
category_index disabled_machine = 5
category_index revoked_machine = 6
category_index generation_mismatch = 7

abbrev pub category_eq : Category → Category → Bool
category_eq a b = category_index a == category_index b

-- The order in which the categories are emitted.
abbrev pub explain_order : List Category
explain_order =
    bundle_verification_failure ∷ helper_failure ∷ offline_machine ∷ heartbeat_stale
    ∷ disabled_machine ∷ revoked_machine ∷ generation_mismatch ∷ []

-- `b.generations_behind.cmp(&a.generations_behind).then_with(|| a.hostname.cmp(&b.hostname))`
abbrev pub stuck_leb : StuckMachine → StuckMachine → Bool
stuck_leb a b =
    ltb b.generations_behind a.generations_behind
    || (a.generations_behind == b.generations_behind && text_leb a.hostname b.hostname)

module _ {Value : Type 0} (c : Chrono) (d : Metadata Value) where
  -- The hosts of one bucket, in the order of the machines.
  unfoldable pub bucket : RolloutService Value → Category → List Str
  unfolding categorize
  bucket s category =
      map (λ (m : MachineView). m.hostname)
        (retain
          (λ (m : MachineView). not m.up_to_date && category_eq (categorize c d s m).1 category)
          s.machines)

  abbrev pub explained : Category → List Str → List ExplainCategory
  explained category [] = []
  explained category (host ∷ hosts) =
      record {
        category = category;
        count = length (host ∷ hosts);
        machines = take explain_sample (sort_by text_leb (host ∷ hosts));
      }
      ∷ []

  -- The loop over the order.
  unfoldable pub explained_all : RolloutService Value → List Category → List ExplainCategory
  unfolding bucket
  explained_all s [] = []
  explained_all s (category ∷ order) =
      explained category (bucket s category) ++ explained_all s order

  unfoldable pub explain : RolloutService Value → RolloutExplanation
  unfolding explained_all
  explain s =
      let remaining = length (active c d s) - completed_count c d s in
      record {
        latest_generation = s.latest_generation;
        complete = remaining == 0;
        remaining = remaining;
        categories = explained_all s explain_order;
      }

  abbrev pub stuck_machine : RolloutService Value → MachineView → StuckMachine
  stuck_machine s m = record {
    machine_id = m.machine_id;
    hostname = m.hostname;
    category = (categorize c d s m).1;
    generations_behind = generations_behind m;
    liveness = liveness_str m.liveness;
    last_sync = m.last_sync;
    last_seen = m.last_seen;
    last_failure = effective_failure c d s m;
  }

  unfoldable pub stuck_report : RolloutService Value → StuckReport
  stuck_report s =
      let found = sort_by stuck_leb (
        map (stuck_machine s)
          (retain (λ (m : MachineView). is_stuck c d (categorize c d s m).0) s.machines)) in
      record { count = length found; stuck = found }
