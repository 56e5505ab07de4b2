-- ===== src/Bundle/Retirement.antt =====
-- `assess_retirement` of src/bundle/service.rs. The CA manager, which is not in the repository,
-- gives the record and its generation.
use mayfly_server.Prelude.{
  ℕ, suc, ◌+◌, ◌≡◌, ◌↔◌, refl, Str, List, [], ◌∷◌, Option, none, some, Bool, true, false, not, ◌==◌,
  count, arith, All, if◌then◌else◌, Bool-cases, Option-cases, inl, inr,
}
use mayfly_server.Prelude.Int.{ℤ, pos, int_leb}
use mayfly_server.Prelude.Result.{Result, ok, err}
use mayfly_server.Machines.Store.{MachineRow}

-- The fields of `CaRecord` that the assessment reads.
pub record CaRecord : Type 0 where
  pub id : Str
  pub key_id : Str
  pub enabled : Bool
  pub disabled_generation : Option ℕ

-- The formatted reasons, one constructor for each text.
pub data RetirementReason : Type 0 where
  still_enabled none_depends : RetirementReason
  may_still_trust : ℕ → ℕ → RetirementReason

pub record RetirementAssessment : Type 0 where
  pub id : Str
  pub key_id : Str
  pub safe : Bool
  pub affected_machines : ℕ
  pub oldest_generation : Option ℤ
  pub latest_generation : Option ℤ
  pub reason : RetirementReason

pub data RetirementError : Type 0 where
  not_found : Str → RetirementError

-- The variables of the loop.
pub record Affected : Type 0 where
  pub affected : ℕ
  pub oldest : Option ℤ
  pub newest : Option ℤ

abbrev int_min : ℤ → ℤ → ℤ
int_min a b = if int_leb a b then a else b

abbrev int_max : ℤ → ℤ → ℤ
int_max a b = if int_leb a b then b else a

abbrev least : Option ℤ → ℤ → ℤ
least none g = g
least (some o) g = int_min o g

abbrev greatest : Option ℤ → ℤ → ℤ
greatest none g = g
greatest (some n) g = int_max n g

-- `g < cutoff`, and `true` without a generation.
abbrev pub depends : ℕ → Option ℤ → Bool
depends cutoff none = true
depends cutoff (some g) = not (int_leb (pos cutoff) g)

abbrev pub add_affected : Option ℤ → Affected → Affected
add_affected none a = record a { affected = suc a.affected }
add_affected (some g) a = record {
  affected = suc a.affected;
  oldest = some (least a.oldest g);
  newest = some (greatest a.newest g);
}

-- The loop over the machines.
unfoldable pub scan : ℕ → Affected → List MachineRow → Affected
scan cutoff a [] = a
scan cutoff a (r ∷ rows) =
    scan cutoff
      (if depends cutoff r.synced_generation then add_affected r.synced_generation a else a) rows

abbrev pub cutoff_of : Option ℕ → ℕ → ℕ
cutoff_of none generation = generation
cutoff_of (some g) generation = g

abbrev pub nothing_affected : Affected
nothing_affected = record { affected = 0; oldest = none; newest = none }

abbrev pub assessment : CaRecord → ℕ → Affected → RetirementAssessment
assessment r cutoff a = record {
  id = r.id;
  key_id = r.key_id;
  safe = a.affected == 0;
  affected_machines = a.affected;
  oldest_generation = a.oldest;
  latest_generation = a.newest;
  reason = if a.affected == 0 then none_depends else may_still_trust a.affected cutoff;
}

-- The record that `get` finds, the manager's generation, and the machines.
unfoldable pub assess_retirement :
    Option CaRecord → ℕ → List MachineRow → Str → Result RetirementError RetirementAssessment
unfolding scan
assess_retirement none generation rows id = err (not_found id)
assess_retirement (some r) generation rows id =
    if r.enabled
    then ok (record {
      id = r.id;
      key_id = r.key_id;
      safe = false;
      affected_machines = 0;
      oldest_generation = none;
      latest_generation = none;
      reason = still_enabled;
    })
    else ok (
        assessment r (cutoff_of r.disabled_generation generation)
          (scan (cutoff_of r.disabled_generation generation) nothing_affected rows))

-- The machine has applied a bundle of the generation or a later one.
abbrev pub HasMovedOn : ℕ → MachineRow → Type 0
HasMovedOn cutoff r = (g : ℤ) × (r.synced_generation ≡ some g) × (int_leb (pos cutoff) g ≡ true)

scan-count :
    (cutoff : ℕ) (a : Affected) (rows : List MachineRow)
    → (scan cutoff a rows).affected
      ≡ a.affected + count (λ (r : MachineRow). depends cutoff r.synced_generation) rows
unfolding scan
scan-count cutoff a [] = ground arith
scan-count cutoff a (r ∷ rows) = elim (Bool-cases (depends cutoff r.synced_generation)) [
  | inl still ↦
      rw still (ground (arith, scan-count cutoff (add_affected r.synced_generation a) rows))
  | inr gone ↦ rw gone (ground (arith, scan-count cutoff a rows))
]

depends-HasMovedOn :
    (cutoff : ℕ) (r : MachineRow)
    → (depends cutoff r.synced_generation ≡ false) ↔ HasMovedOn cutoff r
depends-HasMovedOn cutoff r = elim (Option-cases r.synced_generation) [
  | inl never ↦ (λ h. absurd (ground arith), λ (g, synced, later). absurd (ground arith))
  | inr (g, synced) ↦ (λ h. (g, synced, ground arith), λ (g', synced', later). ground arith)
]

Bool-clash : {b : Bool} → b ≡ true → b ≡ false → ⊥
Bool-clash t f = ground arith

none_depend :
    (cutoff : ℕ) (rows : List MachineRow)
    → (count (λ (r : MachineRow). depends cutoff r.synced_generation) rows ≡ 0)
      ↔ All (HasMovedOn cutoff) rows
none_depend cutoff [] = (λ h. tt, λ h. refl)
none_depend cutoff (r ∷ rows) =
    let (to, from) = none_depend cutoff rows in
    let (moved, unmoved) = depends-HasMovedOn cutoff r in
    elim (Bool-cases (depends cutoff r.synced_generation)) [
      | inl still ↦ (λ h. absurd (ground arith), λ (m, ms). absurd (Bool-clash still (unmoved m)))
      | inr gone ↦
          (λ h. (moved gone, to (ground arith)), λ (m, ms). let none_left = from ms in ground arith)
    ]

-- A retirement is assessed as safe exactly when the key is disabled and every machine, whatever its
-- status, has applied the bundle that left the key out or a later one: a machine that has never
-- synced makes it unsafe.
pub assess_retirement-safe_iff :
    (r : CaRecord) (generation : ℕ) (rows : List MachineRow) (id : Str) (a : RetirementAssessment)
    → assess_retirement (some r) generation rows id ≡ ok a
    → (a.safe ≡ true)
      ↔ ((r.enabled ≡ false) × All (HasMovedOn (cutoff_of r.disabled_generation generation)) rows)
unfolding assess_retirement
assess_retirement-safe_iff r generation rows id a h = ground (
  arith,
  scan-count (cutoff_of r.disabled_generation generation) nothing_affected rows,
  none_depend (cutoff_of r.disabled_generation generation) rows,
)
