-- ===== src/Rollout/Counts.antt =====
-- The counts of src/rollout/service.rs agree with one another.
use mayfly_server.Prelude.{
  ◌≡◌, refl, ◌∙◌, ℕ, suc, ◌+◌, Str, List, [], ◌∷◌, ◌++◌, none, some, Bool, false, not, ◌&&◌, length,
  count, retain, map, arith, if◌then◌else◌, Option-cases, Bool-cases, inl, inr,
}
use mayfly_server.Prelude.Int.{ℤ, int_eq, int_eq_iff}
use mayfly_server.Machines.Store.{Chrono}
use mayfly_server.Machines.Admin.{MachineView}
use mayfly_server.Rollout.Snapshot.{RolloutService, Category, Metadata, categorize}
use mayfly_server.Rollout.Views.{
  RolloutBreakdown, active, completed_count, breakdown, tally, tally_all, empty_breakdown,
}
use mayfly_server.Rollout.Health.{bump, population}
use mayfly_server.Rollout.Explain.{
  ExplainCategory, bucket, explained, explained_all, explain, explain_order, category_eq,
}

abbrev pub sum : RolloutBreakdown → ℕ
sum b = b.healthy + b.stale + b.offline + b.failed + b.pending

-- The number that the counts have for the generation.
abbrev pub machines_at : ℤ → List (ℤ × ℕ) → ℕ
machines_at g [] = 0
machines_at g ((h, n) ∷ counts) = (if int_eq g h then n else 0) + machines_at g counts

abbrev pub has_synced_to : ℤ → MachineView → Bool
has_synced_to g m = elim m.synced_generation [ none ↦ false | some h ↦ int_eq g h ]

pub machines_at-bump :
    (g h : ℤ) (counts : List (ℤ × ℕ))
    → machines_at g (bump h counts) ≡ (if int_eq g h then 1 else 0) + machines_at g counts
unfolding bump
machines_at-bump g h [] = refl
machines_at-bump g h ((k, n) ∷ counts) = elim (Bool-cases (int_eq h k)) [
  | inl equal ↦ rw ((int_eq_iff h k).0 equal, (int_eq_iff k k).1 refl) (ground arith)
  | inr other ↦ ground (arith, machines_at-bump g h counts)
]

machines_at-population_from :
    (g : ℤ) (counts : List (ℤ × ℕ)) (machines : List MachineView)
    → machines_at g (population counts machines)
      ≡ machines_at g counts + count (has_synced_to g) machines
unfolding population
machines_at-population_from g counts [] = omega arith
machines_at-population_from g counts (m ∷ machines) = elim (Option-cases m.synced_generation) [
  | inl never ↦ rw never (omega (arith, machines_at-population_from g counts machines))
  | inr (h, synced) ↦ rw synced (
      ground (
        arith,
        machines_at-population_from g (bump h counts) machines,
        machines_at-bump g h counts,
      ))
]

-- The population of a generation is the number of the machines, of any status, that have last synced
-- to it.
pub machines_at-population :
    (g : ℤ) (machines : List MachineView)
    → machines_at g (population [] machines) ≡ count (has_synced_to g) machines
machines_at-population g machines = omega (arith, machines_at-population_from g [] machines)

unfoldable pub explained_count : List ExplainCategory → ℕ
explained_count [] = 0
explained_count (e ∷ es) = e.count + explained_count es

module _ {Value : Type 0} (c : Chrono) (d : Metadata Value) (s : RolloutService Value) where
  sum-tally : (m : MachineView) (b : RolloutBreakdown) → sum (tally c d s m b) ≡ suc (sum b)
  unfolding tally
  sum-tally m b = ground arith

  tally_all-sum :
      (ms : List MachineView) (b : RolloutBreakdown)
      → sum (tally_all c d s ms b) ≡ sum b + length ms
  unfolding tally_all
  tally_all-sum [] b = omega arith
  tally_all-sum (m ∷ ms) b = omega (arith, tally_all-sum ms (tally c d s m b), sum-tally m b)

  healthy-tally :
      (m : MachineView) (b : RolloutBreakdown)
      → (tally c d s m b).healthy ≡ b.healthy + (if m.up_to_date then 1 else 0)
  unfolding tally
  healthy-tally m b = ground arith

  tally_all-healthy :
      (ms : List MachineView) (b : RolloutBreakdown)
      → (tally_all c d s ms b).healthy ≡ b.healthy + count (λ (m : MachineView). m.up_to_date) ms
  unfolding tally_all
  tally_all-healthy [] b = omega arith
  tally_all-healthy (m ∷ ms) b =
      omega (arith, tally_all-healthy ms (tally c d s m b), healthy-tally m b)

  -- The five numbers of the breakdown add up to the active machines, and the first is the number of
  -- completed ones, so the other four are the remaining machines.
  pub breakdown-sum :
      (sum (breakdown c d s) ≡ length (active c d s))
      × ((breakdown c d s).healthy ≡ completed_count c d s)
  unfolding breakdown
  breakdown-sum = (
    omega (arith, tally_all-sum (active c d s) (empty_breakdown c d)),
    omega (arith, tally_all-healthy (active c d s) (empty_breakdown c d)),
  )

  -- 1 if the machine is in the bucket of the category.
  abbrev hits : MachineView → Category → ℕ
  hits m k = if not m.up_to_date && category_eq (categorize c d s m).1 k then 1 else 0

  abbrev hits_all : MachineView → List Category → ℕ
  hits_all m [] = 0
  hits_all m (k ∷ ks) = hits m k + hits_all m ks

  one_bucket : (m : MachineView) → hits_all m explain_order ≡ (if m.up_to_date then 0 else 1)
  unfolding categorize
  one_bucket m = ground arith

  length-bucket :
      (ms : List MachineView) (k : Category)
      → length (
          map
            (λ (m : MachineView). m.hostname)
            (retain
              (λ (m : MachineView). not m.up_to_date && category_eq (categorize c d s m).1 k)
              ms))
        ≡ count (λ (m : MachineView). not m.up_to_date && category_eq (categorize c d s m).1 k) ms
  length-bucket [] k = refl
  length-bucket (m ∷ ms) k = ground (arith, length-bucket ms k)

  abbrev in_buckets : List MachineView → List Category → ℕ
  in_buckets ms [] = 0
  in_buckets ms (k ∷ ks) =
      count (λ (m : MachineView). not m.up_to_date && category_eq (categorize c d s m).1 k) ms
      + in_buckets ms ks

  in_buckets-cons :
      (m : MachineView) (ms : List MachineView) (ks : List Category)
      → in_buckets (m ∷ ms) ks ≡ hits_all m ks + in_buckets ms ks
  in_buckets-cons m ms [] = refl
  in_buckets-cons m ms (k ∷ ks) = omega (arith, in_buckets-cons m ms ks)

  in_buckets-nil : (ks : List Category) → in_buckets [] ks ≡ 0
  in_buckets-nil [] = refl
  in_buckets-nil (k ∷ ks) = omega (arith, in_buckets-nil ks)

  in_buckets_lem :
      (ms : List MachineView)
      → in_buckets ms explain_order ≡ count (λ (m : MachineView). not m.up_to_date) ms
  in_buckets_lem [] = in_buckets-nil explain_order
  in_buckets_lem (m ∷ ms) =
      ground (arith, in_buckets-cons m ms explain_order, one_bucket m, in_buckets_lem ms)

  explained_count-append :
      (es fs : List ExplainCategory)
      → explained_count (es ++ fs) ≡ explained_count es + explained_count fs
  unfolding explained_count
  explained_count-append [] fs = omega arith
  explained_count-append (e ∷ es) fs = omega (arith, explained_count-append es fs)

  explained_count-explained :
      (k : Category) (hosts : List Str) → explained_count (explained c d k hosts) ≡ length hosts
  unfolding explained_count
  explained_count-explained k [] = refl
  explained_count-explained k (host ∷ hosts) = omega arith

  explained_all-count :
      (ks : List Category) → explained_count (explained_all c d s ks) ≡ in_buckets s.machines ks
  unfolding explained_all bucket explained_count
  explained_all-count [] = refl
  explained_all-count (k ∷ ks) = omega (
    arith,
    explained_count-append (explained c d k (bucket c d s k)) (explained_all c d s ks),
    explained_count-explained k (bucket c d s k),
    length-bucket s.machines k,
    explained_all-count ks,
  )

  -- The explanation puts each machine that is not up to date, whatever its status, in exactly one
  -- category: the counts of the categories add up to the number of these machines.
  pub explain-count :
      explained_count (explain c d s).categories
      ≡ count (λ (m : MachineView). not m.up_to_date) s.machines
  unfolding explain
  explain-count = explained_all-count explain_order ∙ in_buckets_lem s.machines
