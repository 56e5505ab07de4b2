-- ===== src/Bundle/Fleet/Counts.antt =====
-- The figures of `fleet_status` in src/bundle/service.rs.
use mayfly_server.Prelude.{
  ◌≡◌, refl, ap, ◌==◌, ℕ, suc, ◌+◌, List, [], ◌∷◌, none, some, Bool, false, length, count, arith,
  if◌then◌else◌, Option, Option-cases, inl, inr,
}
use mayfly_server.Prelude.Int.{ℤ, pos, int_eq, int_eq_iff}
use mayfly_server.Machines.Store.{Chrono, MachineRow}
use mayfly_server.Machines.Protocol.{LivenessStatus, online, stale, offline, derive}
use mayfly_server.Rollout.Counts.{machines_at, machines_at-bump}
use mayfly_server.Bundle.Fleet.{Tally, no_tally, seen, seen_at, synced_to, tally_rows, fleet_status}

abbrev pub row_synced_to : ℤ → MachineRow → Bool
row_synced_to g r = elim r.synced_generation [ none ↦ false | some h ↦ int_eq g h ]

abbrev reached : Tally → ℕ
reached t = t.online + t.stale + t.offline

seen-reached : (l : LivenessStatus) (t : Tally) → reached (seen l t) ≡ suc (reached t)
seen-reached online t = omega arith
seen-reached stale t = omega arith
seen-reached offline t = omega arith

seen-counts : (l : LivenessStatus) (t : Tally) → (seen l t).counts ≡ t.counts
seen-counts online t = refl
seen-counts stale t = refl
seen-counts offline t = refl

synced_to-reached :
    (latest : ℕ) (synced : Option ℤ) (t : Tally) → reached (synced_to latest synced t) ≡ reached t
synced_to-reached latest none t = refl
synced_to-reached latest (some h) t = refl

-- What a machine adds to the figure of the generation.
abbrev added : ℤ → Option ℤ → ℕ
added g none = 0
added g (some h) = if int_eq g h then 1 else 0

synced_to-counts :
    (latest : ℕ) (g : ℤ) (synced : Option ℤ) (t : Tally)
    → machines_at g (synced_to latest synced t).counts ≡ added g synced + machines_at g t.counts
synced_to-counts latest g none t = omega arith
synced_to-counts latest g (some h) t = machines_at-bump g h t.counts

int_eq_comm : (g h : ℤ) → int_eq g h ≡ int_eq h g
int_eq_comm g h = ground (arith, int_eq_iff g h, int_eq_iff h g)

synced_to-on_latest :
    (latest : ℕ) (synced : Option ℤ) (t : Tally)
    → (synced_to latest synced t).on_latest ≡ added (pos latest) synced + t.on_latest
synced_to-on_latest latest none t = omega arith
synced_to-on_latest latest (some h) t = rw (int_eq_comm h (pos latest)) (ground arith)

seen-on_latest : (l : LivenessStatus) (t : Tally) → (seen l t).on_latest ≡ t.on_latest
seen-on_latest online t = refl
seen-on_latest stale t = refl
seen-on_latest offline t = refl

row_synced_to-added :
    (g : ℤ) (r : MachineRow) → (if row_synced_to g r then 1 else 0) ≡ added g r.synced_generation
row_synced_to-added g r = elim (Option-cases r.synced_generation) [
  | inl never ↦ rw never refl
  | inr (h, synced) ↦ rw synced refl
]

module _ (c : Chrono) (latest now : ℕ) where
  abbrev step : MachineRow → Tally → Tally
  step r t = seen (derive (seen_at c r.last_seen) now) t

  tally_rows-reached :
      (rows : List MachineRow) (t : Tally)
      → reached (tally_rows c latest now rows t) ≡ reached t + length rows
  unfolding tally_rows
  tally_rows-reached [] t = omega arith
  tally_rows-reached (r ∷ rows) t = omega (
    arith,
    tally_rows-reached rows (synced_to latest r.synced_generation (step r t)),
    synced_to-reached latest r.synced_generation (step r t),
    seen-reached (derive (seen_at c r.last_seen) now) t,
  )

  tally_rows-counts :
      (g : ℤ) (rows : List MachineRow) (t : Tally)
      → machines_at g (tally_rows c latest now rows t).counts
        ≡ machines_at g t.counts + count (row_synced_to g) rows
  unfolding tally_rows
  tally_rows-counts g [] t = omega arith
  tally_rows-counts g (r ∷ rows) t =
      let same = ap (machines_at g) (seen-counts (derive (seen_at c r.last_seen) now) t) in
      omega (
        arith,
        tally_rows-counts g rows (synced_to latest r.synced_generation (step r t)),
        synced_to-counts latest g r.synced_generation (step r t),
        same,
        row_synced_to-added g r,
      )

  tally_rows-on_latest :
      (rows : List MachineRow) (t : Tally)
      → (tally_rows c latest now rows t).on_latest
        ≡ t.on_latest + count (row_synced_to (pos latest)) rows
  unfolding tally_rows
  tally_rows-on_latest [] t = omega arith
  tally_rows-on_latest (r ∷ rows) t = omega (
    arith,
    tally_rows-on_latest rows (synced_to latest r.synced_generation (step r t)),
    synced_to-on_latest latest r.synced_generation (step r t),
    seen-on_latest (derive (seen_at c r.last_seen) now) t,
    row_synced_to-added (pos latest) r,
  )

  -- The machines that are online, stale and offline are all machines; the figure of each generation
  -- is the number of machines that have last synced to it; and the percentage, unless there is no
  -- machine, is that of the machines synced to the latest generation among all.
  pub fleet_status-counts :
      {F64 : Type 0} (zero_percent : F64) (percent : ℕ → ℕ → F64) (rows : List MachineRow) (g : ℤ)
      → let f = fleet_status c zero_percent percent latest rows now in
        (f.online + f.stale + f.offline ≡ f.total_machines)
        × (machines_at g f.generations ≡ count (row_synced_to g) rows)
        × (f.rollout_percentage ≡ (
            if f.total_machines == 0
            then zero_percent
            else percent (count (row_synced_to (pos latest)) rows) f.total_machines))
  unfolding fleet_status
  fleet_status-counts zero_percent percent rows g =
      let on_latest : (tally_rows c latest now rows no_tally).on_latest
          ≡ count (row_synced_to (pos latest)) rows =
        omega (arith, tally_rows-on_latest rows no_tally) in
      (
        omega (arith, tally_rows-reached rows no_tally),
        omega (arith, tally_rows-counts g rows no_tally),
        rw on_latest refl,
      )
