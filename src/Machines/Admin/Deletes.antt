-- ===== src/Machines/Admin/Deletes.antt =====
-- What `delete_machine` of src/machines/admin.rs does to the table.
use mayfly_server.Prelude.{
  ◌≡◌, refl, Str, List, [], ◌∷◌, none, some, false, not, find, retain, text_eq, text_eq_iff, arith,
  inl, inr, Bool-cases,
}
use mayfly_server.Prelude.Result.{ok, err, Result-cases}
use mayfly_server.Machines.Models.{Machine}
use mayfly_server.Machines.Store.{Chrono, MachineRow, has_id, delete, find_by_id, optional_machine}
use mayfly_server.Machines.Store.Distinct.{Distinct, count-Distinct}
use mayfly_server.Machines.Protocol.Heartbeat.{found-occurs}
use mayfly_server.Machines.Admin.{MachineAdminError, delete_machine}

find-deleted :
    (id : Str) (rows : List MachineRow)
    → find (has_id id) (retain (λ r. not (has_id id r)) rows) ≡ none
find-deleted id [] = refl
find-deleted id (r ∷ rows) = ground (arith, find-deleted id rows)

find-spared :
    (id other : Str) (rows : List MachineRow)
    → text_eq other id ≡ false
    → find (has_id other) (retain (λ r. not (has_id id r)) rows) ≡ find (has_id other) rows
find-spared id other [] differ = refl
find-spared id other (r ∷ rows) differ = elim (Bool-cases (has_id other r)) [
  | inl hit ↦ ground (arith, find-spared id other rows differ, text_eq_iff r.machine_id other)
  | inr miss ↦ ground (arith, find-spared id other rows differ)
]

module _ (c : Chrono) where
  -- A refused delete leaves the table as it was, when the ids are distinct.
  pub delete_machine-refused :
      (rows : List MachineRow) (id : Str) (e : MachineAdminError)
      → Distinct (λ (r : MachineRow). r.machine_id) rows
      → (delete_machine c rows id).0 ≡ err e
      → (delete_machine c rows id).1 ≡ rows
  unfolding delete_machine delete
  delete_machine-refused rows id e d h = elim (Result-cases (find_by_id c rows id)) [
    | inr (f, failed) ↦ ground arith
    | inl (none, found) ↦ ground arith
    | inl (some k, found) ↦ ground (
      arith,
      found-occurs c rows id k found,
      count-Distinct (λ (r : MachineRow). r.machine_id) id rows d,
    )
  ]

  delete_machine-ok :
      (rows : List MachineRow) (id : Str) (m : Machine)
      → (delete_machine c rows id).0 ≡ ok m
      → (find_by_id c rows id ≡ ok (some m))
        × ((delete_machine c rows id).1 ≡ retain (λ r. not (has_id id r)) rows)
  unfolding delete_machine delete
  delete_machine-ok rows id m h = elim (Result-cases (find_by_id c rows id)) [
    | inr (e, failed) ↦ absurd (ground arith)
    | inl (none, found) ↦ absurd (ground arith)
    | inl (some k, found) ↦ ground arith
  ]

  pub delete_machine-gone :
      (rows : List MachineRow) (id : Str) (m : Machine)
      → (delete_machine c rows id).0 ≡ ok m
      → find_by_id c (delete_machine c rows id).1 id ≡ ok none
  unfolding find_by_id optional_machine
  delete_machine-gone rows id m h =
      let (known, after) = delete_machine-ok rows id m h in rw (after, find-deleted id rows) refl

  -- A delete that is answered with a machine has removed it, which the table held, and no other: its id is not
  -- found any more, and the query for any other id answers as before.
  pub delete_machine-removes :
      (rows : List MachineRow) (id other : Str) (m : Machine)
      → (delete_machine c rows id).0 ≡ ok m
      → text_eq other id ≡ false
      → (find_by_id c rows id ≡ ok (some m))
        × (find_by_id c (delete_machine c rows id).1 id ≡ ok none)
        × (find_by_id c (delete_machine c rows id).1 other ≡ find_by_id c rows other)
  unfolding find_by_id optional_machine
  delete_machine-removes rows id other m h differ =
      let (known, after) = delete_machine-ok rows id m h in
      (known, delete_machine-gone rows id m h, rw (after, find-spared id other rows differ) refl)
