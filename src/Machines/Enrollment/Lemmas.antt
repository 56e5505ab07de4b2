-- ===== src/Machines/Enrollment/Lemmas.antt =====
-- How the queries of src/machines/repository.rs see a table after an update or an insert.
use mayfly_server.Prelude.{
  ◌≡◌, refl, List, [], ◌∷◌, ◌++◌, Option, none, some, Bool, true, find, arith, if◌then◌else◌,
  Bool-cases, inl, inr, retain,
}
use mayfly_server.Machines.Store.{update_rows}

module _ {ℓ} {Row : Type ℓ} (q : Row → Bool) where
  abbrev pub updated : (Row → Bool) → (Row → Row) → Option Row → Option Row
  updated p f none = none
  updated p f (some r) = some (if p r then f r else r)

  -- An update that keeps the column that is searched for.
  pub find-update_rows :
      (p : Row → Bool) (f : Row → Row) (rows : List Row)
      → ((r : Row) → q (f r) ≡ q r)
      → find q (update_rows p f rows) ≡ updated p f (find q rows)
  find-update_rows p f [] keeps = refl
  find-update_rows p f (r ∷ rows) keeps = ground (arith, keeps r, find-update_rows p f rows keeps)

  pub find-append_some :
      (rows more : List Row) (r : Row) → find q rows ≡ some r → find q (rows ++ more) ≡ some r
  find-append_some [] more r h = ground arith
  find-append_some (s ∷ rows) more r h = ground (arith, find-append_some rows more r)

  pub find-hit : (rows : List Row) (r : Row) → find q rows ≡ some r → q r ≡ true
  find-hit [] r h = ground arith
  find-hit (s ∷ rows) r h = elim (Bool-cases (q s)) [
    | inl hit ↦ ground arith
    | inr miss ↦ find-hit rows r (ground arith)
  ]

  -- A delete that spares the row that is searched for.
  pub find-retain-some :
      (p : Row → Bool) (rows : List Row) (r : Row)
      → ((s : Row) → q s ≡ true → p s ≡ true)
      → find q rows ≡ some r
      → find q (retain p rows) ≡ some r
  find-retain-some p [] r spares h = ground arith
  find-retain-some p (s ∷ rows) r spares h =
      ground (arith, find-retain-some p rows r spares, spares s)
