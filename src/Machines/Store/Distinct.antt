-- ===== src/Machines/Store/Distinct.antt =====
-- A column without repetitions, under the updates, inserts and deletes of
-- src/machines/repository.rs.
use mayfly_server.Prelude.{
  ◌≡◌, refl, Str, List, [], ◌∷◌, ◌++◌, Bool, false, any, count, retain, map, text_eq, text_eq_iff,
  arith, ◌==◌,
}
use mayfly_server.Machines.Store.{update_rows}

module _ {Row : Type 0} (key : Row → Str) where
  abbrev pub occurs : Str → List Row → Bool
  occurs k rows = any (λ r. text_eq (key r) k) rows

  -- No two rows have the same value in the column.
  abbrev pub Distinct : List Row → Type 0
  Distinct [] = Unit
  Distinct (r ∷ rows) = (occurs (key r) rows ≡ false) × Distinct rows

  occurs-append :
      (k : Str) (rows : List Row) (new : Row)
      → occurs k rows ≡ false
      → text_eq (key new) k ≡ false
      → occurs k (rows ++ new ∷ []) ≡ false
  occurs-append k [] new h n = ground arith
  occurs-append k (r ∷ rows) new h n = ground (arith, occurs-append k rows new)

  pub Distinct-append :
      (rows : List Row) (new : Row)
      → Distinct rows
      → occurs (key new) rows ≡ false
      → Distinct (rows ++ new ∷ [])
  Distinct-append [] new d h = (refl, tt)
  Distinct-append (r ∷ rows) new d h = (
    occurs-append (key r) rows new d.0
        (ground (arith, text_eq_iff (key new) (key r), text_eq_iff (key r) (key new))),
    Distinct-append rows new d.1 (ground arith),
  )

  occurs-update_rows :
      (k : Str) (p : Row → Bool) (f : Row → Row) (rows : List Row)
      → ((r : Row) → key (f r) ≡ key r)
      → occurs k (update_rows p f rows) ≡ occurs k rows
  occurs-update_rows k p f [] keeps = refl
  occurs-update_rows k p f (r ∷ rows) keeps =
      ground (arith, keeps r, occurs-update_rows k p f rows keeps)

  pub Distinct-update_rows :
      (p : Row → Bool) (f : Row → Row) (rows : List Row)
      → ((r : Row) → key (f r) ≡ key r)
      → Distinct rows
      → Distinct (update_rows p f rows)
  Distinct-update_rows p f [] keeps d = tt
  Distinct-update_rows p f (r ∷ rows) keeps d = (
    ground (
      arith,
      keeps r,
      occurs-update_rows (key r) p f rows keeps,
      occurs-update_rows (key (f r)) p f rows keeps,
      d.0,
    ),
    Distinct-update_rows p f rows keeps d.1,
  )

  occurs-retain :
      (k : Str) (p : Row → Bool) (rows : List Row)
      → occurs k rows ≡ false
      → occurs k (retain p rows) ≡ false
  occurs-retain k p [] h = h
  occurs-retain k p (r ∷ rows) h = ground (arith, occurs-retain k p rows)

  pub Distinct-retain :
      (p : Row → Bool) (rows : List Row) → Distinct rows → Distinct (retain p rows)
  Distinct-retain p [] d = tt
  Distinct-retain p (r ∷ rows) d =
      ground (arith, occurs-retain (key r) p rows d.0, Distinct-retain p rows d.1)

  count-occurs :
      (k : Str) (rows : List Row) → occurs k rows ≡ false → count (λ r. text_eq (key r) k) rows ≡ 0
  count-occurs k [] h = refl
  count-occurs k (r ∷ rows) h = ground (arith, count-occurs k rows)

  -- In a column without repetitions a value that occurs is affected once.
  pub count-Distinct :
      (k : Str) (rows : List Row)
      → Distinct rows
      → (count (λ r. text_eq (key r) k) rows == 1) ≡ occurs k rows
  count-Distinct k [] d = ground arith
  count-Distinct k (r ∷ rows) d =
      ground (arith, count-Distinct k rows d.1, count-occurs k rows, text_eq_iff (key r) k, d.0)

  pub update_rows-absent :
      (k : Str) (f : Row → Row) (rows : List Row)
      → occurs k rows ≡ false
      → update_rows (λ r. text_eq (key r) k) f rows ≡ rows
  update_rows-absent k f [] h = refl
  update_rows-absent k f (r ∷ rows) h = ground (arith, update_rows-absent k f rows)

module _ {Row : Type 0} {B : Type 0} where
  -- A column that the update does not assign keeps its values.
  pub map-update_rows :
      (g : Row → B) (p : Row → Bool) (f : Row → Row) (rows : List Row)
      → ((r : Row) → g (f r) ≡ g r)
      → map g (update_rows p f rows) ≡ map g rows
  map-update_rows g p f [] keeps = refl
  map-update_rows g p f (r ∷ rows) keeps = ground (arith, keeps r, map-update_rows g p f rows keeps)
