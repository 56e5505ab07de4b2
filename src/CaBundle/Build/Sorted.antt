-- ===== src/CaBundle/Build/Sorted.antt =====
-- What `CaBundle::build` of src/cabundle/models.rs accepts and returns: duplicates are found by
-- looking at the neighbours in a sorted list.
use mayfly_server.Prelude.{
  ◌≡◌, ◌↔◌, refl, sym, ◌∙◌, Str, List, [], ◌∷◌, Bool, true, false, map, text_eq, text_eq_iff, All,
  arith, inl, inr, Bool-cases,
}
use mayfly_server.Prelude.Sort.{
  text_leb, text_leb_antisymm, text_leb_trans, insert_sorted, sort_by, IsSorted,
}
use mayfly_server.Machines.Store.Distinct.{Distinct, occurs}
use mayfly_server.CaBundle.Build.{has_equal_neighbours}

module _ {Row : Type 0} (key : Row → Str) where
  abbrev by_key : Row → Row → Bool
  by_key a b = text_leb (key a) (key b)

  not_among :
      (a b : Row) (rows : List Row)
      → by_key a b ≡ true
      → text_eq (key a) (key b) ≡ false
      → IsSorted by_key (b ∷ rows)
      → occurs key (key a) (b ∷ rows) ≡ false
  not_among a b [] le ne s =
      ground (arith, text_eq_iff (key a) (key b), text_eq_iff (key b) (key a))
  not_among a b (c ∷ rows) le ne s =
      let below : by_key a c ≡ true = text_leb_trans (key a) (key b) (key c) le s.0 in
      let apart : text_eq (key a) (key c) ≡ false = ground (
        arith,
        text_eq_iff (key a) (key c),
        text_eq_iff (key a) (key b),
        text_leb_antisymm (key a) (key b),
      ) in
      ground (
        arith,
        not_among a c rows below apart s.1,
        text_eq_iff (key a) (key b),
        text_eq_iff (key b) (key a),
      )

  neighbours-Distinct :
      (rows : List Row)
      → IsSorted by_key rows
      → has_equal_neighbours (map key rows) ≡ false
      → Distinct key rows
  unfolding has_equal_neighbours
  neighbours-Distinct [] s h = tt
  neighbours-Distinct (a ∷ []) s h = (refl, tt)
  neighbours-Distinct (a ∷ b ∷ rows) s h =
      (not_among a b rows s.0 (ground arith) s.1, neighbours-Distinct (b ∷ rows) s.1 (ground arith))

  Distinct-neighbours :
      (rows : List Row) → Distinct key rows → has_equal_neighbours (map key rows) ≡ false
  unfolding has_equal_neighbours
  Distinct-neighbours [] d = refl
  Distinct-neighbours (a ∷ []) d = refl
  Distinct-neighbours (a ∷ b ∷ rows) d = ground (
    arith,
    d.0,
    Distinct-neighbours (b ∷ rows) d.1,
    text_eq_iff (key a) (key b),
    text_eq_iff (key b) (key a),
  )

  module _ (le : Row → Row → Bool) where
    occurs-insert_sorted :
        (k : Str) (x : Row) (xs : List Row)
        → occurs key k (insert_sorted le x xs) ≡ occurs key k (x ∷ xs)
    unfolding insert_sorted
    occurs-insert_sorted k x [] = refl
    occurs-insert_sorted k x (y ∷ ys) = ground (arith, occurs-insert_sorted k x ys)

    occurs-sort_by : (k : Str) (xs : List Row) → occurs key k (sort_by le xs) ≡ occurs key k xs
    unfolding sort_by
    occurs-sort_by k [] = refl
    occurs-sort_by k (x ∷ xs) =
        ground (arith, occurs-insert_sorted k x (sort_by le xs), occurs-sort_by k xs)

    Distinct-insert_sorted :
        (x : Row) (xs : List Row)
        → occurs key (key x) xs ≡ false
        → Distinct key xs
        → Distinct key (insert_sorted le x xs)
    unfolding insert_sorted
    Distinct-insert_sorted x [] h d = (refl, tt)
    Distinct-insert_sorted x (y ∷ ys) h d = ground (
      arith,
      Distinct-insert_sorted x ys (ground arith) d.1,
      occurs-insert_sorted (key y) x ys,
      text_eq_iff (key x) (key y),
      text_eq_iff (key y) (key x),
    )

    insert_sorted-Distinct :
        (x : Row) (xs : List Row)
        → Distinct key (insert_sorted le x xs)
        → (occurs key (key x) xs ≡ false) × Distinct key xs
    unfolding insert_sorted
    insert_sorted-Distinct x [] d = (refl, tt)
    insert_sorted-Distinct x (y ∷ ys) d = elim (Bool-cases (le x y)) [
      | inl before ↦ ground arith
      | inr after ↦
          let inner : Distinct key (insert_sorted le x ys) = ground arith in
          let rest = insert_sorted-Distinct x ys inner in
          ground (
            arith,
            rest.0,
            rest.1,
            occurs-insert_sorted (key y) x ys,
            text_eq_iff (key x) (key y),
            text_eq_iff (key y) (key x),
          )
    ]

    Distinct-sort_by : (xs : List Row) → Distinct key xs → Distinct key (sort_by le xs)
    unfolding sort_by
    Distinct-sort_by [] d = tt
    Distinct-sort_by (x ∷ xs) d =
        Distinct-insert_sorted x (sort_by le xs) (occurs-sort_by (key x) xs ∙ d.0)
          (Distinct-sort_by xs d.1)

    sort_by-Distinct : (xs : List Row) → Distinct key (sort_by le xs) → Distinct key xs
    unfolding sort_by
    sort_by-Distinct [] d = tt
    sort_by-Distinct (x ∷ xs) d =
        let rest = insert_sorted-Distinct x (sort_by le xs) d in
        (sym (occurs-sort_by (key x) xs) ∙ rest.0, sort_by-Distinct xs rest.1)

  occurs-map :
      (k : Str) (rows : List Row) → occurs (λ (s : Str). s) k (map key rows) ≡ occurs key k rows
  occurs-map k [] = refl
  occurs-map k (r ∷ rows) = ground (arith, occurs-map k rows)

  Distinct-map : (rows : List Row) → Distinct key rows → Distinct (λ (s : Str). s) (map key rows)
  Distinct-map [] d = tt
  Distinct-map (r ∷ rows) d = (occurs-map (key r) rows ∙ d.0, Distinct-map rows d.1)

  map-Distinct : (rows : List Row) → Distinct (λ (s : Str). s) (map key rows) → Distinct key rows
  map-Distinct [] d = tt
  map-Distinct (r ∷ rows) d = (sym (occurs-map (key r) rows) ∙ d.0, map-Distinct rows d.1)

  -- Sorted by the column itself, equal neighbours are the only duplicates.
  pub neighbours_iff :
      (rows : List Row)
      → IsSorted by_key rows
      → (has_equal_neighbours (map key rows) ≡ false) ↔ Distinct key rows
  neighbours_iff rows s = (neighbours-Distinct rows s, Distinct-neighbours rows)

  pub Distinct-sort_by_iff :
      (le : Row → Row → Bool) (rows : List Row) → Distinct key (sort_by le rows) ↔ Distinct key rows
  Distinct-sort_by_iff le rows = (sort_by-Distinct le rows, Distinct-sort_by le rows)

  pub Distinct-map_iff :
      (rows : List Row) → Distinct (λ (s : Str). s) (map key rows) ↔ Distinct key rows
  Distinct-map_iff rows = (map-Distinct rows, Distinct-map rows)

module _ {A : Type 0} (P : A → Type 0) (le : A → A → Bool) where
  All-insert_sorted : (x : A) (xs : List A) → P x → All P xs → All P (insert_sorted le x xs)
  unfolding insert_sorted
  All-insert_sorted x [] p h = (p, tt)
  All-insert_sorted x (y ∷ ys) p h = elim (Bool-cases (le x y)) [
    | inl before ↦ rw before (p, h)
    | inr after ↦ rw after (h.0, All-insert_sorted x ys p h.1)
  ]

  pub All-sort_by : (xs : List A) → All P xs → All P (sort_by le xs)
  unfolding sort_by
  All-sort_by [] h = tt
  All-sort_by (x ∷ xs) h = All-insert_sorted x (sort_by le xs) h.0 (All-sort_by xs h.1)
