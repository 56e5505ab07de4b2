-- ===== src/Audit/Search/Pages.antt =====
-- The pages of `search` of src/audit/repository.rs.
use mayfly_server.Prelude.{
  ◌≡◌, ◌≤◌, refl, ◌∙◌, ℕ, ◌+◌, suc, Str, List, [], ◌∷◌, Option, Bool, ltb, length, length-take,
  take, retain, arith, inl, inr, min,
}
use mayfly_server.Prelude.Int.{ℤ, pos, negsuc}
use mayfly_server.Prelude.Sort.{sort_by, insert_sorted}
use mayfly_server.Prelude.Result.{Result, ok, collect, Result-cases}
use mayfly_server.Audit.Model.{AuditError}
use mayfly_server.Audit.Hash.{Externals}
use mayfly_server.Audit.Repository.{AuditRow, AuditTable, order_asc, insert_asc, decode_row}
use mayfly_server.Audit.Search.{
  AuditQuery, AuditPage, Order, ascending, descending, clamp_limit, effective_limit, selects,
  ordered, search, count_entries,
}

module _ {A : Type 0} (le : A → A → Bool) where
  length-insert_sorted : (a : A) (xs : List A) → length (insert_sorted le a xs) ≡ suc (length xs)
  unfolding insert_sorted
  length-insert_sorted a [] = refl
  length-insert_sorted a (b ∷ xs) = ground (arith, length-insert_sorted a xs)

  length-sort_by : (xs : List A) → length (sort_by le xs) ≡ length xs
  unfolding sort_by
  length-sort_by [] = refl
  length-sort_by (a ∷ xs) =
      ground (arith, length-insert_sorted a (sort_by le xs), length-sort_by xs)

length-insert_asc :
    (r : AuditRow) (rows : List AuditRow) → length (insert_asc r rows) ≡ suc (length rows)
unfolding insert_asc
length-insert_asc r [] = refl
length-insert_asc r (s ∷ rows) = ground (arith, length-insert_asc r rows)

length-order_asc : (rows : List AuditRow) → length (order_asc rows) ≡ length rows
unfolding order_asc
length-order_asc [] = refl
length-order_asc (r ∷ rows) =
    ground (arith, length-insert_asc r (order_asc rows), length-order_asc rows)

length-collect :
    {A B : Type 0} (f : A → Result AuditError B) (xs : List A) (ys : List B)
    → collect f xs ≡ ok ys
    → length ys ≡ length xs
unfolding collect
length-collect f [] ys h = ground arith
length-collect f (a ∷ xs) ys h = elim (Result-cases (f a)) [
  | inr (e, failed) ↦ absurd (ground arith)
  | inl (b, decoded) ↦ elim (Result-cases (collect f xs)) [
    | inr (e, failed) ↦ absurd (ground arith)
    | inl (bs, rest) ↦ ground (arith, length-collect f xs bs rest)
  ]
]

clamp_limit-range : (l : ℤ) → (1 ≤ clamp_limit l) × (clamp_limit l ≤ 1000)
clamp_limit-range (pos n) = ground arith
clamp_limit-range (negsuc n) = ground arith

effective_limit-range :
    (query : AuditQuery) → (1 ≤ effective_limit query) × (effective_limit query ≤ 1000)
unfolding effective_limit
effective_limit-range query = clamp_limit-range query.limit

module _ {Value : Type 0} (x : Externals Value) (json_extract : Str → Str → Option Str) where
  length-ordered :
      (o : Order) (rows : List AuditRow) → length (ordered x json_extract o rows) ≡ length rows
  length-ordered ascending rows = length-order_asc rows
  length-ordered descending rows = length-sort_by _ rows

  -- A page holds as many of the selected entries as its limit allows, which is 1 to 1000 whatever
  -- the query asks for, and says that there are more exactly when `count` finds more.
  pub search-page :
      (t : AuditTable) (query : AuditQuery) (page : AuditPage Value)
      → search x json_extract t query ≡ ok page
      → (length page.entries ≡ min (effective_limit query) (count_entries x json_extract t query))
        × (page.has_more ≡ ltb (effective_limit query) (count_entries x json_extract t query))
        × (1 ≤ effective_limit query)
        × (effective_limit query ≤ 1000)
  unfolding search count_entries
  search-page t query page h =
      let limit : ℕ = effective_limit query in
      let rows : List AuditRow =
        ordered x json_extract query.order (retain (selects x json_extract query) t.rows) in
      elim (Result-cases (collect (decode_row x) (take (limit + 1) rows))) [
        | inr (e, failed) ↦ absurd (ground arith)
        | inl (entries, decoded) ↦
            let all_rows =
              length-ordered query.order (retain (selects x json_extract query) t.rows) in
            let fetched : length entries ≡ min (limit + 1) (length rows) =
              length-collect (decode_row x) (take (limit + 1) rows) entries decoded
              ∙ length-take (limit + 1) rows in
            (
              ground (arith, length-take limit entries),
              ground arith,
              (effective_limit-range query).0,
              (effective_limit-range query).1,
            )
      ]
