-- ===== src/Audit/Chain/Rows.antt =====
-- Tables of src/audit/repository.rs whose rows decode to linked entries: what the queries of the
-- repository return on them.
use mayfly_server.Prelude.{
  ℕ, suc, ◌+◌, ◌<◌, ◌≡◌, refl, sym, ap, ◌∙◌, Str, List, [], ◌∷◌, ◌++◌, Option, none, some, false,
  arith, length, any, ◌==◌,
}
use mayfly_server.Prelude.Result.{ok, collect}
use mayfly_server.Audit.Model.{AuditEntry, valid}
use mayfly_server.Audit.Hash.{Externals, genesis_previous_hash}
use mayfly_server.Audit.Repository.{
  AuditRow, AuditTable, latest_row, order_asc, decode_row, list_entries, next_link,
}
use mayfly_server.Audit.Verifier.{verify_chain, verify_table}
use mayfly_server.Audit.Chain.Links.{IsLink, Linked, verify_chain-Linked_iff}

-- What the row after `rows` carries, if `k` rows and the hash `prev` stand before them.
abbrev pub link_from : ℕ → Str → Option AuditRow → ℕ × Str
link_from k prev none = (k + 1, prev)
link_from k prev (some r) = (r.chain_position + 1, r.entry_hash)

abbrev pub tip : ℕ → Str → List AuditRow → ℕ × Str
tip k prev [] = (k + 1, prev)
tip k prev (r ∷ rs) = tip (k + 1) r.entry_hash rs

pub tip-position : (k : ℕ) (prev : Str) (rs : List AuditRow) → (tip k prev rs).0 ≡ k + 1 + length rs
tip-position k prev [] = omega arith
tip-position k prev (r ∷ rs) = omega (arith, tip-position (k + 1) r.entry_hash rs)

pub next_link-link_from : (o : Option AuditRow) → next_link o ≡ link_from 0 genesis_previous_hash o
next_link-link_from none = ground arith
next_link-link_from (some r) = refl

module _ {Value : Type 0} (x : Externals Value) where
  -- A row that decodes to an entry which links to what stands before it.
  abbrev pub IsRow : ℕ → Str → AuditRow → Type 0
  IsRow k prev r =
      (e : AuditEntry Value) × (decode_row x r ≡ ok e)
      × IsLink x k prev e
      × (e.chain_position ≡ r.chain_position)
      × (e.entry_hash ≡ r.entry_hash)

  abbrev pub Chained : ℕ → Str → List AuditRow → Type 0
  Chained k prev [] = Unit
  Chained k prev (r ∷ rs) = IsRow k prev r × Chained (k + 1) r.entry_hash rs

  IsRow-position : {k : ℕ} {prev : Str} (r : AuditRow) → IsRow k prev r → r.chain_position ≡ k + 1
  IsRow-position r (e, d, l, p, h) = sym p ∙ l.position

  order_asc-Chained :
      (k : ℕ) (prev : Str) (rs : List AuditRow) → Chained k prev rs → order_asc rs ≡ rs
  unfolding order_asc
  order_asc-Chained k prev [] h = refl
  order_asc-Chained k prev (r ∷ []) h = refl
  order_asc-Chained k prev (r ∷ s ∷ rs) h =
      rw (order_asc-Chained (k + 1) r.entry_hash (s ∷ rs) h.1)
        (ground (arith, IsRow-position r h.0, IsRow-position s h.1.0))

  pub latest_row-Chained :
      (k : ℕ) (prev : Str) (rs : List AuditRow)
      → Chained k prev rs
      → link_from k prev (latest_row rs) ≡ tip k prev rs
  unfolding latest_row
  latest_row-Chained k prev [] h = refl
  latest_row-Chained k prev (r ∷ []) h = ground (arith, IsRow-position r h.0)
  latest_row-Chained k prev (r ∷ s ∷ rs) h = ground (
    arith,
    IsRow-position r h.0,
    latest_row-Chained (k + 1) r.entry_hash (s ∷ rs) h.1,
    tip-position (k + 1) r.entry_hash (s ∷ rs),
  )

  pub any-position-Chained :
      (k p : ℕ) (prev : Str) (rs : List AuditRow)
      → Chained k prev rs
      → k + length rs < p
      → any (λ r. r.chain_position == p) rs ≡ false
  any-position-Chained k p prev [] h lt = refl
  any-position-Chained k p prev (r ∷ rs) h lt =
      ground (arith, IsRow-position r h.0, any-position-Chained (k + 1) p r.entry_hash rs h.1)

  pub Chained-append :
      (k : ℕ) (prev : Str) (rs : List AuditRow) (row : AuditRow) (n : ℕ)
      → Chained k prev rs
      → (tip k prev rs).0 ≡ n + 1
      → IsRow n (tip k prev rs).1 row
      → Chained k prev (rs ++ row ∷ [])
  Chained-append k prev [] row n h e (entry, d, l, p, q) = (
    (
      entry,
      d,
      record {
        position = omega (arith, l.position);
        previous = l.previous;
        canonical = l.canonical;
        hash = l.hash;
      },
      p,
      q,
    ),
    tt,
  )
  Chained-append k prev (r ∷ rs) row n h e i =
      (h.0, Chained-append (k + 1) r.entry_hash rs row n h.1 e i)

  pub collect-Chained :
      (k : ℕ) (prev : Str) (rs : List AuditRow)
      → Chained k prev rs
      → (es : List (AuditEntry Value)) × (collect (decode_row x) rs ≡ ok es)
        × Linked x k prev es
        × (length es ≡ length rs)
  unfolding collect
  collect-Chained k prev [] h = ([], refl, tt, refl)
  collect-Chained k prev (r ∷ rs) h =
      let (e, d, l, p, q) = h.0 in
      let (es, c, ls, n) = collect-Chained (k + 1) r.entry_hash rs h.1 in
      (e ∷ es, rw (d, c), (l, rw q ls), ap suc n)

  unfoldable pub IsChain : AuditTable → Type 0
  IsChain t = Chained 0 genesis_previous_hash t.rows

  -- On a chained table the audit service reports a valid chain of as many entries as rows.
  pub verify_table-IsChain :
      (t : AuditTable) → IsChain t → verify_table x t ≡ ok (valid (length t.rows))
  unfolding IsChain verify_table list_entries verify_chain
  verify_table-IsChain t h =
      let (es, c, ls, n) = collect-Chained 0 genesis_previous_hash t.rows h in
      rw (order_asc-Chained 0 genesis_previous_hash t.rows h, c)
        (ap ok ((verify_chain-Linked_iff x (length t.rows) es).1 (sym n, ls)))
