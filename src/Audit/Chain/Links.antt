-- ===== src/Audit/Chain/Links.antt =====
-- The entries that `verify_chain` accepts.
use mayfly_server.Prelude.{
  ℕ, ◌+◌, ◌≡◌, refl, ◌↔◌, Str, List, [], ◌∷◌, none, arith, text_eq_iff, length, Option-cases, inl,
  inr,
}
use mayfly_server.Prelude.Result.{Result, ok, err}
use mayfly_server.Audit.Model.{AuditError, AuditEntry, valid}
use mayfly_server.Audit.Hash.{
  Externals, compute_entry_hash, hashes_equal_iff, recompute_canonical_json, genesis_previous_hash,
}
use mayfly_server.Audit.Verifier.{check_canonical, check_entry, verify_from, verify_chain}

module _ {Value : Type 0} (x : Externals Value) where
  -- The entry after `k` others, the last of which has the hash `prev`.
  pub record IsLink (k : ℕ) (prev : Str) (e : AuditEntry Value) : Type 0 where
    pub position : e.chain_position ≡ k + 1
    pub previous : e.previous_hash ≡ prev
    pub canonical : recompute_canonical_json x e ≡ ok e.canonical_json
    pub hash : compute_entry_hash x e.canonical_json e.previous_hash ≡ e.entry_hash

  abbrev pub Linked : ℕ → Str → List (AuditEntry Value) → Type 0
  Linked k prev [] = Unit
  Linked k prev (e ∷ es) = IsLink k prev e × Linked (k + 1) e.entry_hash es

  check_canonical-eq-none :
      (e : AuditEntry Value) (r : Result AuditError Str)
      → (check_canonical x e r ≡ none) ↔ (r ≡ ok e.canonical_json)
  unfolding check_canonical
  check_canonical-eq-none e (ok c) = ground (arith, text_eq_iff c e.canonical_json)
  check_canonical-eq-none e (err c) = ground arith

  check_entry-IsLink :
      (k : ℕ) (prev : Str) (e : AuditEntry Value)
      → check_entry x (k + 1) prev e ≡ none
      → IsLink k prev e
  unfolding check_entry
  check_entry-IsLink k prev e h = record {
    position = ground arith;
    previous = ground (arith, hashes_equal_iff e.previous_hash prev);
    canonical = ground (arith, check_canonical-eq-none e (recompute_canonical_json x e));
    hash = ground (
      arith,
      hashes_equal_iff (compute_entry_hash x e.canonical_json e.previous_hash) e.entry_hash,
    );
  }

  IsLink-check_entry :
      (k : ℕ) (prev : Str) (e : AuditEntry Value)
      → IsLink k prev e
      → check_entry x (k + 1) prev e ≡ none
  unfolding check_entry
  IsLink-check_entry k prev e l = ground (
    arith,
    hashes_equal_iff e.previous_hash prev,
    check_canonical-eq-none e (recompute_canonical_json x e),
    hashes_equal_iff (compute_entry_hash x e.canonical_json e.previous_hash) e.entry_hash,
  )

  pub verify_from-Linked :
      (total k n : ℕ) (prev : Str) (es : List (AuditEntry Value))
      → verify_from x total k prev es ≡ valid n
      → (n ≡ total) × Linked k prev es
  unfolding verify_from
  verify_from-Linked total k n prev [] h = (ground arith, tt)
  verify_from-Linked total k n prev (e ∷ es) h =
      elim (Option-cases (check_entry x (k + 1) prev e)) [
        | inl passed ↦
            let rest = verify_from-Linked total (k + 1) n e.entry_hash es (ground arith) in
            (rest.0, (check_entry-IsLink k prev e passed, rest.1))
        | inr (r, failed) ↦ ground arith
      ]

  pub Linked-verify_from :
      (total k : ℕ) (prev : Str) (es : List (AuditEntry Value))
      → Linked k prev es
      → verify_from x total k prev es ≡ valid total
  unfolding verify_from
  Linked-verify_from total k prev [] h = refl
  Linked-verify_from total k prev (e ∷ es) h =
      rw (IsLink-check_entry k prev e h.0, verify_from)
        (Linked-verify_from total (k + 1) e.entry_hash es h.1)

  -- The verifier accepts a list of entries exactly when, counted from 1, each entry has its place
  -- as its position, carries the hash of the entry before it (the genesis hash for the first),
  -- stores the canonical form of its own columns, and has the hash of that form and the previous
  -- hash; the count that it reports is the length of the list.
  pub verify_chain-Linked_iff :
      (n : ℕ) (es : List (AuditEntry Value))
      → (verify_chain x es ≡ valid n) ↔ ((n ≡ length es) × Linked 0 genesis_previous_hash es)
  unfolding verify_chain
  verify_chain-Linked_iff n es = (
    verify_from-Linked (length es) 0 n genesis_previous_hash es,
    λ h. ground (arith, Linked-verify_from (length es) 0 genesis_previous_hash es h.1),
  )
