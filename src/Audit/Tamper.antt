-- ===== src/Audit/Tamper.antt =====
-- Tamper evidence of the audit chain of src/audit: two accepted chains with one tip are the same
-- chain, unless two different inputs with one SHA-256 digest are at hand.
use mayfly_server.Prelude.{
  ℕ, ◌+◌, ◌≡◌, ◌≢◌, refl, ap, subst, Str, List, [], ◌∷◌, ◌++◌, arith, length, length-append,
  cons-injective, text_eq, text_eq_iff, as_bytes, as_bytes-injective, Bool-cases, inl, inr, ◌⊎◌,
}
use mayfly_server.Audit.Model.{AuditEntry, valid}
use mayfly_server.Audit.Hash.{Externals, IsLawful, compute_entry_hash, genesis_previous_hash}
use mayfly_server.Audit.Verifier.{verify_chain}
use mayfly_server.Audit.Chain.Links.{IsLink, Linked, verify_chain-Linked_iff}

append-eq-append : (a b c d : List ℕ) → length c ≡ length d → a ++ c ≡ b ++ d → (a ≡ b) × (c ≡ d)
append-eq-append [] [] c d n e = (refl, e)
append-eq-append [] (y ∷ b) c d n e = absurd (omega (arith, ap length e, length-append b d))
append-eq-append (z ∷ a) [] c d n e = absurd (omega (arith, ap length e, length-append a c))
append-eq-append (z ∷ a) (y ∷ b) c d n e =
    let (same, tails) = cons-injective z y (a ++ c) (b ++ d) e in
    let rest : (a ≡ b) × (c ≡ d) = append-eq-append a b c d n tails in (cc (same, rest.0), rest.1)

genesis_len : length (as_bytes genesis_previous_hash) ≡ 64
unfolding as_bytes
genesis_len = refl

module _ {Value : Type 0} (x : Externals Value) where
  -- Two different inputs with the same digest.
  pub record Collision : Type 0 where
    pub left : List ℕ
    pub right : List ℕ
    pub differ : left ≢ right
    pub same_digest : x.sha256_hex left ≡ x.sha256_hex right

  -- What a chain shows: the stored canonical form and hash of each entry.
  abbrev pub content : List (AuditEntry Value) → List (Str × Str)
  content [] = []
  content (e ∷ es) = (e.canonical_json, e.entry_hash) ∷ content es

  abbrev pub tip_hash : Str → List (AuditEntry Value) → Str
  tip_hash prev [] = prev
  tip_hash prev (e ∷ es) = tip_hash e.entry_hash es

  hash_inputs :
      (c p d q : Str)
      → length (as_bytes p) ≡ length (as_bytes q)
      → compute_entry_hash x c p ≡ compute_entry_hash x d q
      → ((c ≡ d) × (p ≡ q)) ⊎ Collision
  unfolding compute_entry_hash
  hash_inputs c p d q n e =
      elim (Bool-cases (text_eq (as_bytes c ++ as_bytes p) (as_bytes d ++ as_bytes q))) [
        | inl same ↦
            let parts =
              append-eq-append (as_bytes c) (as_bytes d) (as_bytes p) (as_bytes q) n
                ((text_eq_iff (as_bytes c ++ as_bytes p) (as_bytes d ++ as_bytes q)).0 same) in
            inl (as_bytes-injective c d parts.0, as_bytes-injective p q parts.1)
        | inr other ↦ inr (record {
          left = as_bytes c ++ as_bytes p;
          right = as_bytes d ++ as_bytes q;
          differ = λ p'.
              ground (arith, text_eq_iff (as_bytes c ++ as_bytes p) (as_bytes d ++ as_bytes q));
          same_digest = e;
        })
      ]

  len-hash :
      (law : IsLawful x) {k : ℕ} {prev : Str} (e : AuditEntry Value)
      → IsLink x k prev e
      → length (as_bytes e.entry_hash) ≡ 64
  unfolding compute_entry_hash
  len-hash law e l = subst (λ (s : Str). length (as_bytes s) ≡ 64) l.hash (law.len-sha256_hex _)

  Linked-content :
      (law : IsLawful x) (k : ℕ) (p q : Str) (es fs : List (AuditEntry Value))
      → Linked x k p es
      → Linked x k q fs
      → length (as_bytes p) ≡ 64
      → length (as_bytes q) ≡ 64
      → length es ≡ length fs
      → tip_hash p es ≡ tip_hash q fs
      → ((p ≡ q) × (content es ≡ content fs)) ⊎ Collision
  Linked-content law k p q [] [] le lf np nq n t = inl (t, refl)
  Linked-content law k p q [] (f ∷ fs) le lf np nq n t = absurd (omega arith)
  Linked-content law k p q (e ∷ es) [] le lf np nq n t = absurd (omega arith)
  Linked-content law k p q (e ∷ es) (f ∷ fs) le lf np nq n t =
      elim (Linked-content law (k + 1) e.entry_hash f.entry_hash es fs le.1 lf.1
        (len-hash law e le.0) (len-hash law f lf.0) (omega arith) t) [
          | inr c ↦ inr c
          | inl (h, rest) ↦
              elim (hash_inputs e.canonical_json p f.canonical_json q (omega arith)
                (cc (le.0.hash, lf.0.hash, le.0.previous, lf.0.previous, h))) [
                  | inr c ↦ inr c
                  | inl (c, previous) ↦ inl (previous, cc (h, c, rest))
                ]
        ]

  -- Two chains that the verifier accepts, of the same length and with the same last hash, store
  -- the same canonical form and the same hash in each entry, or they show two different inputs
  -- with the same SHA-256 digest.
  pub verify_chain-tamper_evident :
      (law : IsLawful x) (n : ℕ) (es fs : List (AuditEntry Value))
      → verify_chain x es ≡ valid n
      → verify_chain x fs ≡ valid n
      → tip_hash genesis_previous_hash es ≡ tip_hash genesis_previous_hash fs
      → (content es ≡ content fs) ⊎ Collision
  verify_chain-tamper_evident law n es fs he hf t =
      let e = (verify_chain-Linked_iff x n es).0 he in
      let f = (verify_chain-Linked_iff x n fs).0 hf in
      elim (Linked-content law 0 genesis_previous_hash genesis_previous_hash es fs e.1 f.1
        genesis_len genesis_len (omega arith) t) [ inl (p, same) ↦ inl same | inr c ↦ inr c ]
