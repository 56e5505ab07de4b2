-- ===== src/Audit/Chain/Append.antt =====
-- The append of src/audit/repository.rs keeps a chained table, and never fails on one for want of
-- a free position.
use mayfly_server.Prelude.{
  ℕ, suc, ◌+◌, ◌*◌, ◌/◌, ◌≡◌, refl, ap, ◌∙◌, subst, Str, List, [], ◌∷◌, ◌++◌, some, false, arith,
  length, any, ◌==◌, inl, inr, Option-cases,
}
use mayfly_server.Prelude.Result.{Result, ok, err, Result-cases}
use mayfly_server.Audit.Model.{AuditError, AuditEntry, NewAuditEntry, valid}
use mayfly_server.Audit.Hash.{
  Externals, IsLawful, genesis_previous_hash, canonicalize, compute_entry_hash,
  recompute_canonical_json,
}
use mayfly_server.Audit.Repository.{
  AuditRow, AuditTable, latest_row, decode_row, insert_row, append_entry, next_link,
}
use mayfly_server.Audit.Verifier.{append_audit_event, verify_table}
use mayfly_server.Audit.Chain.Rows.{
  IsChain, IsRow, Chained-append, latest_row-Chained, tip, tip-position, any-position-Chained,
  next_link-link_from, verify_table-IsChain,
}

module _ {Value : Type 0} (x : Externals Value) (law : IsLawful x) where
  -- The row that an append writes, given the texts that it computed.
  abbrev pub new_row : AuditTable → NewAuditEntry Value → ℕ → Str → Str → AuditRow
  new_row t new now metadata_text canonical_json =
      let link = next_link (latest_row t.rows) in
      record {
        id = suc t.sequence;
        chain_position = link.0;
        event_type = new.event_type;
        actor = new.actor;
        subject = new.subject;
        metadata = metadata_text;
        recorded_at = x.to_rfc3339_millis now;
        previous_hash = link.1;
        canonical_json = canonical_json;
        entry_hash = compute_entry_hash x canonical_json link.1;
      }

  abbrev stored : ℕ → ℕ
  stored now = now / 1_000_000 * 1_000_000

  abbrev pub canonical_of : AuditTable → NewAuditEntry Value → ℕ → Result AuditError Str
  canonical_of t new now =
      canonicalize x (next_link (latest_row t.rows)).0 new.event_type new.actor new.subject
        (stored now) new.metadata

  append_entry-inversion :
      (t t' : AuditTable) (new : NewAuditEntry Value) (now : ℕ) (e : AuditEntry Value)
      → append_entry x t new now ≡ ok (e, t')
      → (m c : Str) × (x.value_to_string new.metadata ≡ some m)
        × (canonical_of t new now ≡ ok c)
        × (t' ≡ record { rows = t.rows ++ new_row t new now m c ∷ []; sequence = suc t.sequence })
  unfolding append_entry insert_row
  append_entry-inversion t t' new now e h = elim (Option-cases (x.value_to_string new.metadata)) [
    | inl failed ↦ absurd (ground (arith, law.parse-to_rfc3339_millis now))
    | inr (m, written) ↦ elim (Result-cases (canonical_of t new now)) [
      | inl (c, canonical) ↦
          (m, c, written, canonical, ground (arith, law.parse-to_rfc3339_millis now))
      | inr (cause, failed) ↦ absurd (ground (arith, law.parse-to_rfc3339_millis now))
    ]
  ]

  tip-next_link :
      (t : AuditTable)
      → IsChain x t
      → next_link (latest_row t.rows) ≡ tip 0 genesis_previous_hash t.rows
  unfolding IsChain
  tip-next_link t h =
      next_link-link_from (latest_row t.rows)
      ∙ latest_row-Chained x 0 genesis_previous_hash t.rows h

  new_row-IsRow :
      (t : AuditTable) (new : NewAuditEntry Value) (now n : ℕ) (m c : Str)
      → x.value_to_string new.metadata ≡ some m
      → canonical_of t new now ≡ ok c
      → (next_link (latest_row t.rows)).0 ≡ n + 1
      → IsRow x n (next_link (latest_row t.rows)).1 (new_row t new now m c)
  unfolding decode_row recompute_canonical_json
  new_row-IsRow t new now n m c written canonical position = (
    record {
      id = suc t.sequence;
      chain_position = (next_link (latest_row t.rows)).0;
      event_type = new.event_type;
      actor = new.actor;
      subject = new.subject;
      metadata = new.metadata;
      recorded_at = stored now;
      previous_hash = (next_link (latest_row t.rows)).1;
      canonical_json = c;
      entry_hash = compute_entry_hash x c (next_link (latest_row t.rows)).1;
    },
    rw (law.value_from_str-to_string new.metadata m written, law.parse-to_rfc3339_millis now),
    record { position = position; previous = refl; canonical = canonical; hash = refl },
    refl,
    refl,
  )

  -- A successful append keeps a chained table chained, and adds exactly one row at its end.
  pub append_entry-IsChain :
      (t t' : AuditTable) (new : NewAuditEntry Value) (now : ℕ) (e : AuditEntry Value)
      → IsChain x t
      → append_entry x t new now ≡ ok (e, t')
      → IsChain x t' × ((row : AuditRow) × (t'.rows ≡ t.rows ++ row ∷ []))
  unfolding IsChain
  append_entry-IsChain t t' new now e chain h =
      let (m, c, written, canonical, after) = append_entry-inversion t t' new now e h in
      let link : next_link (latest_row t.rows) ≡ tip 0 genesis_previous_hash t.rows =
        tip-next_link t chain in
      let position : (tip 0 genesis_previous_hash t.rows).0 ≡ length t.rows + 1 =
        omega (arith, tip-position 0 genesis_previous_hash t.rows) in
      let row : IsRow x (length t.rows) (tip 0 genesis_previous_hash t.rows).1
          (new_row t new now m c) =
        subst (λ (p : ℕ × Str). IsRow x (length t.rows) p.1 (new_row t new now m c)) link
          (new_row-IsRow t new now (length t.rows) m c written canonical
            (ap (λ (p : ℕ × Str). p.0) link ∙ position)) in
      (
        rw after (
            Chained-append x 0 genesis_previous_hash t.rows (new_row t new now m c) (length t.rows)
              chain position row),
        (new_row t new now m c, ap (λ (u : AuditTable). u.rows) after),
      )

  -- On a chained table an append fails only if its metadata or its canonical form cannot be
  -- written: the next position is always free.
  pub append_entry_total :
      (t : AuditTable) (new : NewAuditEntry Value) (now : ℕ) (m c : Str)
      → IsChain x t
      → x.value_to_string new.metadata ≡ some m
      → canonical_of t new now ≡ ok c
      → (e : AuditEntry Value) × (t' : AuditTable) × (append_entry x t new now ≡ ok (e, t'))
  unfolding append_entry insert_row IsChain
  append_entry_total t new now m c chain written canonical =
      let free : any (λ r. r.chain_position == (next_link (latest_row t.rows)).0) t.rows ≡ false =
        any-position-Chained x 0 (next_link (latest_row t.rows)).0 genesis_previous_hash t.rows
          chain
          (omega (
            arith,
            ap (λ (p : ℕ × Str). p.0) (tip-next_link t chain),
            tip-position 0 genesis_previous_hash t.rows,
          )) in
      (
        record {
          id = suc t.sequence;
          chain_position = (next_link (latest_row t.rows)).0;
          event_type = new.event_type;
          actor = new.actor;
          subject = new.subject;
          metadata = new.metadata;
          recorded_at = stored now;
          previous_hash = (next_link (latest_row t.rows)).1;
          canonical_json = c;
          entry_hash = compute_entry_hash x c (next_link (latest_row t.rows)).1;
        },
        record { rows = t.rows ++ new_row t new now m c ∷ []; sequence = suc t.sequence },
        ground (arith, law.parse-to_rfc3339_millis now),
      )

abbrev pub empty_table : AuditTable
empty_table = record { rows = []; sequence = 0 }

module _ {Value : Type 0} (x : Externals Value) where
  abbrev after : AuditTable → Result AuditError (AuditEntry Value × AuditTable) → AuditTable
  after t (ok (e, t')) = t'
  after t (err cause) = t

  -- Events recorded one after the other, each at its time; one that fails is dropped.
  unfoldable pub record_all : AuditTable → List (NewAuditEntry Value × ℕ) → AuditTable
  record_all t [] = t
  record_all t ((new, now) ∷ events) = record_all (after t (append_audit_event x t new now)) events

  pub record_all-IsChain :
      (law : IsLawful x) (t : AuditTable) (events : List (NewAuditEntry Value × ℕ))
      → IsChain x t
      → IsChain x (record_all t events)
  unfolding record_all append_audit_event
  record_all-IsChain law t [] h = h
  record_all-IsChain law t ((new, now) ∷ events) h =
      elim (Result-cases (append_entry x t new now)) [
        | inl ((e, t'), done) ↦
            rw done (
              record_all-IsChain law t' events (append_entry-IsChain x law t t' new now e h done).0)
        | inr (cause, failed) ↦ rw failed (record_all-IsChain law t events h)
      ]

  -- Whatever events are recorded from an empty table, and whichever of them fail, the verification
  -- of the table then reports a valid chain of as many entries as the table has rows.
  pub verify_table-record_all :
      (law : IsLawful x) (events : List (NewAuditEntry Value × ℕ))
      → verify_table x (record_all empty_table events)
        ≡ ok (valid (length (record_all empty_table events).rows))
  verify_table-record_all law events =
      verify_table-IsChain x (record_all empty_table events)
        (record_all-IsChain law empty_table events (unfold IsChain in tt))
