-- ===== src/Audit/Verifier.antt =====
-- src/audit/verifier.rs, and the service of src/audit/service.rs over the repository.
use mayfly_server.Prelude.{
  ℕ, ◌+◌, Str, List, [], ◌∷◌, Option, none, some, not, ◌==◌, text_eq, length, if◌then◌else◌,
}
use mayfly_server.Prelude.Result.{Result, ok, err, ◌>>=◌}
use mayfly_server.Audit.Model.{
  AuditError, AuditEntry, NewAuditEntry, AuditTip, AuditVerificationResult, BreakReason, valid,
  broken, expected_position, previous_hash_mismatch, canonical_mismatch, entry_hash_mismatch,
  recompute_failed,
}
use mayfly_server.Audit.Hash.{
  Externals, compute_entry_hash, hashes_equal, recompute_canonical_json, genesis_previous_hash,
}
use mayfly_server.Audit.Repository.{AuditTable, append_entry, latest_entry, list_entries}

module _ {Value : Type 0} (x : Externals Value) where
  -- The `match` on the recomputed canonical form.
  unfoldable pub check_canonical : AuditEntry Value → Result AuditError Str → Option BreakReason
  check_canonical e (ok canonical) =
      if text_eq canonical e.canonical_json then none else some canonical_mismatch
  check_canonical e (err cause) = some (recompute_failed cause)

  -- The checks of one round of the loop, in the order of the source.
  unfoldable pub check_entry : ℕ → Str → AuditEntry Value → Option BreakReason
  unfolding check_canonical
  check_entry expected_pos expected_previous_hash e =
      if not (e.chain_position == expected_pos)
      then some (expected_position expected_pos)
      else if not (hashes_equal e.previous_hash expected_previous_hash)
      then some previous_hash_mismatch
      else elim (check_canonical e (recompute_canonical_json x e)) [
        | some reason ↦ some reason
        | none ↦
            if not
              (hashes_equal (compute_entry_hash x e.canonical_json e.previous_hash) e.entry_hash)
            then some entry_hash_mismatch
            else none
      ]

  -- The loop: `index` entries are done, and `total` is the length of the slice.
  unfoldable pub verify_from : ℕ → ℕ → Str → List (AuditEntry Value) → AuditVerificationResult
  verify_from total index expected_previous_hash [] = valid total
  verify_from total index expected_previous_hash (e ∷ entries) =
      let rest = verify_from total (index + 1) e.entry_hash entries in
      elim (check_entry (index + 1) expected_previous_hash e) [
        | some reason ↦ broken e.chain_position reason
        | none ↦ rest
      ]

  unfoldable pub verify_chain : List (AuditEntry Value) → AuditVerificationResult
  verify_chain entries = verify_from (length entries) 0 genesis_previous_hash entries

  -- `AuditService::verify_chain`
  unfoldable pub verify_table : AuditTable → Result AuditError AuditVerificationResult
  verify_table t = do entries ← list_entries x t; ok (verify_chain entries)

  -- `AuditService::append_audit_event`, with the time that the injected clock gives.
  unfoldable pub append_audit_event :
      AuditTable → NewAuditEntry Value → ℕ → Result AuditError (AuditEntry Value × AuditTable)
  append_audit_event t event now = append_entry x t event now

  unfoldable pub get_tip : AuditTable → Result AuditError (Option AuditTip)
  get_tip t = do
    latest ← latest_entry x t
    ok (elim latest [
      | none ↦ none
      | some e ↦ some (record { chain_position = e.chain_position; entry_hash = e.entry_hash })
    ])
