-- ===== src/Machines/Enrollment/Spent.antt =====
-- A single-use token admits one machine: src/machines/service.rs and `consume` of
-- src/machines/repository.rs.
use mayfly_server.Prelude.{
  ℕ, ◌≡◌, ◌≢◌, refl, subst, Str, List, some, Bool, true, false, not, ◌==◌, find, arith,
  text_eq_refl, inl, inr, Option-cases, Bool-cases,
}
use mayfly_server.Prelude.Result.{ok, err, Result-cases}
use mayfly_server.Machines.Models.{
  Machine, EnrollmentToken, IssuedEnrollmentToken, EnrollRequest, EnrollmentError,
}
use mayfly_server.Machines.Token.{hash_token}
use mayfly_server.Machines.Store.{MachineRow}
use mayfly_server.Machines.Store.Tokens.{
  TokenRow, has_hash, consumable, stamp, token_of_row, find_by_hash, consume,
}
use mayfly_server.Machines.Enrollment.{
  Crates, Registry, validate_token_state, create_enrollment_token, enroll_transaction,
  enroll_registry, is_some,
}
use mayfly_server.Machines.Enrollment.Lemmas.{updated, find-update_rows, find-append_some}
use mayfly_server.Machines.Enrollment.Steps.{
  Step, creates, enrolls, beats, restatuses, acknowledges, applies, deletes, Reach, here, next,
  create-tokens, enroll_transaction-inversion, enroll_registry-inversion,
}

-- The token with this hash is single-use and has been consumed.
pub record IsSpent (hash : Str) (r : Registry) : Type 0 where
  pub row : TokenRow
  pub at : Str
  pub found : find (has_hash hash) r.tokens ≡ some row
  pub once : (row.single_use == 0) ≡ false
  pub used : row.used_at ≡ some at

module _ {Value Key : Type 0} (x : Crates Value Key) where
  spent_token :
      (hash : Str) (r : Registry) (t : EnrollmentToken)
      → IsSpent hash r
      → find_by_hash x.chrono r.tokens hash ≡ ok (some t)
      → (t.single_use ≡ true) × (is_some t.used_at ≡ true)
  unfolding find_by_hash token_of_row
  spent_token hash r t s h = ground arith

  spent_invalid :
      (t : EnrollmentToken) (now : ℕ)
      → t.single_use ≡ true
      → is_some t.used_at ≡ true
      → validate_token_state t now ≢ ok tt
  unfolding validate_token_state
  spent_invalid t now once used h = ground arith

  enroll_transaction-spent :
      (r : Registry) (request : EnrollRequest) (hash key id : Str) (now : ℕ)
      (res : Machine × Registry)
      → IsSpent hash r
      → enroll_transaction x r request hash key id now ≢ ok res
  enroll_transaction-spent r request hash key id now (m, r') s h =
      let (t, found, valid, after) =
        enroll_transaction-inversion x r r' request hash key id now m h in
      let (once, used) = spent_token hash r t s found in spent_invalid t now once used valid

  -- The row that `find_by_hash` decoded.
  found_row :
      (hash : Str) (r : Registry) (t : EnrollmentToken)
      → find_by_hash x.chrono r.tokens hash ≡ ok (some t)
      → (row : TokenRow) × (find (has_hash hash) r.tokens ≡ some row)
        × (t.id ≡ row.id)
        × (t.single_use ≡ not (row.single_use == 0))
  unfolding find_by_hash token_of_row
  found_row hash r t h = elim (Option-cases (find (has_hash hash) r.tokens)) [
    | inl missing ↦ absurd (ground arith)
    | inr (row, found) ↦ (row, found, ground arith, ground arith)
  ]

  consume-found :
      (hash id : Str) (once : Bool) (now : ℕ) (r : Registry)
      → find (has_hash hash) (consume x.chrono r.tokens id once now).1
        ≡ updated
            (has_hash hash)
            (consumable id once)
            (stamp x.chrono now)
            (find (has_hash hash) r.tokens)
  unfolding consume
  consume-found hash id once now r =
      find-update_rows (has_hash hash) (consumable id once) (stamp x.chrono now) r.tokens
        (λ row. refl)

  consume-IsSpent :
      (hash id : Str) (once : Bool) (now : ℕ) (r r' : Registry)
      → r'.tokens ≡ (consume x.chrono r.tokens id once now).1
      → IsSpent hash r
      → IsSpent hash r'
  consume-IsSpent hash id once now r r' e s = elim (Bool-cases (consumable id once s.row)) [
    | inl hit ↦ record {
      row = stamp x.chrono now s.row;
      at = x.chrono.to_rfc3339_millis now;
      found = ground (arith, consume-found hash id once now r, s.found);
      once = s.once;
      used = refl;
    }
    | inr miss ↦ record {
      row = s.row;
      at = s.at;
      found = ground (arith, consume-found hash id once now r, s.found);
      once = s.once;
      used = s.used;
    }
  ]

  -- After a committed enrollment with a single-use token, the token is spent.
  enroll_transaction-IsSpent :
      (r r' : Registry) (request : EnrollRequest) (hash key id : Str) (now : ℕ) (m : Machine)
      (t : EnrollmentToken)
      → enroll_transaction x r request hash key id now ≡ ok (m, r')
      → find_by_hash x.chrono r.tokens hash ≡ ok (some t)
      → t.single_use ≡ true
      → IsSpent hash r'
  enroll_transaction-IsSpent r r' request hash key id now m t h found once =
      let (t', found', valid, after) =
        enroll_transaction-inversion x r r' request hash key id now m h in
      let (row, at_row, same_id, same_use) = found_row hash r t found in
      let same : t' ≡ t = ground arith in
      elim (Option-cases row.used_at) [
        | inl unused ↦ record {
          row = stamp x.chrono now row;
          at = x.chrono.to_rfc3339_millis now;
          found =
              ground
                (arith, consume-found hash t'.id t'.single_use now r, at_row, text_eq_refl row.id);
          once = ground arith;
          used = refl;
        }
        | inr (at, used) ↦ record {
          row = row;
          at = at;
          found = ground (arith, consume-found hash t'.id t'.single_use now r, at_row);
          once = ground arith;
          used = used;
        }
      ]

  create-IsSpent :
      (hash id : Str) (bytes : List ℕ) (by : Str) (ttl : ℕ) (once : Bool) (now : ℕ)
      (r r' : Registry) (i : IssuedEnrollmentToken)
      → create_enrollment_token x r id bytes by ttl once now ≡ ok (i, r')
      → IsSpent hash r
      → IsSpent hash r'
  create-IsSpent hash id bytes by ttl once now r r' i h s = record {
    row = s.row;
    at = s.at;
    found =
        rw (create-tokens x id bytes by ttl once now r r' i h)
          (find-append_some (has_hash hash) r.tokens _ s.row s.found);
    once = s.once;
    used = s.used;
  }

  with_machines-IsSpent :
      (hash : Str) (r : Registry) (machines : List MachineRow)
      → IsSpent hash r
      → IsSpent hash (record r { machines = machines })
  with_machines-IsSpent hash r machines s = record {
    row = s.row;
    at = s.at;
    found = s.found;
    once = s.once;
    used = s.used;
  }

  Step-IsSpent : (hash : Str) {r r' : Registry} → Step x r r' → IsSpent hash r → IsSpent hash r'
  Step-IsSpent hash {r = r} {r' = r'} (creates id bytes by ttl once now i h) s =
      create-IsSpent hash id bytes by ttl once now r r' i h s
  Step-IsSpent hash {r = r} {r' = r'} (enrolls request id now m h) s =
      let (key, done) = enroll_registry-inversion x r request id now (m, r') h in
      let (t, found, valid, after) =
        enroll_transaction-inversion x r r' request _ key id now m done in
      consume-IsSpent hash t.id t.single_use now r r' after s
  Step-IsSpent hash {r = r} (beats u) s = with_machines-IsSpent hash r _ s
  Step-IsSpent hash {r = r} (restatuses id status now) s = with_machines-IsSpent hash r _ s
  Step-IsSpent hash {r = r} (acknowledges id generation fingerprint now) s =
      with_machines-IsSpent hash r _ s
  Step-IsSpent hash {r = r} (applies id generation fingerprint now) s =
      with_machines-IsSpent hash r _ s
  Step-IsSpent hash {r = r} (deletes id) s = with_machines-IsSpent hash r _ s

  Reach-IsSpent : (hash : Str) {r r' : Registry} → Reach x r r' → IsSpent hash r → IsSpent hash r'
  Reach-IsSpent hash here s = s
  Reach-IsSpent hash (next path step) s = Step-IsSpent hash step (Reach-IsSpent hash path s)

  -- Once a machine has been enrolled with a single-use token, no enrollment with the same token
  -- succeeds, whatever the other fields of its request and its time, and whatever tokens are
  -- created, machines enrolled, heartbeats and acknowledgements of both kinds recorded, statuses set
  -- and machines deleted in between.
  pub single_use_once :
      (r s t : Registry) (request again : EnrollRequest) (id id' : Str) (now later : ℕ)
      (m : Machine) (token : EnrollmentToken)
      → enroll_registry x r request id now ≡ ok (m, s)
      → find_by_hash x.chrono r.tokens (hash_token x.audit.sha256_hex request.enrollment_token)
        ≡ ok (some token)
      → token.single_use ≡ true
      → Reach x s t
      → again.enrollment_token ≡ request.enrollment_token
      → (e : EnrollmentError) × (enroll_registry x t again id' later ≡ err e)
  single_use_once r s t request again id id' now later m token first found once path same =
      let hash : Str = hash_token x.audit.sha256_hex request.enrollment_token in
      let (key, done) = enroll_registry-inversion x r request id now (m, s) first in
      let spent : IsSpent hash t =
        Reach-IsSpent hash path
          (enroll_transaction-IsSpent r s request hash key id now m token done found once) in
      elim (Result-cases (enroll_registry x t again id' later)) [
        | inr (e, refused) ↦ (e, refused)
        | inl (res, twice) ↦
            let (key', again_done) = enroll_registry-inversion x t again id' later res twice in
            absurd (
              enroll_transaction-spent t again hash key' id' later res spent (
                subst
                  (λ (token_text : Str).
                    enroll_transaction x t again (hash_token x.audit.sha256_hex token_text) key' id'
                      later
                    ≡ ok res)
                  same again_done))
      ]
