-- ===== src/Machines/Enrollment/Steps.antt =====
-- The steps of the two tables of src/machines, with the writes of acknowledgements by src/cabundle
-- and src/bundle, and what a committed enrollment has found.
use mayfly_server.Prelude.{ℕ, ◌≡◌, Str, List, [], ◌∷◌, ◌++◌, none, some, Bool, arith, inl, inr}
use mayfly_server.Prelude.Int.{ℤ}
use mayfly_server.CaBundle.Service.{write_ack}
use mayfly_server.Bundle.Fleet.{record_applied}
use mayfly_server.Prelude.Result.{ok, Result-cases}
use mayfly_server.Machines.Models.{
  Machine, EnrollmentToken, IssuedEnrollmentToken, EnrollRequest, MachineStatus,
}
use mayfly_server.Machines.Token.{hash_token, generate_token}
use mayfly_server.Machines.Store.{HeartbeatUpdate, update_last_seen, update_status, delete}
use mayfly_server.Machines.Store.Tokens.{row_of_new_token, create, find_by_hash, consume}
use mayfly_server.Machines.Enrollment.{
  Crates, Registry, new_token, validate_token_state, create_enrollment_token, check_request,
  enroll_transaction, enroll_registry,
}

module _ {Value Key : Type 0} (x : Crates Value Key) where
  check_request-hash :
      (request : EnrollRequest) (key hash : Str)
      → check_request x request ≡ ok (key, hash)
      → hash ≡ hash_token x.audit.sha256_hex request.enrollment_token
  unfolding check_request
  check_request-hash request key hash h = ground arith

  -- What a transaction that commits has found.
  pub enroll_transaction-inversion :
      (r r' : Registry) (request : EnrollRequest) (hash key id : Str) (now : ℕ) (m : Machine)
      → enroll_transaction x r request hash key id now ≡ ok (m, r')
      → (t : EnrollmentToken) × (find_by_hash x.chrono r.tokens hash ≡ ok (some t))
        × (validate_token_state t now ≡ ok tt)
        × (r'.tokens ≡ (consume x.chrono r.tokens t.id t.single_use now).1)
  unfolding enroll_transaction
  enroll_transaction-inversion r r' request hash key id now m h =
      elim (Result-cases (find_by_hash x.chrono r.tokens hash)) [
        | inr (e, failed) ↦ absurd (ground arith)
        | inl (none, found) ↦ absurd (ground arith)
        | inl (some t, found) ↦ (t, found, ground arith, ground arith)
      ]

  pub create-tokens :
      (id : Str) (bytes : List ℕ) (by : Str) (ttl : ℕ) (once : Bool) (now : ℕ) (r r' : Registry)
      (i : IssuedEnrollmentToken)
      → create_enrollment_token x r id bytes by ttl once now ≡ ok (i, r')
      → r'.tokens
        ≡ r.tokens
          ++ row_of_new_token x.chrono
              (new_token x id (generate_token x.hex_encode bytes) by ttl once now)
            ∷ []
  unfolding create_enrollment_token create
  create-tokens id bytes by ttl once now r r' i h = ground arith

  -- What may happen to the two tables: each operation of the services, at any time and with any
  -- arguments, if it succeeds.
  pub data Step : Registry → Registry → Type 0 where
    creates :
        {r r' : Registry} (id : Str) (bytes : List ℕ) (by : Str) (ttl : ℕ) (once : Bool) (now : ℕ)
        (i : IssuedEnrollmentToken)
        → create_enrollment_token x r id bytes by ttl once now ≡ ok (i, r')
        → Step r r'
    enrolls :
        {r r' : Registry} (request : EnrollRequest) (id : Str) (now : ℕ) (m : Machine)
        → enroll_registry x r request id now ≡ ok (m, r')
        → Step r r'
    beats :
        {r : Registry} (u : HeartbeatUpdate)
        → Step r (record r { machines = (update_last_seen x.chrono r.machines u).1 })
    restatuses :
        {r : Registry} (id : Str) (status : MachineStatus) (now : ℕ)
        → Step r (record r { machines = (update_status x.chrono r.machines id status now).1 })
    acknowledges :
        {r : Registry} (id : Str) (generation : ℤ) (fingerprint : Str) (now : ℕ)
        → Step r (record r {
          machines = (write_ack x.chrono r.machines id generation fingerprint now).1;
        })
    applies :
        {r : Registry} (id : Str) (generation : ℤ) (fingerprint : Str) (now : ℕ)
        → Step r (record r {
          machines = (record_applied x.chrono r.machines id generation fingerprint now).1;
        })
    deletes : {r : Registry} (id : Str) → Step r (record r { machines = (delete r.machines id).1 })

  pub data Reach (r : Registry) : Registry → Type 0 where
    here : Reach r r
    next : {s t : Registry} → Reach r s → Step s t → Reach r t

  pub enroll_registry-inversion :
      (r : Registry) (request : EnrollRequest) (id : Str) (now : ℕ) (res : Machine × Registry)
      → enroll_registry x r request id now ≡ ok res
      → (key : Str) × (enroll_transaction x r request
            (hash_token x.audit.sha256_hex request.enrollment_token)
            key
            id
            now
          ≡ ok res)
  unfolding enroll_registry
  enroll_registry-inversion r request id now res h = elim (Result-cases (check_request x request)) [
    | inr (e, failed) ↦ absurd (ground arith)
    | inl ((key, hash), passed) ↦ (key, ground (arith, check_request-hash request key hash))
  ]
