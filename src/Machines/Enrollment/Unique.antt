-- ===== src/Machines/Enrollment/Unique.antt =====
-- The invariant of the two tables, under every operation of src/machines: the UNIQUE columns of the
-- migrations have no repetitions.
use mayfly_server.Prelude.{
  ℕ, ◌≡◌, refl, Str, List, [], ◌∷◌, ◌++◌, Bool, false, not, arith, inl, inr,
}
use mayfly_server.CaBundle.Service as CaService
use mayfly_server.CaBundle.Service.{write_ack}
use mayfly_server.Bundle.Fleet as Fleet
use mayfly_server.Bundle.Fleet.{record_applied}
use mayfly_server.Prelude.Result.{ok, Result-cases}
use mayfly_server.Machines.Models.{Machine, EnrollRequest, NewMachine, IssuedEnrollmentToken}
use mayfly_server.Machines.Token.{generate_token}
use mayfly_server.Machines.Store.{
  Chrono, MachineRow, row_of_new, insert, update_last_seen, update_status, delete, has_id, touch,
  restatus,
}
use mayfly_server.Machines.Store.Distinct.{
  Distinct, Distinct-append, Distinct-update_rows, Distinct-retain, occurs,
}
use mayfly_server.Machines.Store.Tokens.{
  TokenRow, create, consume, consumable, stamp, row_of_new_token,
}
use mayfly_server.Machines.Enrollment.{
  Crates, Registry, new_token, new_machine, create_enrollment_token, enroll_transaction,
}
use mayfly_server.Machines.Enrollment.Steps.{
  Step, creates, enrolls, beats, restatuses, acknowledges, applies, deletes, Reach, here, next,
  create-tokens, enroll_transaction-inversion, enroll_registry-inversion,
}

pub record IsUnique (r : Registry) : Type 0 where
  pub machine_ids : Distinct (λ (m : MachineRow). m.machine_id) r.machines
  pub hostnames : Distinct (λ (m : MachineRow). m.hostname) r.machines
  pub public_keys : Distinct (λ (m : MachineRow). m.public_key) r.machines
  pub token_ids : Distinct (λ (t : TokenRow). t.id) r.tokens
  pub token_hashes : Distinct (λ (t : TokenRow). t.token_hash) r.tokens

module _ (c : Chrono) where
  pub insert-inversion :
      (rows rows' : List MachineRow) (new : NewMachine) (m : Machine)
      → insert c rows new ≡ ok (m, rows')
      → (rows' ≡ rows ++ row_of_new c new ∷ [])
        × (occurs (λ (m : MachineRow). m.machine_id) new.machine_id rows ≡ false)
        × (occurs (λ (m : MachineRow). m.hostname) new.hostname rows ≡ false)
        × (occurs (λ (m : MachineRow). m.public_key) new.public_key rows ≡ false)
  unfolding insert
  insert-inversion rows rows' new m h = ground arith

module _ {Value Key : Type 0} (x : Crates Value Key) where
  enroll_transaction-machines :
      (r r' : Registry) (request : EnrollRequest) (hash key id : Str) (now : ℕ) (m : Machine)
      → enroll_transaction x r request hash key id now ≡ ok (m, r')
      → insert x.chrono r.machines (new_machine x request id key now) ≡ ok (m, r'.machines)
  unfolding enroll_transaction
  enroll_transaction-machines r r' request hash key id now m h =
      elim (Result-cases (insert x.chrono r.machines (new_machine x request id key now))) [
        | inr (e, failed) ↦ absurd (ground arith)
        | inl ((n, rows), done) ↦ ground arith
      ]

  create-fresh :
      (id : Str) (bytes : List ℕ) (by : Str) (ttl : ℕ) (once : Bool) (now : ℕ) (r r' : Registry)
      (i : IssuedEnrollmentToken)
      → create_enrollment_token x r id bytes by ttl once now ≡ ok (i, r')
      → (r'.machines ≡ r.machines)
        × (occurs (λ (t : TokenRow). t.id) id r.tokens ≡ false)
        × (occurs
              (λ (t : TokenRow). t.token_hash)
              (new_token x id (generate_token x.hex_encode bytes) by ttl once now).token_hash
              r.tokens
            ≡ false)
  unfolding create_enrollment_token create
  create-fresh id bytes by ttl once now r r' i h = ground arith

  create-IsUnique :
      (id : Str) (bytes : List ℕ) (by : Str) (ttl : ℕ) (once : Bool) (now : ℕ) (r r' : Registry)
      (i : IssuedEnrollmentToken)
      → create_enrollment_token x r id bytes by ttl once now ≡ ok (i, r')
      → IsUnique r
      → IsUnique r'
  create-IsUnique id bytes by ttl once now r r' i h u =
      let row : TokenRow =
        row_of_new_token x.chrono
          (new_token x id (generate_token x.hex_encode bytes) by ttl once now) in
      let (same, ids, hashes) = create-fresh id bytes by ttl once now r r' i h in
      record {
        machine_ids = rw same u.machine_ids;
        hostnames = rw same u.hostnames;
        public_keys = rw same u.public_keys;
        token_ids =
            rw (create-tokens x id bytes by ttl once now r r' i h)
              (Distinct-append (λ (t : TokenRow). t.id) r.tokens row u.token_ids ids);
        token_hashes =
            rw (create-tokens x id bytes by ttl once now r r' i h)
              (Distinct-append (λ (t : TokenRow). t.token_hash) r.tokens row u.token_hashes hashes);
      }

  consume-Distinct :
      (key : TokenRow → Str) (rows : List TokenRow) (id : Str) (once : Bool) (now : ℕ)
      → ((t : TokenRow) → key (stamp x.chrono now t) ≡ key t)
      → Distinct key rows
      → Distinct key (consume x.chrono rows id once now).1
  unfolding consume
  consume-Distinct key rows id once now keeps d =
      Distinct-update_rows key (consumable id once) (stamp x.chrono now) rows keeps d

  enroll-IsUnique :
      (r r' : Registry) (request : EnrollRequest) (hash key id : Str) (now : ℕ) (m : Machine)
      → enroll_transaction x r request hash key id now ≡ ok (m, r')
      → IsUnique r
      → IsUnique r'
  unfolding row_of_new
  enroll-IsUnique r r' request hash key id now m h u =
      let new : NewMachine = new_machine x request id key now in
      let row : MachineRow = row_of_new x.chrono new in
      let (t, _, _, tokens) = enroll_transaction-inversion x r r' request hash key id now m h in
      let (machines, ids, hosts, keys) =
        insert-inversion x.chrono r.machines r'.machines new m
          (enroll_transaction-machines r r' request hash key id now m h) in
      record {
        machine_ids =
            rw machines
              (Distinct-append (λ (m : MachineRow). m.machine_id) r.machines row u.machine_ids ids);
        hostnames =
            rw machines
              (Distinct-append (λ (m : MachineRow). m.hostname) r.machines row u.hostnames hosts);
        public_keys =
            rw machines (
              Distinct-append (λ (m : MachineRow). m.public_key) r.machines row u.public_keys keys);
        token_ids = rw tokens (
            consume-Distinct (λ (t : TokenRow). t.id) r.tokens t.id t.single_use now (λ t. refl)
              u.token_ids);
        token_hashes = rw tokens (
            consume-Distinct (λ (t : TokenRow). t.token_hash) r.tokens t.id t.single_use now
              (λ t. refl) u.token_hashes);
      }

  Step-IsUnique : {r r' : Registry} → Step x r r' → IsUnique r → IsUnique r'
  unfolding update_last_seen update_status delete write_ack record_applied
  Step-IsUnique {r = r} {r' = r'} (creates id bytes by ttl once now i h) u =
      create-IsUnique id bytes by ttl once now r r' i h u
  Step-IsUnique {r = r} {r' = r'} (enrolls request id now m h) u =
      let (key, done) = enroll_registry-inversion x r request id now (m, r') h in
      enroll-IsUnique r r' request _ key id now m done u
  Step-IsUnique {r = r} (beats b) u = record {
    machine_ids =
        Distinct-update_rows _ (has_id b.machine_id) (touch x.chrono b) r.machines (λ r. refl)
          u.machine_ids;
    hostnames =
        Distinct-update_rows _ (has_id b.machine_id) (touch x.chrono b) r.machines (λ r. refl)
          u.hostnames;
    public_keys =
        Distinct-update_rows _ (has_id b.machine_id) (touch x.chrono b) r.machines (λ r. refl)
          u.public_keys;
    token_ids = u.token_ids;
    token_hashes = u.token_hashes;
  }
  Step-IsUnique {r = r} (restatuses id status now) u = record {
    machine_ids =
        Distinct-update_rows _ (has_id id) (restatus x.chrono status now) r.machines (λ r. refl)
          u.machine_ids;
    hostnames =
        Distinct-update_rows _ (has_id id) (restatus x.chrono status now) r.machines (λ r. refl)
          u.hostnames;
    public_keys =
        Distinct-update_rows _ (has_id id) (restatus x.chrono status now) r.machines (λ r. refl)
          u.public_keys;
    token_ids = u.token_ids;
    token_hashes = u.token_hashes;
  }
  Step-IsUnique {r = r} (acknowledges id generation fingerprint now) u = record {
    machine_ids =
        Distinct-update_rows _ (has_id id) (CaService.synced x.chrono generation fingerprint now)
          r.machines (λ r. refl) u.machine_ids;
    hostnames =
        Distinct-update_rows _ (has_id id) (CaService.synced x.chrono generation fingerprint now)
          r.machines (λ r. refl) u.hostnames;
    public_keys =
        Distinct-update_rows _ (has_id id) (CaService.synced x.chrono generation fingerprint now)
          r.machines (λ r. refl) u.public_keys;
    token_ids = u.token_ids;
    token_hashes = u.token_hashes;
  }
  Step-IsUnique {r = r} (applies id generation fingerprint now) u = record {
    machine_ids =
        Distinct-update_rows _ (has_id id) (Fleet.synced x.chrono generation fingerprint now)
          r.machines (λ r. refl) u.machine_ids;
    hostnames =
        Distinct-update_rows _ (has_id id) (Fleet.synced x.chrono generation fingerprint now)
          r.machines (λ r. refl) u.hostnames;
    public_keys =
        Distinct-update_rows _ (has_id id) (Fleet.synced x.chrono generation fingerprint now)
          r.machines (λ r. refl) u.public_keys;
    token_ids = u.token_ids;
    token_hashes = u.token_hashes;
  }
  Step-IsUnique {r = r} (deletes id) u = record {
    machine_ids = Distinct-retain _ (λ r. not (has_id id r)) r.machines u.machine_ids;
    hostnames = Distinct-retain _ (λ r. not (has_id id r)) r.machines u.hostnames;
    public_keys = Distinct-retain _ (λ r. not (has_id id r)) r.machines u.public_keys;
    token_ids = u.token_ids;
    token_hashes = u.token_hashes;
  }

  -- If no two machines share an id, a hostname or a public key and no two tokens an id or a hash,
  -- this stays so however tokens are created, machines enrolled, heartbeats and acknowledgements of
  -- both kinds recorded, statuses set and machines deleted.
  pub Reach-IsUnique : (r s : Registry) → Reach x r s → IsUnique r → IsUnique s
  Reach-IsUnique r s here u = u
  Reach-IsUnique r s (next {s = t} path step) u = Step-IsUnique step (Reach-IsUnique r t path u)
