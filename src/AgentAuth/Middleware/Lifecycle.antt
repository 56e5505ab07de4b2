-- ===== src/AgentAuth/Middleware/Lifecycle.antt =====
-- A machine that an operator disables or revokes (src/machines/admin.rs) is locked out by
-- src/agentauth/middleware.rs.
use mayfly_server.Prelude.{
  ◌≡◌, ◌≢◌, refl, ap, subst, sym, ◌∙◌, ℕ, Str, List, some, Bool, true, false, not, find, text_eq,
  text_eq_iff, arith, inl, inr, Option-cases, Bool-cases,
}
use mayfly_server.Prelude.Result.{ok}
use mayfly_server.Machines.Models.{
  Machine, MachineStatus, NewMachine, status_eq, as_str, from_db_str-as_str,
}
use mayfly_server.Machines.Store.{
  Chrono, MachineRow, HeartbeatUpdate, has_id, touch, restatus, insert, update_last_seen,
  update_status, delete, find_by_id, optional_machine, machine_of_row,
}
use mayfly_server.Machines.Enrollment.Lemmas.{
  updated, find-update_rows, find-append_some, find-hit, find-retain-some,
}
use mayfly_server.Machines.Enrollment.Unique.{insert-inversion}
use mayfly_server.Machines.Admin.{set_status}
use mayfly_server.AgentAuth.Nonce.{NonceCache}
use mayfly_server.AgentAuth.Signing.{SigningCrates}
use mayfly_server.AgentAuth.Middleware.{Request, verify_machine_signature}
use mayfly_server.AgentAuth.Middleware.Accepts.{
  verify_machine_signature-accepts_iff, read_headers-HasHeaders,
}

-- The machine with the id is in the table, with the stored status.
pub record HasStatus (id : Str) (s : MachineStatus) (rows : List MachineRow) : Type 0 where
  pub row : MachineRow
  pub found : find (has_id id) rows ≡ some row
  pub status : row.status ≡ as_str s

module _ (c : Chrono) (id : Str) where
  -- What may happen to the table while nobody sets this machine's status or deletes it.
  pub data Quiet : List MachineRow → List MachineRow → Type 0 where
    still : {rows : List MachineRow} → Quiet rows rows
    beat :
        {rows after : List MachineRow} (u : HeartbeatUpdate)
        → Quiet rows after
        → Quiet rows (update_last_seen c after u).1
    enrolled :
        {rows after more : List MachineRow} (new : NewMachine) (m : Machine)
        → insert c after new ≡ ok (m, more)
        → Quiet rows after
        → Quiet rows more
    restatused :
        {rows after : List MachineRow} (other : Str) (s : MachineStatus) (now : ℕ)
        → text_eq id other ≡ false
        → Quiet rows after
        → Quiet rows (update_status c after other s now).1
    deleted :
        {rows after : List MachineRow} (other : Str)
        → text_eq id other ≡ false
        → Quiet rows after
        → Quiet rows (delete after other).1

  update-HasStatus :
      (s : MachineStatus) (p : MachineRow → Bool) (f : MachineRow → MachineRow)
      (rows more : List MachineRow)
      → ((r : MachineRow) → has_id id (f r) ≡ has_id id r)
      → ((r : MachineRow) → has_id id r ≡ true → p r ≡ true → (f r).status ≡ r.status)
      → find (has_id id) more ≡ updated (has_id id) p f (find (has_id id) rows)
      → HasStatus id s rows
      → HasStatus id s more
  update-HasStatus s p f rows more keeps same e h = elim (Bool-cases (p h.row)) [
    | inl hit ↦ record {
      row = f h.row;
      found = ground (arith, h.found);
      status = same h.row (find-hit (has_id id) rows h.row h.found) hit ∙ h.status;
    }
    | inr miss ↦ record { row = h.row; found = ground (arith, h.found); status = h.status }
  ]

  other_row :
      (other : Str) (r : MachineRow)
      → text_eq id other ≡ false
      → has_id id r ≡ true
      → has_id other r ≡ false
  other_row other r differ hit = ground (arith, text_eq_iff r.machine_id id)

  Quiet-HasStatus :
      (s : MachineStatus) {rows after : List MachineRow}
      → Quiet rows after
      → HasStatus id s rows
      → HasStatus id s after
  unfolding update_last_seen update_status delete
  Quiet-HasStatus s still h = h
  Quiet-HasStatus s (beat {after = after} u q) h =
      update-HasStatus s (has_id u.machine_id) (touch c u) after _ (λ r. refl) (λ r hit p. refl)
        (find-update_rows (has_id id) (has_id u.machine_id) (touch c u) after (λ r. refl))
        (Quiet-HasStatus s q h)
  Quiet-HasStatus s (enrolled {after = after} {more = more} new m done q) h =
      let old = Quiet-HasStatus s q h in
      record {
        row = old.row;
        found =
            rw ((insert-inversion c after more new m done).0)
              (find-append_some (has_id id) after _ old.row old.found);
        status = old.status;
      }
  Quiet-HasStatus s (restatused {after = after} other t now differ q) h =
      update-HasStatus s (has_id other) (restatus c t now) after _ (λ r. refl)
        (λ r hit p. absurd (ground (arith, other_row other r differ hit)))
        (find-update_rows (has_id id) (has_id other) (restatus c t now) after (λ r. refl))
        (Quiet-HasStatus s q h)
  Quiet-HasStatus s (deleted {after = after} other differ q) h =
      let old = Quiet-HasStatus s q h in
      record {
        row = old.row;
        found =
            find-retain-some (has_id id) (λ r. not (has_id other r)) after old.row
              (λ r hit. ap not (other_row other r differ hit)) old.found;
        status = old.status;
      }

  find_by_id-status :
      (s : MachineStatus) (rows : List MachineRow) (m : Machine)
      → HasStatus id s rows
      → find_by_id c rows id ≡ ok (some m)
      → m.status ≡ s
  unfolding find_by_id optional_machine machine_of_row
  find_by_id-status s rows m h e = ground (arith, h.found, h.status, from_db_str-as_str s)

  set_status-HasStatus :
      (rows : List MachineRow) (s : MachineStatus) (now : ℕ) (m : Machine)
      → (set_status c rows id s now).0 ≡ ok m
      → HasStatus id s (set_status c rows id s now).1
  unfolding set_status update_status find_by_id optional_machine
  set_status-HasStatus rows s now m e =
      let moved = find-update_rows (has_id id) (has_id id) (restatus c s now) rows (λ r. refl) in
      elim (Option-cases (find (has_id id) rows)) [
        | inl missing ↦ absurd (ground (arith, moved))
        | inr (row, found) ↦ record {
          row = restatus c s now row;
          found = rw (moved, found, find-hit (has_id id) rows row found) refl;
          status = refl;
        }
      ]

module _ {Key VerifyingKey : Type 0} (x : SigningCrates Key VerifyingKey) (c : Chrono) where
  -- After an operator has set a machine's status to one that is not active, no request in its name
  -- passes, whatever the request, its time and the nonce cache, and whatever heartbeats,
  -- enrollments, and changes and deletions of other machines happen in between.
  pub set_status-locks_out :
      (rows later : List MachineRow) (id : Str) (s : MachineStatus) (now again : ℕ) (m k : Machine)
      (cache : NonceCache) (request : Request)
      → (set_status c rows id s now).0 ≡ ok m
      → status_eq s MachineStatus.active ≡ false
      → Quiet c id (set_status c rows id s now).1 later
      → request.machine_id ≡ some id
      → (verify_machine_signature x c later cache request again).0 ≢ ok k
  set_status-locks_out rows later id s now again m k cache request set inactive quiet named passed =
      let (h, g, _, _) =
        (verify_machine_signature-accepts_iff x c later cache request again k).0 passed in
      let same : id ≡ h.machine_id =
        ground (arith, named, (read_headers-HasHeaders request h g.headers).machine_id) in
      let stored : k.status ≡ s =
        find_by_id-status c id s later k
          (Quiet-HasStatus c id s quiet (set_status-HasStatus c id rows s now m set))
          (subst (λ (i : Str). find_by_id c later i ≡ ok (some k)) (sym same) g.author.known) in
      ground (arith, g.author.active, stored)
