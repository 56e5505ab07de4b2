-- ===== src/AgentAuth/Middleware/Replays.antt =====
-- Replays of an accepted request: src/agentauth/middleware.rs with src/agentauth/nonce.rs.
use mayfly_server.Prelude.{
  ℕ, ◌+◌, ◌≤◌, ◌<◌, ◌≡◌, ◌≢◌, ap, subst, sym, ◌∙◌, Str, List, [], ◌∷◌, true, false, arith, All, inl,
  inr,
}
use mayfly_server.Prelude.Int.{ℤ, pos, negsuc}
use mayfly_server.AgentAuth.Decimal.{InI64, parse_i64-InI64}
use mayfly_server.Prelude.Result.{ok, Result-cases}
use mayfly_server.Machines.Models.{Machine}
use mayfly_server.Machines.Store.{Chrono, MachineRow}
use mayfly_server.AgentAuth.Nonce.{NonceCache, check_and_record, nonce_ttl}
use mayfly_server.AgentAuth.Nonce.Replay.{
  blocks, check_and_record-blocks, check_and_record-recorded, check_and_record-blocked,
  check_and_record-expired,
}
use mayfly_server.AgentAuth.Signing.{SigningCrates}
use mayfly_server.AgentAuth.Middleware.{
  Request, SignedHeaders, read_headers, timestamp_secs, check_signed, verify_machine_signature,
}
use mayfly_server.AgentAuth.Middleware.Accepts.{
  IsRecent, read_headers-HasHeaders, IsGenuine, verify_machine_signature-accepts_iff,
  IsGenuine-check_signed,
}

-- The last second that `chrono::DateTime` represents.
abbrev pub max_timestamp_secs : ℕ
max_timestamp_secs = 8_210_266_876_799

-- The timestamp is negative, or less than 60 seconds ahead.
abbrev pub IsUnderMinuteAhead : ℕ → ℤ → Type 0
IsUnderMinuteAhead secs (pos t) = t ≤ secs + 59
IsUnderMinuteAhead secs (negsuc n) = Unit

-- A request that arrives at an instant, with the machine table of that instant.
pub record Arrival : Type 0 where
  pub machines : List MachineRow
  pub request : Request
  pub now : ℕ

module _ {Key VerifyingKey : Type 0} (x : SigningCrates Key VerifyingKey) (c : Chrono) where
  -- The nonce cache after the requests.
  unfoldable pub serve : NonceCache → List Arrival → NonceCache
  serve cache [] = cache
  serve cache (a ∷ arrivals) =
      serve (verify_machine_signature x c a.machines cache a.request a.now).1 arrivals

  verify-blocks :
      (m n : Str) (expiry : ℕ) (machines : List MachineRow) (cache : NonceCache) (request : Request)
      (now : ℕ)
      → now < expiry
      → blocks m n expiry cache ≡ true
      → blocks m n expiry (verify_machine_signature x c machines cache request now).1 ≡ true
  unfolding verify_machine_signature
  verify-blocks m n expiry machines cache request now lt b =
      elim (Result-cases (check_signed x c machines request now)) [
        | inr (f, failed) ↦ ground arith
        | inl ((h, k), passed) ↦
            ground (arith, check_and_record-blocks m n expiry now cache h.machine_id h.nonce lt b)
      ]

  serve-blocks :
      (m n : Str) (expiry : ℕ) (cache : NonceCache) (arrivals : List Arrival)
      → All (λ a. a.now < expiry) arrivals
      → blocks m n expiry cache ≡ true
      → blocks m n expiry (serve cache arrivals) ≡ true
  unfolding serve
  serve-blocks m n expiry cache [] before b = b
  serve-blocks m n expiry cache (a ∷ arrivals) before b =
      serve-blocks m n expiry (verify_machine_signature x c a.machines cache a.request a.now).1
        arrivals before.1 (verify-blocks m n expiry a.machines cache a.request a.now before.0 b)

  verify-cache :
      (machines : List MachineRow) (cache : NonceCache) (request : Request) (now : ℕ)
      (h : SignedHeaders) (m : Machine)
      → IsGenuine x c machines request now h m
      → (verify_machine_signature x c machines cache request now).1
        ≡ (check_and_record cache h.machine_id h.nonce now).1
  unfolding verify_machine_signature
  verify-cache machines cache request now h m g =
      ground (arith, IsGenuine-check_signed x c machines request now h m g)

  All-below :
      (bound limit : ℕ) (arrivals : List Arrival)
      → bound < limit
      → All (λ a. a.now ≤ bound) arrivals
      → All (λ a. a.now < limit) arrivals
  All-below bound limit [] lt h = tt
  All-below bound limit (a ∷ arrivals) lt h = (omega arith, All-below bound limit arrivals lt h.1)

  still_recent :
      (now again : ℕ) (i : ℤ)
      → IsUnderMinuteAhead (timestamp_secs now) i
      → InI64 i
      → timestamp_secs again ≤ max_timestamp_secs
      → IsRecent (timestamp_secs now) i
      → IsRecent (timestamp_secs again) i
      → again < now + nonce_ttl
  still_recent now again (pos t) bound wide clock first second = ground arith
  still_recent now again (negsuc n) bound wide clock first second = ground arith

  edge-IsRecent :
      (now : ℕ) → IsRecent (timestamp_secs (now + nonce_ttl)) (pos (timestamp_secs now + 60))
  edge-IsRecent now = ground arith

  -- A request that was accepted at `now`, with a timestamp, negative or not, that is less than 60
  -- seconds ahead of the server's whole seconds, is not accepted again at any later instant that
  -- the clock represents, whatever the machine table is by then and whatever requests arrived in
  -- between, up to that instant.
  pub replay_rejected :
      (machines later : List MachineRow) (cache : NonceCache) (request : Request) (now again : ℕ)
      (h : SignedHeaders) (m k : Machine) (arrivals : List Arrival)
      → (verify_machine_signature x c machines cache request now).0 ≡ ok m
      → read_headers request ≡ ok h
      → IsUnderMinuteAhead (timestamp_secs now) h.timestamp
      → timestamp_secs again ≤ max_timestamp_secs
      → All (λ a. a.now ≤ again) arrivals
      → (verify_machine_signature x c later
          (serve (verify_machine_signature x c machines cache request now).1 arrivals)
          request
          again).0
        ≢ ok k
  replay_rejected machines later cache request now again h m k arrivals first headers bound clock
        order second =
      let after : NonceCache = (verify_machine_signature x c machines cache request now).1 in
      let (h1, g1, _, fresh1) =
        (verify_machine_signature-accepts_iff x c machines cache request now m).0 first in
      let (h2, g2, _, fresh2) =
        (verify_machine_signature-accepts_iff x c later (serve after arrivals) request again k).0
          second in
      let same1 : h1 ≡ h = ground (arith, g1.headers) in
      let same2 : h2 ≡ h = ground (arith, g2.headers) in
      let lt : again < now + nonce_ttl =
        still_recent now again h.timestamp bound
          (parse_i64-InI64 h.timestamp_raw h.timestamp
            (read_headers-HasHeaders request h headers).parsed)
          clock
          (subst (λ (g : SignedHeaders). IsRecent (timestamp_secs now) g.timestamp) same1 g1.recent)
          (subst (λ (g : SignedHeaders). IsRecent (timestamp_secs again) g.timestamp) same2
            g2.recent) in
      let recorded : blocks h1.machine_id h1.nonce (now + nonce_ttl) after ≡ true =
        subst (λ (s : NonceCache). blocks h1.machine_id h1.nonce (now + nonce_ttl) s ≡ true)
          (sym (verify-cache machines cache request now h1 m g1))
          (check_and_record-recorded h1.machine_id h1.nonce now cache fresh1) in
      let held : blocks h1.machine_id h1.nonce (now + nonce_ttl) (serve after arrivals) ≡ true =
        serve-blocks h1.machine_id h1.nonce (now + nonce_ttl) after arrivals
          (All-below again (now + nonce_ttl) arrivals lt order) recorded in
      let refused : (check_and_record (serve after arrivals) h1.machine_id h1.nonce again).0
          ≡ false =
        check_and_record-blocked h1.machine_id h1.nonce (now + nonce_ttl) again
          (serve after arrivals) lt held in
      cc (same1, same2, refused, fresh2)

  -- With a timestamp exactly 60 seconds ahead the same request is accepted a second time 120
  -- seconds later, if nothing else arrived and the machine table is the same.
  pub replay_accepted_at_edge :
      (machines : List MachineRow) (cache : NonceCache) (request : Request) (now : ℕ)
      (h : SignedHeaders) (m : Machine)
      → (verify_machine_signature x c machines cache request now).0 ≡ ok m
      → read_headers request ≡ ok h
      → h.timestamp ≡ pos (timestamp_secs now + 60)
      → (verify_machine_signature x c machines
          (verify_machine_signature x c machines cache request now).1
          request
          (now + nonce_ttl)).0
        ≡ ok m
  replay_accepted_at_edge machines cache request now h m first headers stamp =
      let (h1, g1, s1, fresh1) =
        (verify_machine_signature-accepts_iff x c machines cache request now m).0 first in
      let same1 : h1 ≡ h = ground (arith, g1.headers) in
      (verify_machine_signature-accepts_iff x c machines
          (verify_machine_signature x c machines cache request now).1 request (now + nonce_ttl) m).1
        (
          h1,
          record {
            headers = g1.headers;
            recent =
                subst (IsRecent (timestamp_secs (now + nonce_ttl)))
                  (sym (ap (λ (g : SignedHeaders). g.timestamp) same1 ∙ stamp)) (edge-IsRecent now);
            bounded = g1.bounded;
            author = g1.author;
          },
          s1,
          rw (verify-cache machines cache request now h1 m g1)
              (check_and_record-expired cache h1.machine_id h1.nonce now fresh1),
        )
