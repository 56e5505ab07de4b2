-- ===== src/AgentAuth/Middleware/Accepts.antt =====
-- What src/agentauth/middleware.rs has checked when it lets a request pass.
use mayfly_server.Prelude.Int.{ℤ, pos, negsuc, int_leb}
use mayfly_server.Prelude.{
  ℕ, ◌≤◌, ◌≡◌, ◌↔◌, ◌⊎◌, ◌+◌, ◌^◌, refl, List, none, some, true, length, arith, inl, inr,
}
use mayfly_server.Prelude.Result.{Result, ok, err, Result-cases}
use mayfly_server.Machines.Models.{Machine, MachineStatus, status_eq}
use mayfly_server.Machines.Store.{Chrono, MachineRow, find_by_id}
use mayfly_server.AgentAuth.Decimal.{parse_i64}
use mayfly_server.AgentAuth.Nonce.{NonceCache, check_and_record}
use mayfly_server.AgentAuth.Signing.{SigningCrates, SignatureError, verify_signature}
use mayfly_server.AgentAuth.Middleware.{
  Request, SignedHeaders, read_headers, canonical_of, check_machine, skew, timestamp_secs,
  timestamp_skew_secs, check_signed, verify_machine_signature, verified,
}

-- The headers that the request carries.
pub record HasHeaders (request : Request) (h : SignedHeaders) : Type 0 where
  pub machine_id : request.machine_id ≡ some h.machine_id
  pub timestamp : request.timestamp ≡ some h.timestamp_raw
  pub nonce : request.nonce ≡ some h.nonce
  pub signature : request.signature ≡ some h.signature
  pub parsed : parse_i64 h.timestamp_raw ≡ some h.timestamp

pub read_headers-HasHeaders :
    (request : Request) (h : SignedHeaders) → read_headers request ≡ ok h → HasHeaders request h
unfolding read_headers
read_headers-HasHeaders request h e = record {
  machine_id = ground arith;
  timestamp = ground arith;
  nonce = ground arith;
  signature = ground arith;
  parsed = ground arith;
}

-- The timestamp is at most 60 seconds from the server's seconds; or the distance to a negative one
-- overflows: it is `2 ^ 63`, or comes within 60 of `2 ^ 64`.
abbrev pub IsRecent : ℕ → ℤ → Type 0
IsRecent secs (pos t) = (t ≤ secs + 60) × (secs ≤ t + 60)
IsRecent secs (negsuc n) =
    (secs + n + 1 ≤ 60) ⊎ ((secs + n + 1 ≡ 2 ^ 63) ⊎ (2 ^ 64 ≤ secs + n + 61))

pub skew-IsRecent :
    (secs : ℕ) (i : ℤ) → (int_leb (skew secs i) (pos timestamp_skew_secs) ≡ true) ↔ IsRecent secs i
unfolding skew
skew-IsRecent secs (pos t) = ground arith
skew-IsRecent secs (negsuc n) = ground arith

module _ {Key VerifyingKey : Type 0} (x : SigningCrates Key VerifyingKey) (c : Chrono) where
  -- The machine is known, has signed the request with its key, and is active.
  pub record IsSignedBy (machines : List MachineRow) (request : Request) (h : SignedHeaders)
      (m : Machine) : Type 0 where
    pub known : find_by_id c machines h.machine_id ≡ ok (some m)
    pub signed : verify_signature x m.public_key (canonical_of x c request h) h.signature ≡ ok tt
    pub active : m.status ≡ MachineStatus.active

  verified-eq-ok : (r : Result SignatureError Unit) → verified r ≡ ok tt → r ≡ ok tt
  verified-eq-ok (ok tt) e = refl
  verified-eq-ok (err s) e = ground arith

  status_eq-active :
      (s : MachineStatus) → status_eq s MachineStatus.active ≡ true → s ≡ MachineStatus.active
  status_eq-active s h = ground arith

  check_machine-IsSignedBy :
      (machines : List MachineRow) (request : Request) (h : SignedHeaders) (m : Machine)
      → check_machine x c machines request h ≡ ok m
      → IsSignedBy machines request h m
  unfolding check_machine
  check_machine-IsSignedBy machines request h m e =
      elim (Result-cases (find_by_id c machines h.machine_id)) [
        | inr (f, failed) ↦ absurd (ground arith)
        | inl (none, found) ↦ absurd (ground arith)
        | inl (some n, found) ↦ record {
          known = ground arith;
          signed = ground (arith);
          active = ground (arith, status_eq-active n.status);
        }
      ]

  IsSignedBy-check_machine :
      (machines : List MachineRow) (request : Request) (h : SignedHeaders) (m : Machine)
      → IsSignedBy machines request h m
      → check_machine x c machines request h ≡ ok m
  unfolding check_machine
  IsSignedBy-check_machine machines request h m s = ground arith

  -- The request is recent and of bounded size, and its machine has signed it.
  pub record IsGenuine (machines : List MachineRow) (request : Request) (now : ℕ)
      (h : SignedHeaders) (m : Machine) : Type 0 where
    pub headers : read_headers request ≡ ok h
    pub recent : IsRecent (timestamp_secs now) h.timestamp
    pub bounded : length request.body ≤ 65536
    pub author : IsSignedBy machines request h m

  pub check_signed-IsGenuine :
      (machines : List MachineRow) (request : Request) (now : ℕ) (h : SignedHeaders) (m : Machine)
      → check_signed x c machines request now ≡ ok (h, m)
      → IsGenuine machines request now h m
  unfolding check_signed
  check_signed-IsGenuine machines request now h m e = elim (Result-cases (read_headers request)) [
    | inr (f, failed) ↦ absurd (ground arith)
    | inl (g, headers) ↦ record {
      headers = ground arith;
      recent = (skew-IsRecent (timestamp_secs now) h.timestamp).0 (ground arith);
      bounded = ground arith;
      author = check_machine-IsSignedBy machines request h m (ground arith);
    }
  ]

  pub IsGenuine-check_signed :
      (machines : List MachineRow) (request : Request) (now : ℕ) (h : SignedHeaders) (m : Machine)
      → IsGenuine machines request now h m
      → check_signed x c machines request now ≡ ok (h, m)
  unfolding check_signed
  IsGenuine-check_signed machines request now h m g = ground (
    arith,
    g.headers,
    (skew-IsRecent (timestamp_secs now) h.timestamp).1 g.recent,
    g.bounded,
    IsSignedBy-check_machine machines request h m g.author,
  )

  -- A request passes with the machine `m` exactly when, for the values `h` of its four headers, the
  -- timestamp is at most 60 seconds from the server's whole seconds, the body has at most 65536
  -- bytes, the machine named by the header is `m`, its key verifies the signature over the canonical
  -- string, its status is active, and the nonce cache reports the nonce as new. A negative timestamp
  -- also counts as close if it is exactly `2 ^ 63` or at least `2 ^ 64 - 60` seconds before the
  -- server's, where the arithmetic of a release build wraps around.
  pub verify_machine_signature-accepts_iff :
      (machines : List MachineRow) (cache : NonceCache) (request : Request) (now : ℕ) (m : Machine)
      → ((verify_machine_signature x c machines cache request now).0 ≡ ok m) ↔ (
          (h : SignedHeaders) × IsGenuine machines request now h m
          × HasHeaders request h
          × ((check_and_record cache h.machine_id h.nonce now).0 ≡ true))
  unfolding verify_machine_signature
  verify_machine_signature-accepts_iff machines cache request now m = (
    λ e. elim (Result-cases (check_signed x c machines request now)) [
      | inr (f, failed) ↦ absurd (ground arith)
      | inl ((h, n), passed) ↦
          let same : n ≡ m = ground arith in
          let g : IsGenuine machines request now h m =
            check_signed-IsGenuine machines request now h m (ground arith) in
          (h, g, read_headers-HasHeaders request h g.headers, ground arith)
    ],
    λ (h, g, headers, fresh). ground (arith, IsGenuine-check_signed machines request now h m g),
  )

  -- A request that is not a recent, bounded request signed by an active machine leaves the nonce
  -- cache as it was.
  pub verify_machine_signature-writes_nothing :
      (machines : List MachineRow) (cache : NonceCache) (request : Request) (now : ℕ)
      → ((h : SignedHeaders) (m : Machine) → ¬ IsGenuine machines request now h m)
      → (verify_machine_signature x c machines cache request now).1 ≡ cache
  unfolding verify_machine_signature
  verify_machine_signature-writes_nothing machines cache request now forged =
      elim (Result-cases (check_signed x c machines request now)) [
        | inr (f, failed) ↦ ground arith
        | inl ((h, m), passed) ↦
            absurd (forged h m (check_signed-IsGenuine machines request now h m passed))
      ]
