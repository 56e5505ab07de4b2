-- ===== src/Machines/Protocol/Liveness.antt =====
-- The thresholds of `LivenessStatus::derive` of src/machines/protocol.rs, in nanoseconds.
use mayfly_server.Prelude.{ℕ, ◌+◌, ◌*◌, ◌≤◌, ◌<◌, ◌≡◌, ◌↔◌, refl, none, some, arith, Option}
use mayfly_server.Machines.Protocol.{LivenessStatus, online, stale, offline, derive}
use mayfly_server.AgentAuth.Nonce.{nanos_per_sec}

-- When a machine last seen at an instant counts as online, stale and offline: the two limits of
-- 120 and 600 seconds are inclusive to the whole second.
abbrev pub Band : Option ℕ → ℕ → LivenessStatus → Type 0
Band none now online = ⊥
Band none now stale = ⊥
Band none now offline = Unit
Band (some seen) now online = now < seen + 121 * nanos_per_sec
Band (some seen) now stale = (seen + 121 * nanos_per_sec ≤ now) × (now < seen + 601 * nanos_per_sec)
Band (some seen) now offline = seen + 601 * nanos_per_sec ≤ now

derive-Band : (last_seen : Option ℕ) (now : ℕ) → Band last_seen now (derive last_seen now)
unfolding derive
derive-Band none now = tt
derive-Band (some seen) now = ground arith

Band-derive :
    (last_seen : Option ℕ) (now : ℕ) (s : LivenessStatus)
    → Band last_seen now s
    → derive last_seen now ≡ s
unfolding derive
Band-derive none now online b = elim b [ ]
Band-derive none now stale b = elim b [ ]
Band-derive none now offline b = refl
Band-derive (some seen) now online b = ground arith
Band-derive (some seen) now stale b = ground arith
Band-derive (some seen) now offline b = ground arith

-- The derived status is the one whose band holds.
pub derive_iff :
    (last_seen : Option ℕ) (now : ℕ) (s : LivenessStatus)
    → (derive last_seen now ≡ s) ↔ Band last_seen now s
derive_iff last_seen now s =
    (λ h. rw (← h) (derive-Band last_seen now), Band-derive last_seen now s)
