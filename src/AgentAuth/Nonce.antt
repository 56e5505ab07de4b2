-- ===== src/AgentAuth/Nonce.antt =====
-- src/agentauth/nonce.rs: the process-local nonce cache. The map is a list of entries, and instants
-- are nanoseconds since the Unix epoch.
pub mod Replay
use mayfly_server.Prelude.{
  ℕ, ◌+◌, ◌*◌, Str, List, [], ◌∷◌, Bool, true, false, ◌&&◌, ltb, any, retain, text_eq,
  if◌then◌else◌,
}

abbrev pub nanos_per_sec : ℕ
nanos_per_sec = 1_000_000_000

abbrev pub nonce_ttl_secs : ℕ
nonce_ttl_secs = 120

abbrev pub nonce_ttl : ℕ
nonce_ttl = nonce_ttl_secs * nanos_per_sec

pub record NonceEntry : Type 0 where
  pub machine_id : Str
  pub nonce : Str
  pub expiry : ℕ

abbrev pub NonceCache : Type 0
NonceCache = List NonceEntry

abbrev pub has_key : Str → Str → NonceEntry → Bool
has_key machine_id nonce e = text_eq e.machine_id machine_id && text_eq e.nonce nonce

abbrev pub is_live : ℕ → NonceEntry → Bool
is_live now e = ltb now e.expiry

-- True if the nonce is newly recorded.
unfoldable pub check_and_record : NonceCache → Str → Str → ℕ → Bool × NonceCache
check_and_record cache machine_id nonce now =
    let live = retain (is_live now) cache in
    if any (has_key machine_id nonce) live
    then (false, live)
    else (true, record { machine_id = machine_id; nonce = nonce; expiry = now + nonce_ttl } ∷ live)
