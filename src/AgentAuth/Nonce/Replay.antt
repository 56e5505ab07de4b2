-- ===== src/AgentAuth/Nonce/Replay.antt =====
-- A recorded nonce is refused until its entry expires, and not longer: src/agentauth/nonce.rs.
use mayfly_server.Prelude.{
  ℕ, ◌+◌, ◌<◌, ◌≡◌, refl, ◌↔◌, Str, List, [], ◌∷◌, Bool, true, false, ◌&&◌, leb, any, all, retain,
  text_eq_refl, arith, All,
}
use mayfly_server.AgentAuth.Nonce.{NonceCache, has_key, is_live, nonce_ttl, check_and_record}

-- The cache holds the pair until `expiry` at least.
abbrev pub blocks : Str → Str → ℕ → NonceCache → Bool
blocks machine_id nonce expiry cache =
    any (λ e. has_key machine_id nonce e && leb expiry e.expiry) cache

module _ (m n : Str) where
  blocks-retain :
      (expiry now : ℕ) (cache : NonceCache)
      → now < expiry
      → blocks m n expiry cache ≡ true
      → blocks m n expiry (retain (is_live now) cache) ≡ true
  blocks-retain expiry now [] lt h = h
  blocks-retain expiry now (e ∷ cache) lt h = ground (arith, blocks-retain expiry now cache lt)

  any-blocks :
      (expiry : ℕ) (cache : NonceCache)
      → blocks m n expiry cache ≡ true
      → any (has_key m n) cache ≡ true
  any-blocks expiry [] h = h
  any-blocks expiry (e ∷ cache) h = ground (arith, any-blocks expiry cache)

  pub check_and_record-blocks :
      (expiry now : ℕ) (cache : NonceCache) (m' n' : Str)
      → now < expiry
      → blocks m n expiry cache ≡ true
      → blocks m n expiry (check_and_record cache m' n' now).1 ≡ true
  unfolding check_and_record
  check_and_record-blocks expiry now cache m' n' lt h =
      ground (arith, blocks-retain expiry now cache lt h)

  pub check_and_record-recorded :
      (now : ℕ) (cache : NonceCache)
      → (check_and_record cache m n now).0 ≡ true
      → blocks m n (now + nonce_ttl) (check_and_record cache m n now).1 ≡ true
  unfolding check_and_record
  check_and_record-recorded now cache h = ground (arith, text_eq_refl m, text_eq_refl n)

  pub check_and_record-blocked :
      (expiry now : ℕ) (cache : NonceCache)
      → now < expiry
      → blocks m n expiry cache ≡ true
      → (check_and_record cache m n now).0 ≡ false
  unfolding check_and_record
  check_and_record-blocked expiry now cache lt h =
      ground
        (arith, any-blocks expiry (retain (is_live now) cache), blocks-retain expiry now cache lt h)

-- Other calls of the cache, in any order.
pub record Call : Type 0 where
  pub machine_id : Str
  pub nonce : Str
  pub now : ℕ

unfoldable pub run : NonceCache → List Call → NonceCache
run cache [] = cache
run cache (c ∷ calls) = run (check_and_record cache c.machine_id c.nonce c.now).1 calls

run-blocks :
    (m n : Str) (expiry : ℕ) (cache : NonceCache) (calls : List Call)
    → All (λ c. c.now < expiry) calls
    → blocks m n expiry cache ≡ true
    → blocks m n expiry (run cache calls) ≡ true
unfolding run
run-blocks m n expiry cache [] before h = h
run-blocks m n expiry cache (c ∷ calls) before h =
    run-blocks m n expiry (check_and_record cache c.machine_id c.nonce c.now).1 calls before.1
      (check_and_record-blocks m n expiry c.now cache c.machine_id c.nonce before.0 h)

-- A pair that was recorded at `now` is refused at every later call before `now` plus the TTL,
-- whatever other calls before that instant come in between.
pub check_and_record-replay :
    (cache : NonceCache) (m n : Str) (now again : ℕ) (calls : List Call)
    → (check_and_record cache m n now).0 ≡ true
    → All (λ c. c.now < now + nonce_ttl) calls
    → again < now + nonce_ttl
    → (check_and_record (run (check_and_record cache m n now).1 calls) m n again).0 ≡ false
check_and_record-replay cache m n now again calls recorded before lt =
    check_and_record-blocked m n (now + nonce_ttl) again _ lt (
      run-blocks m n (now + nonce_ttl) _ calls before
        (check_and_record-recorded m n now cache recorded))

any-retain :
    (m n : Str) (now : ℕ) (cache : NonceCache)
    → any (has_key m n) (retain (is_live now) cache)
      ≡ any (λ e. has_key m n e && is_live now e) cache
any-retain m n now [] = refl
any-retain m n now (e ∷ cache) = ground (arith, any-retain m n now cache)

all-retain : (now : ℕ) (cache : NonceCache) → all (is_live now) (retain (is_live now) cache) ≡ true
all-retain now [] = refl
all-retain now (e ∷ cache) = ground (arith, all-retain now cache)

-- A call reports a fresh nonce exactly when no unexpired entry has the same machine and nonce, and
-- after every call all entries of the cache are unexpired.
pub check_and_record_lem :
    (cache : NonceCache) (m n : Str) (now : ℕ)
    → (((check_and_record cache m n now).0 ≡ true)
        ↔ (any (λ e. has_key m n e && is_live now e) cache ≡ false))
      × (all (is_live now) (check_and_record cache m n now).1 ≡ true)
unfolding check_and_record
check_and_record_lem cache m n now = ground (arith, any-retain m n now cache, all-retain now cache)

retain-retain-key :
    (m n : Str) (now later : ℕ) (cache : NonceCache)
    → any (has_key m n) (retain (is_live now) cache) ≡ false
    → any (has_key m n) (retain (is_live later) (retain (is_live now) cache)) ≡ false
retain-retain-key m n now later [] h = h
retain-retain-key m n now later (e ∷ cache) h =
    ground (arith, retain-retain-key m n now later cache)

-- At the instant `now` plus the TTL the recorded pair is reported as new again.
pub check_and_record-expired :
    (cache : NonceCache) (m n : Str) (now : ℕ)
    → (check_and_record cache m n now).0 ≡ true
    → (check_and_record (check_and_record cache m n now).1 m n (now + nonce_ttl)).0 ≡ true
unfolding check_and_record
check_and_record-expired cache m n now h =
    ground (arith, retain-retain-key m n now (now + nonce_ttl) cache)
