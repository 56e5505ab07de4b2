-- ===== src/CaBundle/Service/Seed.antt =====
-- The seed of src/cabundle/repository.rs.
use mayfly_server.Prelude.{◌≡◌, ℕ, Str, List, [], ◌∷◌, arith}
use mayfly_server.Prelude.Int.{pos}
use mayfly_server.Prelude.Sort.{sort_by}
use mayfly_server.Prelude.Result.{ok}
use mayfly_server.Machines.Store.{Chrono}
use mayfly_server.Machines.Validation.{SshKeys}
use mayfly_server.CaBundle.Canonical.{compute_fingerprint}
use mayfly_server.CaBundle.Build.{build, has_equal_neighbours, check_keys}
use mayfly_server.CaBundle.Build.Accepts.{IsValidKey}
use mayfly_server.CaBundle.Service.{
  CaTables, ensure_seeded, current_bundle, current_generation, list_enabled,
}

-- A second seed, whatever its key and time, changes nothing.
pub ensure_seeded_idempotent :
    (c : Chrono) (tables : CaTables) (id key id' key' : Str) (now later : ℕ)
    → ensure_seeded c (ensure_seeded c tables id key now) id' key' later
      ≡ ensure_seeded c tables id key now
unfolding ensure_seeded
ensure_seeded_idempotent c tables id key id' key' now later = ground arith

module _ {Key : Type 0} (c : Chrono) (k : SshKeys Key) (sha256_hex : List ℕ → Str) where
  -- After the first seed with a valid key, the bundle that is served has generation 1 and this one
  -- key, and its fingerprint.
  pub ensure_seeded-current_bundle :
      (tables : CaTables) (id key : Str) (now : ℕ)
      → tables.keys ≡ []
      → IsValidKey k (record { key_id = id; public_key = key })
      → current_bundle c k sha256_hex (ensure_seeded c tables id key now)
        ≡ ok (record {
          generation = pos 1;
          fingerprint =
              compute_fingerprint sha256_hex
                (pos 1)
                (record { key_id = id; public_key = key } ∷ []);
          keys = record { key_id = id; public_key = key } ∷ [];
        })
  unfolding ensure_seeded current_bundle current_generation list_enabled build check_keys
      has_equal_neighbours sort_by
  ensure_seeded-current_bundle tables id key now empty valid =
      rw empty (ground (arith, valid.0, valid.1))
