-- ===== src/Bundle/Service/Toy.antt =====
-- An instance of the parameters of src/bundle that can be run.
use mayfly_server.Prelude.{
  refl, ℕ, zero, suc, ◌*◌, ◌/◌, Str, lit, List, [], ◌∷◌, Option, none, some, true,
}
use mayfly_server.AgentAuth.Nonce.{nanos_per_sec}
use mayfly_server.Bundle.Signer.{BundleCrates, Ed25519BundleSigner}
use mayfly_server.Bundle.Service.{PublicBundle}
use mayfly_server.Bundle.Service.RoundTrip.{IsLawful}

abbrev pub zeros : ℕ → List ℕ
zeros zero = []
zeros (suc n) = 0 ∷ zeros n

abbrev pub only_instant : Str → Option ℕ
only_instant (t ∷ []) = some t
only_instant _ = none

-- Every signature verifies; a seed is its own public key.
abbrev pub toy : BundleCrates
toy = record {
  verifying_key = λ seed. seed;
  sign = λ seed message. zeros 64;
  is_key = λ key. true;
  verify_strict = λ key message sig. true;
  encode = λ bytes. bytes;
  decode = λ s. some s;
  to_openssh = λ key. key;
  from_openssh = λ s. some (some s);
  to_rfc3339_secs = λ t. t / nanos_per_sec * nanos_per_sec ∷ [];
  parse_from_rfc3339 = only_instant;
}

pub toy-IsLawful : IsLawful toy
toy-IsLawful = record {
  openssh = λ seed. refl;
  is_key = λ seed. refl;
  decode-encode = λ seed message. refl;
  sign_length = λ seed message. refl;
  verify-sign = λ seed message. refl;
  rfc3339 = λ t early. refl;
}

abbrev pub public : PublicBundle
public = record {
  generation = 7;
  fingerprint = lit "sha256:ab";
  keys =
      record {
        key_id = lit "ca-02";
        public_key = lit "ssh-ed25519 B";
        fingerprint = lit "SHA256:b";
      }
      ∷ record {
        key_id = lit "ca-01";
        public_key = lit "ssh-ed25519 A";
        fingerprint = lit "SHA256:a";
      }
      ∷ [];
}

abbrev pub signer : Ed25519BundleSigner
signer = record { signing_key = lit "seed" }
