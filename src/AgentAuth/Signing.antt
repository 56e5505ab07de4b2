-- ===== src/AgentAuth/Signing.antt =====
-- src/agentauth/signing.rs: the canonical string, and the checks of a signature. OpenSSH keys,
-- Base64 and Ed25519 come from other crates.
pub mod Injective
use mayfly_server.Prelude.{
  ℕ, Str, lit, List, [], ◌∷◌, ◌++◌, Option, none, some, Bool, not, ◌==◌, length, as_bytes,
}
use mayfly_server.Prelude.Int.{ℤ}
use mayfly_server.Prelude.Result.{Result, ok, err, ok_or, ◌>>=◌, ◌>>◌, reject_if}
use mayfly_server.AgentAuth.Decimal.{show_int}

abbrev pub signing_domain : Str
signing_domain = lit "mayfly-agent-auth-v1"

abbrev pub signature_length : ℕ
signature_length = 64

abbrev pub then_line : Str → Str → Str
then_line line rest = line ++ b'\n' ∷ rest

unfoldable pub canonical_string : Str → ℤ → Str → Str → Str → Str → Str
canonical_string machine_id timestamp nonce method path body_hash_hex = then_line signing_domain (
    then_line machine_id (
      then_line (show_int timestamp)
        (then_line nonce (then_line method (then_line path body_hash_hex)))))

pub data SignatureError : Type 0 where
  malformed_public_key not_ed25519 malformed_signature invalid : SignatureError

pub record SigningCrates (Key VerifyingKey : Type 0) : Type 0 where
  pub from_openssh : Str → Option Key
  pub ed25519 : Key → Option (List ℕ)
  pub from_bytes : List ℕ → Option VerifyingKey
  pub base64_decode : List ℕ → Option (List ℕ)
  -- the key, the message and the signature
  pub verify_strict : VerifyingKey → List ℕ → List ℕ → Bool
  pub sha256_hex : List ℕ → Str

module _ {Key VerifyingKey : Type 0} (x : SigningCrates Key VerifyingKey) where
  unfoldable pub body_sha256_hex : List ℕ → Str
  body_sha256_hex body = x.sha256_hex body

  unfoldable pub verifying_key : Str → Result SignatureError VerifyingKey
  verifying_key public_key_openssh = do
    key ← ok_or (x.from_openssh public_key_openssh) malformed_public_key
    ed ← ok_or (x.ed25519 key) not_ed25519
    ok_or (x.from_bytes ed) malformed_public_key

  unfoldable pub verify_signature : Str → Str → Str → Result SignatureError Unit
  unfolding verifying_key
  verify_signature public_key_openssh canonical signature_b64 = do
    key ← verifying_key public_key_openssh
    raw ← ok_or (x.base64_decode (as_bytes signature_b64)) malformed_signature
    reject_if (not (length raw == signature_length)) malformed_signature
    reject_if (not (x.verify_strict key (as_bytes canonical) raw)) invalid
    ok tt
