-- ===== src/AgentAuth/Signing/Injective.antt =====
-- The canonical string of src/agentauth/signing.rs determines its fields.
use mayfly_server.Prelude.{◌≡◌, refl, Str, true, separated-injective}
use mayfly_server.Prelude.Int.{ℤ}
use mayfly_server.AgentAuth.Decimal.{
  show_int, is_one_line, show_int-is_one_line, show_int-injective,
}
use mayfly_server.AgentAuth.Signing.{canonical_string, then_line, signing_domain}

then_line-injective :
    (a b r s : Str)
    → is_one_line a ≡ true
    → is_one_line b ≡ true
    → then_line a r ≡ then_line b s
    → (a ≡ b) × (r ≡ s)
then_line-injective a b r s ha hb e = separated-injective b'\n' a b r s ha hb e

-- The fields that a request brings, none of which holds a newline.
pub record SignedFields : Type 0 where
  pub machine_id : Str
  pub timestamp : ℤ
  pub nonce : Str
  pub method : Str
  pub path : Str
  pub body_hash : Str

pub record IsOneLine (f : SignedFields) : Type 0 where
  pub machine_id : is_one_line f.machine_id ≡ true
  pub nonce : is_one_line f.nonce ≡ true
  pub method : is_one_line f.method ≡ true
  pub path : is_one_line f.path ≡ true

abbrev pub canonical_of : SignedFields → Str
canonical_of f = canonical_string f.machine_id f.timestamp f.nonce f.method f.path f.body_hash

pub record SameFields (f g : SignedFields) : Type 0 where
  pub machine_id : f.machine_id ≡ g.machine_id
  pub timestamp : f.timestamp ≡ g.timestamp
  pub nonce : f.nonce ≡ g.nonce
  pub method : f.method ≡ g.method
  pub path : f.path ≡ g.path
  pub body_hash : f.body_hash ≡ g.body_hash

-- Two requests with one canonical string have the same machine, timestamp, nonce, method,
-- path and body hash, if their machine ids, nonces, methods and paths hold no newline: a signature
-- over the string signs each field.
pub canonical_string-injective :
    (f g : SignedFields)
    → IsOneLine f
    → IsOneLine g
    → canonical_of f ≡ canonical_of g
    → SameFields f g
unfolding canonical_string
canonical_string-injective f g hf hg e =
    let (d, e1) = then_line-injective signing_domain signing_domain _ _ refl refl e in
    let (m, e2) =
      then_line-injective f.machine_id g.machine_id _ _ hf.machine_id hg.machine_id e1 in
    let (t, e3) =
      then_line-injective (show_int f.timestamp) (show_int g.timestamp) _ _
        (show_int-is_one_line f.timestamp) (show_int-is_one_line g.timestamp) e2 in
    let (n, e4) = then_line-injective f.nonce g.nonce _ _ hf.nonce hg.nonce e3 in
    let (v, e5) = then_line-injective f.method g.method _ _ hf.method hg.method e4 in
    let (p, b) = then_line-injective f.path g.path _ _ hf.path hg.path e5 in
    record {
      machine_id = m;
      timestamp = show_int-injective f.timestamp g.timestamp t;
      nonce = n;
      method = v;
      path = p;
      body_hash = b;
    }
