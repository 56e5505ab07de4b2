-- ===== src/Ca/Sign.antt =====
-- `sign_certificate` of src/ca/service.rs. The builder of the `ssh_key` crate, with its signature
-- and its text, is a parameter.
use mayfly_server.Prelude.{
  ℕ, ◌+◌, ◌≡◌, ◌≤◌, refl, Str, lit, List, [], ◌∷◌, ◌++◌, some, false, not, ◌&&◌, leb, ◌==◌,
  is_empty, trim, Option-cases, arith, inl, inr, if◌then◌else◌,
}
use mayfly_server.Prelude.Int.{ℤ, pos, negsuc}
use mayfly_server.Prelude.Result.{Result, ok, err, ok_or, ◌>>=◌, ◌>>◌, reject_if, Result-cases}
use mayfly_server.Machines.Validation.{SshKeys}

abbrev pub min_ttl_seconds : ℕ
min_ttl_seconds = 60

abbrev pub max_ttl_seconds : ℕ
max_ttl_seconds = 3600

abbrev pub default_ttl_seconds : ℕ
default_ttl_seconds = 300

pub record CertificateRequest : Type 0 where
  pub principal : Str
  pub hostname : Str
  pub public_key : Str
  pub ttl_seconds : ℕ

pub record CertificateResponse : Type 0 where
  pub certificate : Str
  pub serial : ℕ
  pub valid_after : Str
  pub valid_before : Str
  pub ttl_seconds : ℕ
  pub principal : Str
  pub fingerprint : Str
  pub ca_key_id : Str
  pub ca_fingerprint : Str

-- The errors that `sign_certificate` returns.
pub data SignError : Type 0 where
  ttl_out_of_range principal_empty hostname_empty invalid_public_key : SignError
  clock_before_epoch sign encode : SignError

pub data CertType : Type 0 where
  user host : CertType

-- What the builder is given.
pub record CertificateFields (Key : Type 0) : Type 0 where
  pub subject : Key
  pub valid_after : ℕ
  pub valid_before : ℕ
  pub serial : ℕ
  pub key_id : Str
  pub cert_type : CertType
  pub principals : List Str
  pub comment : Str
  pub extensions : List Str

pub record Builder (Key : Type 0) : Type 0 where
  -- the certificate as a text, signed by the CA key
  pub issue : CertificateFields Key → Result SignError Str
  pub ca_fingerprint : Str
  -- seconds since the epoch
  pub format_timestamp : ℕ → Str

abbrev pub standard_extensions : List Str
standard_extensions =
    lit "permit-pty" ∷ lit "permit-port-forwarding" ∷ lit "permit-agent-forwarding" ∷ []

unfoldable pub validate_ttl : ℕ → Result SignError ℕ
validate_ttl requested = do
  let ttl = if requested == 0 then default_ttl_seconds else requested
  reject_if (not (leb min_ttl_seconds ttl && leb ttl max_ttl_seconds)) ttl_out_of_range
  ok ttl

validate_ttl-range :
    (requested ttl : ℕ) → validate_ttl requested ≡ ok ttl → (60 ≤ ttl) × (ttl ≤ 3600)
unfolding validate_ttl
validate_ttl-range requested ttl h = ground arith

-- `u64::try_from(now)`
abbrev pub to_u64 : ℤ → Result SignError ℕ
to_u64 (pos n) = ok n
to_u64 (negsuc n) = err clock_before_epoch

module _ {Key : Type 0} (k : SshKeys Key) (b : Builder Key) where
  abbrev pub fields : Key → ℕ → ℕ → Str → Str → Str → CertificateFields Key
  fields subject valid_after ttl key_id principal hostname = record {
    subject = subject;
    valid_after = valid_after;
    valid_before = valid_after + ttl;
    serial = valid_after;
    key_id = key_id;
    cert_type = user;
    principals = principal ∷ [];
    comment = principal ++ b'@' ∷ hostname;
    extensions = standard_extensions;
  }

  unfoldable pub sign_certificate :
      CertificateRequest → ℤ → Str → Result SignError CertificateResponse
  unfolding validate_ttl
  sign_certificate request now key_id = do
    ttl ← validate_ttl request.ttl_seconds
    let principal = trim request.principal
    reject_if (is_empty principal) principal_empty
    let hostname = trim request.hostname
    reject_if (is_empty hostname) hostname_empty
    subject ← ok_or (k.from_openssh request.public_key) invalid_public_key
    valid_after ← to_u64 now
    certificate ← b.issue (fields subject valid_after ttl key_id principal hostname)
    ok (record {
      certificate = certificate;
      serial = valid_after;
      valid_after = b.format_timestamp valid_after;
      valid_before = b.format_timestamp (valid_after + ttl);
      ttl_seconds = ttl;
      principal = principal;
      fingerprint = k.key_fingerprint subject;
      ca_key_id = key_id;
      ca_fingerprint = b.ca_fingerprint;
    })

  -- A certificate that is issued is a user certificate, binds the requested key to exactly one principal, which is not
  -- empty, is valid from the time of the request for 60 to 3600 seconds, and carries the three
  -- standard extensions; the response reports this lifetime and principal.
  pub sign_certificate-bounded :
      (request : CertificateRequest) (now : ℤ) (key_id : Str) (r : CertificateResponse)
      → sign_certificate request now key_id ≡ ok r
      → (f : CertificateFields Key) × (b.issue f ≡ ok r.certificate)
        × (k.from_openssh request.public_key ≡ some f.subject)
        × (now ≡ pos f.valid_after)
        × (f.valid_before ≡ f.valid_after + r.ttl_seconds)
        × (60 ≤ r.ttl_seconds)
        × (r.ttl_seconds ≤ 3600)
        × (f.cert_type ≡ user)
        × (f.principals ≡ r.principal ∷ [])
        × (is_empty r.principal ≡ false)
        × (f.extensions ≡ standard_extensions)
  unfolding sign_certificate
  sign_certificate-bounded request (negsuc n) key_id r h = absurd (ground arith)
  sign_certificate-bounded request (pos n) key_id r h =
      elim (Result-cases (validate_ttl request.ttl_seconds)) [
        | inr (e, failed) ↦ absurd (ground arith)
        | inl (ttl, allowed) ↦
            let bounds = validate_ttl-range request.ttl_seconds ttl allowed in
            elim (Option-cases (k.from_openssh request.public_key)) [
              | inl malformed ↦ absurd (ground arith)
              | inr (subject, parsed) ↦ (
                fields subject n ttl key_id (trim request.principal) (trim request.hostname),
                ground arith,
                parsed,
                refl,
                ground arith,
                ground (arith, bounds.0),
                ground (arith, bounds.1),
                refl,
                ground arith,
                ground arith,
                refl,
              )
            ]
      ]
