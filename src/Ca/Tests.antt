-- ===== src/Ca/Tests.antt =====
-- A run of src/ca/service.rs with a toy builder.
use mayfly_server.Prelude.{
  ◌+◌, ◌≡◌, ◌≤◌, refl, Str, lit, [], ◌∷◌, some, false, is_empty, trim, is_whitespace,
}
use mayfly_server.Prelude.Int.{pos}
use mayfly_server.Prelude.Result.{ok}
use mayfly_server.Machines.Toy.{keys}
use mayfly_server.Ca.Sign.{
  CertificateRequest, CertificateResponse, CertificateFields, Builder, standard_extensions, user,
  validate_ttl, sign_certificate, sign_certificate-bounded,
}

abbrev builder : Builder Str
builder = record {
  issue = λ f. ok (f.valid_after ∷ f.valid_before ∷ f.key_id);
  ca_fingerprint = lit "SHA256:ca";
  format_timestamp = λ t. t ∷ [];
}

abbrev request : CertificateRequest
request = record {
  principal = lit " root ";
  hostname = lit "web-1";
  public_key = lit "ssh-ed25519 A";
  ttl_seconds = 0;
}

abbrev response : CertificateResponse
response = record {
  certificate = 1000 ∷ 1300 ∷ lit "ca-01";
  serial = 1000;
  valid_after = 1000 ∷ [];
  valid_before = 1300 ∷ [];
  ttl_seconds = 300;
  principal = lit "root";
  fingerprint = lit "SHA256:ssh-ed25519 A";
  ca_key_id = lit "ca-01";
  ca_fingerprint = lit "SHA256:ca";
}

signed : sign_certificate keys builder request (pos 1000) (lit "ca-01") ≡ ok response
unfolding sign_certificate validate_ttl trim is_whitespace
signed = refl

sign_certificate-bounded_example :
    (f : CertificateFields Str) × (builder.issue f ≡ ok response.certificate)
    × (some (lit "ssh-ed25519 A") ≡ some f.subject)
    × (pos 1000 ≡ pos f.valid_after)
    × (f.valid_before ≡ f.valid_after + 300)
    × (60 ≤ 300)
    × (300 ≤ 3600)
    × (f.cert_type ≡ user)
    × (f.principals ≡ lit "root" ∷ [])
    × (is_empty (lit "root") ≡ false)
    × (f.extensions ≡ standard_extensions)
sign_certificate-bounded_example =
    sign_certificate-bounded keys builder request (pos 1000) (lit "ca-01") response signed
