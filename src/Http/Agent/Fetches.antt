-- ===== src/Http/Agent/Fetches.antt =====
-- What a fetch of src/routes/ca_bundle.rs sends.
use mayfly_server.Prelude.{
  subst, ◌≡◌, arith, inl, inr, ℕ, ◌≤◌, ◌<◌, ◌+◌, ◌*◌, ◌/◌, Option, some, false, Bool-cases,
}
use mayfly_server.Prelude.Result.{ok, ok_or}
use mayfly_server.AgentAuth.Nonce.{nanos_per_sec}
use mayfly_server.Audit.Model.{AuditEntry}
use mayfly_server.Audit.Context.{HeaderValue}
use mayfly_server.Audit.Verifier.{append_audit_event}
use mayfly_server.Machines.Models.{Machine}
use mayfly_server.Machines.Enrollment.{State}
use mayfly_server.Bundle.Models.{BundleError, SignedBundle}
use mayfly_server.Bundle.Signer.{public_key_bytes, verify_signed_bundle}
use mayfly_server.Bundle.Service.{none_left, build_signed_bundle}
use mayfly_server.Bundle.Service.RoundTrip.{IsLawful, year_10000, build_signed_bundle-verifies}
use mayfly_server.Http.Errors.{internal}
use mayfly_server.Http.Handler.{
  App, Handler, append, mapped, pure, ◌>>◌, bind-ok, lift-bind, ok_or-ok, mapped-ok, append-ok,
}
use mayfly_server.Http.Agent.{
  BundleService, BundleResponse, signed_bundle, require_bundle, if_none_match_matches,
  bundle_downloaded, send_bundle, answer_fetch, get_ca_bundle,
}

module _ {Value Key : Type 0} (app : App Value Key) (bundles : Option BundleService) where
  send_bundle-ok :
      (machine : Machine) (now : ℕ) (service : BundleService) (s s' : State) (bundle : SignedBundle)
      → send_bundle app bundles machine now service s ≡ (ok (signed_bundle bundle), s')
      → (build_signed_bundle service.crates service.public service.signer service.ttl_seconds now
          ≡ ok bundle)
        × ((e : AuditEntry Value) × (append_audit_event app.crates.audit s.audit_log
                (bundle_downloaded app bundles machine bundle)
                now
              ≡ ok (e, s'.audit_log)))
        × (s'.registry ≡ s.registry)
  send_bundle-ok machine now service s s' bundle h =
      let built =
        build_signed_bundle service.crates service.public service.signer service.ttl_seconds now in
      let finish : SignedBundle → Handler BundleResponse =
        λ b. append app (bundle_downloaded app bundles machine b) now >> pure (signed_bundle b) in
      let (b, made, h1) =
        lift-bind (mapped (λ (e : BundleError). internal) built) finish s s' (signed_bundle bundle)
          h in
      let (u, t, logged, h2) =
        bind-ok (append app (bundle_downloaded app bundles machine b) now)
          (λ u. pure (signed_bundle b)) s s' (signed_bundle bundle) h1 in
      let (e, appended, kept) =
        append-ok app (bundle_downloaded app bundles machine b) now s t u logged in
      let same_state : t ≡ s' = ground arith in
      let same : b ≡ bundle = ground arith in
      (
        cc (mapped-ok (λ (e : BundleError). internal) built b made, same),
        (e, cc (appended, same, same_state)),
        cc (kept, same_state),
      )

  built-enabled :
      (service : BundleService) (now : ℕ) (bundle : SignedBundle)
      → build_signed_bundle service.crates service.public service.signer service.ttl_seconds now
        ≡ ok bundle
      → none_left service.public.keys ≡ false
  unfolding build_signed_bundle
  built-enabled service now bundle h = elim (Bool-cases (none_left service.public.keys)) [
    | inl none_enabled ↦ absurd (ground arith)
    | inr enabled ↦ enabled
  ]

  -- A bundle that an agent fetches is accepted, up to the whole second in which its lifetime ends, by
  -- an agent that pinned the server's Bundle Signing Key; the download has been appended to the audit
  -- log, and machines and tokens are as before.
  pub get_ca_bundle-verifies :
      (machine : Machine) (if_none_match : Option HeaderValue) (service : BundleService)
      (now later : ℕ) (s s' : State) (bundle : SignedBundle)
      → bundles ≡ some service
      → IsLawful service.crates
      → now + service.ttl_seconds * nanos_per_sec < year_10000
      → later ≤ (now + service.ttl_seconds * nanos_per_sec) / nanos_per_sec * nanos_per_sec
      → get_ca_bundle app bundles machine if_none_match now s ≡ (ok (signed_bundle bundle), s')
      → (verify_signed_bundle service.crates bundle
            (public_key_bytes service.crates service.signer)
            later
          ≡ ok tt)
        × ((e : AuditEntry Value) × (append_audit_event app.crates.audit s.audit_log
                (bundle_downloaded app bundles machine bundle)
                now
              ≡ ok (e, s'.audit_log)))
        × (s'.registry ≡ s.registry)
  unfolding get_ca_bundle require_bundle
  get_ca_bundle-verifies machine if_none_match service now later s s' bundle given lawful early
        fresh h =
      let (found, configured, h1) =
        lift-bind (ok_or bundles internal) (answer_fetch app bundles machine if_none_match now) s s'
          (signed_bundle bundle) h in
      let same : found ≡ service =
        ground (arith, ok_or-ok bundles internal found configured, given) in
      let h2 : answer_fetch app bundles machine if_none_match now service s
          ≡ (ok (signed_bundle bundle), s') =
        cc (same, h1) in
      elim (Bool-cases (if_none_match_matches if_none_match service.public.fingerprint)) [
        | inl current ↦ absurd (ground arith)
        | inr other ↦
            let (built, logged, kept) =
              send_bundle-ok machine now service s s' bundle (rw other at h2) in
            let (b, made, keys, generation, verified) =
              build_signed_bundle-verifies service.crates lawful service.public service.signer
                service.ttl_seconds now later (built-enabled service now bundle built) early
                fresh in
            let one : b ≡ bundle = ground (arith, made, built) in
            (
              subst
                  (λ x.
                    verify_signed_bundle service.crates x
                      (public_key_bytes service.crates service.signer) later
                    ≡ ok tt)
                  one verified,
              logged,
              kept,
            )
      ]
