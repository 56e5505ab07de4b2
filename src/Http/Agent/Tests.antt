-- ===== src/Http/Agent/Tests.antt =====
-- Runs of src/routes/ca_bundle.rs.
use mayfly_server.Prelude.{
  ◌≡◌, refl, ◌≤◌, Bool, map, is_empty, Str, lit, none, some, false, trim, is_whitespace, text_eq,
  to_ascii_lowercase, len, as_bytes, utf8,
}
use mayfly_server.Prelude.Int.{pos, is_negative}
use mayfly_server.Prelude.Result.{Result, ok}
use mayfly_server.Audit.Repository.{append_entry, insert_row}
use mayfly_server.Audit.Hash.{canonicalize}
use mayfly_server.Audit.Verifier.{append_audit_event}
use mayfly_server.Machines.Toy.{sample_machine}
use mayfly_server.Machines.Enrollment.{State}
use mayfly_server.Bundle.Fleet.{parse_outcome, record_applied, audit_event, is_success}
use mayfly_server.Bundle.Service.Toy.{toy, public, signer, toy-IsLawful}
use mayfly_server.Http.Errors.{ApiError}
use mayfly_server.Http.Handler.{append}
use mayfly_server.Http.Agent.{
  BundleService, BundleAckRequest, BundleAckResponse, ack_ca_bundle, require_bundle, record_outcome,
  apply_outcome, bundle_event, BundleResponse, signed_bundle, get_ca_bundle, if_none_match_matches,
  bundle_downloaded,
}
use mayfly_server.Audit.Model.{AuditEntry}
use mayfly_server.Bundle.Models.{SignedBundle}
use mayfly_server.Bundle.Canonical.{canonical_v1, canonical_message}
use mayfly_server.Bundle.Signer.{public_key_bytes, verify_signed_bundle}
use mayfly_server.Bundle.Service.{signed_with, input_at, build_signed_bundle}
use mayfly_server.Http.Agent.Fetches.{get_ca_bundle-verifies}
use mayfly_server.Prelude.{arith}
use mayfly_server.Http.Agent.Acks.{Acknowledged, ack_ca_bundle-Recorded}
use mayfly_server.Http.Agent.Outcomes.{Reported}
use mayfly_server.Http.Toy.{app, state}

abbrev service : BundleService
service = record { crates = toy; public = public; signer = signer; ttl_seconds = 60 }

abbrev applied_ack : BundleAckRequest
applied_ack = record {
  generation = pos 99;
  fingerprint = lit " sha256:ab ";
  status = lit "Applied";
  reason = none;
}

abbrev answer : BundleAckResponse
answer = record { status = lit "recorded"; generation = pos 99 }

abbrev run : Result ApiError BundleAckResponse × State
run = ack_ca_bundle app (some service) sample_machine applied_ack 5_000_000 state

-- The generation 99 is recorded although the current one is 7.
recorded : run ≡ (ok answer, run.1)
unfolding ack_ca_bundle require_bundle record_outcome apply_outcome record_applied parse_outcome
    trim is_whitespace text_eq to_ascii_lowercase len as_bytes utf8 append append_audit_event
    append_entry canonicalize insert_row is_success bundle_event audit_event
recorded = refl

ack_ca_bundle-Recorded_example :
    (event_type : Str) × (written : Bool) × Reported
      (map to_ascii_lowercase (trim (lit "Applied")))
      event_type
      written
    × (is_negative (pos 99) ≡ false)
    × (is_empty (trim (lit " sha256:ab ")) ≡ false)
    × (len (trim (lit " sha256:ab ")) ≤ 128)
    × Acknowledged app
        (some service)
        event_type
        written
        sample_machine
        applied_ack
        5_000_000
        state
        run.1
ack_ca_bundle-Recorded_example =
    ack_ca_bundle-Recorded app (some service) sample_machine applied_ack 5_000_000 state run.1
      answer recorded

abbrev sent : SignedBundle
sent =
    signed_with toy public signer 60 5_000_000
      (as_bytes (canonical_v1 (input_at toy public 60 5_000_000)))

abbrev fetched : Result ApiError BundleResponse × State
fetched = get_ca_bundle app (some service) sample_machine none 5_000_000 state

fetch_run : fetched ≡ (ok (signed_bundle sent), fetched.1)
unfolding get_ca_bundle require_bundle if_none_match_matches build_signed_bundle canonical_message
    bundle_downloaded append append_audit_event append_entry canonicalize insert_row
fetch_run = refl

get_ca_bundle-verifies_example :
    (verify_signed_bundle toy sent (public_key_bytes toy signer) 60_000_000_000 ≡ ok tt)
    × ((e : AuditEntry Str) × (append_audit_event app.crates.audit state.audit_log
            (bundle_downloaded app (some service) sample_machine sent)
            5_000_000
          ≡ ok (e, fetched.1.audit_log)))
    × (fetched.1.registry ≡ state.registry)
get_ca_bundle-verifies_example =
    get_ca_bundle-verifies app (some service) sample_machine none service 5_000_000 60_000_000_000
      state fetched.1 sent refl toy-IsLawful (omega arith) (omega arith) fetch_run
