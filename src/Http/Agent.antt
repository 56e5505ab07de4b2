-- ===== src/Http/Agent.antt =====
-- src/routes/ca_bundle.rs: the agents' fetching and acknowledging of bundles, behind the
-- authentication of src/agentauth/middleware.rs.
pub mod Acks
pub mod Fetches
pub mod Outcomes
mod Tests
use mayfly_server.Prelude.{
  ℕ, Str, lit, List, [], ◌∷◌, ◌++◌, Option, none, some, Bool, true, false, ◌||◌, not, ltb, trim,
  is_empty, is_control, len, split, strip_prefix, reverse, retain, take, any, map, text_eq, ◌==◌,
  if◌then◌else◌,
}
use mayfly_server.Prelude.Int.{ℤ, pos, is_negative}
use mayfly_server.Prelude.Result.{Result, ok, err, ok_or, reject_if}
use mayfly_server.Audit.Model.{NewAuditEntry}
use mayfly_server.Audit.Context.{HeaderValue, readable, opaque}
use mayfly_server.Machines.Models.{Machine}
use mayfly_server.Machines.Enrollment.{State}
use mayfly_server.Bundle.Models.{SignedBundle}
use mayfly_server.Bundle.Signer.{BundleCrates, Ed25519BundleSigner}
use mayfly_server.Bundle.Service.{PublicBundle, build_signed_bundle}
use mayfly_server.Bundle.Fleet.{
  AckOutcome, parse_outcome, audit_event, is_success, record_applied, machine_exists,
}
use mayfly_server.Http.Errors.{ApiError, bad_request, unauthorized, internal}
use mayfly_server.Http.Handler.{
  App, Handler, text, number, optional, append, lift, mapped, pure, ◌>>=◌, ◌>>◌,
}

-- The bundle service: the CA manager's public bundle, the signer and the lifetime, which
-- `BundleService::new` has made at least 1.
pub record BundleService : Type 0 where
  pub crates : BundleCrates
  pub public : PublicBundle
  pub signer : Ed25519BundleSigner
  pub ttl_seconds : ℕ

pub record BundleAckRequest : Type 0 where
  pub generation : ℤ
  pub fingerprint : Str
  pub status : Str
  pub reason : Option Str

pub record BundleAckResponse : Type 0 where
  pub status : Str
  pub generation : ℤ

-- The answer to a fetch, without its ETag, which is the fingerprint's.
pub data BundleResponse : Type 0 where
  not_modified : BundleResponse
  signed_bundle : SignedBundle → BundleResponse

abbrev pub max_fingerprint_len : ℕ
max_fingerprint_len = 128

abbrev pub agent : Str
agent = lit "agent"

unfoldable pub etag_value : Str → Str
etag_value fingerprint = b'"' ∷ fingerprint ++ b'"' ∷ []

-- `trim_matches('"')`
unfoldable pub trim_start_quotes : Str → Str
trim_start_quotes [] = []
trim_start_quotes (c ∷ s) = if c == b'"' then trim_start_quotes s else c ∷ s

unfoldable pub trim_quotes : Str → Str
unfolding trim_start_quotes
trim_quotes s = reverse (trim_start_quotes (reverse (trim_start_quotes s)))

abbrev or_whole : Option Str → Str → Str
or_whole none tag = tag
or_whole (some rest) tag = rest

-- The closure on one entry of the header.
unfoldable pub matches_tag : Str → Str → Bool
unfolding trim_quotes
matches_tag fingerprint entry =
    text_eq (trim entry) (lit "*")
    || text_eq (trim_quotes (trim (or_whole (strip_prefix (trim entry) (lit "W/")) (trim entry))))
        fingerprint

unfoldable pub if_none_match_matches : Option HeaderValue → Str → Bool
unfolding matches_tag
if_none_match_matches none fingerprint = false
if_none_match_matches (some opaque) fingerprint = false
if_none_match_matches (some (readable raw)) fingerprint =
    any (matches_tag fingerprint) (split b',' raw)

unfoldable pub sanitize_reason : Str → Str
sanitize_reason reason = take 256 (retain (λ c. not (is_control c)) reason)

abbrev pub option_map : {A B : Type 0} → (A → B) → Option A → Option B
option_map f none = none
option_map f (some a) = some (f a)

module _ {Value Key : Type 0} (app : App Value Key) (bundles : Option BundleService) where
  unfoldable pub require_bundle : Result ApiError BundleService
  require_bundle = ok_or bundles internal

  unfoldable pub bundle_downloaded : Machine → SignedBundle → NewAuditEntry Value
  bundle_downloaded machine bundle = record {
    event_type = lit "bundle.downloaded";
    actor = agent;
    subject = some machine.machine_id;
    metadata = app.json (
        (lit "machine_id", text machine.machine_id)
        ∷ (lit "generation", number (pos bundle.generation))
        ∷ (lit "fingerprint", text bundle.fingerprint)
        ∷ (lit "bundle_version", number (pos bundle.bundle_version))
        ∷ []);
  }

  -- What follows if the agent's bundle is not the current one.
  abbrev pub send_bundle : Machine → ℕ → BundleService → Handler BundleResponse
  send_bundle machine now service = do
    bundle ← lift (
        mapped (λ e. internal)
          (build_signed_bundle service.crates service.public service.signer service.ttl_seconds
            now))
    append app (bundle_downloaded machine bundle) now
    pure (signed_bundle bundle)

  abbrev pub answer_fetch :
      Machine → Option HeaderValue → ℕ → BundleService → Handler BundleResponse
  answer_fetch machine if_none_match now service =
      if if_none_match_matches if_none_match service.public.fingerprint
      then pure not_modified
      else send_bundle machine now service

  unfoldable pub get_ca_bundle : Machine → Option HeaderValue → ℕ → Handler BundleResponse
  unfolding require_bundle if_none_match_matches bundle_downloaded
  get_ca_bundle machine if_none_match now =
      lift require_bundle >>= answer_fetch machine if_none_match now

  -- The write or the look-up, and whether the machine is known.
  unfoldable pub apply_outcome : AckOutcome → Str → ℤ → Str → ℕ → Handler Bool
  unfolding is_success
  apply_outcome outcome machine_id generation fingerprint now s =
      let (updated, rows) =
        record_applied app.crates.chrono s.registry.machines machine_id generation fingerprint
          now in
      if is_success outcome
      then (ok updated, record s { registry = record s.registry { machines = rows } })
      else (ok (machine_exists s.registry.machines machine_id), s)

  unfoldable pub bundle_event : AckOutcome → Str → BundleAckRequest → Str → NewAuditEntry Value
  unfolding audit_event
  bundle_event outcome machine_id ack fingerprint = record {
    event_type = audit_event outcome;
    actor = agent;
    subject = some machine_id;
    metadata = app.json (
        (lit "machine_id", text machine_id)
        ∷ (lit "generation", number ack.generation)
        ∷ (lit "fingerprint", text fingerprint)
        ∷ (lit "reason", optional (option_map sanitize_reason ack.reason))
        ∷ []);
  }

  abbrev pub unknown : ApiError
  unknown = unauthorized (lit "request authentication failed")

  -- The steps after the checks of the request.
  unfoldable pub record_outcome :
      AckOutcome → Str → BundleAckRequest → Str → ℕ → Handler BundleAckResponse
  unfolding apply_outcome bundle_event
  record_outcome outcome machine_id ack fingerprint now = do
    known ← apply_outcome outcome machine_id ack.generation fingerprint now
    lift (reject_if (not known) unknown)
    append app (bundle_event outcome machine_id ack fingerprint) now
    pure (record { status = lit "recorded"; generation = ack.generation })

  abbrev pub is_bad_fingerprint : Str → Bool
  is_bad_fingerprint fingerprint = is_empty fingerprint || ltb max_fingerprint_len (len fingerprint)

  abbrev pub check_named : Str → BundleAckRequest → ℕ → AckOutcome → Handler BundleAckResponse
  check_named machine_id ack now outcome = do
    lift (
        reject_if (is_negative ack.generation)
          (bad_request (lit "generation must not be negative")))
    lift (
        reject_if (is_bad_fingerprint (trim ack.fingerprint))
          (bad_request (lit "invalid fingerprint")))
    record_outcome outcome machine_id ack (trim ack.fingerprint) now

  unfoldable pub ack_ca_bundle : Machine → BundleAckRequest → ℕ → Handler BundleAckResponse
  unfolding require_bundle record_outcome
  ack_ca_bundle machine ack now = do
    service ← lift require_bundle
    outcome ← lift (
        ok_or (parse_outcome ack.status)
          (bad_request (lit "unknown ack status '" ++ ack.status ++ lit "'")))
    check_named machine.machine_id ack now outcome
