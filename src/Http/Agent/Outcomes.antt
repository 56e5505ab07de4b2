-- ===== src/Http/Agent/Outcomes.antt =====
-- The words of an acknowledgement and its event, in src/routes/ca_bundle.rs and the outcomes of
-- src/bundle/models.rs.
use mayfly_server.Prelude.{
  lit, ◌∷◌, [], ◌⊎◌, map, to_ascii_lowercase, text_eq_iff, ◌≡◌, refl, arith, Str, Option, some,
  Bool, true, false, trim,
}
use mayfly_server.Audit.Model.{NewAuditEntry}
use mayfly_server.Machines.Models.{Machine}
use mayfly_server.Bundle.Fleet.{AckOutcome, parse_outcome, audit_event, is_success}
use mayfly_server.Http.Handler.{App, text, number, optional}
use mayfly_server.Http.Agent.{BundleService, BundleAckRequest, bundle_event}

-- The word of the status with the type of its event and whether the machine's rows are written.
abbrev pub Reported : Str → Str → Bool → Type 0
Reported word event_type written =
    (((word ≡ lit "applied") ⊎ (word ≡ lit "success"))
      × (event_type ≡ lit "bundle.applied")
      × (written ≡ true))
    ⊎ ((((word ≡ lit "rollback") ⊎ (word ≡ lit "rolled_back"))
          × (event_type ≡ lit "bundle.rollback")
          × (written ≡ false))
        ⊎ ((word ≡ lit "signature_failed")
            × (event_type ≡ lit "bundle.signature_failed")
            × (written ≡ false)))

pub parse_outcome-Reported :
    (status : Str) (outcome : AckOutcome)
    → parse_outcome status ≡ some outcome
    → Reported (map to_ascii_lowercase (trim status)) (audit_event outcome) (is_success outcome)
unfolding parse_outcome audit_event is_success
parse_outcome-Reported status outcome h =
    let word : Str = map to_ascii_lowercase (trim status) in
    ground (
      arith,
      text_eq_iff word (lit "applied"),
      text_eq_iff word (lit "success"),
      text_eq_iff word (lit "rollback"),
      text_eq_iff word (lit "rolled_back"),
      text_eq_iff word (lit "signature_failed"),
    )

module _ {Value Key : Type 0} (app : App Value Key) (bundles : Option BundleService) where
  -- The event of an acknowledgement.
  pub record IsAckEvent (event_type : Str) (machine : Machine) (ack : BundleAckRequest)
      (event : NewAuditEntry Value) : Type 0 where
    pub typed : event.event_type ≡ event_type
    pub actor : event.actor ≡ lit "agent"
    pub subject : event.subject ≡ some machine.machine_id
    pub metadata :
        (reason : Option Str) × (event.metadata
          ≡ app.json (
              (lit "machine_id", text machine.machine_id)
              ∷ (lit "generation", number ack.generation)
              ∷ (lit "fingerprint", text (trim ack.fingerprint))
              ∷ (lit "reason", optional reason)
              ∷ []))

  pub bundle_event-IsAckEvent :
      (outcome : AckOutcome) (machine : Machine) (ack : BundleAckRequest)
      → IsAckEvent
          (audit_event outcome)
          machine
          ack
          (bundle_event app bundles outcome machine.machine_id ack (trim ack.fingerprint))
  unfolding bundle_event
  bundle_event-IsAckEvent outcome machine ack = record {
    typed = refl;
    actor = refl;
    subject = refl;
    metadata = (_, refl);
  }
