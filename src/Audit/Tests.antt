-- ===== src/Audit/Tests.antt =====
-- Runs of src/audit on the instance of Audit/Toy.
use mayfly_server.Prelude.{
  ℕ, Option, false, to_ascii_lowercase, min, ltb, ◌≤◌, ◌≡◌, refl, Str, lit, List, [], ◌∷◌, ◌++◌,
  none, some, ◌↔◌, length, as_bytes, text_eq, utf8, ◌⊎◌,
}
use mayfly_server.Prelude.ConstantTime.{constant_time_eq}
use mayfly_server.Prelude.Result.{Result, ok, err, collect}
use mayfly_server.Audit.Model.{AuditEntry, NewAuditEntry, AuditError, valid}
use mayfly_server.Audit.Toy.{toy, toy-IsLawful}
use mayfly_server.Audit.Hash.{
  hashes_equal, recompute_canonical_json, genesis_previous_hash, canonicalize, compute_entry_hash,
}
use mayfly_server.Audit.Repository.{
  AuditTable, append_entry, insert_row, latest_row, order_asc, insert_asc, decode_row, list_entries,
}
use mayfly_server.Prelude.Int.{pos}
use mayfly_server.Prelude.Sort.{sort_by, insert_sorted}
use mayfly_server.Audit.Search.{
  AuditQuery, AuditPage, default_query, like, like_escape, effective_limit, selects, search,
  count_entries,
}
use mayfly_server.Audit.Search.Like.{begins, like-like_escape}
use mayfly_server.Audit.Search.Pages.{search-page}
use mayfly_server.Audit.Verifier.{
  verify_chain, verify_from, check_entry, check_canonical, verify_table, append_audit_event,
}
use mayfly_server.Audit.Chain.Rows.{IsChain, verify_table-IsChain}
use mayfly_server.Audit.Chain.Links.{Linked, verify_chain-Linked_iff}
use mayfly_server.Audit.Chain.Append.{
  empty_table, record_all-IsChain, canonical_of, record_all, verify_table-record_all,
}
use mayfly_server.Audit.Tamper.{verify_chain-tamper_evident, content, Collision, tip_hash}

abbrev first_event : NewAuditEntry Str
first_event = record {
  event_type = lit "machine.enrolled";
  actor = lit "system";
  subject = some (lit "m1");
  metadata = lit "{}";
}

abbrev second_event : NewAuditEntry Str
second_event = record {
  event_type = lit "machine.revoked";
  actor = lit "admin";
  subject = none;
  metadata = lit "null";
}

abbrev events : List (NewAuditEntry Str × ℕ)
events = (first_event, 5_000_000) ∷ (second_event, 6_000_000) ∷ []

abbrev log : AuditTable
log = record_all toy empty_table events

abbrev or_none : Result AuditError (List (AuditEntry Str)) → List (AuditEntry Str)
or_none (ok es) = es
or_none (err e) = []

abbrev entries : List (AuditEntry Str)
entries = or_none (list_entries toy log)

empty_table-IsChain : IsChain toy empty_table
unfolding IsChain
empty_table-IsChain = tt

log-IsChain : IsChain toy log
log-IsChain = record_all-IsChain toy toy-IsLawful empty_table events empty_table-IsChain

verify_chain-Linked_iff_example :
    (verify_chain toy entries ≡ valid 2)
    ↔ ((2 ≡ length entries) × Linked toy 0 genesis_previous_hash entries)
verify_chain-Linked_iff_example = verify_chain-Linked_iff toy 2 entries

verify_table-IsChain_example : verify_table toy log ≡ ok (valid (length log.rows))
verify_table-IsChain_example = verify_table-IsChain toy log log-IsChain

verify_table-record_all_example : verify_table toy log ≡ ok (valid (length log.rows))
verify_table-record_all_example = verify_table-record_all toy toy-IsLawful events

abbrev third_event : NewAuditEntry Str
third_event = record {
  event_type = lit "machine.deleted";
  actor = lit "admin";
  subject = some (lit "m2");
  metadata = lit "7";
}

abbrev appended : Result AuditError (AuditEntry Str × AuditTable)
appended = append_entry toy log third_event 8_500_000

abbrev the_entry : AuditEntry Str
the_entry = record {
  id = 3;
  chain_position = 3;
  event_type = lit "machine.deleted";
  actor = lit "admin";
  subject = some (lit "m2");
  metadata = lit "7";
  recorded_at = 8_000_000;
  previous_hash = tip_hash toy genesis_previous_hash entries;
  canonical_json = 3 ∷ lit "machine.deletedadminm2" ++ 8 ∷ lit "7";
  entry_hash =
      compute_entry_hash toy (3 ∷ lit "machine.deletedadminm2" ++ 8 ∷ lit "7")
        (tip_hash toy genesis_previous_hash entries);
}

abbrev or_table : Result AuditError (AuditEntry Str × AuditTable) → AuditTable
or_table (ok (e, t)) = t
or_table (err e) = empty_table

appended_run : appended ≡ ok (the_entry, or_table appended)
unfolding record_all append_audit_event append_entry latest_row insert_row canonicalize
    compute_entry_hash list_entries decode_row order_asc insert_asc collect
appended_run = refl

third_canonical :
    canonical_of toy toy-IsLawful log third_event 8_500_000
    ≡ ok (3 ∷ lit "machine.deletedadminm2" ++ 8 ∷ lit "7")
unfolding record_all append_audit_event append_entry latest_row insert_row canonicalize
    compute_entry_hash
third_canonical = refl

-- The digest adds up, so a text with its characters in another order collides.
abbrev forged_events : List (NewAuditEntry Str × ℕ)
forged_events =
    (record first_event { metadata = lit "}{" }, 5_000_000) ∷ (second_event, 6_000_000) ∷ []

abbrev forged : List (AuditEntry Str)
forged = or_none (list_entries toy (record_all toy empty_table forged_events))

entries-valid : verify_chain toy entries ≡ valid 2
unfolding record_all append_audit_event append_entry latest_row insert_row canonicalize
    compute_entry_hash list_entries decode_row order_asc insert_asc collect verify_chain verify_from
    check_entry check_canonical hashes_equal recompute_canonical_json constant_time_eq text_eq
    as_bytes utf8
entries-valid = refl

forged-valid : verify_chain toy forged ≡ valid 2
unfolding record_all append_audit_event append_entry latest_row insert_row canonicalize
    compute_entry_hash list_entries decode_row order_asc insert_asc collect verify_chain verify_from
    check_entry check_canonical hashes_equal recompute_canonical_json constant_time_eq text_eq
    as_bytes utf8
forged-valid = refl

same_tip : tip_hash toy genesis_previous_hash entries ≡ tip_hash toy genesis_previous_hash forged
unfolding record_all append_audit_event append_entry latest_row insert_row canonicalize
    compute_entry_hash list_entries decode_row order_asc insert_asc collect as_bytes utf8
same_tip = refl

verify_chain-tamper_evident_example : (content toy entries ≡ content toy forged) ⊎ Collision toy
verify_chain-tamper_evident_example =
    verify_chain-tamper_evident toy toy-IsLawful 2 entries forged entries-valid forged-valid
      same_tip

like-like_escape_example :
    like (like_escape (lit "a_%") ++ b'%' ∷ []) (lit "A_%x") ≡ begins (lit "a_%") (lit "A_%x")
like-like_escape_example = like-like_escape (lit "a_%") (lit "A_%x")

abbrev no_json : Str → Str → Option Str
no_json metadata path = none

abbrev machine_events : AuditQuery
machine_events = record default_query { event_prefix = some (lit "machine."); limit = pos 1 }

abbrev or_page : Result AuditError (AuditPage Str) → AuditPage Str
or_page (ok page) = page
or_page (err e) = record { entries = []; has_more = false }

abbrev found : Result AuditError (AuditPage Str)
found = search toy no_json log machine_events

found_run : found ≡ ok (or_page found)
unfolding record_all append_audit_event append_entry latest_row insert_row canonicalize
    compute_entry_hash decode_row collect search selects effective_limit like like_escape sort_by
    insert_sorted to_ascii_lowercase
found_run = refl

search-page_example :
    (length (or_page found).entries
      ≡ min (effective_limit machine_events) (count_entries toy no_json log machine_events))
    × ((or_page found).has_more
        ≡ ltb (effective_limit machine_events) (count_entries toy no_json log machine_events))
    × (1 ≤ effective_limit machine_events)
    × (effective_limit machine_events ≤ 1000)
search-page_example = search-page toy no_json log machine_events (or_page found) found_run
