-- ===== src/Archival/Coordinator/Handled.antt =====
-- The handling of a claimed record returns a receipt, whatever goes wrong in it.
use e_r_i_i.Prelude.{◌≡◌, refl, inl, inr, ℕ, String, Bool, true, false, ◌&&◌, some, arith}
use e_r_i_i.Prelude.Equality.{◌==◌, ◌!=◌, option_eq, string_eq, nat_eq, Bool-cases, if◌then◌else◌}
use e_r_i_i.Prelude.Lists.{find?}
use e_r_i_i.Prelude.Result.{Result, ok, err, raise_if, ◌>>◌, Result-cases}
use e_r_i_i.Archival.Types.{
  extraction, commit, ArchivalOutcomeCode, ArchivalReceipt, ArchivalRecord, PreparedArchivalBatch,
  Hashes, ArchivalError, conflict_error, value_error, not_found_error,
  extractor_schema_upgrade_required, processing_lease_expired, invalid_extractor_output,
  commit_temporary_failure, extractor_temporary_failure, permanent_failure, archival_status_eq,
  archival_phase_eq,
}
use e_r_i_i.Archival.Store.{Ledger, has_id}
use e_r_i_i.Archival.Store.Publish.{
  bind_prepared_archival_batch, update_archival_record, validate_archival_update,
}
use e_r_i_i.Archival.Store.Returned.{bind_prepared_archival_batch-ok}
use e_r_i_i.Archival.Coordinator.{ArchivalConfig, bound_record, failed_record}
use e_r_i_i.Archival.Coordinator.Process.{
  Readings, Extraction, extracted, lease_lost, permanent_error, retryable_error, invalid_error,
  other_error, record_failure, commit_record, guarded, bind_and_commit, after_extraction,
  process_claimed, latest_receipt,
}
use e_r_i_i.Archival.World.Table.{id_of, find-replace_first}

-- a call that returns
abbrev Returns : Result ArchivalError (ArchivalReceipt × Ledger) → Type 0
Returns result = (done : ArchivalReceipt × Ledger) × (result ≡ ok done)

-- the ledger has a record of the identity
abbrev pub Holds : Ledger → String → Type 0
Holds ledger k = (e : ArchivalRecord) × (find? (has_id k) ledger.records ≡ some e)

-- A check by conflicts raises nothing else.
conflicts_only :
    {B : Type 0} (t : Bool) (k : Result ArchivalError B) {e : ArchivalError}
    → ((f : ArchivalError) → k ≡ err f → f ≡ conflict_error)
    → (raise_if t conflict_error >> k) ≡ err e
    → e ≡ conflict_error
conflicts_only true k h q = cc
conflicts_only false k h q = h _ q

validate_conflicts :
    (clock : ℕ) (e r : ArchivalRecord) {f : ArchivalError}
    → validate_archival_update clock e r ≡ err f
    → f ≡ conflict_error
unfolding validate_archival_update
validate_conflicts clock e r h = ground arith

update_conflicts :
    (clock : ℕ) (new : ArchivalRecord) (ledger : Ledger) {f : ArchivalError}
    → Holds ledger (id_of new)
    → update_archival_record clock new ledger ≡ err f
    → f ≡ conflict_error
unfolding update_archival_record
update_conflicts clock new ledger {f} (e, found) h =
    elim (Result-cases (validate_archival_update clock e new)) [
      | inl (done, v) ↦ absurd (ground arith)
      | inr (g, v) ↦ let c = validate_conflicts clock e new v in ground arith
    ]

record_failure-Returns :
    (cfg : ArchivalConfig) (t : Readings) (outcome : ArchivalOutcomeCode) (retryable : Bool)
    (summary : String) (r : ArchivalRecord) (ledger : Ledger)
    → Holds ledger (id_of r)
    → Returns (record_failure cfg t outcome retryable summary r ledger)
unfolding record_failure failed_record
record_failure-Returns cfg t outcome retryable summary r ledger holds =
    let new = failed_record cfg t.now t.failed_at outcome retryable summary r in
    elim (Result-cases (update_archival_record t.update_clock new ledger)) [
      | inl (done, e) ↦ ((done.0.receipt, done.1), rw (e, record_failure) refl)
      | inr (f, e) ↦
          let c = update_conflicts t.update_clock new ledger holds e in
          ((latest_receipt r ledger, ledger), rw (e, record_failure) (rw c refl))
    ]

guarded-Returns :
    (cfg : ArchivalConfig) (t : Readings) (r : ArchivalRecord) (ledger : Ledger)
    (result : Result ArchivalError (ArchivalReceipt × Ledger))
    → Holds ledger (id_of r)
    → Returns (guarded cfg t r ledger result)
unfolding guarded
guarded-Returns cfg t r ledger (ok done) holds = (done, refl)
guarded-Returns cfg t r ledger (err conflict_error) holds =
    ((latest_receipt r ledger, ledger), refl)
guarded-Returns cfg t r ledger (err value_error) holds =
    record_failure-Returns cfg t invalid_extractor_output true
      "memory extractor returned an invalid decision" r ledger holds
guarded-Returns cfg t r ledger (err not_found_error) holds =
    elim (Bool-cases (r.receipt.phase == commit)) [
      | inl e ↦ rw e (
          record_failure-Returns cfg t commit_temporary_failure true
            "atomic archival commit is temporarily unavailable" r ledger holds)
      | inr e ↦ rw e (
          record_failure-Returns cfg t extractor_temporary_failure true
            "memory extractor is temporarily unavailable" r ledger holds)
    ]

bind_and_commit-Returns :
    (cfg : ArchivalConfig) (h : Hashes) (t : Readings) (latest : ArchivalRecord)
    (batch : PreparedArchivalBatch) (outcome : ArchivalOutcomeCode) (r : ArchivalRecord)
    (ledger : Ledger)
    → Holds ledger (id_of r)
    → Returns (bind_and_commit cfg h t latest batch outcome r ledger)
unfolding bind_and_commit
bind_and_commit-Returns cfg h t latest batch outcome r ledger holds =
    let new = bound_record cfg t.now t.permit_token t.processed_at batch outcome latest in
    elim (Result-cases
      (bind_prepared_archival_batch t.lease_clock t.permit_clock new batch ledger)) [
        | inr (f, e) ↦ rw (e, bind_and_commit) (guarded-Returns cfg t r ledger (err f) holds)
        | inl ((bound, ledger'), e) ↦
            let (x, found, _, same, after) =
              bind_prepared_archival_batch-ok t.lease_clock t.permit_clock new batch ledger e in
            let there_is : Holds ledger' (id_of bound) =
              rw (← same, ← after)
                ((new, find-replace_first (id_of new) new x ledger.records refl found)) in
            rw (e, bind_and_commit)
              (guarded-Returns cfg t bound ledger' (commit_record h t bound ledger') there_is)
      ]

after_extraction-Returns :
    (cfg : ArchivalConfig) (h : Hashes) (t : Readings) (r : ArchivalRecord) (x : Extraction)
    (ledger : Ledger)
    → Holds ledger (id_of r)
    → Returns (after_extraction cfg h t r x ledger)
unfolding after_extraction
after_extraction-Returns cfg h t r (extracted latest batch outcome) ledger holds =
    bind_and_commit-Returns cfg h t latest batch outcome r ledger holds
after_extraction-Returns cfg h t r lease_lost ledger holds =
    ((latest_receipt r ledger, ledger), refl)
after_extraction-Returns cfg h t r permanent_error ledger holds =
    record_failure-Returns cfg t permanent_failure false
      "memory extractor reported a permanent capability failure" r ledger holds
after_extraction-Returns cfg h t r retryable_error ledger holds =
    record_failure-Returns cfg t extractor_temporary_failure true
      "memory extractor is temporarily unavailable" r ledger holds
after_extraction-Returns cfg h t r invalid_error ledger holds =
    record_failure-Returns cfg t invalid_extractor_output true
      "memory extractor returned an invalid decision" r ledger holds
after_extraction-Returns cfg h t r other_error ledger holds =
    record_failure-Returns cfg t extractor_temporary_failure true
      "memory extractor is temporarily unavailable" r ledger holds

if-Returns :
    (b : Bool) (x y : Result ArchivalError (ArchivalReceipt × Ledger))
    → Returns x
    → Returns y
    → Returns (if b then x else y)
if-Returns true x y p q = p
if-Returns false x y p q = q

-- The handling of a claimed record always returns a receipt and raises nothing, however the extraction
-- ends and whatever the store refuses, if the ledger holds a record of the identity before and after
-- the extraction.
pub process_claimed_returns :
    (cfg : ArchivalConfig) (h : Hashes) (t : Readings) (extract : Ledger → Extraction × Ledger)
    (r : ArchivalRecord) (ledger : Ledger)
    → Holds ledger (id_of r)
    → Holds (extract ledger).1 (id_of r)
    → (done : ArchivalReceipt × Ledger) × (process_claimed cfg h t extract r ledger ≡ ok done)
unfolding process_claimed
process_claimed_returns cfg h t extract r ledger before after =
    let upgrade =
      record_failure cfg t extractor_schema_upgrade_required false
        "the pending archival requires extraction schema 2" r ledger in
    let expired =
      record_failure cfg t processing_lease_expired true
        "the previous archival processing lease expired" r ledger in
    let extracts = after_extraction cfg h t r (extract ledger).0 (extract ledger).1 in
    let publishes = guarded cfg t r ledger (commit_record h t r ledger) in
    let extracting = r.receipt.phase == extraction in
    let outdated = extracting && r.receipt.extractor_descriptor.extraction_schema_version != "2" in
    let second = if extracting then extracts else publishes in
    let first = if r.recovered_expired_lease then guarded cfg t r ledger expired else second in
    if-Returns outdated (guarded cfg t r ledger upgrade) first
      (guarded-Returns cfg t r ledger upgrade before)
      (if-Returns r.recovered_expired_lease (guarded cfg t r ledger expired) second
        (guarded-Returns cfg t r ledger expired before)
        (if-Returns extracting extracts publishes
          (after_extraction-Returns cfg h t r (extract ledger).0 (extract ledger).1 after)
          (guarded-Returns cfg t r ledger (commit_record h t r ledger) before)))
