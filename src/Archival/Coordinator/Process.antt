-- ===== src/Archival/Coordinator/Process.antt =====
-- `_process_claimed` of erii/core/archival.py, with `_commit` and `_record_failure`.
use e_r_i_i.Prelude.{ℕ, String, Bool, true, false, ◌&&◌}
use e_r_i_i.Prelude.Equality.{◌==◌, ◌!=◌, option_eq, string_eq, if◌then◌else◌}
use e_r_i_i.Prelude.Result.{Result, ok, err, ◌>>=◌}
use e_r_i_i.Archival.Types.{
  extraction, commit, ArchivalOutcomeCode, extractor_schema_upgrade_required,
  processing_lease_expired, permanent_failure, extractor_temporary_failure,
  invalid_extractor_output, commit_temporary_failure, ArchivalReceipt, ArchivalRecord,
  PreparedArchivalBatch, Hashes, ArchivalError, conflict_error, value_error, not_found_error,
  archival_status_eq, archival_phase_eq, commit_permit_eq,
}
use e_r_i_i.Archival.Store.{Ledger, get_archival_record}
use e_r_i_i.Archival.Store.Publish.{
  bind_prepared_archival_batch, commit_archival_batch, update_archival_record,
}
use e_r_i_i.Archival.Coordinator.{ArchivalConfig, bound_record, completed_record, failed_record}

-- what the calls of one attempt read from the clocks and draw
pub record Readings : Type 0 where
  pub now : ℕ
  pub lease_clock : ℕ
  pub permit_clock : ℕ
  pub commit_clock : ℕ
  pub update_clock : ℕ
  pub permit_token : String
  pub processed_at : String
  pub completed_at : String
  pub failed_at : String

-- What the extraction ends with, up to the call that binds the batch: the record as it is read after
-- the last renewal of the lease, the batch and its outcome; or an exception.
pub data Extraction : Type 0 where
  extracted : ArchivalRecord → PreparedArchivalBatch → ArchivalOutcomeCode → Extraction
  lease_lost permanent_error retryable_error invalid_error other_error : Extraction

-- `_latest_receipt`
unfoldable pub latest_receipt : ArchivalRecord → Ledger → ArchivalReceipt
latest_receipt r ledger =
    elim (get_archival_record r.receipt.relationship_id r.receipt.archival_id ledger) [
      | ok found ↦ found.receipt
      | err e ↦ r.receipt
    ]

-- `_record_failure`; an ArchivalNotFoundError passes through
unfoldable pub record_failure :
    ArchivalConfig
    → Readings
    → ArchivalOutcomeCode
    → Bool
    → String
    → ArchivalRecord
    → Ledger
    → Result ArchivalError (ArchivalReceipt × Ledger)
unfolding failed_record latest_receipt
record_failure cfg t outcome retryable safe_summary r ledger =
    elim (update_archival_record t.update_clock
      (failed_record cfg t.now t.failed_at outcome retryable safe_summary r) ledger) [
        | ok done ↦ ok (done.0.receipt, done.1)
        | err not_found_error ↦ err not_found_error
        | err value_error ↦ err value_error
        | err conflict_error ↦ ok (latest_receipt r ledger, ledger)
      ]

-- `_commit`
unfoldable pub commit_record :
    Hashes → Readings → ArchivalRecord → Ledger → Result ArchivalError (ArchivalReceipt × Ledger)
unfolding completed_record
commit_record h t r ledger = do
  new ← completed_record h t.completed_at r
  done ← commit_archival_batch t.commit_clock new ledger
  ok (done.0.receipt, done.1)

-- the handlers of `_process_claimed`, around an action that writes nothing when it raises
unfoldable pub guarded :
    ArchivalConfig
    → Readings
    → ArchivalRecord
    → Ledger
    → Result ArchivalError (ArchivalReceipt × Ledger)
    → Result ArchivalError (ArchivalReceipt × Ledger)
unfolding record_failure latest_receipt
guarded cfg t current ledger (ok done) = ok done
guarded cfg t current ledger (err conflict_error) = ok (latest_receipt current ledger, ledger)
guarded cfg t current ledger (err value_error) =
    record_failure cfg t invalid_extractor_output true
      "memory extractor returned an invalid decision" current ledger
guarded cfg t current ledger (err not_found_error) =
    if current.receipt.phase == commit
    then record_failure cfg t commit_temporary_failure true
        "atomic archival commit is temporarily unavailable" current ledger
    else record_failure cfg t extractor_temporary_failure true
        "memory extractor is temporarily unavailable" current ledger

-- the binding of what was extracted, and the commit of what is bound
unfoldable pub bind_and_commit :
    ArchivalConfig
    → Hashes
    → Readings
    → ArchivalRecord
    → PreparedArchivalBatch
    → ArchivalOutcomeCode
    → ArchivalRecord
    → Ledger
    → Result ArchivalError (ArchivalReceipt × Ledger)
unfolding guarded commit_record bound_record
bind_and_commit cfg h t latest batch outcome current ledger =
    elim (bind_prepared_archival_batch t.lease_clock t.permit_clock
      (bound_record cfg t.now t.permit_token t.processed_at batch outcome latest) batch ledger) [
        | err e ↦ guarded cfg t current ledger (err e)
        | ok (bound, ledger') ↦ guarded cfg t bound ledger' (commit_record h t bound ledger')
      ]

-- what follows the extraction
unfoldable pub after_extraction :
    ArchivalConfig
    → Hashes
    → Readings
    → ArchivalRecord
    → Extraction
    → Ledger
    → Result ArchivalError (ArchivalReceipt × Ledger)
unfolding bind_and_commit record_failure latest_receipt
after_extraction cfg h t current (extracted latest batch outcome) ledger =
    bind_and_commit cfg h t latest batch outcome current ledger
after_extraction cfg h t current lease_lost ledger = ok (latest_receipt current ledger, ledger)
after_extraction cfg h t current permanent_error ledger =
    record_failure cfg t permanent_failure false
      "memory extractor reported a permanent capability failure" current ledger
after_extraction cfg h t current retryable_error ledger =
    record_failure cfg t extractor_temporary_failure true
      "memory extractor is temporarily unavailable" current ledger
after_extraction cfg h t current invalid_error ledger =
    record_failure cfg t invalid_extractor_output true
      "memory extractor returned an invalid decision" current ledger
after_extraction cfg h t current other_error ledger =
    record_failure cfg t extractor_temporary_failure true
      "memory extractor is temporarily unavailable" current ledger

-- `_process_claimed`. The extraction is an argument: the host's extractor runs in it, with renewals of
-- the leases and calls of other processes between, so that it takes the ledger to another.
unfoldable pub process_claimed :
    ArchivalConfig
    → Hashes
    → Readings
    → (Ledger → Extraction × Ledger)
    → ArchivalRecord
    → Ledger
    → Result ArchivalError (ArchivalReceipt × Ledger)
unfolding guarded record_failure commit_record after_extraction
process_claimed cfg h t extract r ledger =
    if r.receipt.phase == extraction
      && r.receipt.extractor_descriptor.extraction_schema_version != "2"
    then guarded cfg t r ledger (
        record_failure cfg t extractor_schema_upgrade_required false
          "the pending archival requires extraction schema 2" r ledger)
    else if r.recovered_expired_lease
    then guarded cfg t r ledger (
        record_failure cfg t processing_lease_expired true
          "the previous archival processing lease expired" r ledger)
    else if r.receipt.phase == extraction
    then (let (result, ledger') = extract ledger in after_extraction cfg h t r result ledger')
    else guarded cfg t r ledger (commit_record h t r ledger)
