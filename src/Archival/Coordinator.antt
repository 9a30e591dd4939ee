-- ===== src/Archival/Coordinator.antt =====
-- `ArchivalCoordinator` of erii/core/archival.py: the records that it submits, binds, completes and
-- fails, and the handling of a claimed record.
pub mod Process
pub mod Handled
use e_r_i_i.Prelude.{
  ◌≡◌, ℕ, ◌+◌, ◌-◌, ◌*◌, ◌^◌, String, Option, none, some, List, [], Bool, true, false, ◌||◌, ◌&&◌,
  not,
}
use e_r_i_i.Prelude.Equality.{◌==◌, ◌!=◌, option_eq, string_eq, leb, if◌then◌else◌}
use e_r_i_i.Prelude.Result.{Result, ok, err, raise_if, ◌>>◌, ◌>>=◌}
use e_r_i_i.Archival.Types.{
  ArchivalStatus, pending, processing, retry_wait, completed, failed, ArchivalPhase, extraction,
  commit, ArchivalOutcomeCode, retry_exhausted, extractor_schema_upgrade_required,
  processing_lease_expired, permanent_failure, extractor_temporary_failure,
  invalid_extractor_output, commit_temporary_failure, full, ExtractorDescriptor, ArchivalReceipt,
  ArchivalRecord, PreparedArchivalBatch, Hashes, ArchivalError, conflict_error, value_error,
  not_found_error, manifest, check_receipt, archival_status_eq, archival_phase_eq, commit_permit_eq,
}
use e_r_i_i.Archival.Store.{Ledger, get_archival_record}
use e_r_i_i.Archival.Store.Publish.{
  bind_prepared_archival_batch, commit_archival_batch, update_archival_record,
}

pub record ArchivalConfig : Type 0 where
  pub max_attempts : ℕ
  pub base_delay_seconds : ℕ
  pub lease_seconds : ℕ
  pub commit_permit_seconds : ℕ

-- what `submit` takes from the profile, the Source Turn and the host's descriptor, with the two
-- fingerprints that it computes (SHA-256 of JSON), the fresh `uuid4` and the time
pub record Submission : Type 0 where
  pub archival_id : String
  pub relationship_id : String
  pub agent_id : String
  pub user_id : String
  pub turn_id : String
  pub source_revision : String
  pub descriptor : ExtractorDescriptor
  pub idempotency_fingerprint : String
  pub request_fingerprint : String
  pub now_text : String

-- the record that `submit` creates
unfoldable pub submitted_record : Submission → ArchivalRecord
submitted_record s = record {
  receipt = record {
    archival_id = s.archival_id;
    relationship_id = s.relationship_id;
    agent_id = s.agent_id;
    user_id = s.user_id;
    source_turn_id = s.turn_id;
    source_revision = s.source_revision;
    status = pending;
    phase = extraction;
    extractor_descriptor = s.descriptor;
    submitted_at = s.now_text;
    updated_at = s.now_text;
    extraction_attempts = 0;
    commit_attempts = 0;
    outcome_code = none;
    retryable = none;
    safe_summary = none;
    next_attempt_at = none;
    completed_at = none;
    artifact_manifest = some [];
    retention_state = full;
  };
  idempotency_fingerprint = s.idempotency_fingerprint;
  request_fingerprint = s.request_fingerprint;
  record_version = 1;
  lease_token = none;
  lease_expires_at = none;
  attempt_id = none;
  prepared_batch = none;
  prepared_outcome_code = none;
  commit_binding_digest = none;
  commit_permit = none;
  recovered_expired_lease = false;
}

-- the end of `_extract_and_bind`: the record with its frozen batch
unfoldable pub bound_record :
    ArchivalConfig
    → ℕ
    → String
    → String
    → PreparedArchivalBatch
    → ArchivalOutcomeCode
    → ArchivalRecord
    → ArchivalRecord
bound_record cfg now permit_token processed_at batch outcome r = record r {
  receipt = record r.receipt {
    phase = commit;
    extractor_descriptor = batch.descriptor;
    commit_attempts = r.receipt.commit_attempts + 1;
    updated_at = processed_at;
  };
  record_version = r.record_version + 1;
  prepared_batch = some batch;
  prepared_outcome_code = some outcome;
  commit_binding_digest = some batch.batch_digest;
  commit_permit = some (record {
    token = permit_token;
    binding_digest = batch.batch_digest;
    expires_at = now + cfg.commit_permit_seconds;
  });
}

-- the receipt that `_commit` writes
abbrev pub completed_receipt :
    Hashes
    → String
    → PreparedArchivalBatch
    → ArchivalOutcomeCode
    → ArchivalReceipt
    → ArchivalReceipt
completed_receipt h completed_at batch outcome r = record r {
  status = completed;
  outcome_code = some outcome;
  retryable = some false;
  safe_summary = none;
  next_attempt_at = none;
  completed_at = some completed_at;
  updated_at = completed_at;
  artifact_manifest = some (manifest h batch);
}

-- the record with its new receipt
abbrev pub completed_with : ArchivalRecord → ArchivalReceipt → ArchivalRecord
completed_with r receipt = record r {
  receipt = receipt;
  record_version = r.record_version + 1;
  prepared_batch = none;
}

-- the rest of `_commit`, with the batch and the outcome that are prepared
unfoldable pub complete_prepared :
    Hashes
    → String
    → ArchivalRecord
    → Option PreparedArchivalBatch
    → Option ArchivalOutcomeCode
    → Result ArchivalError ArchivalRecord
complete_prepared h completed_at r none outcome = err conflict_error
complete_prepared h completed_at r (some batch) none = err conflict_error
complete_prepared h completed_at r (some batch) (some outcome) =
    raise_if (r.commit_permit == none) conflict_error
    >> (check_receipt (completed_receipt h completed_at batch outcome r.receipt) >>= λ receipt.
        ok (completed_with r receipt))

-- the record that `_commit` asks the store to publish
unfoldable pub completed_record :
    Hashes → String → ArchivalRecord → Result ArchivalError ArchivalRecord
unfolding complete_prepared
completed_record h completed_at r =
    raise_if (r.receipt.phase != commit) conflict_error
    >> complete_prepared h completed_at r r.prepared_batch r.prepared_outcome_code

-- the attempts of the phase that the record is in
unfoldable pub attempts_of : ArchivalReceipt → ℕ
attempts_of r = if r.phase == extraction then r.extraction_attempts else r.commit_attempts

-- the record that `_record_failure` stores
unfoldable pub failed_record :
    ArchivalConfig
    → ℕ
    → String
    → ArchivalOutcomeCode
    → Bool
    → String
    → ArchivalRecord
    → ArchivalRecord
unfolding attempts_of
failed_record cfg now now_text outcome retryable safe_summary r =
    let attempts = attempts_of r.receipt in
    let exhausted = retryable && leb cfg.max_attempts attempts in
    let waits = retryable && not exhausted in
    record r {
      receipt = record r.receipt {
        status = if waits then retry_wait else failed;
        outcome_code = some (if exhausted then retry_exhausted else outcome);
        retryable = some waits;
        safe_summary = some safe_summary;
        next_attempt_at =
            if waits then some (now + cfg.base_delay_seconds * 2 ^ (attempts - 1)) else none;
        updated_at = now_text;
      };
      record_version = r.record_version + 1;
    }
