-- ===== src/Archival/Types.antt =====
-- The data types of erii/models/archival.py, of `ExtractorDescriptor` (erii/models/provenance.py), and
-- the checks that their constructors make.
--
-- Times of leases and permits are natural numbers of one unit, for the floats of `time.time()`;
-- timestamps are texts. The field `remaining` of an artifact stands for the fields that the modelled
-- code only copies and compares as a whole. A record is stored as the JSON of its fields, which is
-- read back as it was; here the record itself is stored. The texts of references and permits, which
-- their constructors strip and bound, are taken as they are.
use e_r_i_i.Prelude.{ℕ, String, Option, none, some, List, map, ◌++◌, Bool, true, false, ◌||◌, not}
use e_r_i_i.Prelude.Equality.{Eq, ◌==◌, option_eq, string_eq, nat_eq, if◌then◌else◌}
use e_r_i_i.Prelude.Result.{Result, ok, raise_if, ◌>>◌}

pub data ArchivalStatus : Type 0 where
  pending processing retry_wait completed failed : ArchivalStatus

pub data ArchivalPhase : Type 0 where
  extraction commit : ArchivalPhase

pub data ArchivalOutcomeCode : Type 0 where
  artifacts_committed no_memory extractor_temporary_failure : ArchivalOutcomeCode
  invalid_extractor_output commit_temporary_failure processing_lease_expired : ArchivalOutcomeCode
  extractor_schema_upgrade_required permanent_failure retry_exhausted : ArchivalOutcomeCode

pub data ArchivalRetentionState : Type 0 where
  full compacted : ArchivalRetentionState

pub data ArchivalArtifactKind : Type 0 where
  timeline_entry memory_node : ArchivalArtifactKind

pub record ExtractorDescriptor : Type 0 where
  pub extractor_id : String
  pub extractor_version : String
  pub extraction_schema_version : String
  pub erii_version : Option String
  pub processed_at : Option String

pub record ArchivalArtifactReference : Type 0 where
  pub kind : ArchivalArtifactKind
  pub artifact_id : String
  pub artifact_fingerprint : Option String

pub record TimelineEntry : Type 0 where
  pub timeline_entry_id : String
  pub remaining : String

pub record MemoryNode : Type 0 where
  pub node_id : String
  pub remaining : String

pub record PreparedArchivalBatch : Type 0 where
  pub archival_id : String
  pub relationship_id : String
  pub source_turn_id : String
  pub source_revision : String
  pub descriptor : ExtractorDescriptor
  pub timeline : List TimelineEntry
  pub memories : List MemoryNode
  pub batch_digest : String

pub record CommitPermit : Type 0 where
  pub token : String
  pub binding_digest : String
  pub expires_at : ℕ

pub record ArchivalReceipt : Type 0 where
  pub archival_id : String
  pub relationship_id : String
  pub agent_id : String
  pub user_id : String
  pub source_turn_id : String
  pub source_revision : String
  pub status : ArchivalStatus
  pub phase : ArchivalPhase
  pub extractor_descriptor : ExtractorDescriptor
  pub submitted_at : String
  pub updated_at : String
  pub extraction_attempts : ℕ
  pub commit_attempts : ℕ
  pub outcome_code : Option ArchivalOutcomeCode
  pub retryable : Option Bool
  pub safe_summary : Option String
  pub next_attempt_at : Option ℕ
  pub completed_at : Option String
  pub artifact_manifest : Option (List ArchivalArtifactReference)
  pub retention_state : ArchivalRetentionState

pub record ArchivalTombstone : Type 0 where
  pub archival_id : String
  pub relationship_id : String
  pub agent_id : String
  pub user_id : String
  pub source_turn_id : String
  pub source_revision : String
  pub status : ArchivalStatus
  pub outcome_code : ArchivalOutcomeCode
  pub terminal_at : String
  pub request_fingerprint : String
  pub idempotency_fingerprint : String
  pub artifact_commitments : Option (List ArchivalArtifactReference)

pub record ArchivalRecord : Type 0 where
  pub receipt : ArchivalReceipt
  pub idempotency_fingerprint : String
  pub request_fingerprint : String
  pub record_version : ℕ
  pub lease_token : Option String
  pub lease_expires_at : Option ℕ
  pub attempt_id : Option String
  pub prepared_batch : Option PreparedArchivalBatch
  pub prepared_outcome_code : Option ArchivalOutcomeCode
  pub commit_binding_digest : Option String
  pub commit_permit : Option CommitPermit
  pub recovered_expired_lease : Bool

-- The exceptions, without their texts.
pub data ArchivalError : Type 0 where
  conflict_error not_found_error value_error : ArchivalError

-- SHA-256 of the JSON of its argument, for a batch without its digest and for the two kinds of artifact.
pub record Hashes : Type 0 where
  pub content_digest :
      String
      → String
      → String
      → String
      → ExtractorDescriptor
      → List TimelineEntry
      → List MemoryNode
      → String
  pub timeline_fingerprint : TimelineEntry → String
  pub memory_fingerprint : MemoryNode → String

ArchivalStatus-discrete : Discrete ArchivalStatus
ArchivalStatus-discrete = hlevel (string_eq.dec, nat_eq.dec)

instance unfoldable pub archival_status_eq : Eq ArchivalStatus
unfolding ArchivalStatus-discrete
archival_status_eq = record { dec = ArchivalStatus-discrete }

ArchivalPhase-discrete : Discrete ArchivalPhase
ArchivalPhase-discrete = hlevel (string_eq.dec, nat_eq.dec)

instance unfoldable pub archival_phase_eq : Eq ArchivalPhase
unfolding ArchivalPhase-discrete
archival_phase_eq = record { dec = ArchivalPhase-discrete }

ArchivalOutcomeCode-discrete : Discrete ArchivalOutcomeCode
ArchivalOutcomeCode-discrete = hlevel (string_eq.dec, nat_eq.dec)

instance unfoldable pub archival_outcome_code_eq : Eq ArchivalOutcomeCode
unfolding ArchivalOutcomeCode-discrete
archival_outcome_code_eq = record { dec = ArchivalOutcomeCode-discrete }

ArchivalArtifactKind-discrete : Discrete ArchivalArtifactKind
ArchivalArtifactKind-discrete = hlevel (string_eq.dec, nat_eq.dec)

instance unfoldable pub archival_artifact_kind_eq : Eq ArchivalArtifactKind
unfolding ArchivalArtifactKind-discrete
archival_artifact_kind_eq = record { dec = ArchivalArtifactKind-discrete }

ArchivalArtifactReference-discrete : Discrete ArchivalArtifactReference
ArchivalArtifactReference-discrete = hlevel (string_eq.dec, nat_eq.dec)

instance unfoldable pub archival_artifact_reference_eq : Eq ArchivalArtifactReference
unfolding ArchivalArtifactReference-discrete
archival_artifact_reference_eq = record { dec = ArchivalArtifactReference-discrete }

PreparedArchivalBatch-discrete : Discrete PreparedArchivalBatch
PreparedArchivalBatch-discrete = hlevel (string_eq.dec, nat_eq.dec)

instance unfoldable pub prepared_archival_batch_eq : Eq PreparedArchivalBatch
unfolding PreparedArchivalBatch-discrete
prepared_archival_batch_eq = record { dec = PreparedArchivalBatch-discrete }

CommitPermit-discrete : Discrete CommitPermit
CommitPermit-discrete = hlevel (string_eq.dec, nat_eq.dec)

instance unfoldable pub commit_permit_eq : Eq CommitPermit
unfolding CommitPermit-discrete
commit_permit_eq = record { dec = CommitPermit-discrete }

ArchivalReceipt-discrete : Discrete ArchivalReceipt
ArchivalReceipt-discrete = hlevel (string_eq.dec, nat_eq.dec)

ArchivalRecord-discrete : Discrete ArchivalRecord
ArchivalRecord-discrete = hlevel (string_eq.dec, nat_eq.dec)

instance unfoldable pub archival_record_eq : Eq ArchivalRecord
unfolding ArchivalRecord-discrete
archival_record_eq = record { dec = ArchivalRecord-discrete }

-- `PreparedArchivalBatch(...)`, built without a digest
unfoldable pub make_batch :
    Hashes
    → String
    → String
    → String
    → String
    → ExtractorDescriptor
    → List TimelineEntry
    → List MemoryNode
    → PreparedArchivalBatch
make_batch h archival_id relationship_id turn_id revision descriptor timeline memories = record {
  archival_id = archival_id;
  relationship_id = relationship_id;
  source_turn_id = turn_id;
  source_revision = revision;
  descriptor = descriptor;
  timeline = timeline;
  memories = memories;
  batch_digest =
      h.content_digest archival_id relationship_id turn_id revision descriptor timeline memories;
}

-- the property `manifest`
unfoldable pub manifest : Hashes → PreparedArchivalBatch → List ArchivalArtifactReference
manifest h batch =
    map
      (λ t. record {
        kind = timeline_entry;
        artifact_id = t.timeline_entry_id;
        artifact_fingerprint = some (h.timeline_fingerprint t);
      })
      batch.timeline
    ++ map
        (λ m. record {
          kind = memory_node;
          artifact_id = m.node_id;
          artifact_fingerprint = some (h.memory_fingerprint m);
        })
        batch.memories

-- `status in {COMPLETED, FAILED}`
unfoldable pub is_terminal : ArchivalStatus → Bool
is_terminal status = status == completed || status == failed

abbrev is_success : Option ArchivalOutcomeCode → Bool
is_success code = code == some artifacts_committed || code == some no_memory

abbrev misplaces_manifest : ArchivalRetentionState → Option (List ArchivalArtifactReference) → Bool
misplaces_manifest compacted none = false
misplaces_manifest compacted (some refs) = true
misplaces_manifest full none = true
misplaces_manifest full (some refs) = false

-- the checks of `ArchivalReceipt.__post_init__`
unfoldable pub check_receipt : ArchivalReceipt → Result ArchivalError ArchivalReceipt
check_receipt r =
    raise_if (misplaces_manifest r.retention_state r.artifact_manifest) value_error
    >> raise_if (if r.status == completed then not (is_success r.outcome_code) else false)
        value_error
    >> raise_if (if r.status == failed then r.outcome_code == none else false) value_error
    >> ok r
