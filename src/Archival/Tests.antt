-- ===== src/Archival/Tests.antt =====
-- One archival that is submitted, claimed, bound to a batch and committed.
use e_r_i_i.Prelude.{
  ◌≡◌, ◌≢◌, ◌≤◌, ◌⊎◌, ◌↔◌, refl, ◌+◌, String, List, [], ◌∷◌, Option, none, some, true, false, arith,
}
use e_r_i_i.Prelude.Dict.{lookup}
use e_r_i_i.Prelude.Equality.{string_eq, nat_eq, list_eq, option_eq, ne_of_test}
use e_r_i_i.Prelude.Lists.{Has, here}
use e_r_i_i.Prelude.Result.{ok}
use e_r_i_i.Archival.Types.{
  ExtractorDescriptor, TimelineEntry, ArchivalArtifactReference, ArchivalReceipt, processing,
  ArchivalRecord, ArchivalTombstone, PreparedArchivalBatch, Hashes, make_batch, manifest,
  check_receipt, artifacts_committed, completed, archival_status_eq, archival_phase_eq,
  archival_outcome_code_eq, archival_record_eq, prepared_archival_batch_eq, commit_permit_eq,
  archival_artifact_reference_eq,
}
use e_r_i_i.Archival.Tombstone.Laws.{
  prefer_stronger_commitment_comm, prefer_stronger_commitment_keeps,
}
use e_r_i_i.Archival.Tombstone.{
  prefer_stronger_commitment, is_compatible_with, is_stronger, same_identity,
}
use e_r_i_i.Archival.Store.{
  latest_time, Ledger, record_of, create_archival_record, find_tombstone, find_bound,
  find_or_append, replace_first,
}
use e_r_i_i.Archival.Store.Ready.{IsWanted, IsReady, claim_next_archival_record_finds}
use e_r_i_i.Archival.Store.Claims.{
  claim_next_archival_record-expired, acquire_archival_consumer-exclusive,
  create_archival_record_again,
}
use e_r_i_i.Archival.Store.Lease.{
  FreshLease, archival_ready, claimed, claim_next_archival_record, acquire_archival_consumer,
  held_by_another, expired, renew_archival_lease,
}
use e_r_i_i.Archival.Store.Publish.{
  bind_prepared_archival_batch, commit_archival_batch, without_lease, permits,
}
use e_r_i_i.Archival.Coordinator.{
  ArchivalConfig, Submission, submitted_record, bound_record, completed_receipt, completed_with,
  completed_record,
}
use e_r_i_i.Archival.Coordinator.Process.{Readings, Extraction, extracted, process_claimed}
use e_r_i_i.Archival.Coordinator.Handled.{process_claimed_returns}
use e_r_i_i.Archival.World.{
  World, WorldStep, Reaches, start, submits, claims, binds, commits, stays, follows, renews,
}
use e_r_i_i.Archival.World.Exclusive.{Writes, committing, Writes-exclusive, Writes-once}
use e_r_i_i.Archival.World.History.{WorldStep-IsWorld, Reaches-IsWorld, Reaches_attempts}
use e_r_i_i.Archival.World.Lifecycle.{StageStep, commit, stage_of}
use e_r_i_i.Archival.World.Lifecycle.Implements.{WorldStep-StageStep}
use e_r_i_i.Archival.World.Published.{WorldStep-keeps_artifacts}
use e_r_i_i.Archival.World.Invariant.{IsWorld}

abbrev config : ArchivalConfig
config = record {
  max_attempts = 3;
  base_delay_seconds = 2;
  lease_seconds = 60;
  commit_permit_seconds = 30;
}

abbrev hashes : Hashes
hashes = record {
  content_digest = λ a b c d e f g. "digest";
  timeline_fingerprint = λ (t : TimelineEntry). t.remaining;
  memory_fingerprint = λ m. "memory";
}

abbrev extractor : ExtractorDescriptor
extractor = record {
  extractor_id = "x";
  extractor_version = "1";
  extraction_schema_version = "2";
  erii_version = none;
  processed_at = none;
}

abbrev submission : Submission
submission = record {
  archival_id = "arch";
  relationship_id = "rel";
  agent_id = "agent";
  user_id = "user";
  turn_id = "turn";
  source_revision = "rev";
  descriptor = extractor;
  idempotency_fingerprint = "key";
  request_fingerprint = "request";
  now_text = "t0";
}

abbrev submitted : ArchivalRecord
submitted = submitted_record submission

abbrev fresh : FreshLease
fresh = record {
  lease_token = "lease";
  attempt_id = "attempt";
  permit_token = "p";
  updated_at = "t1";
}

abbrev taken : ArchivalRecord
taken = claimed fresh 100 60 30 submitted

abbrev entry : TimelineEntry
entry = record { timeline_entry_id = "entry"; remaining = "print" }

abbrev batch : PreparedArchivalBatch
batch = make_batch hashes "arch" "rel" "turn" "rev" extractor (entry ∷ []) []

abbrev bound : ArchivalRecord
bound = bound_record config 110 "permit" "t2" batch artifacts_committed taken

abbrev finished : ArchivalRecord
finished =
    completed_with bound (completed_receipt hashes "t3" batch artifacts_committed bound.receipt)

abbrev ledger_with : ArchivalRecord → Ledger
ledger_with r = record { records = r ∷ []; artifacts = []; consumer_lease = none; tombstones = [] }

abbrev world1 : World
world1 = record { ledger = ledger_with submitted; issued = [] }

abbrev world2 : World
world2 = record { ledger = ledger_with taken; issued = taken ∷ [] }

abbrev world3 : World
world3 = record { ledger = ledger_with bound; issued = bound ∷ taken ∷ [] }

abbrev ledger4 : Ledger
ledger4 = record {
  records = without_lease finished ∷ [];
  artifacts = ("arch", batch) ∷ [];
  consumer_lease = none;
  tombstones = [];
}

abbrev world4 : World
world4 = record { ledger = ledger4; issued = bound ∷ taken ∷ [] }

step1 : WorldStep config hashes start world1
unfolding create_archival_record find_tombstone find_bound find_or_append submitted_record lookup
step1 =
    submits submission {created = record_of submitted}
      (record { unissued = tt; unpublished = refl }) refl

step2 : WorldStep config hashes world1 world2
unfolding claim_next_archival_record archival_ready replace_first submitted_record
    archival_status_eq
step2 = claims fresh 100 90 none refl

step3 : WorldStep config hashes world2 world3
unfolding bind_prepared_archival_batch claimed submitted_record string_eq bound_record nat_eq
    archival_status_eq option_eq prepared_archival_batch_eq make_batch
step3 = binds 105 106 110 "permit" "t2" batch artifacts_committed (here refl) refl refl

step4 : WorldStep config hashes world3 world4
unfolding commit_archival_batch completed_record archival_phase_eq bound_record option_eq
    check_receipt claimed submitted_record archival_status_eq archival_outcome_code_eq string_eq
    nat_eq make_batch commit_permit_eq permits replace_first
step4 = commits 120 "t3" {new = finished} {r = without_lease finished} (here refl) refl refl

one_attempt : 1 ≤ config.max_attempts
one_attempt = omega arith

history : Reaches config hashes start world3
history = follows (follows (follows stays step1) step2) step3

world3-IsWorld : IsWorld config hashes world3
world3-IsWorld = Reaches-IsWorld one_attempt history

WorldStep-IsWorld_example : IsWorld config hashes world4
WorldStep-IsWorld_example = WorldStep-IsWorld one_attempt step4 world3-IsWorld

Reaches_attempts_example :
    (bound.receipt.extraction_attempts ≤ config.max_attempts)
    × (bound.receipt.commit_attempts ≤ config.max_attempts)
Reaches_attempts_example = Reaches_attempts one_attempt history (here refl)

commit_write : Writes config hashes bound world3.ledger ledger4
unfolding commit_archival_batch completed_record archival_phase_eq bound_record option_eq
    check_receipt claimed submitted_record archival_status_eq archival_outcome_code_eq string_eq
    nat_eq make_batch commit_permit_eq permits replace_first
commit_write = committing 120 "t3" {new = finished} {r = without_lease finished} refl refl

Writes-exclusive_example :
    (bound.attempt_id ≡ bound.attempt_id) × (bound.lease_token ≡ bound.lease_token)
Writes-exclusive_example =
    Writes-exclusive world3-IsWorld (here refl) (here refl) refl commit_write commit_write

Writes-once_example : ¬ Writes config hashes bound ledger4 ledger4
Writes-once_example = Writes-once commit_write

step5 : WorldStep config hashes world4 world4
unfolding renew_archival_lease string_eq without_lease bound_record claimed submitted_record
    archival_status_eq
step5 = renews bound "attempt" "lease" 130 130

WorldStep-keeps_artifacts_example : lookup "arch" ledger4.artifacts ≡ some batch
unfolding lookup string_eq
WorldStep-keeps_artifacts_example =
    WorldStep-keeps_artifacts "arch" (WorldStep-IsWorld one_attempt step4 world3-IsWorld) step5 refl

WorldStep-StageStep_example :
    StageStep "arch" ledger4.tombstones commit
      (stage_of "arch" world3.ledger.records)
      (stage_of "arch" ledger4.records)
unfolding step4
WorldStep-StageStep_example = WorldStep-StageStep "arch" world3-IsWorld step4

abbrev readings : Readings
readings = record {
  now = 110;
  lease_clock = 105;
  permit_clock = 106;
  commit_clock = 120;
  update_clock = 121;
  permit_token = "permit";
  processed_at = "t2";
  completed_at = "t3";
  failed_at = "t4";
}

abbrev extract : Ledger → Extraction × Ledger
extract ledger = (extracted taken batch artifacts_committed, ledger)

process_claimed_returns_example :
    (done : ArchivalReceipt × Ledger) × (process_claimed config hashes readings extract taken
        world2.ledger
      ≡ ok done)
unfolding string_eq claimed submitted_record
process_claimed_returns_example =
    process_claimed_returns config hashes readings extract taken world2.ledger (taken, refl)
      (taken, refl)

claim_next_archival_record_finds_example :
    ((r : ArchivalRecord) × ((claim_next_archival_record fresh 100 90 60 30 none world1.ledger).0
        ≡ some r))
    ↔ ((e : ArchivalRecord) × Has e world1.ledger.records
        × IsWanted none e
        × IsReady (latest_time 90 100) e)
claim_next_archival_record_finds_example =
    claim_next_archival_record_finds fresh 100 90 60 30 none world1.ledger

claim_next_archival_record-expired_example :
    (e : ArchivalRecord) × Has e world1.ledger.records
    × (taken.receipt.archival_id ≡ e.receipt.archival_id)
    × (e.receipt.status ≡ processing → expired e.lease_expires_at 100 ≡ true)
    × (taken.record_version ≡ e.record_version + 1)
    × (taken.receipt.status ≡ processing)
    × (taken.lease_expires_at ≡ some 160)
unfolding claim_next_archival_record archival_ready replace_first submitted_record
    archival_status_eq
claim_next_archival_record-expired_example =
    claim_next_archival_record-expired fresh 100 90 60 30 none {after = world2.ledger} world1.ledger
      refl

abbrev leased_ledger : Ledger
leased_ledger = record world1.ledger {
  consumer_lease = some (record { consumer_id = "one"; expires_at = 160 });
}

one_ne_two : ◌≢◌ {A = String} "one" "two"
unfolding string_eq
one_ne_two = ne_of_test "one" "two" refl

acquire_archival_consumer-exclusive_example :
    acquire_archival_consumer "two" 120 110 60 leased_ledger ≡ (false, leased_ledger)
unfolding acquire_archival_consumer held_by_another
acquire_archival_consumer-exclusive_example =
    acquire_archival_consumer-exclusive "one" "two" 100 90 60 120 110 60 world1.ledger one_ne_two
      refl refl

abbrev resubmitted : ArchivalRecord
resubmitted = submitted_record (record submission { archival_id = "again" })

create_archival_record_again_example :
    create_archival_record resubmitted world1.ledger ≡ ok (record_of submitted, world1.ledger)
unfolding submitted_record create_archival_record string_eq
create_archival_record_again_example =
    create_archival_record_again submitted resubmitted start.ledger refl tt tt refl

abbrev tombstone : Option (List ArchivalArtifactReference) → ArchivalTombstone
tombstone refs = record {
  archival_id = "arch";
  relationship_id = "rel";
  agent_id = "agent";
  user_id = "user";
  source_turn_id = "turn";
  source_revision = "rev";
  status = completed;
  outcome_code = artifacts_committed;
  terminal_at = "t3";
  request_fingerprint = "request";
  idempotency_fingerprint = "key";
  artifact_commitments = refs;
}

abbrev references : List ArchivalArtifactReference
references = manifest hashes batch

prefer_stronger_commitment_comm_example :
    prefer_stronger_commitment (tombstone none) (tombstone (some references))
    ≡ prefer_stronger_commitment (tombstone (some references)) (tombstone none)
prefer_stronger_commitment_comm_example =
    prefer_stronger_commitment_comm (tombstone none) (tombstone (some references))

prefer_stronger_commitment_keeps_example :
    (same_identity (tombstone (some references)) (tombstone none) ≡ true)
    × (same_identity (tombstone (some references)) (tombstone (some references)) ≡ true)
    × ((refs : List ArchivalArtifactReference)
        → ((tombstone none).artifact_commitments ≡ some refs)
          ⊎ ((tombstone (some references)).artifact_commitments ≡ some refs)
        → (tombstone (some references)).artifact_commitments ≡ some refs)
unfolding prefer_stronger_commitment is_compatible_with string_eq archival_status_eq
    archival_outcome_code_eq is_stronger option_eq
prefer_stronger_commitment_keeps_example =
    prefer_stronger_commitment_keeps (tombstone none) (tombstone (some references))
      (tombstone (some references)) refl
