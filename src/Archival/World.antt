-- ===== src/Archival/World.antt =====
-- The archival ledger with its users: workers of any number of processes that hold records which the
-- store has returned to them, and call it in any order.
pub mod Table
pub mod Invariant
pub mod Calls
pub mod Steps
pub mod History
pub mod Exclusive
pub mod Published
pub mod Lifecycle
use e_r_i_i.Prelude.{◌≡◌, ◌≢◌, ℕ, String, Option, none, some, List, [], ◌∷◌, Bool, true, false}
use e_r_i_i.Prelude.Dict.{lookup}
use e_r_i_i.Prelude.Equality.{string_eq}
use e_r_i_i.Prelude.Lists.{Has, All}
use e_r_i_i.Prelude.Result.{ok}
use e_r_i_i.Archival.Types.{
  extraction, ArchivalOutcomeCode, ArchivalRecord, ArchivalTombstone, PreparedArchivalBatch, Hashes,
}
use e_r_i_i.Archival.Store.{Ledger, Created, create_archival_record, get_archival_record}
use e_r_i_i.Archival.Store.Compact.{
  ParseInstant, compact_archival_records, import_archival_tombstones,
}
use e_r_i_i.Archival.Store.Lease.{
  FreshLease, claim_next_archival_record, renew_archival_lease, acquire_archival_consumer,
  release_archival_consumer,
}
use e_r_i_i.Archival.Store.Publish.{
  bind_prepared_archival_batch, commit_archival_batch, update_archival_record,
}
use e_r_i_i.Archival.Coordinator.{
  ArchivalConfig, Submission, submitted_record, bound_record, completed_record, failed_record,
}

-- the ledger, and the records that the store has returned to a worker
pub record World : Type 0 where
  pub ledger : Ledger
  pub issued : List ArchivalRecord

-- Nothing is known of the identity: no worker holds a record of it, and no artifact is published.
pub record IsFresh (archival_id : String) (w : World) : Type 0 where
  pub unissued : All (λ (i : ArchivalRecord). i.receipt.archival_id ≢ archival_id) w.issued
  pub unpublished : lookup archival_id w.ledger.artifacts ≡ none

-- One call of a coordinator on the store, as one of its methods makes it. A call that raises changes
-- nothing and is no step.
pub data WorldStep (cfg : ArchivalConfig) (h : Hashes) (w : World) : World → Type 0 where
  submits :
      (s : Submission) {created : Created} {ledger : Ledger}
      → IsFresh s.archival_id w
      → create_archival_record (submitted_record s) w.ledger ≡ ok (created, ledger)
      → WorldStep cfg h w (record w { ledger = ledger })
  claims :
      (fresh : FreshLease) (clock now : ℕ) (archival_id : Option String) {r : ArchivalRecord}
      {ledger : Ledger}
      → claim_next_archival_record fresh clock now cfg.lease_seconds cfg.commit_permit_seconds
          archival_id w.ledger
        ≡ (some r, ledger)
      → WorldStep cfg h w (record { ledger = ledger; issued = r ∷ w.issued })
  renews :
      (i : ArchivalRecord) (attempt_id lease_token : String) (clock now : ℕ)
      → WorldStep cfg h w (record w {
        ledger =
            (renew_archival_lease i.receipt.relationship_id i.receipt.archival_id attempt_id
              lease_token clock now cfg.lease_seconds w.ledger).1;
      })
  reads :
      (relationship_id archival_id : String) {r : ArchivalRecord}
      → get_archival_record relationship_id archival_id w.ledger ≡ ok r
      → WorldStep cfg h w (record w { issued = r ∷ w.issued })
  binds :
      (lease_clock permit_clock now : ℕ) (token processed_at : String)
      (batch : PreparedArchivalBatch) (outcome : ArchivalOutcomeCode) {i r : ArchivalRecord}
      {ledger : Ledger}
      → Has i w.issued
      → i.receipt.phase ≡ extraction
      → bind_prepared_archival_batch lease_clock permit_clock
          (bound_record cfg now token processed_at batch outcome i)
          batch
          w.ledger
        ≡ ok (r, ledger)
      → WorldStep cfg h w (record { ledger = ledger; issued = r ∷ w.issued })
  commits :
      (clock : ℕ) (completed_at : String) {i new r : ArchivalRecord} {ledger : Ledger}
      → Has i w.issued
      → completed_record h completed_at i ≡ ok new
      → commit_archival_batch clock new w.ledger ≡ ok (r, ledger)
      → WorldStep cfg h w (record w { ledger = ledger })
  fails :
      (clock now : ℕ) (now_text safe_summary : String) (outcome : ArchivalOutcomeCode)
      (retryable : Bool) {i r : ArchivalRecord} {ledger : Ledger}
      → Has i w.issued
      → update_archival_record clock
          (failed_record cfg now now_text outcome retryable safe_summary i)
          w.ledger
        ≡ ok (r, ledger)
      → WorldStep cfg h w (record w { ledger = ledger })
  compacts :
      (parse : ParseInstant) (before : String) {compacted : ℕ} {ledger : Ledger}
      → compact_archival_records parse before w.ledger ≡ ok (compacted, ledger)
      → WorldStep cfg h w (record w { ledger = ledger })
  imports :
      (relationship_id : String) (incoming : List ArchivalTombstone) {ledger : Ledger}
      → import_archival_tombstones relationship_id incoming w.ledger ≡ ok ledger
      → WorldStep cfg h w (record w { ledger = ledger })
  acquires :
      (consumer_id : String) (clock now lease_seconds : ℕ)
      → WorldStep cfg h w (record w {
        ledger = (acquire_archival_consumer consumer_id clock now lease_seconds w.ledger).1;
      })
  releases :
      (consumer_id : String)
      → WorldStep cfg h w (record w { ledger = release_archival_consumer consumer_id w.ledger })

-- the empty ledger
abbrev pub start : World
start = record {
  ledger = record { records = []; artifacts = []; consumer_lease = none; tombstones = [] };
  issued = [];
}

-- a history of calls
pub data Reaches (cfg : ArchivalConfig) (h : Hashes) (w : World) : World → Type 0 where
  stays : Reaches cfg h w w
  follows : {v u : World} → Reaches cfg h w v → WorldStep cfg h v u → Reaches cfg h w u
