-- ===== src/Archival/World/Calls/Versions.antt =====
-- Versions from a call to the next, and what a claim, a failure and a commit make of a record.
use e_r_i_i.Prelude.{◌≡◌, refl, sym, ap, ◌≢◌, inl, inr, ℕ, ◌+◌, String, Bool, true, Option, arith}
use mathlib.Core.Path.{subst}
use e_r_i_i.Prelude.Equality.{option_eq, string_eq, nat_eq}
use e_r_i_i.Archival.Types.{
  processing, completed, commit, ArchivalOutcomeCode, ArchivalRecord, PreparedArchivalBatch, Hashes,
  archival_status_eq, archival_phase_eq, commit_permit_eq,
}
use e_r_i_i.Archival.Store.Lease.{FreshLease, archival_ready, claimed}
use e_r_i_i.Archival.Store.Publish.{without_lease}
use e_r_i_i.Archival.Coordinator.{ArchivalConfig, completed_receipt, completed_with, failed_record}
use e_r_i_i.Archival.World.Table.{id_of}
use e_r_i_i.Archival.World.Invariant.{IsRecord, SameRecord, WasRecord}
use e_r_i_i.Archival.World.Calls.{renewed-IsRecord}

-- Versions, from a call to the next.

pub was_older :
    (i e new : ArchivalRecord)
    → new.record_version ≡ e.record_version + 1
    → WasRecord i e
    → WasRecord i new
was_older i e new v (inl older) = inl (omega (arith, older, v))
was_older i e new v (inr same) =
    inl (omega (arith, v, ap (λ (x : ArchivalRecord). x.record_version) same))

pub was_renewed :
    (i e : ArchivalRecord) (t : Option ℕ)
    → WasRecord i e
    → WasRecord i (record e { lease_expires_at = t })
was_renewed i e t (inl older) = inl older
was_renewed i e t (inr same) =
    inr (ap (λ (x : ArchivalRecord). record x { lease_expires_at = t }) same)

pub same-IsRecord :
    {cfg : ArchivalConfig} (i e : ArchivalRecord) → SameRecord i e → IsRecord cfg e → IsRecord cfg i
same-IsRecord {cfg} i e same k =
    renewed-IsRecord (record i { lease_expires_at = e.lease_expires_at }) i.lease_expires_at
      (subst (IsRecord cfg) (sym same) k)

pub claimed-id :
    (fresh : FreshLease) (now lease permit : ℕ) (r : ArchivalRecord)
    → id_of (claimed fresh now lease permit r) ≡ id_of r
unfolding claimed
claimed-id fresh now lease permit r = refl

pub claimed-version :
    (fresh : FreshLease) (now lease permit : ℕ) (r : ArchivalRecord)
    → (claimed fresh now lease permit r).record_version ≡ r.record_version + 1
unfolding claimed
claimed-version fresh now lease permit r = refl

pub claimed-processing :
    (fresh : FreshLease) (now lease permit : ℕ) (r : ArchivalRecord)
    → (claimed fresh now lease permit r).receipt.status ≡ processing
unfolding claimed
claimed-processing fresh now lease permit r = refl

pub archival_ready_not_completed :
    (r : ArchivalRecord) (now : ℕ) → archival_ready r now ≡ true → r.receipt.status ≢ completed
unfolding archival_ready
archival_ready_not_completed r now ready e = ground arith

pub processing_not_completed :
    (r : ArchivalRecord) → r.receipt.status ≡ processing → r.receipt.status ≢ completed
processing_not_completed r e f = ground arith

-- a failure does not complete the record
pub failed_record_not_completed :
    (cfg : ArchivalConfig) (now : ℕ) (now_text summary : String) (outcome : ArchivalOutcomeCode)
    (retryable : Bool) (i : ArchivalRecord)
    → (without_lease (failed_record cfg now now_text outcome retryable summary i)).receipt.status
      ≢ completed
unfolding failed_record without_lease
failed_record_not_completed cfg now now_text summary outcome retryable i e = ground arith

pub completed-IsRecord :
    {cfg : ArchivalConfig} (h : Hashes) (completed_at : String) (b : PreparedArchivalBatch)
    (outcome : ArchivalOutcomeCode) (i : ArchivalRecord)
    → i.receipt.phase ≡ commit
    → IsRecord cfg i
    → IsRecord cfg
        (without_lease (completed_with i (completed_receipt h completed_at b outcome i.receipt)))
unfolding without_lease
completed-IsRecord h completed_at b outcome i ph k = record {
  extractions = k.extractions;
  commits = k.commits;
  leased = ground arith;
  queued = λ e. absurd (ground arith);
  waits = λ e. absurd (ground arith);
  unbound = λ e. absurd (ground arith);
  frozen = λ e n. absurd (n refl);
  done = λ e. ph;
}
