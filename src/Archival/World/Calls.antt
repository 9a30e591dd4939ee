-- ===== src/Archival/World/Calls.antt =====
-- What the single calls do to a record of the ledger, and what an accepted call says of the record that
-- its caller holds.
pub mod Versions
use e_r_i_i.Prelude.{
  ◌≡◌, refl, sym, ap, ◌∙◌, ◌≢◌, inl, inr, ℕ, ◌+◌, ◌≤◌, String, Bool, true, false, Option, none,
  some, arith,
}
use mathlib.Core.Path.{subst}
use e_r_i_i.Prelude.Equality.{◌==◌, ◌!=◌, option_eq, string_eq, nat_eq}
use e_r_i_i.Prelude.Result.{ok, raise_if, ◌>>◌, raise_if-ok, >>-eq-ok, >>=-eq-ok, ok-injective}
use e_r_i_i.Archival.Types.{
  processing, completed, extraction, commit, ArchivalOutcomeCode, ArchivalReceipt, ArchivalRecord,
  PreparedArchivalBatch, Hashes, conflict_error, check_receipt, archival_status_eq,
  archival_phase_eq, commit_permit_eq,
}
use e_r_i_i.Archival.Store.Lease.{FreshLease, archival_ready, claimed}
use e_r_i_i.Archival.Store.Publish.{
  identity_changed, lease_is_lost, authority_is_lost, validate_archival_update,
  validate_bound_archival_commit, without_lease,
}
use e_r_i_i.Archival.Coordinator.{
  ArchivalConfig, bound_record, completed_receipt, completed_with, completed_record,
  complete_prepared, failed_record, attempts_of,
}
use e_r_i_i.Archival.World.Table.{id_of}
use e_r_i_i.Archival.World.Invariant.{IsRecord, SameRecord, WasRecord}

-- What an accepted write says: the identity is that of the stored record, the version is the next one,
-- the stored record is processed, and the lease is its lease.
pub record IsAccepted (e r : ArchivalRecord) : Type 0 where
  pub same_id : id_of r ≡ id_of e
  pub next_version : r.record_version ≡ e.record_version + 1
  pub is_processing : e.receipt.status ≡ processing
  pub same_lease : e.lease_token ≡ r.lease_token

pub validate_archival_update-IsAccepted :
    (clock : ℕ) (e r : ArchivalRecord) → validate_archival_update clock e r ≡ ok tt → IsAccepted e r
unfolding validate_archival_update identity_changed
validate_archival_update-IsAccepted clock e r h =
    let same = raise_if (identity_changed e r) conflict_error in
    let next = raise_if (r.record_version != e.record_version + 1) conflict_error in
    let (k, l) = >>-eq-ok (same >> next) _ h in
    let (a, b) = >>-eq-ok same next k in
    accepted (raise_if-ok _ _ a) (raise_if-ok _ _ b)
      (raise_if-ok (lease_is_lost clock e r) conflict_error l)
  where
    accepted :
        identity_changed e r ≡ false
        → (r.record_version != e.record_version + 1) ≡ false
        → lease_is_lost clock e r ≡ false
        → IsAccepted e r
    accepted a b c = record {
      same_id = ground (arith, identity_changed);
      next_version = ground arith;
      is_processing = ground arith;
      same_lease = ground arith;
    }

pub validate_bound_archival_commit-IsAccepted :
    (e r : ArchivalRecord)
    → validate_bound_archival_commit e r ≡ ok tt
    → IsAccepted e r × (e.receipt.phase ≡ commit) × (e.attempt_id ≡ r.attempt_id)
unfolding validate_bound_archival_commit identity_changed
validate_bound_archival_commit-IsAccepted e r h =
    let same = raise_if (identity_changed e r) conflict_error in
    let next = raise_if (r.record_version != e.record_version + 1) conflict_error in
    let (k, l) = >>-eq-ok (same >> next) _ h in
    let (a, b) = >>-eq-ok same next k in
    accepted (raise_if-ok _ _ a) (raise_if-ok _ _ b)
      (raise_if-ok (authority_is_lost e r) conflict_error l)
  where
    accepted :
        identity_changed e r ≡ false
        → (r.record_version != e.record_version + 1) ≡ false
        → authority_is_lost e r ≡ false
        → IsAccepted e r × (e.receipt.phase ≡ commit) × (e.attempt_id ≡ r.attempt_id)
    accepted a b c = (
      record {
        same_id = ground (arith, identity_changed);
        next_version = ground arith;
        is_processing = ground arith;
        same_lease = ground arith;
      },
      ground arith,
      ground arith,
    )

-- A write that is accepted comes from the record that is stored, up to renewals.
pub accepted_same :
    (i e r : ArchivalRecord)
    → WasRecord i e
    → r.record_version ≡ i.record_version + 1
    → IsAccepted e r
    → SameRecord i e
accepted_same i e r (inr same) v a = same
accepted_same i e r (inl older) v a = absurd (omega (arith, older, v, a.next_version))

module _ {cfg : ArchivalConfig} where
  pub claimed-IsRecord :
      (fresh : FreshLease) (now lease permit : ℕ) (r : ArchivalRecord)
      → 1 ≤ cfg.max_attempts
      → archival_ready r now ≡ true
      → IsRecord cfg r
      → IsRecord cfg (claimed fresh now lease permit r)
  unfolding claimed archival_ready attempts_of
  claimed-IsRecord fresh now lease permit r pos ready k = record {
    extractions = let q = k.queued in let w = k.waits in let x = k.extractions in ground arith;
    commits = let q = k.queued in let w = k.waits in let x = k.commits in ground arith;
    leased = ground arith;
    queued = λ e. absurd (ground arith);
    waits = λ e. absurd (ground arith);
    unbound = λ e. let (u, v) = k.unbound e in (ground arith, v);
    frozen = λ e n. k.frozen e (λ f. ground arith);
    done = λ e. absurd (ground arith);
  }

  pub renewed-IsRecord :
      (r : ArchivalRecord) (t : Option ℕ)
      → IsRecord cfg r
      → IsRecord cfg (record r { lease_expires_at = t })
  renewed-IsRecord r t k = record {
    extractions = k.extractions;
    commits = k.commits;
    leased = k.leased;
    queued = k.queued;
    waits = k.waits;
    unbound = k.unbound;
    frozen = k.frozen;
    done = k.done;
  }

  pub bound_record-IsRecord :
      (now : ℕ) (token processed_at : String) (batch : PreparedArchivalBatch)
      (outcome : ArchivalOutcomeCode) (i : ArchivalRecord)
      → 1 ≤ cfg.max_attempts
      → i.receipt.phase ≡ extraction
      → i.receipt.status ≡ processing
      → IsRecord cfg i
      → IsRecord cfg (bound_record cfg now token processed_at batch outcome i)
  unfolding bound_record attempts_of
  bound_record-IsRecord now token processed_at batch outcome i pos ph st k = record {
    extractions = k.extractions;
    commits = let (u, v) = k.unbound ph in ground arith;
    leased = k.leased;
    queued = λ e. absurd (ground arith);
    waits = λ e. absurd (ground arith);
    unbound = λ e. absurd (ground arith);
    frozen = λ e n. (batch, refl, refl);
    done = λ e. absurd (ground arith);
  }

  pub failed_record-IsRecord :
      (now : ℕ) (now_text summary : String) (outcome : ArchivalOutcomeCode) (retryable : Bool)
      (i : ArchivalRecord)
      → i.receipt.status ≡ processing
      → IsRecord cfg i
      → IsRecord cfg (without_lease (failed_record cfg now now_text outcome retryable summary i))
  unfolding failed_record without_lease attempts_of
  failed_record-IsRecord now now_text summary outcome retryable i st k = record {
    extractions = k.extractions;
    commits = k.commits;
    leased = ground arith;
    queued = λ e. absurd (ground arith);
    waits = λ e. ground arith;
    unbound = k.unbound;
    frozen = λ e n. k.frozen e (λ f. ground arith);
    done = λ e. absurd (ground arith);
  }

check_receipt-ok : (r : ArchivalReceipt) {q : ArchivalReceipt} → check_receipt r ≡ ok q → r ≡ q
unfolding check_receipt
check_receipt-ok r h = ok-injective (>>-eq-ok _ _ h).1

complete_prepared-ok :
    (h : Hashes) (completed_at : String) (i : ArchivalRecord) {new : ArchivalRecord}
    (batch : Option PreparedArchivalBatch) (code : Option ArchivalOutcomeCode)
    → complete_prepared h completed_at i batch code ≡ ok new
    → (b : PreparedArchivalBatch) × (outcome : ArchivalOutcomeCode) × (batch ≡ some b)
      × (new ≡ completed_with i (completed_receipt h completed_at b outcome i.receipt))
unfolding complete_prepared
complete_prepared-ok h completed_at i none code e = cc
complete_prepared-ok h completed_at i (some b) none e = cc
complete_prepared-ok h completed_at i (some b) (some outcome) e =
    let (_, f) = >>-eq-ok (raise_if (i.commit_permit == none) conflict_error) _ e in
    let (receipt, c, g) =
      >>=-eq-ok (check_receipt (completed_receipt h completed_at b outcome i.receipt)) _ f in
    (b, outcome, refl, sym (ok-injective g) ∙ ap (completed_with i) (sym (check_receipt-ok _ c)))

-- What `_commit` hands to the store.
pub completed_record-ok :
    (h : Hashes) (completed_at : String) (i : ArchivalRecord) {new : ArchivalRecord}
    → completed_record h completed_at i ≡ ok new
    → (b : PreparedArchivalBatch) × (outcome : ArchivalOutcomeCode) × (i.prepared_batch ≡ some b)
      × (new ≡ completed_with i (completed_receipt h completed_at b outcome i.receipt))
unfolding completed_record
completed_record-ok h completed_at i e =
    let (_, f) = >>-eq-ok (raise_if (i.receipt.phase != commit) conflict_error) _ e in
    complete_prepared-ok h completed_at i i.prepared_batch i.prepared_outcome_code f
