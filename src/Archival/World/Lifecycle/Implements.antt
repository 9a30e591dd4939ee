-- ===== src/Archival/World/Lifecycle/Implements.antt =====
-- The calls on the archival ledger implement the state machine of one archival.
use e_r_i_i.Prelude.{◌≡◌, refl, sym, ap, ◌∙◌, inl, inr, String, arith}
use e_r_i_i.Prelude.Equality.{string_eq, eq_of_test}
use e_r_i_i.Archival.Types.{processing, ArchivalRecord, Hashes, archival_status_eq}
use e_r_i_i.Archival.Store.{has_id, latest_time}
use e_r_i_i.Archival.Store.Lease.{acquire_archival_consumer, release_archival_consumer}
use e_r_i_i.Archival.Store.Publish.{without_lease}
use e_r_i_i.Archival.Store.Compacted.{create_archival_record-cases, import_archival_tombstones-ok}
use e_r_i_i.Archival.Store.Entombed.{compact_archival_records-IsEntombed}
use e_r_i_i.Archival.Store.Returned.{
  claimable, claim_next_archival_record-some, renew_archival_lease-cases, update_archival_record-ok,
  bind_prepared_archival_batch-ok, commit_archival_batch-ok,
}
use e_r_i_i.Archival.Coordinator.{
  ArchivalConfig, submitted_record, bound_record, completed_receipt, completed_with, failed_record,
}
use e_r_i_i.Archival.World.{
  World, WorldStep, submits, claims, renews, reads, binds, commits, fails, compacts, imports,
  acquires, releases,
}
use e_r_i_i.Archival.World.Calls.{
  validate_archival_update-IsAccepted, validate_bound_archival_commit-IsAccepted, accepted_same,
  completed_record-ok,
}
use e_r_i_i.Archival.World.Calls.Versions.{claimed-id, claimed-processing}
use e_r_i_i.Archival.World.Invariant.{IsWorld}
use e_r_i_i.Archival.World.Table.{id_of, find-Has}
use e_r_i_i.Archival.World.Lifecycle.{rests, succeeds, StageStep, call_of, stage_of}
use e_r_i_i.Archival.World.Lifecycle.Moves.{
  appended-StageStep, failed-StageStep, filtered-StageStep, ready-StageStep, replaced-StageStep,
}

module _ {cfg : ArchivalConfig} {h : Hashes} where
  -- The ledger implements the state machine: a call on a ledger with the invariant makes, for every
  -- identity, one move of the machine that is a move of this call, or none. Only a submission accepts,
  -- only a claim starts a run, only a failure sends it back to wait or gives up, only a commit succeeds,
  -- and only compaction takes an archival out of the ledger, one that has succeeded or that was given
  -- up, and it leaves a tombstone of the stripped identity there.
  pub WorldStep-StageStep :
      {w v : World} (k : String)
      → IsWorld cfg h w
      → (step : WorldStep cfg h w v)
      → StageStep k v.ledger.tombstones
          (call_of step)
          (stage_of k w.ledger.records)
          (stage_of k v.ledger.records)
  unfolding submitted_record bound_record acquire_archival_consumer release_archival_consumer
      without_lease
  WorldStep-StageStep {w} k inv (submits s {ledger = ledger} fresh e) =
      elim (create_archival_record-cases (submitted_record s) w.ledger e) [
        | inl same ↦ rw same rests
        | inr (_, _, _, after) ↦
            rw after (appended-StageStep k (submitted_record s) w.ledger.records refl)
      ]
  WorldStep-StageStep {w} k inv (claims fresh clock now wanted {r} e) =
      let t = latest_time now clock in
      let (x, found, new, after) =
        claim_next_archival_record-some fresh clock now cfg.lease_seconds cfg.commit_permit_seconds
          wanted w.ledger e in
      let (_, ready) = find-Has (claimable t wanted) x w.ledger.records found in
      let runs : r.receipt.status ≡ processing =
        ap (λ (y : ArchivalRecord). y.receipt.status) (sym new)
        ∙ claimed-processing fresh t cfg.lease_seconds cfg.commit_permit_seconds x in
      rw (← after) (
        replaced-StageStep k (claimable t wanted) r x w.ledger.records found
          (ap id_of (sym new) ∙ claimed-id fresh t cfg.lease_seconds cfg.commit_permit_seconds x)
          inv.distinct (ready-StageStep x t r (ground arith) runs))
  WorldStep-StageStep {w} k inv (renews i attempt_id token clock now) =
      elim (renew_archival_lease-cases i.receipt.relationship_id i.receipt.archival_id attempt_id
        token clock now cfg.lease_seconds w.ledger) [
          | inl same ↦ rw same rests
          | inr (x, found, after) ↦
              rw after (replaced-StageStep k _ _ x w.ledger.records found refl inv.distinct rests)
        ]
  WorldStep-StageStep k inv (reads relationship_id archival_id e) = rests
  WorldStep-StageStep {w} k inv (binds lc pc now token text batch outcome {i} m ph e) =
      let new = bound_record cfg now token text batch outcome i in
      let (x, found, valid, _, after) =
        bind_prepared_archival_batch-ok lc pc new batch w.ledger e in
      let acc = validate_archival_update-IsAccepted lc x new valid in
      let (n, q) = find-Has (has_id (id_of new)) x w.ledger.records found in
      let same = accepted_same i x new (inv.versions i x m n (sym (eq_of_test _ _ q))) refl acc in
      let status = ap (λ (y : ArchivalRecord). y.receipt.status) same in
      rw (← after) (
        replaced-StageStep k _ new x w.ledger.records found acc.same_id inv.distinct
          (rw status rests))
  WorldStep-StageStep {w} k inv (commits clock text {i} m c e) =
      let (b, outcome, _, shape) = completed_record-ok h text i c in
      let new = completed_with i (completed_receipt h text b outcome i.receipt) in
      let (x, _, found, valid, _, _, after) =
        commit_archival_batch-ok clock new w.ledger (rw shape at e) in
      let (acc, _, _) = validate_bound_archival_commit-IsAccepted x new valid in
      rw (← after) (
        replaced-StageStep k _ (without_lease new) x w.ledger.records found acc.same_id inv.distinct
          (rw acc.is_processing succeeds))
  WorldStep-StageStep {w} k inv (fails clock now text summary outcome retryable {i} m e) =
      let new = failed_record cfg now text outcome retryable summary i in
      let (x, found, valid, _, after) = update_archival_record-ok clock new w.ledger e in
      let acc = validate_archival_update-IsAccepted clock x new valid in
      rw (← after) (
        replaced-StageStep k _ (without_lease new) x w.ledger.records found acc.same_id inv.distinct
          (rw acc.is_processing (failed-StageStep cfg now text summary outcome retryable i)))
  WorldStep-StageStep {w} k inv (compacts parse before e) =
      let (p, r, dropped, buried) = compact_archival_records-IsEntombed parse before w.ledger e in
      rw r (filtered-StageStep k p w.ledger.records dropped buried inv.distinct)
  WorldStep-StageStep {w} k inv (imports relationship_id incoming e) =
      rw (import_archival_tombstones-ok relationship_id incoming w.ledger e).0 rests
  WorldStep-StageStep {w} k inv (acquires consumer_id clock now lease) =
      let same : (acquire_archival_consumer consumer_id clock now lease w.ledger).1.records
          ≡ w.ledger.records =
        ground arith in
      rw same rests
  WorldStep-StageStep {w} k inv (releases consumer_id) =
      let same : (release_archival_consumer consumer_id w.ledger).records ≡ w.ledger.records =
        ground arith in
      rw same rests
