-- ===== src/Archival/World/Published.antt =====
-- Published artifacts, along a history of calls.
use e_r_i_i.Prelude.{◌≡◌, sym, ◌∙◌, inl, inr, ℕ, String, some, arith}
use mathlib.Core.Option.{none-ne-some}
use e_r_i_i.Prelude.Dict.{lookup, lookup-insert}
use e_r_i_i.Prelude.Equality.{string_eq}
use e_r_i_i.Prelude.Result.{ok}
use e_r_i_i.Archival.Types.{ArchivalRecord, PreparedArchivalBatch, Hashes, archival_status_eq}
use e_r_i_i.Archival.Store.{Ledger}
use e_r_i_i.Archival.Store.Compacted.{
  create_archival_record-cases, compact_archival_records-ok, import_archival_tombstones-ok,
}
use e_r_i_i.Archival.Store.Lease.{acquire_archival_consumer, release_archival_consumer}
use e_r_i_i.Archival.Store.Publish.{commit_archival_batch}
use e_r_i_i.Archival.Store.Returned.{
  claim_next_archival_record-some, renew_archival_lease-cases, update_archival_record-ok,
  bind_prepared_archival_batch-ok, commit_archival_batch-ok,
}
use e_r_i_i.Archival.Coordinator.{ArchivalConfig, submitted_record, bound_record, failed_record}
use e_r_i_i.Archival.World.{
  World, WorldStep, submits, claims, renews, reads, binds, commits, fails, compacts, imports,
  acquires, releases,
}
use e_r_i_i.Archival.World.Calls.{validate_bound_archival_commit-IsAccepted}
use e_r_i_i.Archival.World.Calls.Versions.{processing_not_completed}
use e_r_i_i.Archival.World.Invariant.{IsWorld}
use e_r_i_i.Archival.World.Table.{find-Has}

module _ {cfg : ArchivalConfig} {h : Hashes} where
  commit_keeps :
      {w : World} {r : ArchivalRecord} {ledger : Ledger} {b : PreparedArchivalBatch} (k : String)
      (new : ArchivalRecord) (clock : ℕ)
      → IsWorld cfg h w
      → commit_archival_batch clock new w.ledger ≡ ok (r, ledger)
      → lookup k w.ledger.artifacts ≡ some b
      → lookup k ledger.artifacts ≡ some b
  commit_keeps {w} k new clock i e l =
      let (x, batch, found, valid, _, _, after) = commit_archival_batch-ok clock new w.ledger e in
      let (acc, _, _) = validate_bound_archival_commit-IsAccepted x new valid in
      let (m, _) = find-Has _ x w.ledger.records found in
      let open_ = (i.artifacts x m).unpublished (processing_not_completed x acc.is_processing) in
      rw (← after) (
        rw lookup-insert (elim (string_eq.dec k x.receipt.archival_id) [
          | yes q ↦ absurd (none-ne-some _ (sym open_ ∙ rw q at l))
          | no n ↦ ground arith
        ]))

  -- A published batch stays as it is: a call never removes the artifacts of an archival or replaces
  -- them by others, if it is made on a ledger with the invariant.
  pub WorldStep-keeps_artifacts :
      {w v : World} {b : PreparedArchivalBatch} (k : String)
      → IsWorld cfg h w
      → WorldStep cfg h w v
      → lookup k w.ledger.artifacts ≡ some b
      → lookup k v.ledger.artifacts ≡ some b
  unfolding acquire_archival_consumer release_archival_consumer
  WorldStep-keeps_artifacts {w} k inv (submits s {ledger = ledger} fresh e) l =
      elim (create_archival_record-cases (submitted_record s) w.ledger e) [
        | inl same ↦ rw same l
        | inr (_, _, _, after) ↦ rw after l
      ]
  WorldStep-keeps_artifacts {w} k inv (claims fresh clock now wanted e) l =
      let (_, _, _, after) =
        claim_next_archival_record-some fresh clock now _ _ wanted w.ledger e in
      rw (← after) l
  WorldStep-keeps_artifacts {w} k inv (renews x attempt_id token clock now) l =
      elim (renew_archival_lease-cases x.receipt.relationship_id x.receipt.archival_id attempt_id
        token clock now cfg.lease_seconds w.ledger) [
          | inl same ↦ rw same l
          | inr (_, _, after) ↦ rw after l
        ]
  WorldStep-keeps_artifacts k inv (reads relationship_id archival_id e) l = l
  WorldStep-keeps_artifacts {w} k inv (binds lc pc now token text batch outcome {i} m ph e) l =
      let (_, _, _, _, after) =
        bind_prepared_archival_batch-ok lc pc (bound_record cfg now token text batch outcome i)
          batch w.ledger e in
      rw (← after) l
  WorldStep-keeps_artifacts k inv (commits clock text {new = new} m c e) l =
      commit_keeps k new clock inv e l
  WorldStep-keeps_artifacts {w} k inv (fails clock now text summary outcome retryable {i} m e) l =
      let (_, _, _, _, after) =
        update_archival_record-ok clock (failed_record cfg now text outcome retryable summary i)
          w.ledger e in
      rw (← after) l
  WorldStep-keeps_artifacts {w} k inv (compacts parse before e) l =
      rw (compact_archival_records-ok parse before w.ledger e).0 l
  WorldStep-keeps_artifacts {w} k inv (imports relationship_id incoming e) l =
      rw (import_archival_tombstones-ok relationship_id incoming w.ledger e).1 l
  WorldStep-keeps_artifacts k inv (acquires consumer_id clock now lease) l = ground (arith, l)
  WorldStep-keeps_artifacts k inv (releases consumer_id) l = ground (arith, l)
