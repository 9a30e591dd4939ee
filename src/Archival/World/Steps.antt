-- ===== src/Archival/World/Steps.antt =====
-- Every call keeps the invariant.
use e_r_i_i.Prelude.{
  ◌≡◌, refl, sym, ap, ◌∙◌, ◌≢◌, inl, inr, ℕ, ◌+◌, ◌≤◌, String, List, ◌∷◌, Bool, true, Option, some,
  arith,
}
use mathlib.Core.Option.{some-injective}
use e_r_i_i.Prelude.Dict.{Dict, insert, lookup-insert}
use e_r_i_i.Prelude.Equality.{option_eq, string_eq, nat_eq, eq_of_test, ==_self}
use e_r_i_i.Prelude.Lists.{Has, find?}
use e_r_i_i.Prelude.Result.{ok}
use e_r_i_i.Archival.Types.{
  processing, completed, extraction, commit, ArchivalOutcomeCode, ArchivalRecord,
  PreparedArchivalBatch, Hashes, archival_status_eq, archival_phase_eq, prepared_archival_batch_eq,
}
use e_r_i_i.Archival.Store.{Ledger, has_id, in_scope, latest_time}
use e_r_i_i.Archival.Store.Lease.{
  FreshLease, archival_ready, claim_next_archival_record, renew_archival_lease,
}
use e_r_i_i.Archival.Store.Publish.{
  bind_prepared_archival_batch, commit_archival_batch, update_archival_record, put, without_lease,
}
use e_r_i_i.Archival.Store.Returned.{
  claimable, claim_next_archival_record-some, renew_archival_lease-cases, update_archival_record-ok,
  bind_prepared_archival_batch-ok, commit_archival_batch-ok, permitted_batch-some,
}
use e_r_i_i.Archival.Coordinator.{
  ArchivalConfig, bound_record, completed_receipt, completed_with, completed_record, failed_record,
}
use e_r_i_i.Archival.World.{World}
use e_r_i_i.Archival.World.Calls.{
  IsAccepted, validate_archival_update-IsAccepted, validate_bound_archival_commit-IsAccepted,
  accepted_same, claimed-IsRecord, renewed-IsRecord, bound_record-IsRecord, failed_record-IsRecord,
  completed_record-ok,
}
use e_r_i_i.Archival.World.Calls.Versions.{
  claimed-id, claimed-version, claimed-processing, archival_ready_not_completed,
  processing_not_completed, failed_record_not_completed, completed-IsRecord, was_older, was_renewed,
  same-IsRecord,
}
use e_r_i_i.Archival.World.Invariant.{
  IsWorld, IsRecord, IsPublished, SameRecord, replaced-IsWorld, issued-IsWorld,
}
use e_r_i_i.Archival.World.Table.{id_of, find-Has, replace_first_new-Has}

-- the publication of a record that is not completed, before and after
unpublished-IsPublished :
    {h : Hashes} {a : Dict String PreparedArchivalBatch} (e new : ArchivalRecord)
    → id_of new ≡ id_of e
    → e.receipt.status ≢ completed
    → new.receipt.status ≢ completed
    → IsPublished h a e
    → IsPublished h a new
unpublished-IsPublished e new same old now k = record {
  published = λ q. absurd (now q);
  unpublished = λ _. rw same (k.unpublished old);
}

-- What is read from a search by identity.
found-Has :
    (archival_id : String) (e : ArchivalRecord) (rs : List ArchivalRecord)
    → find? (has_id archival_id) rs ≡ some e
    → Has e rs × (archival_id ≡ id_of e)
found-Has archival_id e rs found =
    let (m, t) = find-Has (has_id archival_id) e rs found in (m, sym (eq_of_test _ _ t))

module _ {cfg : ArchivalConfig} {h : Hashes} (pos : 1 ≤ cfg.max_attempts) where
  pub claim-IsWorld :
      (fresh : FreshLease) (clock now lease permit : ℕ) (wanted : Option String)
      {r : ArchivalRecord} {ledger : Ledger} {w : World}
      → claim_next_archival_record fresh clock now lease permit wanted w.ledger ≡ (some r, ledger)
      → IsWorld cfg h w
      → IsWorld cfg h (record { ledger = ledger; issued = r ∷ w.issued })
  claim-IsWorld fresh clock now lease permit wanted {r} {ledger} {w} claims k =
      let t = latest_time now clock in
      let p = claimable t wanted in
      let (e, found, new, after) =
        claim_next_archival_record-some fresh clock now lease permit wanted w.ledger claims in
      let (m, ready) = find-Has p e w.ledger.records found in
      let is_ready : archival_ready e t ≡ true = ground arith in
      let same : id_of r ≡ id_of e = ap id_of (sym new) ∙ claimed-id fresh t lease permit e in
      let version : r.record_version ≡ e.record_version + 1 =
        ap (λ (x : ArchivalRecord). x.record_version) (sym new)
        ∙ claimed-version fresh t lease permit e in
      let runs : r.receipt.status ≡ processing =
        ap (λ (x : ArchivalRecord). x.receipt.status) (sym new)
        ∙ claimed-processing fresh t lease permit e in
      rw (← after) (
        issued-IsWorld r (replace_first_new-Has p r e w.ledger.records found) (
          replaced-IsWorld p r e w.ledger.artifacts found same
            (rw (← new) (claimed-IsRecord fresh t lease permit e pos is_ready (k.records e m)))
            (unpublished-IsPublished e r same (archival_ready_not_completed e t is_ready)
              (processing_not_completed r runs) (k.artifacts e m))
            (λ j n. refl) (λ i n. was_older i e r version) k))

  pub renew-IsWorld :
      (relationship_id archival_id attempt_id token : String) (clock now lease : ℕ) {w : World}
      → IsWorld cfg h w
      → IsWorld cfg h (record w {
        ledger =
            (renew_archival_lease relationship_id archival_id attempt_id token clock now lease
              w.ledger).1;
      })
  renew-IsWorld relationship_id archival_id attempt_id token clock now lease {w} k =
      elim (renew_archival_lease-cases relationship_id archival_id attempt_id token clock now lease
        w.ledger) [
          | inl e ↦ rw e k
          | inr (e, found, after) ↦
              let t = some (latest_time now clock + lease) in
              let (m, _) =
                find-Has (in_scope relationship_id archival_id) e w.ledger.records found in
              let old = k.artifacts e m in
              rw after (
                replaced-IsWorld _ (record e { lease_expires_at = t }) e w.ledger.artifacts found
                  refl (renewed-IsRecord e t (k.records e m))
                  (record { published = old.published; unpublished = old.unpublished })
                  (λ j n. refl) (λ i n. was_renewed i e t) k)
        ]

  -- A worker's write is accepted, and leaves the record uncompleted.
  write-IsWorld :
      (new stored i e : ArchivalRecord) {w : World}
      → find? (has_id (id_of new)) w.ledger.records ≡ some e
      → IsAccepted e new
      → id_of stored ≡ id_of new
      → stored.record_version ≡ new.record_version
      → stored.receipt.status ≢ completed
      → IsRecord cfg stored
      → IsWorld cfg h w
      → IsWorld cfg h (record w { ledger = put stored w.ledger })
  write-IsWorld new stored i e {w} found acc same version open_ good k =
      let (m, _) = found-Has (id_of new) e w.ledger.records found in
      let found' : find? (has_id (id_of stored)) w.ledger.records ≡ some e = rw same found in
      replaced-IsWorld (has_id (id_of stored)) stored e w.ledger.artifacts found'
        (same ∙ acc.same_id) good
        (unpublished-IsPublished e stored (same ∙ acc.same_id)
          (processing_not_completed e acc.is_processing) open_ (k.artifacts e m))
        (λ j n. refl) (λ x n. was_older x e stored (version ∙ acc.next_version)) k

  -- what the writer holds is the stored record, up to renewals
  holds :
      (new i e : ArchivalRecord) {w : World}
      → Has i w.issued
      → id_of new ≡ id_of i
      → new.record_version ≡ i.record_version + 1
      → find? (has_id (id_of new)) w.ledger.records ≡ some e
      → IsAccepted e new
      → IsWorld cfg h w
      → SameRecord i e
  holds new i e {w} held same version found acc k =
      let (m, q) = found-Has (id_of new) e w.ledger.records found in
      accepted_same i e new (k.versions i e held m (sym same ∙ q)) version acc

  pub fail-IsWorld :
      (clock now : ℕ) (now_text summary : String) (outcome : ArchivalOutcomeCode) (retryable : Bool)
      (i : ArchivalRecord) {r : ArchivalRecord} {ledger : Ledger} {w : World}
      → Has i w.issued
      → update_archival_record clock
          (failed_record cfg now now_text outcome retryable summary i)
          w.ledger
        ≡ ok (r, ledger)
      → IsWorld cfg h w
      → IsWorld cfg h (record w { ledger = ledger })
  unfolding failed_record without_lease
  fail-IsWorld clock now now_text summary outcome retryable i {w = w} held fails k =
      let new = failed_record cfg now now_text outcome retryable summary i in
      let (e, found, valid, _, after) = update_archival_record-ok clock new w.ledger fails in
      let acc = validate_archival_update-IsAccepted clock e new valid in
      let (m, _) = found-Has (id_of new) e w.ledger.records found in
      let same = holds new i e held refl refl found acc k in
      let runs : i.receipt.status ≡ processing =
        ap (λ (x : ArchivalRecord). x.receipt.status) same ∙ acc.is_processing in
      rw (← after) (
        write-IsWorld new (without_lease new) i e found acc refl refl
          (failed_record_not_completed cfg now now_text summary outcome retryable i)
          (failed_record-IsRecord now now_text summary outcome retryable i runs
            (same-IsRecord i e same (k.records e m)))
          k)

  pub bind-IsWorld :
      (lease_clock permit_clock now : ℕ) (token processed_at : String)
      (batch : PreparedArchivalBatch) (outcome : ArchivalOutcomeCode) (i : ArchivalRecord)
      {r : ArchivalRecord} {ledger : Ledger} {w : World}
      → Has i w.issued
      → i.receipt.phase ≡ extraction
      → bind_prepared_archival_batch lease_clock permit_clock
          (bound_record cfg now token processed_at batch outcome i)
          batch
          w.ledger
        ≡ ok (r, ledger)
      → IsWorld cfg h w
      → IsWorld cfg h (record { ledger = ledger; issued = r ∷ w.issued })
  unfolding bound_record
  bind-IsWorld lease_clock permit_clock now token processed_at batch outcome i {r} {w = w} held ph
        binds k =
      let new = bound_record cfg now token processed_at batch outcome i in
      let (e, found, valid, returned, after) =
        bind_prepared_archival_batch-ok lease_clock permit_clock new batch w.ledger binds in
      let acc = validate_archival_update-IsAccepted lease_clock e new valid in
      let (m, _) = found-Has (id_of new) e w.ledger.records found in
      let same = holds new i e held refl refl found acc k in
      let runs : i.receipt.status ≡ processing =
        ap (λ (x : ArchivalRecord). x.receipt.status) same ∙ acc.is_processing in
      rw (← returned, ← after)
        (issued-IsWorld new
          (replace_first_new-Has (has_id (id_of new)) new e w.ledger.records found)
          (write-IsWorld new new i e found acc refl refl (processing_not_completed i runs)
            (bound_record-IsRecord now token processed_at batch outcome i pos ph runs
              (same-IsRecord i e same (k.records e m)))
            k))

  pub commit-IsWorld :
      (clock : ℕ) (completed_at : String) (i : ArchivalRecord) {new r : ArchivalRecord}
      {ledger : Ledger} {w : World}
      → Has i w.issued
      → completed_record h completed_at i ≡ ok new
      → commit_archival_batch clock new w.ledger ≡ ok (r, ledger)
      → IsWorld cfg h w
      → IsWorld cfg h (record w { ledger = ledger })
  unfolding without_lease
  commit-IsWorld clock completed_at i {w = w} held completes commits k =
      let (b, outcome, prepared, shape) = completed_record-ok h completed_at i completes in
      let new = completed_with i (completed_receipt h completed_at b outcome i.receipt) in
      let (e, batch, found, valid, permitted, _, after) =
        commit_archival_batch-ok clock new w.ledger (rw shape at commits) in
      let (acc, ph, _) = validate_bound_archival_commit-IsAccepted e new valid in
      let (frozen, bound, _, _) = permitted_batch-some clock e new permitted in
      let (m, _) = found-Has (id_of new) e w.ledger.records found in
      let same = holds new i e held refl refl found acc k in
      let same_batch : b ≡ batch =
        some-injective b batch
          (sym prepared ∙ ap (λ (x : ArchivalRecord). x.prepared_batch) same ∙ frozen) in
      let phase : i.receipt.phase ≡ commit =
        ap (λ (x : ArchivalRecord). x.receipt.phase) same ∙ ph in
      rw (← after) (
        replaced-IsWorld (has_id (id_of new)) (without_lease new) e
          (insert e.receipt.archival_id batch w.ledger.artifacts) found acc.same_id
          (completed-IsRecord h completed_at b outcome i phase
            (same-IsRecord i e same (k.records e m)))
          (record {
            published = λ _. (
              batch,
              rw (acc.same_id, lookup-insert) (rw (==_self e.receipt.archival_id)),
              rw same_batch,
              ap (λ (x : ArchivalRecord). x.commit_binding_digest) same ∙ bound,
            );
            unpublished = λ n. absurd (n refl);
          })
          (λ j n. rw lookup-insert (ground arith))
          (λ x n. was_older x e (without_lease new) acc.next_version) k)
