-- ===== src/Archival/World/Invariant.antt =====
-- What holds of the ledger and of the records that workers hold, whatever calls are made in whatever
-- order: the definitions, and the lemmas that the single calls share.
use e_r_i_i.Prelude.{
  ◌≡◌, refl, sym, ap, ◌∙◌, ◌≢◌, ◌⊎◌, inl, inr, ◌<◌, String, ◌∷◌, Bool, true, false, none, some,
}
use e_r_i_i.Prelude.Dict.{Dict, lookup}
use e_r_i_i.Prelude.Distinct.{DistinctKeys}
use e_r_i_i.Prelude.Equality.{◌==◌, string_eq, nat_eq, leb, ltb}
use e_r_i_i.Prelude.Lists.{Has, here, there, find?}
use e_r_i_i.Archival.Types.{
  pending, processing, retry_wait, completed, extraction, commit, ArchivalRecord,
  PreparedArchivalBatch, Hashes, manifest, archival_status_eq, archival_phase_eq,
}
use e_r_i_i.Archival.Store.{replace_first}
use e_r_i_i.Archival.Coordinator.{ArchivalConfig, attempts_of}
use e_r_i_i.Archival.World.{World}
use e_r_i_i.Archival.World.Table.{
  id_of, find-Has, only_record, replace_first-DistinctKeys, replace_first-Has,
}

abbrev pub has_lease : ArchivalRecord → Bool
has_lease r = elim r.lease_token [ none ↦ false | some t ↦ true ]

-- A record in the ledger: its attempts are bounded, it is leased exactly while it is processed, it is
-- bound to a batch exactly from the commit phase on, and the batch is frozen until it is published.
pub record IsRecord (cfg : ArchivalConfig) (r : ArchivalRecord) : Type 0 where
  pub extractions : leb r.receipt.extraction_attempts cfg.max_attempts ≡ true
  pub commits : leb r.receipt.commit_attempts cfg.max_attempts ≡ true
  pub leased : has_lease r ≡ (r.receipt.status == processing)
  pub queued :
      r.receipt.status ≡ pending
      → (r.receipt.phase ≡ extraction) × (r.receipt.extraction_attempts ≡ 0)
  pub waits : r.receipt.status ≡ retry_wait → ltb (attempts_of r.receipt) cfg.max_attempts ≡ true
  pub unbound :
      r.receipt.phase ≡ extraction
      → (r.receipt.commit_attempts ≡ 0) × (r.commit_binding_digest ≡ none)
  pub frozen :
      r.receipt.phase ≡ commit
      → r.receipt.status ≢ completed
      → (b : PreparedArchivalBatch) × (r.prepared_batch ≡ some b)
        × (r.commit_binding_digest ≡ some b.batch_digest)
  pub done : r.receipt.status ≡ completed → r.receipt.phase ≡ commit

-- A completed record has its artifacts in the ledger, the batch of its binding and of its manifest;
-- another has none.
pub record IsPublished (h : Hashes) (artifacts : Dict String PreparedArchivalBatch)
    (r : ArchivalRecord) : Type 0 where
  pub published :
      r.receipt.status ≡ completed
      → (b : PreparedArchivalBatch) × (lookup r.receipt.archival_id artifacts ≡ some b)
        × (r.receipt.artifact_manifest ≡ some (manifest h b))
        × (r.commit_binding_digest ≡ some b.batch_digest)
  pub unpublished : r.receipt.status ≢ completed → lookup r.receipt.archival_id artifacts ≡ none

-- the first record is the second, up to renewals of the lease
abbrev pub SameRecord : ArchivalRecord → ArchivalRecord → Type 0
SameRecord i e = record i { lease_expires_at = e.lease_expires_at } ≡ e

-- the first is a record that the second was, or is
abbrev pub WasRecord : ArchivalRecord → ArchivalRecord → Type 0
WasRecord i e = (i.record_version < e.record_version) ⊎ SameRecord i e

pub record IsWorld (cfg : ArchivalConfig) (h : Hashes) (w : World) : Type 0 where
  pub distinct : DistinctKeys id_of w.ledger.records
  pub records : (e : ArchivalRecord) → Has e w.ledger.records → IsRecord cfg e
  pub artifacts : (e : ArchivalRecord) → Has e w.ledger.records → IsPublished h w.ledger.artifacts e
  pub versions :
      (i e : ArchivalRecord)
      → Has i w.issued
      → Has e w.ledger.records
      → id_of i ≡ id_of e
      → WasRecord i e

module _ {cfg : ArchivalConfig} {h : Hashes} where
  -- A record takes the place of the one that was found, and the artifacts of others stay.
  pub replaced-IsWorld :
      (p : ArchivalRecord → Bool) (new e : ArchivalRecord)
      (artifacts : Dict String PreparedArchivalBatch) {w : World}
      → find? p w.ledger.records ≡ some e
      → id_of new ≡ id_of e
      → IsRecord cfg new
      → IsPublished h artifacts new
      → ((k : String) → k ≢ id_of e → lookup k artifacts ≡ lookup k w.ledger.artifacts)
      → ((i : ArchivalRecord) → Has i w.issued → WasRecord i e → WasRecord i new)
      → IsWorld cfg h w
      → IsWorld cfg h (record w {
        ledger = record w.ledger {
          records = replace_first p new w.ledger.records;
          artifacts = artifacts;
        };
      })
  replaced-IsWorld p new e artifacts {w} found same good filed others next k = record {
    distinct = replace_first-DistinctKeys p new e w.ledger.records found same k.distinct;
    records = λ x m. elim (replace_first-Has p new e w.ledger.records found k.distinct m) [
      | inl q ↦ rw q good
      | inr (n, _) ↦ k.records x n
    ];
    artifacts = λ x m. elim (replace_first-Has p new e w.ledger.records found k.distinct m) [
      | inl q ↦ rw q filed
      | inr (n, g) ↦
          let old = k.artifacts x n in
          let stays = others (id_of x) g in
          record { published = rw stays old.published; unpublished = rw stays old.unpublished }
    ];
    versions = λ i x m n q. elim (replace_first-Has p new e w.ledger.records found k.distinct n) [
      | inl g ↦
          let (at, _) = find-Has p e w.ledger.records found in
          rw g (next i m (k.versions i e m at (q ∙ ap id_of g ∙ same)))
      | inr (o, g) ↦ k.versions i x m o q
    ];
  }

  -- A record of the ledger is returned to a worker.
  pub issued-IsWorld :
      (r : ArchivalRecord) {w : World}
      → Has r w.ledger.records
      → IsWorld cfg h w
      → IsWorld cfg h (record w { issued = r ∷ w.issued })
  issued-IsWorld r {w} m k = record {
    distinct = k.distinct;
    records = k.records;
    artifacts = k.artifacts;
    versions = λ i e n o q. elim n [
      | here g ↦
          let same : r ≡ e = only_record w.ledger.records k.distinct m o (ap id_of (sym g) ∙ q) in
          inr (rw g (rw (← same) refl))
      | there n' ↦ k.versions i e n' o q
    ];
  }
