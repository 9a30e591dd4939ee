-- ===== src/Archival/World/History.antt =====
-- The invariant along a history of calls, and what follows of the artifacts and the versions.
use e_r_i_i.Prelude.{
  ◌≡◌, refl, ap, ◌∙◌, ◌≢◌, ◌⊎◌, inl, inr, ◌≤◌, List, [], ◌∷◌, ◌++◌, Bool, none, arith,
}
use e_r_i_i.Prelude.Distinct.{DistinctKeys, All-append}
use e_r_i_i.Prelude.Equality.{string_eq, nat_eq, Bool-cases}
use e_r_i_i.Prelude.Lists.{Has, here, there, All, All-Has, filter, filter-Has}
use e_r_i_i.Prelude.Result.{ok}
use e_r_i_i.Archival.Types.{
  ArchivalRecord, Hashes, archival_status_eq, archival_phase_eq, archival_record_eq,
}
use e_r_i_i.Archival.Store.{Ledger, find_bound}
use e_r_i_i.Archival.Store.Compacted.{
  create_archival_record-cases, compact_archival_records-ok, import_archival_tombstones-ok,
}
use e_r_i_i.Archival.Store.Lease.{acquire_archival_consumer, release_archival_consumer}
use e_r_i_i.Archival.Store.Returned.{get_archival_record-ok}
use e_r_i_i.Archival.Coordinator.{ArchivalConfig, Submission, submitted_record, attempts_of}
use e_r_i_i.Archival.World.{
  World, WorldStep, IsFresh, Reaches, start, submits, claims, renews, reads, binds, commits, fails,
  compacts, imports, acquires, releases, stays, follows,
}
use e_r_i_i.Archival.World.Invariant.{IsWorld, IsRecord, issued-IsWorld}
use e_r_i_i.Archival.World.Steps.{
  claim-IsWorld, renew-IsWorld, fail-IsWorld, bind-IsWorld, commit-IsWorld,
}
use e_r_i_i.Archival.World.Table.{id_of, find-Has}

find_bound-none :
    (r : ArchivalRecord) (es : List ArchivalRecord)
    → find_bound r es ≡ ok none
    → All (λ e. id_of e ≢ id_of r) es
unfolding find_bound
find_bound-none r [] h = tt
find_bound-none r (e ∷ es) h = (λ q. ground arith, find_bound-none r es (ground arith))

append-DistinctKeys :
    (r : ArchivalRecord) (es : List ArchivalRecord)
    → All (λ e. id_of e ≢ id_of r) es
    → DistinctKeys id_of es
    → DistinctKeys id_of (es ++ (r ∷ []))
append-DistinctKeys r [] n d = (tt, tt)
append-DistinctKeys r (e ∷ es) n d =
    (All-append id_of (λ v. id_of e ≢ id_of v) r es d.0 n.0, append-DistinctKeys r es n.1 d.1)

append-Has :
    {x r : ArchivalRecord} (es : List ArchivalRecord) → Has x (es ++ (r ∷ [])) → Has x es ⊎ (x ≡ r)
append-Has [] (here q) = inr q
append-Has [] (there m) = elim m [ ]
append-Has (e ∷ es) (here q) = inl (here q)
append-Has (e ∷ es) (there m) = elim (append-Has es m) [ inl n ↦ inl (there n) | inr q ↦ inr q ]

filter-All {κ} :
    (P : ArchivalRecord → Type κ) (p : ArchivalRecord → Bool) (rs : List ArchivalRecord)
    → All P rs
    → All P (filter p rs)
filter-All P p [] h = tt
filter-All P p (r ∷ rs) h = elim (Bool-cases (p r)) [
  | inl e ↦ rw e (h.0, filter-All P p rs h.1)
  | inr e ↦ rw e (filter-All P p rs h.1)
]

filter-DistinctKeys :
    (p : ArchivalRecord → Bool) (rs : List ArchivalRecord)
    → DistinctKeys id_of rs
    → DistinctKeys id_of (filter p rs)
filter-DistinctKeys p [] d = tt
filter-DistinctKeys p (r ∷ rs) d = elim (Bool-cases (p r)) [
  | inl e ↦ rw e (filter-All (λ v. id_of r ≢ id_of v) p rs d.0, filter-DistinctKeys p rs d.1)
  | inr e ↦ rw e (filter-DistinctKeys p rs d.1)
]

submitted_record-IsRecord :
    {cfg : ArchivalConfig} (s : Submission) → IsRecord cfg (submitted_record s)
unfolding submitted_record attempts_of
submitted_record-IsRecord s = record {
  extractions = ground arith;
  commits = ground arith;
  leased = ground arith;
  queued = λ e. (refl, refl);
  waits = λ e. absurd (ground arith);
  unbound = λ e. (refl, refl);
  frozen = λ e n. absurd (ground arith);
  done = λ e. absurd (ground arith);
}

module _ {cfg : ArchivalConfig} {h : Hashes} where
  -- A part of the records is kept, and the artifacts are.
  part-IsWorld :
      (p : ArchivalRecord → Bool) (ledger : Ledger) {w : World}
      → ledger.artifacts ≡ w.ledger.artifacts
      → ledger.records ≡ filter p w.ledger.records
      → IsWorld cfg h w
      → IsWorld cfg h (record w { ledger = ledger })
  part-IsWorld p ledger {w} a r k =
      let old = λ (e : ArchivalRecord) (m : Has e ledger.records).
        (filter-Has p w.ledger.records (rw r at m)).0 in
      record {
        distinct = rw r (filter-DistinctKeys p w.ledger.records k.distinct);
        records = λ e m. k.records e (old e m);
        artifacts = λ e m. rw a (k.artifacts e (old e m));
        versions = λ i e n m q. k.versions i e n (old e m) q;
      }

  submit-IsWorld :
      (s : Submission) {w : World}
      → IsFresh s.archival_id w
      → find_bound (submitted_record s) w.ledger.records ≡ ok none
      → IsWorld cfg h w
      → IsWorld cfg h (record w {
        ledger = record w.ledger { records = w.ledger.records ++ (submitted_record s ∷ []) };
      })
  unfolding submitted_record
  submit-IsWorld s {w} fresh unbound k = record {
    distinct =
        append-DistinctKeys (submitted_record s) w.ledger.records (find_bound-none _ _ unbound)
          k.distinct;
    records = λ e m. elim (append-Has w.ledger.records m) [
      | inl n ↦ k.records e n
      | inr q ↦ rw q (submitted_record-IsRecord s)
    ];
    artifacts = λ e m. elim (append-Has w.ledger.records m) [
      | inl n ↦ k.artifacts e n
      | inr q ↦
          rw q (record {
            published = λ c. absurd (ground arith);
            unpublished = λ _. fresh.unpublished;
          })
    ];
    versions = λ i e n m q. elim (append-Has w.ledger.records m) [
      | inl o ↦ k.versions i e n o q
      | inr g ↦ absurd (
          All-Has (λ (x : ArchivalRecord). x.receipt.archival_id ≢ s.archival_id) fresh.unissued n
            (q ∙ ap id_of g))
    ];
  }

  -- the calls that leave the records and the artifacts alone
  other-IsWorld :
      (ledger : Ledger) {w : World}
      → ledger.records ≡ w.ledger.records
      → ledger.artifacts ≡ w.ledger.artifacts
      → IsWorld cfg h w
      → IsWorld cfg h (record w { ledger = ledger })
  other-IsWorld ledger {w} r a k = record {
    distinct = rw r k.distinct;
    records = λ e m. k.records e (rw r at m);
    artifacts = λ e m. rw a (k.artifacts e (rw r at m));
    versions = λ i e n m q. k.versions i e n (rw r at m) q;
  }

  -- Every call keeps the invariant, if an attempt is allowed at all: identities are distinct; the
  -- attempts of a record stay within the maximum, it is leased exactly while it is processed, and from
  -- the commit phase on it is bound to a batch that is frozen until it is published; a record is
  -- completed exactly if its artifacts are published, and they are the batch of its binding and of its
  -- manifest; and a record that a worker holds is the stored one, up to renewals, or is older.
  pub WorldStep-IsWorld :
      {w v : World} → 1 ≤ cfg.max_attempts → WorldStep cfg h w v → IsWorld cfg h w → IsWorld cfg h v
  unfolding acquire_archival_consumer release_archival_consumer
  WorldStep-IsWorld {w} pos (submits s {ledger = ledger} fresh creates) k =
      elim (create_archival_record-cases (submitted_record s) w.ledger creates) [
        | inl same ↦ rw same k
        | inr (unbound, _, _, after) ↦ rw after (submit-IsWorld s fresh unbound k)
      ]
  WorldStep-IsWorld pos (claims fresh clock now wanted e) k =
      claim-IsWorld pos fresh clock now _ _ wanted e k
  WorldStep-IsWorld pos (renews i attempt_id token clock now) k =
      renew-IsWorld pos i.receipt.relationship_id i.receipt.archival_id attempt_id token clock now
        cfg.lease_seconds k
  WorldStep-IsWorld {w} pos (reads relationship_id archival_id {r} e) k =
      issued-IsWorld r
        (find-Has _ r w.ledger.records
          (get_archival_record-ok relationship_id archival_id w.ledger e)).0
        k
  WorldStep-IsWorld pos (binds lc pc now token processed_at batch outcome {i} m ph e) k =
      bind-IsWorld pos lc pc now token processed_at batch outcome i m ph e k
  WorldStep-IsWorld pos (commits clock completed_at {i} m c e) k =
      commit-IsWorld pos clock completed_at i m c e k
  WorldStep-IsWorld pos (fails clock now now_text summary outcome retryable {i} m e) k =
      fail-IsWorld pos clock now now_text summary outcome retryable i m e k
  WorldStep-IsWorld {w} pos (compacts parse before {ledger = ledger} e) k =
      let (a, p, r, _) = compact_archival_records-ok parse before w.ledger e in
      part-IsWorld p ledger a r k
  WorldStep-IsWorld {w} pos (imports relationship_id incoming {ledger} e) k =
      let (r, a) = import_archival_tombstones-ok relationship_id incoming w.ledger e in
      other-IsWorld ledger r a k
  WorldStep-IsWorld {w} pos (acquires consumer_id clock now lease) k =
      other-IsWorld _ (ground arith) (ground arith) k
  WorldStep-IsWorld {w} pos (releases consumer_id) k =
      other-IsWorld _ (ground arith) (ground arith) k

  pub start-IsWorld : IsWorld cfg h start
  start-IsWorld = record {
    distinct = tt;
    records = λ e m. elim m [ ];
    artifacts = λ e m. elim m [ ];
    versions = λ i e m n q. elim m [ ];
  }

  -- ... from the empty ledger on
  pub Reaches-IsWorld : {w : World} → 1 ≤ cfg.max_attempts → Reaches cfg h start w → IsWorld cfg h w
  Reaches-IsWorld pos stays = start-IsWorld
  Reaches-IsWorld pos (follows r s) = WorldStep-IsWorld pos s (Reaches-IsWorld pos r)

  -- Along every history of calls from the empty ledger, no record ever has more attempts, in either
  -- phase, than the configuration allows, if that is one at least.
  pub Reaches_attempts :
      {w : World} {e : ArchivalRecord}
      → 1 ≤ cfg.max_attempts
      → Reaches cfg h start w
      → Has e w.ledger.records
      → (e.receipt.extraction_attempts ≤ cfg.max_attempts)
        × (e.receipt.commit_attempts ≤ cfg.max_attempts)
  Reaches_attempts {e = e} pos r m =
      let k = (Reaches-IsWorld pos r).records e m in
      let x = k.extractions in let y = k.commits in (ground arith, ground arith)
