-- ===== src/Archival/Store/Claims.antt =====
-- What is claimed, who may be the consumer, and what a repeated creation does.
use e_r_i_i.Prelude.{
  ◌≡◌, refl, sym, ap, ◌∙◌, ◌≢◌, inl, inr, ℕ, ◌+◌, String, List, [], ◌∷◌, ◌++◌, Bool, true, false,
  ◌&&◌, Option, none, some, arith,
}
use mathlib.Core.Path.{subst}
use e_r_i_i.Prelude.Equality.{◌==◌, string_eq, nat_eq, ltb, Bool-cases, Option-cases}
use e_r_i_i.Prelude.Lists.{Has, All, find?}
use e_r_i_i.Prelude.Result.{ok, >>=-eq-ok, ok-injective}
use e_r_i_i.Archival.Types.{
  processing, ArchivalRecord, ArchivalTombstone, archival_status_eq, archival_record_eq,
}
use e_r_i_i.Archival.Store.{
  Ledger, latest_time, Created, record_of, tombstone_of, create_archival_record, find_tombstone,
  find_bound, find_or_append, same_request,
}
use e_r_i_i.Archival.Store.Lease.{
  FreshLease, archival_ready, claimed, claim_next_archival_record, expired, held_by_another,
  acquire_archival_consumer,
}
use e_r_i_i.Archival.Store.Returned.{find-Has, claimable, claim_next_archival_record-some}

-- A claim takes a record that is being processed only when its lease has expired, as of the later of
-- the caller's and the store's time; what it returns is that record in its next version, processed, and
-- leased from that time on.
pub claim_next_archival_record-expired :
    (fresh : FreshLease) (clock now lease permit : ℕ) (wanted : Option String) {r : ArchivalRecord}
    {after : Ledger} (ledger : Ledger)
    → claim_next_archival_record fresh clock now lease permit wanted ledger ≡ (some r, after)
    → (e : ArchivalRecord) × Has e ledger.records
      × (r.receipt.archival_id ≡ e.receipt.archival_id)
      × (e.receipt.status ≡ processing → expired e.lease_expires_at (latest_time now clock) ≡ true)
      × (r.record_version ≡ e.record_version + 1)
      × (r.receipt.status ≡ processing)
      × (r.lease_expires_at ≡ some (latest_time now clock + lease))
unfolding archival_ready claimed
claim_next_archival_record-expired fresh clock now lease permit wanted ledger h =
    let t = latest_time now clock in
    let (e, found, new, _) =
      claim_next_archival_record-some fresh clock now lease permit wanted ledger h in
    let (m, ready) = find-Has (claimable t wanted) e ledger.records found in
    (
      e,
      m,
      ap (λ (x : ArchivalRecord). x.receipt.archival_id) (sym new),
      λ p. ground arith,
      ap (λ (x : ArchivalRecord). x.record_version) (sym new),
      ap (λ (x : ArchivalRecord). x.receipt.status) (sym new),
      ap (λ (x : ArchivalRecord). x.lease_expires_at) (sym new),
    )

-- While one consumer's lease lasts, as of the later of the caller's and the store's time, another
-- consumer is refused, and the ledger stays as it is.
pub acquire_archival_consumer-exclusive :
    (c d : String) (clock now lease clock' now' lease' : ℕ) {after : Ledger} (ledger : Ledger)
    → c ≢ d
    → acquire_archival_consumer c clock now lease ledger ≡ (true, after)
    → ltb (latest_time now' clock') (latest_time now clock + lease) ≡ true
    → acquire_archival_consumer d clock' now' lease' after ≡ (false, after)
unfolding acquire_archival_consumer held_by_another
acquire_archival_consumer-exclusive c d clock now lease clock' now' lease' {after} ledger n h k =
    elim (Bool-cases (held_by_another c (latest_time now clock) ledger.consumer_lease)) [
      | inl e ↦ absurd (ground arith)
      | inr e ↦
          let same : record ledger {
            consumer_lease =
                some (record { consumer_id = c; expires_at = latest_time now clock + lease });
          }
              ≡ after =
            ground arith in
          rw (← same) (ground arith)
    ]

-- the same request under the same key
abbrev pub same_submission : ArchivalRecord → ArchivalRecord → Bool
same_submission r s =
    r.receipt.relationship_id == s.receipt.relationship_id
    && r.idempotency_fingerprint == s.idempotency_fingerprint
    && r.request_fingerprint == s.request_fingerprint

find_tombstone_again :
    (r s : ArchivalRecord) {o : Option ArchivalTombstone} (ts : List ArchivalTombstone)
    → same_submission r s ≡ true
    → All (λ (t : ArchivalTombstone). t.archival_id ≢ s.receipt.archival_id) ts
    → find_tombstone r ts ≡ ok o
    → find_tombstone s ts ≡ ok o
unfolding find_tombstone
find_tombstone_again r s [] same n h = h
find_tombstone_again r s {o} (t ∷ ts) same n h =
    ground (arith, n.0, find_tombstone_again r s {o = o} ts same n.1)

find_bound_again :
    (r s : ArchivalRecord) {o : Option ArchivalRecord} (es : List ArchivalRecord)
    → same_submission r s ≡ true
    → All (λ (e : ArchivalRecord). e.receipt.archival_id ≢ s.receipt.archival_id) es
    → find_bound r es ≡ ok o
    → find_bound s es ≡ ok o
unfolding find_bound
find_bound_again r s [] same n h = h
find_bound_again r s {o} (e ∷ es) same n h = ground (
  arith,
  n.0,
  find_bound_again r s {o = o} es same n.1,
  ap (λ (x : ArchivalRecord). x.idempotency_fingerprint),
  ap (λ (x : ArchivalRecord). x.request_fingerprint),
  ap (λ (x : ArchivalRecord). x.receipt.relationship_id),
)

find_bound_appended :
    (r s : ArchivalRecord) (es : List ArchivalRecord)
    → same_submission r s ≡ true
    → find_bound s es ≡ ok none
    → find_bound s (es ++ (r ∷ [])) ≡ ok (some r)
unfolding find_bound
find_bound_appended r s [] same h = ground arith
find_bound_appended r s (e ∷ es) same h = ground (arith, find_bound_appended r s es same)

same_request_again :
    (r s e : ArchivalRecord) (es : List ArchivalRecord)
    → same_submission r s ≡ true
    → find? (same_request r) es ≡ some e
    → find? (same_request s) es ≡ some e
same_request_again r s e [] same h = h
same_request_again r s e (x ∷ es) same h = ground (arith, same_request_again r s e es same)

create-tombstone :
    (s : ArchivalRecord) (t : ArchivalTombstone) (ledger : Ledger)
    → find_tombstone s ledger.tombstones ≡ ok (some t)
    → create_archival_record s ledger ≡ ok (tombstone_of t, ledger)
unfolding create_archival_record
create-tombstone s t ledger e = rw (e, create_archival_record) refl

create-bound :
    (s e : ArchivalRecord) (ledger : Ledger)
    → find_tombstone s ledger.tombstones ≡ ok none
    → find_bound s ledger.records ≡ ok (some e)
    → create_archival_record s ledger ≡ ok (record_of e, ledger)
unfolding create_archival_record
create-bound s e ledger f g = rw (f, g, create_archival_record) refl

create-request :
    (s e : ArchivalRecord) (ledger : Ledger)
    → find_tombstone s ledger.tombstones ≡ ok none
    → find_bound s ledger.records ≡ ok none
    → find? (same_request s) ledger.records ≡ some e
    → create_archival_record s ledger ≡ ok (record_of e, ledger)
unfolding create_archival_record find_or_append
create-request s e ledger f g h = rw (f, g, h, create_archival_record, find_or_append) refl

created_by :
    (s : ArchivalRecord) {p : Created × Ledger} {created : Created} {after : Ledger}
    → create_archival_record s p.1 ≡ ok p
    → p ≡ (created, after)
    → create_archival_record s after ≡ ok (created, after)
created_by s x q = subst (λ (p : Created × Ledger). create_archival_record s p.1 ≡ ok p) q x

-- Creation is idempotent. A second submission of the same request under the same key, with another
-- archival identity that the ledger does not have, returns what the first returned, be it a record or a
-- tombstone, and changes nothing.
pub create_archival_record_again :
    (r s : ArchivalRecord) {created : Created} {after : Ledger} (ledger : Ledger)
    → same_submission r s ≡ true
    → All (λ (t : ArchivalTombstone). t.archival_id ≢ s.receipt.archival_id) ledger.tombstones
    → All (λ (e : ArchivalRecord). e.receipt.archival_id ≢ s.receipt.archival_id) ledger.records
    → create_archival_record r ledger ≡ ok (created, after)
    → create_archival_record s after ≡ ok (created, after)
unfolding create_archival_record find_or_append
create_archival_record_again r s {created} {after} ledger same n m h =
    let (found, f, k) = >>=-eq-ok (find_tombstone r ledger.tombstones) _ h in
    let f' = find_tombstone_again r s {o = found} ledger.tombstones same n f in
    elim (Option-cases found) [
      | inr (t, e) ↦
          created_by s (create-tombstone s t ledger (f' ∙ ap ok e)) (ok-injective (rw e at k))
      | inl e ↦
          let (bound, b, l) = >>=-eq-ok (find_bound r ledger.records) _ (rw e at k) in
          let b' = find_bound_again r s {o = bound} ledger.records same m b in
          elim (Option-cases bound) [
            | inr (x, g) ↦
                created_by s (create-bound s x ledger (f' ∙ ap ok e) (b' ∙ ap ok g))
                  (ok-injective (rw g at l))
            | inl g ↦ elim (Option-cases (find? (same_request r) ledger.records)) [
              | inr (x, w) ↦
                  created_by s
                    (create-request s x ledger (f' ∙ ap ok e) (b' ∙ ap ok g)
                      (same_request_again r s x ledger.records same w))
                    (ok-injective (rw (g, w, find_or_append) at l))
              | inl w ↦
                  let new : Ledger = record ledger { records = ledger.records ++ (r ∷ []) } in
                  created_by s
                    (create-bound s r new (f' ∙ ap ok e)
                      (find_bound_appended r s ledger.records same (b' ∙ ap ok g)))
                    (ok-injective (rw (g, w, find_or_append) at l))
            ]
          ]
    ]
