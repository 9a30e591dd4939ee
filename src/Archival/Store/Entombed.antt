-- ===== src/Archival/Store/Entombed.antt =====
-- The records that compaction takes out, and their tombstones.
use e_r_i_i.Prelude.{
  map, ◌≡◌, sym, ap, ◌∙◌, inl, inr, ℕ, String, List, [], ◌∷◌, Bool, true, false, not, Option, none,
  some, arith,
}
use mathlib.Core.Path.{subst}
use e_r_i_i.Prelude.Dict.{Dict, lookup, insert, lookup-insert}
use e_r_i_i.Prelude.Equality.{◌==◌, string_eq, nat_eq, Bool-cases, Option-cases, if◌then◌else◌}
use e_r_i_i.Prelude.Lists.{Has, here, there, filter}
use e_r_i_i.Prelude.Result.{ok, >>=-eq-ok, >>-eq-ok, ok-injective, raise_if}
use e_r_i_i.Prelude.Text.{strip}
use e_r_i_i.Archival.Types.{
  ArchivalRecord, ArchivalTombstone, value_error, is_terminal, artifacts_committed,
  archival_outcome_code_eq,
}
use e_r_i_i.Archival.Tombstone.{
  clean_text, normalize_commitments, make_tombstone, from_record, prefer_stronger_commitment,
  is_compatible_with,
}
use e_r_i_i.Archival.Store.{Ledger}
use e_r_i_i.Archival.Store.Compact.{
  Compaction, ParseInstant, is_expired, prefer_existing, file_tombstone, bury, retain, compact_all,
  compact_archival_records,
}
use e_r_i_i.Archival.Store.Compacted.{
  is_kept, is_kept_of_expired, compact_all-retained, compaction_of, filter_all, unkept_terminal,
  compact_archival_records-cases,
}

-- the tombstones have one of this identity
abbrev pub IsEntombed : String → List ArchivalTombstone → Type 0
IsEntombed k ts = (t : ArchivalTombstone) × Has t ts × (t.archival_id ≡ k)

-- the same of the tombstones by identity
abbrev IsFiled : String → Dict String ArchivalTombstone → Type 0
IsFiled k d = (t : ArchivalTombstone) × (lookup k d ≡ some t) × (t.archival_id ≡ k)

lookup-Has :
    (k : String) (d : Dict String ArchivalTombstone) {t : ArchivalTombstone}
    → lookup k d ≡ some t
    → Has t (map (λ kv. kv.1) d)
unfolding lookup
lookup-Has k [] h = absurd (ground arith)
lookup-Has k ((j, u) ∷ d) {t} h = elim (Bool-cases (k == j)) [
  | inl e ↦ here (ground arith)
  | inr e ↦ there (lookup-Has k d (ground arith))
]

clean_text-strip : (s : String) {t : String} → clean_text 256 s ≡ ok t → t ≡ strip s
unfolding clean_text
clean_text-strip s h = ground arith

make_tombstone-id :
    (t : ArchivalTombstone) {u : ArchivalTombstone}
    → make_tombstone t ≡ ok u
    → u.archival_id ≡ strip t.archival_id
unfolding make_tombstone
make_tombstone-id t {u} h =
    let (a0, e0, k0) = >>=-eq-ok (raise_if (not (is_terminal t.status)) value_error) _ h in
    let (a1, e1, k1) = >>=-eq-ok (clean_text 256 t.archival_id) _ k0 in
    let (a2, e2, k2) = >>=-eq-ok (clean_text 256 t.relationship_id) _ k1 in
    let (a3, e3, k3) = >>=-eq-ok (clean_text 256 t.agent_id) _ k2 in
    let (a4, e4, k4) = >>=-eq-ok (clean_text 256 t.user_id) _ k3 in
    let (a5, e5, k5) = >>=-eq-ok (clean_text 256 t.source_turn_id) _ k4 in
    let (a6, e6, k6) = >>=-eq-ok (clean_text 256 t.source_revision) _ k5 in
    let (a7, e7, k7) = >>=-eq-ok (clean_text 256 t.terminal_at) _ k6 in
    let (a8, e8, k8) = >>=-eq-ok (clean_text 256 t.request_fingerprint) _ k7 in
    let (a9, e9, k9) = >>=-eq-ok (clean_text 256 t.idempotency_fingerprint) _ k8 in
    let (refs, e10, k10) =
      >>=-eq-ok
        (normalize_commitments (t.outcome_code == artifacts_committed) t.artifact_commitments) _
        k9 in
    sym (ap (λ (x : ArchivalTombstone). x.archival_id) (ok-injective k10))
    ∙ clean_text-strip t.archival_id e1

from_record-id :
    (r : ArchivalRecord) {t : ArchivalTombstone}
    → from_record r ≡ ok t
    → t.archival_id ≡ strip r.receipt.archival_id
unfolding from_record
from_record-id r {t} h =
    let (_, g) = >>-eq-ok (raise_if (not (is_terminal r.receipt.status)) value_error) _ h in
    elim (Option-cases r.receipt.outcome_code) [
      | inl e ↦ absurd (ground arith)
      | inr (code, e) ↦ make_tombstone-id _ (rw e at g)
    ]

prefer_existing-id :
    (o : Option ArchivalTombstone) (t : ArchivalTombstone) {u : ArchivalTombstone}
    → prefer_existing o t ≡ ok u
    → u.archival_id ≡ t.archival_id
unfolding prefer_stronger_commitment is_compatible_with
prefer_existing-id none t h = ground arith
prefer_existing-id (some e) t h = ground arith

insert-IsFiled :
    (k : String) (u : ArchivalTombstone) (d : Dict String ArchivalTombstone)
    → IsFiled k d
    → IsFiled k (insert u.archival_id u d)
insert-IsFiled k u d (t, e, q) = elim (string_eq.dec k u.archival_id) [
  | yes p ↦ (u, ground (arith, lookup-insert k u.archival_id u d), sym p)
  | no n ↦ (t, ground (arith, lookup-insert k u.archival_id u d), q)
]

-- What is filed stays filed, and the tombstone of the record is filed.
file_tombstone-IsFiled :
    (r : ArchivalRecord) (d : Dict String ArchivalTombstone) {d' : Dict String ArchivalTombstone}
    → file_tombstone r d ≡ ok d'
    → ((k : String) → IsFiled k d → IsFiled k d') × IsFiled (strip r.receipt.archival_id) d'
file_tombstone-IsFiled r d {d'} h =
    let (t, e, g) = >>=-eq-ok (from_record r) _ h in
    let (u, f, p) = >>=-eq-ok (prefer_existing (lookup t.archival_id d) t) _ g in
    let q : insert u.archival_id u d ≡ d' = ok-injective p in
    let same = prefer_existing-id (lookup t.archival_id d) t f ∙ from_record-id r e in
    (
      λ k old. subst (IsFiled k) q (insert-IsFiled k u d old),
      subst (IsFiled (strip r.receipt.archival_id)) q (
        u,
        ground (arith, same, lookup-insert (strip r.receipt.archival_id) u.archival_id u d),
        same,
      ),
    )

-- The loop keeps what is filed, and files the tombstone of every record that it does not retain.
compact_all-IsFiled :
    (parse : ParseInstant) (cutoff : ℕ) (rs : List ArchivalRecord) (c : Compaction) {d : Compaction}
    → compact_all parse cutoff rs c ≡ ok d
    → ((k : String) → IsFiled k c.tombstones → IsFiled k d.tombstones)
      × ((r : ArchivalRecord)
          → Has r rs
          → is_kept parse cutoff r ≡ false
          → IsFiled (strip r.receipt.archival_id) d.tombstones)
unfolding compact_all
compact_all-IsFiled parse cutoff [] c {d} h = (
  λ k old. subst (λ (x : Compaction). IsFiled k x.tombstones) (ok-injective h) old,
  λ r m e. elim m [ ],
)
compact_all-IsFiled parse cutoff (r ∷ rs) c {d} h =
    let (old, e, k) = >>=-eq-ok (is_expired parse cutoff r) _ h in
    let (c', f, g) = >>=-eq-ok (if old then bury r c else ok (retain r c)) _ k in
    let (stays, dropped) = compact_all-IsFiled parse cutoff rs c' g in
    let keeps = is_kept_of_expired parse cutoff r old e in
    elim (Bool-cases old) [
      | inl o ↦
          let (d', fd, gd) = >>=-eq-ok (file_tombstone r c.tombstones) _ (rw o at f) in
          let filed = ap (λ (x : Compaction). x.tombstones) (ok-injective gd) in
          let (before, new) = file_tombstone-IsFiled r c.tombstones fd in
          (
            λ j was. stays j (subst (IsFiled j) filed (before j was)),
            λ x m gone.
                at_head x m gone
                  (stays (strip r.receipt.archival_id)
                    (subst (IsFiled (strip r.receipt.archival_id)) filed new))
                  dropped,
          )
      | inr o ↦
          let same = ap (λ (x : Compaction). x.tombstones) (ok-injective (rw o at f)) in
          (
            λ j was. stays j (subst (IsFiled j) same was),
            λ x m gone. past_head x m gone (keeps ∙ ap not o) dropped,
          )
    ]
  where
    at_head :
        (x : ArchivalRecord)
        → Has x (r ∷ rs)
        → is_kept parse cutoff x ≡ false
        → IsFiled (strip r.receipt.archival_id) d.tombstones
        → ((y : ArchivalRecord)
            → Has y rs
            → is_kept parse cutoff y ≡ false
            → IsFiled (strip y.receipt.archival_id) d.tombstones)
        → IsFiled (strip x.receipt.archival_id) d.tombstones
    at_head x (here q) gone new rest = rw q new
    at_head x (there m) gone new rest = rest x m gone

    past_head :
        (x : ArchivalRecord)
        → Has x (r ∷ rs)
        → is_kept parse cutoff x ≡ false
        → is_kept parse cutoff r ≡ true
        → ((y : ArchivalRecord)
            → Has y rs
            → is_kept parse cutoff y ≡ false
            → IsFiled (strip y.receipt.archival_id) d.tombstones)
        → IsFiled (strip x.receipt.archival_id) d.tombstones
    past_head x (here q) gone kept rest = absurd (ground (arith, ap (is_kept parse cutoff) q))
    past_head x (there m) gone kept rest = rest x m gone

-- Compaction leaves a part of the records, and every record that it drops is terminal and leaves a
-- tombstone of its stripped identity.
pub compact_archival_records-IsEntombed :
    (parse : ParseInstant) (before : String) {n : ℕ} {after : Ledger} (ledger : Ledger)
    → compact_archival_records parse before ledger ≡ ok (n, after)
    → (p : ArchivalRecord → Bool) × (after.records ≡ filter p ledger.records)
      × ((r : ArchivalRecord) → p r ≡ false → is_terminal r.receipt.status ≡ true)
      × ((r : ArchivalRecord)
          → Has r ledger.records
          → p r ≡ false
          → IsEntombed (strip r.receipt.archival_id) after.tombstones)
compact_archival_records-IsEntombed parse before ledger h =
    elim (compact_archival_records-cases parse before ledger h) [
      | inl q ↦ (
        λ _. true,
        ap (λ (x : Ledger). x.records) (sym q) ∙ filter_all ledger.records,
        λ r e. absurd (ground arith),
        λ r m e. absurd (ground arith),
      )
      | inr (cutoff, c, f, q) ↦ (
        is_kept parse cutoff,
        ap (λ (x : Ledger). x.records) (sym q)
            ∙ compact_all-retained parse cutoff ledger.records (compaction_of ledger) f,
        unkept_terminal parse cutoff,
        λ r m gone.
            let (t, found, id) =
              (compact_all-IsFiled parse cutoff ledger.records (compaction_of ledger) f).1 r m
                gone in
            (t, subst (λ (x : Ledger). Has t x.tombstones) q (lookup-Has _ c.tombstones found), id),
      )
    ]
