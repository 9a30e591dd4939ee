-- ===== src/Archival/Store/Compacted.antt =====
-- What compaction leaves of the records, and what a creation and an import leave of them.
use e_r_i_i.Prelude.{
  map, ◌≡◌, refl, sym, ap, ◌∙◌, ◌⊎◌, inl, inr, ℕ, String, List, [], ◌∷◌, ◌++◌, Bool, true, false,
  not, none, arith,
}
use e_r_i_i.Prelude.Equality.{◌==◌, nat_eq, Bool-cases, Option-cases, if◌then◌else◌}
use e_r_i_i.Prelude.Lists.{filter, find?}
use e_r_i_i.Prelude.Result.{ok, err, >>=-eq-ok, ok-injective}
use e_r_i_i.Archival.Types.{ArchivalRecord, ArchivalTombstone, is_terminal}
use e_r_i_i.Archival.Tombstone.Merge.{tombstones_by_id, merge_archival_tombstone_batch}
use e_r_i_i.Archival.Store.{
  Ledger, Created, record_of, create_archival_record, find_tombstone, find_bound, find_or_append,
  same_request,
}
use e_r_i_i.Archival.Store.Compact.{
  Compaction, ParseInstant, is_expired, file_tombstone, bury, retain, compact_all,
  compact_archival_records, import_archival_tombstones,
}

-- the records that are not compacted
unfoldable pub is_kept : ParseInstant → ℕ → ArchivalRecord → Bool
is_kept parse cutoff r = elim (is_expired parse cutoff r) [ ok old ↦ not old | err e ↦ true ]

append_assoc : {A : Type 0} (xs ys zs : List A) → (xs ++ ys) ++ zs ≡ xs ++ (ys ++ zs)
append_assoc [] ys zs = refl
append_assoc (x ∷ xs) ys zs = rw (append_assoc xs ys zs)

append_nil : {A : Type 0} (xs : List A) → xs ++ [] ≡ xs
append_nil [] = refl
append_nil (x ∷ xs) = rw (append_nil xs)

bury-retained :
    (r : ArchivalRecord) (c : Compaction) {d : Compaction}
    → bury r c ≡ ok d
    → d.retained ≡ c.retained
bury-retained r c h =
    let (t, _, g) = >>=-eq-ok (file_tombstone r c.tombstones) _ h in
    ap (λ (x : Compaction). x.retained) (sym (ok-injective g))

pub is_kept_of_expired :
    (parse : ParseInstant) (cutoff : ℕ) (r : ArchivalRecord) (old : Bool)
    → is_expired parse cutoff r ≡ ok old
    → is_kept parse cutoff r ≡ not old
unfolding is_kept
is_kept_of_expired parse cutoff r old e = rw (e, is_kept) refl

pub unkept_terminal :
    (parse : ParseInstant) (cutoff : ℕ) (r : ArchivalRecord)
    → is_kept parse cutoff r ≡ false
    → is_terminal r.receipt.status ≡ true
unfolding is_kept is_expired
unkept_terminal parse cutoff r e = elim (Bool-cases (is_terminal r.receipt.status)) [
  | inl t ↦ t
  | inr f ↦ absurd (ground arith)
]

pub filter_all : {A : Type 0} (xs : List A) → xs ≡ filter (λ _. true) xs
filter_all [] = refl
filter_all (x ∷ xs) = ap (λ ys. x ∷ ys) (filter_all xs)

pub compact_all-retained :
    (parse : ParseInstant) (cutoff : ℕ) (rs : List ArchivalRecord) (c : Compaction) {d : Compaction}
    → compact_all parse cutoff rs c ≡ ok d
    → d.retained ≡ c.retained ++ filter (is_kept parse cutoff) rs
unfolding compact_all is_kept
compact_all-retained parse cutoff [] c h =
    ap (λ (x : Compaction). x.retained) (sym (ok-injective h)) ∙ sym (append_nil c.retained)
compact_all-retained parse cutoff (r ∷ rs) c {d} h =
    let (old, e, k) = >>=-eq-ok (is_expired parse cutoff r) _ h in
    let (c', f, g) = >>=-eq-ok (if old then bury r c else ok (retain r c)) _ k in
    let rest = compact_all-retained parse cutoff rs c' g in
    let keeps = is_kept_of_expired parse cutoff r old e in
    elim (Bool-cases old) [
      | inl o ↦
          let gone : is_kept parse cutoff r ≡ false = rw o at keeps in
          rw gone (
            rest
            ∙ ap (λ xs. xs ++ filter (is_kept parse cutoff) rs) (bury-retained r c (rw o at f)))
      | inr o ↦
          let stays : is_kept parse cutoff r ≡ true = rw o at keeps in
          rw stays (
            rest
            ∙ ap (λ (x : Compaction). x.retained ++ filter (is_kept parse cutoff) rs)
                (sym (ok-injective (rw o at f)))
            ∙ append_assoc c.retained (r ∷ []) _)
    ]

-- the loop at its start
abbrev pub compaction_of : Ledger → Compaction
compaction_of ledger = record {
  tombstones = tombstones_by_id ledger.tombstones [];
  retained = [];
  compacted = 0;
}

-- Compaction changes nothing, or it stores what the loop leaves.
pub compact_archival_records-cases :
    (parse : ParseInstant) (before : String) {n : ℕ} {after : Ledger} (ledger : Ledger)
    → compact_archival_records parse before ledger ≡ ok (n, after)
    → (ledger ≡ after)
      ⊎ ((cutoff : ℕ) × (c : Compaction) × (compact_all parse cutoff ledger.records
              (compaction_of ledger)
            ≡ ok c)
          × (record ledger { records = c.retained; tombstones = map (λ kv. kv.1) c.tombstones }
              ≡ after))
unfolding compact_archival_records
compact_archival_records-cases parse before {n} {after} ledger h =
    let (instant, _, k) = >>=-eq-ok (parse before) _ h in
    elim (Option-cases instant) [
      | inl e ↦ absurd (ground arith)
      | inr (cutoff, e) ↦
          let (c, f, g) =
            >>=-eq-ok (compact_all parse cutoff ledger.records (compaction_of ledger)) _
              (rw e at k) in
          let same = ap (λ p. p.1) (ok-injective g) in
          elim (Bool-cases (c.compacted == 0)) [
            | inl z ↦ inl (rw z at same)
            | inr z ↦ inr (cutoff, c, f, rw z at same)
          ]
    ]

-- Compaction keeps a part of the records, in their order, and the artifacts.
pub compact_archival_records-ok :
    (parse : ParseInstant) (before : String) {n : ℕ} {after : Ledger} (ledger : Ledger)
    → compact_archival_records parse before ledger ≡ ok (n, after)
    → (after.artifacts ≡ ledger.artifacts)
      × (p : ArchivalRecord → Bool) × (after.records ≡ filter p ledger.records)
      × ((r : ArchivalRecord) → p r ≡ false → is_terminal r.receipt.status ≡ true)
compact_archival_records-ok parse before ledger h =
    elim (compact_archival_records-cases parse before ledger h) [
      | inl q ↦ (
        ap (λ (x : Ledger). x.artifacts) (sym q),
        λ _. true,
        ap (λ (x : Ledger). x.records) (sym q) ∙ filter_all ledger.records,
        λ r e. absurd (ground arith),
      )
      | inr (cutoff, c, f, q) ↦ (
        ap (λ (x : Ledger). x.artifacts) (sym q),
        is_kept parse cutoff,
        ap (λ (x : Ledger). x.records) (sym q)
            ∙ compact_all-retained parse cutoff ledger.records (compaction_of ledger) f,
        unkept_terminal parse cutoff,
      )
    ]

-- What is created is a fresh record, at the end, and what there was, stays.
pub create_archival_record-cases :
    (r : ArchivalRecord) {created : Created} {after : Ledger} (ledger : Ledger)
    → create_archival_record r ledger ≡ ok (created, after)
    → (after ≡ ledger)
      ⊎ ((find_bound r ledger.records ≡ ok none)
          × (find? (same_request r) ledger.records ≡ none)
          × (created ≡ record_of r)
          × (after ≡ record ledger { records = ledger.records ++ (r ∷ []) }))
unfolding create_archival_record find_or_append
create_archival_record-cases r ledger h =
    let (found, _, k) = >>=-eq-ok (find_tombstone r ledger.tombstones) _ h in
    elim (Option-cases found) [
      | inr (t, e) ↦ inl (sym (ap (λ p. p.1) (ok-injective (rw e at k))))
      | inl e ↦
          let (bound, b, l) = >>=-eq-ok (find_bound r ledger.records) _ (rw e at k) in
          elim (Option-cases bound) [
            | inr (x, f) ↦ inl (sym (ap (λ p. p.1) (ok-injective (rw f at l))))
            | inl f ↦
                let q = ok-injective (rw f at l) in
                elim (Option-cases (find? (same_request r) ledger.records)) [
                  | inr (x, g) ↦ inl (ground arith)
                  | inl g ↦ inr (b ∙ ap ok f, g, ground arith, ground arith)
                ]
          ]
    ]

-- An import changes the tombstones only.
pub import_archival_tombstones-ok :
    (relationship_id : String) (incoming : List ArchivalTombstone) {after : Ledger}
    (ledger : Ledger)
    → import_archival_tombstones relationship_id incoming ledger ≡ ok after
    → (after.records ≡ ledger.records) × (after.artifacts ≡ ledger.artifacts)
unfolding import_archival_tombstones
import_archival_tombstones-ok relationship_id incoming ledger h =
    let (merged, _, same) =
      >>=-eq-ok
        (merge_archival_tombstone_batch relationship_id incoming ledger.tombstones ledger.records) _
        h in
    let q = sym (ok-injective same) in
    (ap (λ (x : Ledger). x.records) q, ap (λ (x : Ledger). x.artifacts) q)
