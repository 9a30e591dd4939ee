-- ===== src/Archival/Store.antt =====
-- The archival ledger of erii/storage/file_storage.py: one file with the records in the order of their
-- creation, the published artifacts, the lease of the consumer and the tombstones. Every operation
-- reads the file and replaces it under one lock, so that it is a function of the ledger; one that
-- raises writes nothing.
--
-- `clock` is what `time.time()` returns in the call. Fresh identities and timestamps are arguments.
pub mod Lease
pub mod Publish
pub mod Compact
pub mod Returned
pub mod Claims
pub mod Ready
pub mod Compacted
pub mod Entombed
use e_r_i_i.Prelude.{
  ◌≡◌, ℕ, ◌+◌, String, Option, none, some, List, [], ◌∷◌, ◌++◌, map, Bool, true, false, ◌||◌, ◌&&◌,
  not,
}
use e_r_i_i.Prelude.Dict.{Dict, lookup, insert}
use e_r_i_i.Prelude.Equality.{◌==◌, ◌!=◌, option_eq, string_eq, nat_eq, leb, ltb, if◌then◌else◌}
use e_r_i_i.Prelude.Lists.{find?, filter}
use e_r_i_i.Prelude.Result.{Result, ok, err, raise_if, ◌>>◌, ◌>>=◌}
use e_r_i_i.Archival.Types.{
  ArchivalStatus, pending, processing, retry_wait, ArchivalPhase, extraction, commit,
  ArchivalReceipt, ArchivalRecord, ArchivalTombstone, PreparedArchivalBatch, CommitPermit,
  ArchivalError, conflict_error, not_found_error, is_terminal, archival_status_eq,
  archival_phase_eq, archival_record_eq, prepared_archival_batch_eq, commit_permit_eq,
}
use e_r_i_i.Archival.Tombstone.{from_record, prefer_stronger_commitment, terminal_text}
use e_r_i_i.Archival.Tombstone.Merge.{tombstones_by_id, merge_archival_tombstone_batch}

pub record ConsumerLease : Type 0 where
  pub consumer_id : String
  pub expires_at : ℕ

-- `imported_timeline` belongs to the Timeline and is left out.
pub record Ledger : Type 0 where
  pub records : List ArchivalRecord
  pub artifacts : Dict String PreparedArchivalBatch
  pub consumer_lease : Option ConsumerLease
  pub tombstones : List ArchivalTombstone

abbrev pub latest_time : ℕ → ℕ → ℕ
latest_time now clock = if ltb now clock then clock else now

abbrev pub has_id : String → ArchivalRecord → Bool
has_id archival_id r = r.receipt.archival_id == archival_id

abbrev pub in_scope : String → String → ArchivalRecord → Bool
in_scope relationship_id archival_id r =
    r.receipt.relationship_id == relationship_id && r.receipt.archival_id == archival_id

-- `records[index] = new`, at the first record that passes the test
unfoldable pub replace_first :
    (ArchivalRecord → Bool) → ArchivalRecord → List ArchivalRecord → List ArchivalRecord
replace_first p new [] = []
replace_first p new (r ∷ rs) = if p r then new ∷ rs else r ∷ replace_first p new rs

-- what `create_archival_record` returns
pub data Created : Type 0 where
  record_of : ArchivalRecord → Created
  tombstone_of : ArchivalTombstone → Created

-- the first loop of `create_archival_record`, over the tombstones
unfoldable pub find_tombstone :
    ArchivalRecord → List ArchivalTombstone → Result ArchivalError (Option ArchivalTombstone)
find_tombstone r [] = ok none
find_tombstone r (t ∷ ts) =
    let rest = find_tombstone r ts in
    if t.archival_id == r.receipt.archival_id
    then err conflict_error
    else if t.relationship_id != r.receipt.relationship_id
    then rest
    else if t.idempotency_fingerprint == r.idempotency_fingerprint
    then if t.request_fingerprint != r.request_fingerprint then err conflict_error else ok (some t)
    else if t.request_fingerprint == r.request_fingerprint
    then ok (some t)
    else rest

-- the second loop, over the records, by idempotency key and identity
unfoldable pub find_bound :
    ArchivalRecord → List ArchivalRecord → Result ArchivalError (Option ArchivalRecord)
find_bound r [] = ok none
find_bound r (e ∷ es) =
    let rest = find_bound r es in
    if e.receipt.relationship_id == r.receipt.relationship_id
      && e.idempotency_fingerprint == r.idempotency_fingerprint
    then if e.request_fingerprint != r.request_fingerprint then err conflict_error else ok (some e)
    else if e.receipt.archival_id == r.receipt.archival_id
    then if e != r then err conflict_error else ok (some e)
    else rest

-- the test of the third loop
abbrev pub same_request : ArchivalRecord → ArchivalRecord → Bool
same_request r e =
    e.receipt.relationship_id == r.receipt.relationship_id
    && e.request_fingerprint == r.request_fingerprint

-- the third loop, and the record appended if there is none
unfoldable pub find_or_append : ArchivalRecord → Ledger → Created × Ledger
find_or_append r ledger = elim (find? (same_request r) ledger.records) [
  | some e ↦ (record_of e, ledger)
  | none ↦ (record_of r, record ledger { records = ledger.records ++ (r ∷ []) })
]

-- `create_archival_record`
unfoldable pub create_archival_record :
    ArchivalRecord → Ledger → Result ArchivalError (Created × Ledger)
unfolding find_tombstone find_bound find_or_append
create_archival_record r ledger = find_tombstone r ledger.tombstones >>= λ found. elim found [
  | some t ↦ ok (tombstone_of t, ledger)
  | none ↦ find_bound r ledger.records >>= λ bound. elim bound [
    | some e ↦ ok (record_of e, ledger)
    | none ↦ ok (find_or_append r ledger)
  ]
]

-- `get_archival_record`
unfoldable pub get_archival_record : String → String → Ledger → Result ArchivalError ArchivalRecord
get_archival_record relationship_id archival_id ledger =
    elim (find? (in_scope relationship_id archival_id) ledger.records) [
      | none ↦ err not_found_error
      | some r ↦ ok r
    ]

-- `list_archival_records`
unfoldable pub list_archival_records : Option String → Ledger → List ArchivalRecord
list_archival_records none ledger = ledger.records
list_archival_records (some relationship_id) ledger =
    filter (λ r. r.receipt.relationship_id == relationship_id) ledger.records
