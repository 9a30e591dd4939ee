-- ===== src/Archival/Store/Compact.antt =====
-- Tombstones in the archival ledger: `compact_archival_records`, `list_archival_tombstones` and
-- `import_archival_tombstones`.
use e_r_i_i.Prelude.{
  ℕ, ◌+◌, String, Option, none, some, List, [], ◌∷◌, ◌++◌, map, Bool, false, ◌&&◌,
}
use e_r_i_i.Prelude.Dict.{Dict, lookup, insert}
use e_r_i_i.Prelude.Equality.{◌==◌, option_eq, string_eq, nat_eq, leb, if◌then◌else◌}
use e_r_i_i.Prelude.Result.{Result, ok, err, ◌>>=◌}
use e_r_i_i.Archival.Types.{
  ArchivalRecord, ArchivalTombstone, ArchivalError, value_error, is_terminal, archival_status_eq,
  archival_phase_eq, archival_record_eq, prepared_archival_batch_eq, commit_permit_eq,
}
use e_r_i_i.Archival.Tombstone.{from_record, prefer_stronger_commitment, terminal_text}
use e_r_i_i.Archival.Tombstone.Merge.{tombstones_by_id, merge_archival_tombstone_batch}
use e_r_i_i.Archival.Store.{Ledger}

-- the loop of `compact_archival_records`
pub record Compaction : Type 0 where
  pub tombstones : Dict String ArchivalTombstone
  pub retained : List ArchivalRecord
  pub compacted : ℕ

-- `existing.prefer_stronger_commitment(tombstone)`, if there is one
abbrev pub prefer_existing :
    Option ArchivalTombstone → ArchivalTombstone → Result ArchivalError ArchivalTombstone
prefer_existing none t = ok t
prefer_existing (some e) t = prefer_stronger_commitment e t

-- `tombstones[tombstone.archival_id] = tombstone`
abbrev pub file_tombstone :
    ArchivalRecord
    → Dict String ArchivalTombstone
    → Result ArchivalError (Dict String ArchivalTombstone)
file_tombstone r d = do
  t ← from_record r
  u ← prefer_existing (lookup t.archival_id d) t
  ok (insert u.archival_id u d)

-- `datetime.fromisoformat(text.replace("Z", "+00:00"))`: the instant, or none for a time without an
-- offset; a text that is no time raises.
abbrev pub ParseInstant : Type 0
ParseInstant = String → Result ArchivalError (Option ℕ)

abbrev pub not_after : ℕ → Option ℕ → Bool
not_after cutoff none = false
not_after cutoff (some t) = leb t cutoff

-- the record is terminal, and its time is not after the cutoff
unfoldable pub is_expired : ParseInstant → ℕ → ArchivalRecord → Result ArchivalError Bool
is_expired parse cutoff r =
    if is_terminal r.receipt.status
    then (parse (terminal_text r) >>= λ instant. ok (not_after cutoff instant))
    else ok false

abbrev pub retain : ArchivalRecord → Compaction → Compaction
retain r c = record c { retained = c.retained ++ (r ∷ []) }

abbrev pub bury : ArchivalRecord → Compaction → Result ArchivalError Compaction
bury r c = file_tombstone r c.tombstones >>= λ d.
    ok (record c { tombstones = d; compacted = c.compacted + 1 })

unfoldable pub compact_all :
    ParseInstant → ℕ → List ArchivalRecord → Compaction → Result ArchivalError Compaction
unfolding is_expired
compact_all parse cutoff [] c = ok c
compact_all parse cutoff (r ∷ rs) c = is_expired parse cutoff r >>= λ old.
    (if old then bury r c else ok (retain r c)) >>= λ d. compact_all parse cutoff rs d

-- `compact_archival_records`
unfoldable pub compact_archival_records :
    ParseInstant → String → Ledger → Result ArchivalError (ℕ × Ledger)
unfolding compact_all tombstones_by_id
compact_archival_records parse before ledger = parse before >>= λ instant. elim instant [
  | none ↦ err value_error
  | some cutoff ↦
      compact_all parse cutoff ledger.records (record {
        tombstones = tombstones_by_id ledger.tombstones [];
        retained = [];
        compacted = 0;
      })
      >>= λ c. ok (
        c.compacted,
        if c.compacted == 0
            then ledger
            else record ledger { records = c.retained; tombstones = map (λ kv. kv.1) c.tombstones },
      )
]

-- the loops of `list_archival_tombstones`
unfoldable pub tombstones_of_scope :
    String → List ArchivalTombstone → Dict String ArchivalTombstone → Dict String ArchivalTombstone
tombstones_of_scope relationship_id [] d = d
tombstones_of_scope relationship_id (t ∷ ts) d =
    tombstones_of_scope relationship_id ts
      (if t.relationship_id == relationship_id then insert t.archival_id t d else d)

unfoldable pub tombstones_of_records :
    String
    → List ArchivalRecord
    → Dict String ArchivalTombstone
    → Result ArchivalError (Dict String ArchivalTombstone)
tombstones_of_records relationship_id [] d = ok d
tombstones_of_records relationship_id (r ∷ rs) d =
    (if r.receipt.relationship_id == relationship_id && is_terminal r.receipt.status
      then file_tombstone r d
      else ok d)
    >>= λ c. tombstones_of_records relationship_id rs c

-- `list_archival_tombstones`
unfoldable pub list_archival_tombstones :
    String → Ledger → Result ArchivalError (List ArchivalTombstone)
unfolding tombstones_of_scope tombstones_of_records
list_archival_tombstones relationship_id ledger =
    tombstones_of_records relationship_id ledger.records
      (tombstones_of_scope relationship_id ledger.tombstones [])
    >>= λ d. ok (map (λ kv. kv.1) d)

-- `import_archival_tombstones`
unfoldable pub import_archival_tombstones :
    String → List ArchivalTombstone → Ledger → Result ArchivalError Ledger
unfolding merge_archival_tombstone_batch
import_archival_tombstones relationship_id incoming ledger =
    merge_archival_tombstone_batch relationship_id incoming ledger.tombstones ledger.records
    >>= λ merged. ok (record ledger { tombstones = merged })
