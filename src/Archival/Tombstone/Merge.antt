-- ===== src/Archival/Tombstone/Merge.antt =====
-- `merge_archival_tombstone_batch` of erii/models/archival.py.
use e_r_i_i.Prelude.{
  String, Option, none, some, List, [], ◌∷◌, ◌++◌, map, Bool, true, false, ◌||◌, ◌&&◌, not,
}
use e_r_i_i.Prelude.Dict.{Dict, lookup, insert}
use e_r_i_i.Prelude.Equality.{◌==◌, ◌!=◌, option_eq, string_eq, pair_eq, list_eq}
use e_r_i_i.Prelude.Lists.{any}
use e_r_i_i.Prelude.Order.{pair_ord}
use e_r_i_i.Prelude.Result.{Result, ok, raise_if, ◌>>=◌}
use e_r_i_i.Prelude.Text.{string_ord}
use e_r_i_i.Archival.Types.{
  ArchivalTombstone, ArchivalRecord, ArchivalError, conflict_error, is_terminal, archival_status_eq,
  archival_outcome_code_eq, archival_artifact_kind_eq, archival_artifact_reference_eq,
}
use e_r_i_i.Archival.Tombstone.{from_record, is_stronger, prefer_stronger_commitment}

-- `conflicts`, in the merge
unfoldable pub conflicts : ArchivalTombstone → ArchivalTombstone → Bool
conflicts a b =
    a.relationship_id == b.relationship_id
    && (a.idempotency_fingerprint == b.idempotency_fingerprint
        || a.request_fingerprint == b.request_fingerprint)
    && a.archival_id != b.archival_id

-- a live record of another identity has one of the tombstone's fingerprints
unfoldable pub live_conflicts : String → ArchivalTombstone → ArchivalRecord → Bool
live_conflicts relationship_id t r =
    r.receipt.relationship_id == relationship_id
    && r.receipt.archival_id != t.archival_id
    && (r.idempotency_fingerprint == t.idempotency_fingerprint
        || r.request_fingerprint == t.request_fingerprint)

-- what the merge has so far: `merged`, and `accepted`
pub record Merge : Type 0 where
  pub merged : Dict String ArchivalTombstone
  pub accepted : List ArchivalTombstone

-- `{item.archival_id: item for item in items}`
unfoldable pub tombstones_by_id :
    List ArchivalTombstone → Dict String ArchivalTombstone → Dict String ArchivalTombstone
tombstones_by_id [] d = d
tombstones_by_id (t ∷ ts) d = tombstones_by_id ts (insert t.archival_id t d)

unfoldable pub live_by_id :
    List ArchivalRecord → Dict String ArchivalRecord → Dict String ArchivalRecord
live_by_id [] d = d
live_by_id (r ∷ rs) d = live_by_id rs (insert r.receipt.archival_id r d)

-- the tombstone merged with the one that is there
unfoldable pub with_current :
    Option ArchivalTombstone → ArchivalTombstone → Result ArchivalError ArchivalTombstone
unfolding prefer_stronger_commitment
with_current none t = ok t
with_current (some current) t = prefer_stronger_commitment current t

-- the tombstone merged with the live record of its identity, and whether it is to be kept beside it
unfoldable pub with_live :
    Option ArchivalRecord → ArchivalTombstone → Result ArchivalError (ArchivalTombstone × Bool)
with_live none t = ok (t, true)
with_live (some live) t = do
  _ ← raise_if (not (is_terminal live.receipt.status)) conflict_error
  live_tombstone ← from_record live
  preferred ← prefer_stronger_commitment live_tombstone t
  ok (preferred, is_stronger live_tombstone t)

abbrev insert_some :
    Option ArchivalTombstone
    → ArchivalTombstone
    → Dict String ArchivalTombstone
    → Dict String ArchivalTombstone
insert_some none t d = d
insert_some (some current) t d = insert t.archival_id t d

abbrev keep : Option ArchivalTombstone → Bool → ArchivalTombstone → Merge → Merge
keep none true t m = record {
  merged = insert t.archival_id t m.merged;
  accepted = m.accepted ++ (t ∷ []);
}
keep none false t m = m
keep (some current) retained t m = m

-- one turn of the loop
unfoldable pub merge_tombstone :
    String → List ArchivalRecord → Merge → ArchivalTombstone → Result ArchivalError Merge
unfolding with_current with_live live_by_id
merge_tombstone relationship_id live m t = do
  _ ← raise_if (t.relationship_id != relationship_id) conflict_error
  stronger ← with_current (lookup t.archival_id m.merged) t
  found ← with_live (lookup stronger.archival_id (live_by_id live [])) stronger
  _ ← raise_if (any (live_conflicts relationship_id found.0) live) conflict_error
  _ ← raise_if (any (λ a. conflicts a found.0) m.accepted) conflict_error
  ok (
      keep (lookup t.archival_id m.merged) found.1 found.0
        (record m { merged = insert_some (lookup t.archival_id m.merged) stronger m.merged }))

merge_all :
    String → List ArchivalRecord → List ArchivalTombstone → Merge → Result ArchivalError Merge
unfolding merge_tombstone
merge_all relationship_id live [] m = ok m
merge_all relationship_id live (t ∷ ts) m =
    merge_tombstone relationship_id live m t >>= λ n. merge_all relationship_id live ts n

-- `merge_archival_tombstone_batch`
unfoldable pub merge_archival_tombstone_batch :
    String
    → List ArchivalTombstone
    → List ArchivalTombstone
    → List ArchivalRecord
    → Result ArchivalError (List ArchivalTombstone)
unfolding merge_all tombstones_by_id
merge_archival_tombstone_batch relationship_id incoming existing live = do
  m ←
      merge_all relationship_id live incoming
        (record { merged = tombstones_by_id existing []; accepted = existing })
  ok (map (λ kv. kv.1) m.merged)
