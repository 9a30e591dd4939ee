-- ===== src/Archival/World/Lifecycle.antt =====
-- What the ledger promises of one archival: a state machine, which the calls implement.
pub mod Moves
pub mod Implements
use e_r_i_i.Prelude.{
  ◌≡◌, refl, sym, ap, ◌∙◌, ◌≢◌, inl, inr, ℕ, String, List, [], ◌∷◌, ◌++◌, Bool, true, false, ◌&&◌,
  not, Option, none, some, arith,
}
use mathlib.Core.Path.{subst}
use e_r_i_i.Prelude.Distinct.{DistinctKeys}
use e_r_i_i.Prelude.Equality.{string_eq, Bool-cases, Option-cases, eq_of_test, leb, if◌then◌else◌}
use e_r_i_i.Prelude.Lists.{Has, here, there, All, All-Has, find?, filter}
use e_r_i_i.Archival.Types.{
  ArchivalStatus, pending, processing, retry_wait, completed, failed, ArchivalRecord,
  ArchivalTombstone, Hashes, is_terminal, archival_status_eq, ArchivalOutcomeCode,
}
use e_r_i_i.Archival.Store.{has_id, latest_time, replace_first}
use e_r_i_i.Archival.Store.Lease.{
  archival_ready, acquire_archival_consumer, release_archival_consumer,
}
use e_r_i_i.Archival.Store.Publish.{without_lease}
use e_r_i_i.Prelude.Text.{strip}
use e_r_i_i.Archival.Store.Entombed.{IsEntombed}
use e_r_i_i.Archival.Store.Compacted.{
  create_archival_record-cases, compact_archival_records-ok, import_archival_tombstones-ok,
}
use e_r_i_i.Archival.Store.Returned.{
  claimable, claim_next_archival_record-some, renew_archival_lease-cases, update_archival_record-ok,
  bind_prepared_archival_batch-ok, commit_archival_batch-ok,
}
use e_r_i_i.Archival.Coordinator.{
  ArchivalConfig, submitted_record, bound_record, completed_receipt, completed_with, failed_record,
  attempts_of,
}
use e_r_i_i.Archival.World.{
  World, WorldStep, submits, claims, renews, reads, binds, commits, fails, compacts, imports,
  acquires, releases,
}
use e_r_i_i.Archival.World.Calls.{
  validate_archival_update-IsAccepted, validate_bound_archival_commit-IsAccepted, accepted_same,
  completed_record-ok,
}
use e_r_i_i.Archival.World.Calls.Versions.{claimed-id, claimed-processing}
use e_r_i_i.Archival.World.Invariant.{IsWorld}
use e_r_i_i.Archival.World.Table.{id_of, find-Has}

-- the stage of an archival: absent, or what its status says
pub data Stage : Type 0 where
  absent waiting running succeeded gave_up : Stage

abbrev pub stage : ArchivalStatus → Stage
stage pending = waiting
stage processing = running
stage retry_wait = waiting
stage completed = succeeded
stage failed = gave_up

-- the calls, as far as the machine tells them apart
pub data Call : Type 0 where
  submission claim commit failure compaction other_call : Call

abbrev pub call_of : {cfg : ArchivalConfig} {h : Hashes} {w v : World} → WorldStep cfg h w v → Call
call_of (submits s fresh e) = submission
call_of (claims fresh clock now archival_id e) = claim
call_of (renews i attempt_id lease_token clock now) = other_call
call_of (reads relationship_id archival_id e) = other_call
call_of (binds lease_clock permit_clock now token processed_at batch outcome m ph e) = other_call
call_of (commits clock completed_at m c e) = commit
call_of (fails clock now now_text safe_summary outcome retryable m e) = failure
call_of (compacts parse before e) = compaction
call_of (imports relationship_id incoming e) = other_call
call_of (acquires consumer_id clock now lease_seconds) = other_call
call_of (releases consumer_id) = other_call

-- One move of the machine for an identity, which only the call in its index makes, with the tombstones
-- of the ledger after the call. From success and from giving up there is no way but out of the ledger,
-- by compaction, and that leaves a tombstone.
pub data StageStep (k : String) (ts : List ArchivalTombstone) : Call → Stage → Stage → Type 0 where
  rests : {c : Call} {s : Stage} → StageStep k ts c s s
  accepts : StageStep k ts submission absent waiting
  takes : StageStep k ts claim waiting running
  waits_again : StageStep k ts failure running waiting
  succeeds : StageStep k ts commit running succeeded
  gives_up : StageStep k ts failure running gave_up
  buries_success : IsEntombed (strip k) ts → StageStep k ts compaction succeeded absent
  buries_failure : IsEntombed (strip k) ts → StageStep k ts compaction gave_up absent

abbrev pub stage_of_found : Option ArchivalRecord → Stage
stage_of_found none = absent
stage_of_found (some r) = stage r.receipt.status

-- the stage of an identity in the ledger
unfoldable pub stage_of : String → List ArchivalRecord → Stage
stage_of k rs = stage_of_found (find? (has_id k) rs)
