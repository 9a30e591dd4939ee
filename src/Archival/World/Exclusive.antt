-- ===== src/Archival/World/Exclusive.antt =====
-- Writes by workers that hold records of one archival.
use e_r_i_i.Prelude.{◌≡◌, refl, sym, ap, ◌∙◌, inl, inr, ℕ, ◌+◌, String, Bool, some, arith}
use mathlib.Core.Option.{some-injective}
use e_r_i_i.Prelude.Equality.{string_eq, eq_of_test}
use e_r_i_i.Prelude.Lists.{Has, find?}
use e_r_i_i.Prelude.Result.{ok}
use e_r_i_i.Archival.Types.{
  processing, ArchivalOutcomeCode, ArchivalRecord, PreparedArchivalBatch, Hashes,
}
use e_r_i_i.Archival.Store.{Ledger, has_id}
use e_r_i_i.Archival.Store.Publish.{
  bind_prepared_archival_batch, commit_archival_batch, update_archival_record, put, without_lease,
}
use e_r_i_i.Archival.Store.Returned.{
  update_archival_record-ok, bind_prepared_archival_batch-ok, commit_archival_batch-ok,
}
use e_r_i_i.Archival.Coordinator.{
  ArchivalConfig, bound_record, completed_receipt, completed_with, completed_record, failed_record,
}
use e_r_i_i.Archival.World.{World}
use e_r_i_i.Archival.World.Calls.{
  IsAccepted, validate_archival_update-IsAccepted, validate_bound_archival_commit-IsAccepted,
  completed_record-ok,
}
use e_r_i_i.Archival.World.Invariant.{IsWorld, SameRecord}
use e_r_i_i.Archival.World.Table.{id_of, find-Has, find-replace_first}

-- The holder of the record writes, and the store accepts it.
pub data Writes (cfg : ArchivalConfig) (h : Hashes) (i : ArchivalRecord) (before : Ledger)
    : Ledger → Type 0 where
  binding :
      (lease_clock permit_clock now : ℕ) (token processed_at : String)
      (batch : PreparedArchivalBatch) (outcome : ArchivalOutcomeCode) {r : ArchivalRecord}
      {after : Ledger}
      → bind_prepared_archival_batch lease_clock permit_clock
          (bound_record cfg now token processed_at batch outcome i)
          batch
          before
        ≡ ok (r, after)
      → Writes cfg h i before after
  committing :
      (clock : ℕ) (completed_at : String) {new r : ArchivalRecord} {after : Ledger}
      → completed_record h completed_at i ≡ ok new
      → commit_archival_batch clock new before ≡ ok (r, after)
      → Writes cfg h i before after
  failing :
      (clock now : ℕ) (now_text safe_summary : String) (outcome : ArchivalOutcomeCode)
      (retryable : Bool) {r : ArchivalRecord} {after : Ledger}
      → update_archival_record clock
          (failed_record cfg now now_text outcome retryable safe_summary i)
          before
        ≡ ok (r, after)
      → Writes cfg h i before after

-- The stored record of the identity, as an accepted write finds it: processed, and of the version that
-- the writer holds.
record IsTarget (i : ArchivalRecord) (ledger : Ledger) : Type 0 where
  target : ArchivalRecord
  found : find? (has_id (id_of i)) ledger.records ≡ some target
  version : i.record_version ≡ target.record_version
  is_processing : target.receipt.status ≡ processing

accepted-IsTarget :
    (i new e : ArchivalRecord) {ledger : Ledger}
    → id_of new ≡ id_of i
    → new.record_version ≡ i.record_version + 1
    → find? (has_id (id_of new)) ledger.records ≡ some e
    → IsAccepted e new
    → IsTarget i ledger
accepted-IsTarget i new e same next found acc = record {
  target = e;
  found = rw (← same) found;
  version = omega (arith, next, acc.next_version);
  is_processing = acc.is_processing;
}

Writes-IsTarget :
    {cfg : ArchivalConfig} {h : Hashes} {i : ArchivalRecord} {before after : Ledger}
    → Writes cfg h i before after
    → IsTarget i before
unfolding bound_record failed_record
Writes-IsTarget {cfg} {i = i} {before} (binding lc pc now token text batch outcome e) =
    let new = bound_record cfg now token text batch outcome i in
    let (x, found, valid, _, _) = bind_prepared_archival_batch-ok lc pc new batch before e in
    accepted-IsTarget i new x refl refl found (validate_archival_update-IsAccepted lc x new valid)
Writes-IsTarget {h = h} {i} {before} (committing clock text c e) =
    let (b, outcome, _, shape) = completed_record-ok h text i c in
    let new = completed_with i (completed_receipt h text b outcome i.receipt) in
    let (x, _, found, valid, _, _, _) = commit_archival_batch-ok clock new before (rw shape at e) in
    accepted-IsTarget i new x refl refl found
      (validate_bound_archival_commit-IsAccepted x new valid).0
Writes-IsTarget {cfg} {i = i} {before} (failing clock now text summary outcome retryable e) =
    let new = failed_record cfg now text outcome retryable summary i in
    let (x, found, valid, _, _) = update_archival_record-ok clock new before e in
    accepted-IsTarget i new x refl refl found
      (validate_archival_update-IsAccepted clock x new valid)

target_same :
    {cfg : ArchivalConfig} {h : Hashes} {w : World} {i : ArchivalRecord}
    → IsWorld cfg h w
    → Has i w.issued
    → (t : IsTarget i w.ledger) → SameRecord i t.target
target_same {w = w} {i} k m t =
    let (n, q) = find-Has (has_id (id_of i)) t.target w.ledger.records t.found in
    elim (k.versions i t.target m n (sym (eq_of_test _ _ q))) [
      | inl older ↦ absurd (omega (arith, older, t.version))
      | inr same ↦ same
    ]

-- Of two workers that hold records of one archival, the store accepts a write of the one attempt only:
-- in a ledger with the invariant, if a bind, commit or failure of each would be accepted, the attempts
-- and their leases are the same.
pub Writes-exclusive :
    {cfg : ArchivalConfig} {h : Hashes} {w : World} {i j : ArchivalRecord} {a b : Ledger}
    → IsWorld cfg h w
    → Has i w.issued
    → Has j w.issued
    → id_of i ≡ id_of j
    → Writes cfg h i w.ledger a
    → Writes cfg h j w.ledger b
    → (i.attempt_id ≡ j.attempt_id) × (i.lease_token ≡ j.lease_token)
Writes-exclusive {w = w} {i} {j} k m n q x y =
    let s = Writes-IsTarget x in
    let t = Writes-IsTarget y in
    let one : s.target ≡ t.target = some-injective s.target t.target (sym s.found ∙ rw q t.found) in
    let p = target_same k m s in
    let r = target_same k n t in
    (
      ap (λ (x : ArchivalRecord). x.attempt_id) p
          ∙ ap (λ (x : ArchivalRecord). x.attempt_id) one
          ∙ ap (λ (x : ArchivalRecord). x.attempt_id) (sym r),
      ap (λ (x : ArchivalRecord). x.lease_token) p
          ∙ ap (λ (x : ArchivalRecord). x.lease_token) one
          ∙ ap (λ (x : ArchivalRecord). x.lease_token) (sym r),
    )

-- What an accepted write leaves under the identity: a record of the next version.
record IsWritten (i : ArchivalRecord) (before after : Ledger) : Type 0 where
  stored : ArchivalRecord
  same_id : id_of stored ≡ id_of i
  version : stored.record_version ≡ i.record_version + 1
  put_back : after.records ≡ (put stored before).records

Writes-IsWritten :
    {cfg : ArchivalConfig} {h : Hashes} {i : ArchivalRecord} {before after : Ledger}
    → Writes cfg h i before after
    → IsWritten i before after
unfolding bound_record failed_record without_lease
Writes-IsWritten {cfg} {i = i} {before} (binding lc pc now token text batch outcome e) =
    let new = bound_record cfg now token text batch outcome i in
    let (_, _, _, _, p) = bind_prepared_archival_batch-ok lc pc new batch before e in
    record {
      stored = new;
      same_id = refl;
      version = refl;
      put_back = ap (λ (x : Ledger). x.records) (sym p);
    }
Writes-IsWritten {h = h} {i} {before} (committing clock text c e) =
    let (b, outcome, _, shape) = completed_record-ok h text i c in
    let new = completed_with i (completed_receipt h text b outcome i.receipt) in
    let (_, _, _, _, _, _, p) = commit_archival_batch-ok clock new before (rw shape at e) in
    record {
      stored = without_lease new;
      same_id = refl;
      version = refl;
      put_back = ap (λ (x : Ledger). x.records) (sym p);
    }
Writes-IsWritten {cfg} {i = i} {before} (failing clock now text summary outcome retryable e) =
    let new = failed_record cfg now text outcome retryable summary i in
    let (_, _, _, _, p) = update_archival_record-ok clock new before e in
    record {
      stored = without_lease new;
      same_id = refl;
      version = refl;
      put_back = ap (λ (x : Ledger). x.records) (sym p);
    }

-- A record that a worker holds is accepted once: after an accepted bind, commit or failure made from
-- it, the store accepts no other made from it.
pub Writes-once :
    {cfg : ArchivalConfig} {h : Hashes} {i : ArchivalRecord} {before after again : Ledger}
    → Writes cfg h i before after
    → ¬ Writes cfg h i after again
Writes-once {i = i} {before} {after} x y =
    let s = Writes-IsTarget x in
    let w = Writes-IsWritten x in
    let t = Writes-IsTarget y in
    let there_is =
      find-replace_first (id_of i) w.stored s.target before.records w.same_id s.found in
    let found : find? (has_id (id_of i)) after.records ≡ some w.stored =
      rw (w.put_back, w.same_id) there_is in
    let same : w.stored ≡ t.target = some-injective _ _ (sym found ∙ t.found) in
    omega (arith, w.version, t.version, ap (λ (r : ArchivalRecord). r.record_version) same)
