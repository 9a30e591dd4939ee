-- ===== src/Archival/Store/Returned.antt =====
-- What a call on the archival ledger has done when it returns.
use e_r_i_i.Prelude.{
  ◌≡◌, sym, ap, ◌⊎◌, inl, inr, ℕ, ◌+◌, String, List, [], ◌∷◌, Bool, true, ◌&&◌, not, Option, none,
  some, arith,
}
use e_r_i_i.Prelude.Dict.{insert}
use e_r_i_i.Prelude.Equality.{◌!=◌, option_eq, string_eq, Bool-cases, Option-cases}
use e_r_i_i.Prelude.Lists.{find?, Has, here, there}
use e_r_i_i.Prelude.Result.{ok, raise_if, ◌>>◌, >>-eq-ok, ok-injective}
use e_r_i_i.Archival.Types.{
  ArchivalRecord, PreparedArchivalBatch, conflict_error, prepared_archival_batch_eq,
  commit_permit_eq,
}
use e_r_i_i.Archival.Store.{
  Ledger, has_id, in_scope, latest_time, replace_first, get_archival_record,
}
use e_r_i_i.Archival.Store.Lease.{
  FreshLease, archival_ready, claimed, is_wanted, claim_next_archival_record, renew_archival_lease,
  holds_lease,
}
use e_r_i_i.Archival.Store.Publish.{
  bind_prepared_archival_batch, commit_archival_batch, update_archival_record, permits, put,
  validate_archival_update, validate_bound_archival_commit, without_lease, permitted_batch,
}

pub find-Has :
    (p : ArchivalRecord → Bool) (e : ArchivalRecord) (rs : List ArchivalRecord)
    → find? p rs ≡ some e
    → Has e rs × (p e ≡ true)
find-Has p e [] h = cc
find-Has p e (r ∷ rs) h = elim (Bool-cases (p r)) [
  | inl f ↦ let q : r ≡ e = ground arith in (here (sym q), rw (← q) f)
  | inr f ↦ let (m, g) = find-Has p e rs (ground arith) in (there m, g)
]

pub get_archival_record-ok :
    (relationship_id archival_id : String) {r : ArchivalRecord} (ledger : Ledger)
    → get_archival_record relationship_id archival_id ledger ≡ ok r
    → find? (in_scope relationship_id archival_id) ledger.records ≡ some r
unfolding get_archival_record
get_archival_record-ok relationship_id archival_id ledger h =
    elim (Option-cases (find? (in_scope relationship_id archival_id) ledger.records)) [
      | inl e ↦ absurd (ground arith)
      | inr (f, e) ↦ ground arith
    ]

-- the test by which a claim finds its record
abbrev pub claimable : ℕ → Option String → ArchivalRecord → Bool
claimable observed_at wanted r = is_wanted wanted r && archival_ready r observed_at

pub claim_next_archival_record-some :
    (fresh : FreshLease) (clock now lease permit : ℕ) (wanted : Option String) {r : ArchivalRecord}
    {after : Ledger} (ledger : Ledger)
    → claim_next_archival_record fresh clock now lease permit wanted ledger ≡ (some r, after)
    → (e : ArchivalRecord) × (find? (claimable (latest_time now clock) wanted) ledger.records
        ≡ some e)
      × (claimed fresh (latest_time now clock) lease permit e ≡ r)
      × (record ledger {
        records = replace_first (claimable (latest_time now clock) wanted) r ledger.records;
      }
          ≡ after)
unfolding claim_next_archival_record
claim_next_archival_record-some fresh clock now lease permit wanted ledger h =
    elim (Option-cases (find? (claimable (latest_time now clock) wanted) ledger.records)) [
      | inl e ↦ absurd (ground arith)
      | inr (x, e) ↦ (x, e, ground arith, ground arith)
    ]

-- A renewal changes nothing, or it moves the expiry of the record that it finds.
pub renew_archival_lease-cases :
    (relationship_id archival_id attempt_id token : String) (clock now lease : ℕ) (ledger : Ledger)
    → ((renew_archival_lease relationship_id archival_id attempt_id token clock now lease ledger).1
        ≡ ledger)
      ⊎ ((e : ArchivalRecord) × (find? (in_scope relationship_id archival_id) ledger.records
            ≡ some e)
          × ((renew_archival_lease relationship_id archival_id attempt_id token clock now lease
                ledger).1
              ≡ record ledger {
                records =
                    replace_first
                      (in_scope relationship_id archival_id)
                      (record e { lease_expires_at = some (latest_time now clock + lease) })
                      ledger.records;
              }))
unfolding renew_archival_lease
renew_archival_lease-cases relationship_id archival_id attempt_id token clock now lease ledger =
    elim (Option-cases (find? (in_scope relationship_id archival_id) ledger.records)) [
      | inl e ↦ inl (ground arith)
      | inr (x, e) ↦ elim (Bool-cases (holds_lease attempt_id token (latest_time now clock) x)) [
        | inl f ↦ inr (x, e, ground arith)
        | inr f ↦ inl (ground arith)
      ]
    ]

pub update_archival_record-ok :
    (clock : ℕ) (new : ArchivalRecord) {r : ArchivalRecord} {after : Ledger} (ledger : Ledger)
    → update_archival_record clock new ledger ≡ ok (r, after)
    → (e : ArchivalRecord) × (find? (has_id new.receipt.archival_id) ledger.records ≡ some e)
      × (validate_archival_update clock e new ≡ ok tt)
      × (without_lease new ≡ r)
      × (put (without_lease new) ledger ≡ after)
unfolding update_archival_record
update_archival_record-ok clock new ledger h =
    elim (Option-cases (find? (has_id new.receipt.archival_id) ledger.records)) [
      | inl e ↦ absurd (ground arith)
      | inr (x, e) ↦
          let (v, g) =
            >>-eq-ok (validate_archival_update clock x new) _
              (rw (e, update_archival_record) at h) in
          let q = ok-injective g in (x, e, v, ap (λ p. p.0) q, ap (λ p. p.1) q)
    ]

pub bind_prepared_archival_batch-ok :
    (lease_clock permit_clock : ℕ) (new : ArchivalRecord) (batch : PreparedArchivalBatch)
    {r : ArchivalRecord} {after : Ledger} (ledger : Ledger)
    → bind_prepared_archival_batch lease_clock permit_clock new batch ledger ≡ ok (r, after)
    → (e : ArchivalRecord) × (find? (has_id new.receipt.archival_id) ledger.records ≡ some e)
      × (validate_archival_update lease_clock e new ≡ ok tt)
      × (new ≡ r)
      × (put new ledger ≡ after)
unfolding bind_prepared_archival_batch
bind_prepared_archival_batch-ok lease_clock permit_clock new batch ledger h =
    elim (Option-cases (find? (has_id new.receipt.archival_id) ledger.records)) [
      | inl e ↦ absurd (ground arith)
      | inr (x, e) ↦
          let valid = validate_archival_update lease_clock x new in
          let same = raise_if (new.prepared_batch != some batch) conflict_error in
          let permitted =
            raise_if (not (permits permit_clock batch.batch_digest new.commit_permit))
              conflict_error in
          let unbound =
            raise_if
              (x.commit_binding_digest != none
                && x.commit_binding_digest != some batch.batch_digest)
              conflict_error in
          let (v, g) =
            >>-eq-ok (valid >> same >> permitted >> unbound) _
              (rw (e, bind_prepared_archival_batch) at h) in
          let (a, _) = >>-eq-ok (valid >> same >> permitted) unbound v in
          let (b, _) = >>-eq-ok (valid >> same) permitted a in
          let (c, _) = >>-eq-ok valid same b in
          let q = ok-injective g in (x, e, c, ap (λ p. p.0) q, ap (λ p. p.1) q)
    ]

pub commit_archival_batch-ok :
    (clock : ℕ) (new : ArchivalRecord) {r : ArchivalRecord} {after : Ledger} (ledger : Ledger)
    → commit_archival_batch clock new ledger ≡ ok (r, after)
    → (e : ArchivalRecord) × (batch : PreparedArchivalBatch) × (find?
          (has_id new.receipt.archival_id)
          ledger.records
        ≡ some e)
      × (validate_bound_archival_commit e new ≡ ok tt)
      × (permitted_batch clock e new ≡ some batch)
      × (without_lease new ≡ r)
      × (record (put (without_lease new) ledger) {
        artifacts = insert e.receipt.archival_id batch ledger.artifacts;
      }
          ≡ after)
unfolding commit_archival_batch
commit_archival_batch-ok clock new ledger h =
    elim (Option-cases (find? (has_id new.receipt.archival_id) ledger.records)) [
      | inl e ↦ absurd (ground arith)
      | inr (x, e) ↦
          let (v, g) =
            >>-eq-ok (validate_bound_archival_commit x new) _
              (rw (e, commit_archival_batch) at h) in
          elim (Option-cases (permitted_batch clock x new)) [
            | inl f ↦ absurd (ground arith)
            | inr (b, f) ↦ (x, b, e, v, f, ground arith, ground arith)
          ]
    ]

-- The batch that is published is the frozen one, which the record is bound to.
pub permitted_batch-some :
    (clock : ℕ) (e new : ArchivalRecord) {batch : PreparedArchivalBatch}
    → permitted_batch clock e new ≡ some batch
    → (e.prepared_batch ≡ some batch)
      × (e.commit_binding_digest ≡ some batch.batch_digest)
      × (e.commit_permit ≡ new.commit_permit)
      × (permits clock batch.batch_digest e.commit_permit ≡ true)
unfolding permitted_batch
permitted_batch-some clock e new {batch} h = elim (Option-cases e.prepared_batch) [
  | inl f ↦ absurd (ground arith)
  | inr (b, f) ↦
      let same : b ≡ batch = ground arith in
      (ground arith, ground arith, ground arith, ground arith)
]
