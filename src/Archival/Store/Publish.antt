-- ===== src/Archival/Store/Publish.antt =====
-- The three writes of a record by the holder of its lease: `bind_prepared_archival_batch`,
-- `commit_archival_batch` and `update_archival_record`.
use e_r_i_i.Prelude.{ℕ, ◌+◌, String, Option, none, some, Bool, true, false, ◌||◌, ◌&&◌, not}
use e_r_i_i.Prelude.Dict.{insert}
use e_r_i_i.Prelude.Equality.{◌==◌, ◌!=◌, option_eq, string_eq, nat_eq, ltb, if◌then◌else◌}
use e_r_i_i.Prelude.Lists.{find?}
use e_r_i_i.Prelude.Result.{Result, ok, err, raise_if, ◌>>◌}
use e_r_i_i.Archival.Types.{
  processing, commit, ArchivalRecord, PreparedArchivalBatch, CommitPermit, ArchivalError,
  conflict_error, not_found_error, archival_status_eq, archival_phase_eq, archival_record_eq,
  prepared_archival_batch_eq, commit_permit_eq,
}
use e_r_i_i.Archival.Store.{Ledger, has_id, replace_first}

-- an identity or a fingerprint differs
unfoldable pub identity_changed : ArchivalRecord → ArchivalRecord → Bool
identity_changed e r =
    e.receipt.archival_id != r.receipt.archival_id
    || e.receipt.relationship_id != r.receipt.relationship_id
    || e.idempotency_fingerprint != r.idempotency_fingerprint
    || e.request_fingerprint != r.request_fingerprint

-- `not value`
abbrev pub is_blank : Option String → Bool
is_blank none = true
is_blank (some s) = s == ""

abbrev pub live_until : Option ℕ → ℕ → Bool
live_until none clock = false
live_until (some t) clock = ltb clock t

-- the third test of `_validate_archival_update`
abbrev pub lease_is_lost : ℕ → ArchivalRecord → ArchivalRecord → Bool
lease_is_lost clock e r =
    e.receipt.status != processing
    || is_blank e.lease_token
    || e.lease_token != r.lease_token
    || not (live_until e.lease_expires_at clock)

-- the third test of `_validate_bound_archival_commit`
abbrev pub authority_is_lost : ArchivalRecord → ArchivalRecord → Bool
authority_is_lost e r =
    e.receipt.status != processing
    || e.receipt.phase != commit
    || is_blank e.attempt_id
    || e.attempt_id != r.attempt_id
    || is_blank e.lease_token
    || e.lease_token != r.lease_token

-- `_validate_archival_update`
unfoldable pub validate_archival_update :
    ℕ → ArchivalRecord → ArchivalRecord → Result ArchivalError (Unit {0})
unfolding identity_changed
validate_archival_update clock e r =
    raise_if (identity_changed e r) conflict_error
    >> raise_if (r.record_version != e.record_version + 1) conflict_error
    >> raise_if (lease_is_lost clock e r) conflict_error

-- `_validate_bound_archival_commit`
unfoldable pub validate_bound_archival_commit :
    ArchivalRecord → ArchivalRecord → Result ArchivalError (Unit {0})
unfolding identity_changed
validate_bound_archival_commit e r =
    raise_if (identity_changed e r) conflict_error
    >> raise_if (r.record_version != e.record_version + 1) conflict_error
    >> raise_if (authority_is_lost e r) conflict_error

-- a permit for the digest that has not expired at `clock`
unfoldable pub permits : ℕ → String → Option CommitPermit → Bool
permits clock digest none = false
permits clock digest (some p) = p.binding_digest == digest && ltb clock p.expires_at

-- the ledger with the record in the place of that of its identity
abbrev pub put : ArchivalRecord → Ledger → Ledger
put r ledger = record ledger {
  records = replace_first (has_id r.receipt.archival_id) r ledger.records;
}

-- `bind_prepared_archival_batch`; each of the three reads of the clock has its own value
unfoldable pub bind_prepared_archival_batch :
    ℕ
    → ℕ
    → ArchivalRecord
    → PreparedArchivalBatch
    → Ledger
    → Result ArchivalError (ArchivalRecord × Ledger)
unfolding validate_archival_update permits replace_first
bind_prepared_archival_batch lease_clock permit_clock r batch ledger =
    elim (find? (has_id r.receipt.archival_id) ledger.records) [
      | none ↦ err not_found_error
      | some e ↦
          validate_archival_update lease_clock e r
          >> raise_if (r.prepared_batch != some batch) conflict_error
          >> raise_if (not (permits permit_clock batch.batch_digest r.commit_permit)) conflict_error
          >> raise_if
              (e.commit_binding_digest != none
                && e.commit_binding_digest != some batch.batch_digest)
              conflict_error
          >> ok (r, put r ledger)
    ]

-- the record as it is stored at the end of an attempt
unfoldable pub without_lease : ArchivalRecord → ArchivalRecord
without_lease r = record r {
  lease_token = none;
  lease_expires_at = none;
  attempt_id = none;
  commit_permit = none;
  recovered_expired_lease = false;
}

-- the frozen batch, if the permit of the stored record is for it, is the caller's and has not expired
unfoldable pub permitted_batch : ℕ → ArchivalRecord → ArchivalRecord → Option PreparedArchivalBatch
permitted_batch clock e r = elim e.prepared_batch [
  | none ↦ none
  | some batch ↦
      if e.commit_binding_digest == some batch.batch_digest
        && e.commit_permit == r.commit_permit
        && permits clock batch.batch_digest e.commit_permit
      then some batch
      else none
]

-- `commit_archival_batch`
unfoldable pub commit_archival_batch :
    ℕ → ArchivalRecord → Ledger → Result ArchivalError (ArchivalRecord × Ledger)
unfolding validate_bound_archival_commit permitted_batch without_lease insert
commit_archival_batch clock r ledger = elim (find? (has_id r.receipt.archival_id) ledger.records) [
  | none ↦ err not_found_error
  | some e ↦ validate_bound_archival_commit e r >> elim (permitted_batch clock e r) [
    | none ↦ err conflict_error
    | some batch ↦ ok (
      without_lease r,
      record (put (without_lease r) ledger) {
        artifacts = insert e.receipt.archival_id batch ledger.artifacts;
      },
    )
  ]
]

-- `update_archival_record`
unfoldable pub update_archival_record :
    ℕ → ArchivalRecord → Ledger → Result ArchivalError (ArchivalRecord × Ledger)
unfolding validate_archival_update without_lease
update_archival_record clock r ledger = elim (find? (has_id r.receipt.archival_id) ledger.records) [
  | none ↦ err not_found_error
  | some e ↦
      validate_archival_update clock e r >> ok (without_lease r, put (without_lease r) ledger)
]
