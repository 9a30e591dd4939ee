-- ===== src/Archival/Store/Lease.antt =====
-- Leases in the archival ledger: `claim_next_archival_record`, `renew_archival_lease`, and the lease of
-- the consumer.
use e_r_i_i.Prelude.{ℕ, ◌+◌, String, Option, none, some, Bool, true, false, ◌&&◌, not}
use e_r_i_i.Prelude.Equality.{◌==◌, ◌!=◌, option_eq, string_eq, nat_eq, leb, ltb, if◌then◌else◌}
use e_r_i_i.Prelude.Lists.{find?}
use e_r_i_i.Archival.Types.{
  pending, processing, retry_wait, extraction, commit, ArchivalRecord, archival_status_eq,
  archival_phase_eq, archival_record_eq, prepared_archival_batch_eq, commit_permit_eq,
}
use e_r_i_i.Archival.Store.{ConsumerLease, Ledger, latest_time, has_id, in_scope, replace_first}

abbrev pub due : Option ℕ → ℕ → Bool
due none now = true
due (some t) now = leb t now

abbrev pub expired : Option ℕ → ℕ → Bool
expired none now = false
expired (some t) now = leb t now

-- `_archival_ready`
unfoldable pub archival_ready : ArchivalRecord → ℕ → Bool
archival_ready r now =
    if r.receipt.status == pending
    then true
    else if r.receipt.status == retry_wait
    then due r.receipt.next_attempt_at now
    else r.receipt.status == processing && expired r.lease_expires_at now

abbrev pub is_wanted : Option String → ArchivalRecord → Bool
is_wanted none r = true
is_wanted (some archival_id) r = has_id archival_id r

-- the fresh values of a claim: `uuid.uuid4()` three times, and the time as text
pub record FreshLease : Type 0 where
  pub lease_token : String
  pub attempt_id : String
  pub permit_token : String
  pub updated_at : String

-- `str(existing.commit_binding_digest)`
abbrev pub digest_text : Option String → String
digest_text none = "None"
digest_text (some digest) = digest

-- the record as it is claimed
unfoldable pub claimed : FreshLease → ℕ → ℕ → ℕ → ArchivalRecord → ArchivalRecord
claimed fresh observed_at lease_seconds permit_seconds r =
    let recovered = r.receipt.status == processing in
    record r {
      receipt = record r.receipt {
        status = processing;
        extraction_attempts =
            if r.receipt.phase == extraction && not recovered
            then r.receipt.extraction_attempts + 1
            else r.receipt.extraction_attempts;
        commit_attempts =
            if r.receipt.phase == commit && not recovered
            then r.receipt.commit_attempts + 1
            else r.receipt.commit_attempts;
        retryable = none;
        safe_summary = none;
        next_attempt_at = none;
        updated_at = fresh.updated_at;
      };
      record_version = r.record_version + 1;
      lease_token = some fresh.lease_token;
      lease_expires_at = some (observed_at + lease_seconds);
      attempt_id = some fresh.attempt_id;
      recovered_expired_lease = recovered;
      commit_permit =
          if r.receipt.phase == commit
          then some (record {
            token = fresh.permit_token;
            binding_digest = digest_text r.commit_binding_digest;
            expires_at = observed_at + permit_seconds;
          })
          else none;
    }

-- `claim_next_archival_record`
unfoldable pub claim_next_archival_record :
    FreshLease → ℕ → ℕ → ℕ → ℕ → Option String → Ledger → Option ArchivalRecord × Ledger
unfolding archival_ready claimed replace_first
claim_next_archival_record fresh clock now lease_seconds permit_seconds archival_id ledger =
    let observed_at = latest_time now clock in
    let ready = λ (r : ArchivalRecord). is_wanted archival_id r && archival_ready r observed_at in
    elim (find? ready ledger.records) [
      | none ↦ (none, ledger)
      | some r ↦
          let new = claimed fresh observed_at lease_seconds permit_seconds r in
          (some new, record ledger { records = replace_first ready new ledger.records })
    ]

-- the lease that the caller names is current
unfoldable pub holds_lease : String → String → ℕ → ArchivalRecord → Bool
holds_lease attempt_id lease_token observed_at r =
    r.receipt.status == processing
    && r.attempt_id == some attempt_id
    && r.lease_token == some lease_token
    && elim r.lease_expires_at [ none ↦ false | some t ↦ ltb observed_at t ]

-- `renew_archival_lease`
unfoldable pub renew_archival_lease :
    String → String → String → String → ℕ → ℕ → ℕ → Ledger → Bool × Ledger
unfolding holds_lease replace_first
renew_archival_lease relationship_id archival_id attempt_id lease_token clock now lease_seconds
      ledger =
    let observed_at = latest_time now clock in
    elim (find? (in_scope relationship_id archival_id) ledger.records) [
      | none ↦ (false, ledger)
      | some r ↦
          if holds_lease attempt_id lease_token observed_at r
          then (
            true,
            record ledger {
              records =
                  replace_first (in_scope relationship_id archival_id)
                    (record r { lease_expires_at = some (observed_at + lease_seconds) })
                    ledger.records;
            },
          )
          else (false, ledger)
    ]

-- the consumer's lease is another's, and has not expired
unfoldable pub held_by_another : String → ℕ → Option ConsumerLease → Bool
held_by_another consumer_id now none = false
held_by_another consumer_id now (some l) = l.consumer_id != consumer_id && ltb now l.expires_at

-- `acquire_archival_consumer`
unfoldable pub acquire_archival_consumer : String → ℕ → ℕ → ℕ → Ledger → Bool × Ledger
unfolding held_by_another
acquire_archival_consumer consumer_id clock now lease_seconds ledger =
    let observed_at = latest_time now clock in
    if held_by_another consumer_id observed_at ledger.consumer_lease then (false, ledger) else (
      true,
      record ledger {
        consumer_lease =
            some (record { consumer_id = consumer_id; expires_at = observed_at + lease_seconds });
      },
    )

-- `release_archival_consumer`
unfoldable pub release_archival_consumer : String → Ledger → Ledger
release_archival_consumer consumer_id ledger = elim ledger.consumer_lease [
  | none ↦ ledger
  | some l ↦
      if l.consumer_id == consumer_id then record ledger { consumer_lease = none } else ledger
]
