-- ===== src/Archival/Store/Ready.antt =====
-- When a claim finds a record, against a description of the records that are ready.
use e_r_i_i.Prelude.{
  ◌≡◌, refl, ap, ◌↔◌, ◌≤◌, inl, inr, ℕ, String, List, [], ◌∷◌, Bool, true, Option, none, some,
  arith,
}
use e_r_i_i.Prelude.Equality.{string_eq, nat_eq, Bool-cases, Option-cases}
use e_r_i_i.Prelude.Lists.{Has, here, there, find?}
use e_r_i_i.Archival.Types.{
  pending, processing, retry_wait, ArchivalRecord, archival_status_eq, archival_record_eq,
}
use e_r_i_i.Archival.Store.{Ledger, latest_time}
use e_r_i_i.Archival.Store.Lease.{
  FreshLease, is_wanted, archival_ready, claimed, claim_next_archival_record,
}
use e_r_i_i.Archival.Store.Returned.{find-Has, claimable}

find-some :
    (p : ArchivalRecord → Bool) {e : ArchivalRecord} (rs : List ArchivalRecord)
    → Has e rs
    → p e ≡ true
    → (f : ArchivalRecord) × (find? p rs ≡ some f)
find-some p [] m h = elim m [ ]
find-some p (r ∷ rs) (here q) h = (r, ground (arith, ap p q))
find-some p (r ∷ rs) (there n) h =
    let (f, g) = find-some p rs n h in
    elim (Bool-cases (p r)) [ inl e ↦ (r, rw e refl) | inr e ↦ (f, rw e g) ]

-- A record is ready: it is pending, its retry is due, or the lease of its processing has expired.
pub data IsReady (now : ℕ) (r : ArchivalRecord) : Type 0 where
  waits : r.receipt.status ≡ pending → IsReady now r
  retries : r.receipt.status ≡ retry_wait → r.receipt.next_attempt_at ≡ none → IsReady now r
  retries_at :
      {t : ℕ}
      → r.receipt.status ≡ retry_wait
      → r.receipt.next_attempt_at ≡ some t
      → t ≤ now
      → IsReady now r
  lapsed :
      {t : ℕ}
      → r.receipt.status ≡ processing
      → r.lease_expires_at ≡ some t
      → t ≤ now
      → IsReady now r

-- The caller names the record, or none.
abbrev pub IsWanted : Option String → ArchivalRecord → Type 0
IsWanted none r = Unit
IsWanted (some k) r = r.receipt.archival_id ≡ k

archival_ready_of-IsReady :
    (now : ℕ) (r : ArchivalRecord) → IsReady now r → archival_ready r now ≡ true
unfolding archival_ready
archival_ready_of-IsReady now r (waits e) = ground arith
archival_ready_of-IsReady now r (retries e n) = ground arith
archival_ready_of-IsReady now r (retries_at e n l) = ground arith
archival_ready_of-IsReady now r (lapsed e n l) = ground arith

archival_ready-IsReady :
    (now : ℕ) (r : ArchivalRecord) → archival_ready r now ≡ true → IsReady now r
unfolding archival_ready
archival_ready-IsReady now r h = elim (archival_status_eq.dec r.receipt.status pending) [
  | yes p ↦ waits p
  | no np ↦ elim (archival_status_eq.dec r.receipt.status retry_wait) [
    | yes q ↦ elim (Option-cases r.receipt.next_attempt_at) [
      | inl e ↦ retries q e
      | inr (t, e) ↦ retries_at q e (ground arith)
    ]
    | no nq ↦ elim (Option-cases r.lease_expires_at) [
      | inl e ↦ absurd (ground arith)
      | inr (t, e) ↦ lapsed (ground arith) e (ground arith)
    ]
  ]
]

is_wanted-IsWanted :
    (wanted : Option String) (r : ArchivalRecord) → (is_wanted wanted r ≡ true) ↔ IsWanted wanted r
is_wanted-IsWanted none r = (λ h. tt, λ h. refl)
is_wanted-IsWanted (some k) r = (λ h. ground arith, λ h. ground arith)

-- A claim returns a record if and only if the ledger has one that the caller wants and that is ready
-- as of the later of the caller's and the store's time.
pub claim_next_archival_record_finds :
    (fresh : FreshLease) (clock now lease permit : ℕ) (wanted : Option String) (ledger : Ledger)
    → ((r : ArchivalRecord) × ((claim_next_archival_record fresh clock now lease permit wanted
            ledger).0
          ≡ some r))
      ↔ ((e : ArchivalRecord) × Has e ledger.records
          × IsWanted wanted e
          × IsReady (latest_time now clock) e)
unfolding claim_next_archival_record
claim_next_archival_record_finds fresh clock now lease permit wanted ledger =
    let t = latest_time now clock in
    (
      λ h. elim (Option-cases (find? (claimable t wanted) ledger.records)) [
        | inl e ↦ absurd (ground (arith, h.1))
        | inr (x, e) ↦
            let (m, ready) = find-Has (claimable t wanted) x ledger.records e in
            (
              x,
              m,
              (is_wanted-IsWanted wanted x).0 (ground arith),
              archival_ready-IsReady t x (ground arith),
            )
      ],
      λ h.
          let (e, m, w, ready) = h in
          let a = (is_wanted-IsWanted wanted e).1 w in
          let b = archival_ready_of-IsReady t e ready in
          let (f, found) = find-some (claimable t wanted) ledger.records m (ground arith) in
          (claimed fresh t lease permit f, ground arith),
    )
