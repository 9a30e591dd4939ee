-- ===== src/Archival/World/Lifecycle/Moves.antt =====
-- How the changes that the calls make to the records move the stage of an archival.
use e_r_i_i.Prelude.{
  ◌≡◌, refl, sym, ap, ◌≢◌, inl, inr, ℕ, String, List, [], ◌∷◌, ◌++◌, Bool, true, false, ◌&&◌, not,
  none, some, arith,
}
use mathlib.Core.Path.{subst}
use e_r_i_i.Prelude.Distinct.{DistinctKeys}
use e_r_i_i.Prelude.Equality.{string_eq, Bool-cases, Option-cases, eq_of_test, leb, if◌then◌else◌}
use e_r_i_i.Prelude.Lists.{Has, here, there, All, All-Has, find?, filter}
use e_r_i_i.Archival.Types.{
  ArchivalStatus, pending, processing, retry_wait, completed, failed, ArchivalRecord,
  ArchivalTombstone, is_terminal, archival_status_eq, ArchivalOutcomeCode,
}
use e_r_i_i.Archival.Store.{has_id, replace_first}
use e_r_i_i.Archival.Store.Lease.{archival_ready}
use e_r_i_i.Archival.Store.Publish.{without_lease}
use e_r_i_i.Prelude.Text.{strip}
use e_r_i_i.Archival.Store.Entombed.{IsEntombed}
use e_r_i_i.Archival.Coordinator.{ArchivalConfig, failed_record, attempts_of}
use e_r_i_i.Archival.World.Table.{id_of, find-Has}
use e_r_i_i.Archival.World.Lifecycle.{
  absent, waiting, running, stage, Call, submission, claim, failure, compaction, StageStep, rests,
  accepts, takes, waits_again, gives_up, buries_success, buries_failure, stage_of,
}

find_of_Has :
    {e : ArchivalRecord} (rs : List ArchivalRecord)
    → DistinctKeys id_of rs
    → Has e rs
    → find? (has_id (id_of e)) rs ≡ some e
find_of_Has [] d m = elim m [ ]
find_of_Has (r ∷ rs) d (here q) = ground (arith, ap id_of q)
find_of_Has (r ∷ rs) d (there m) =
    let n = All-Has (λ v. id_of r ≢ id_of v) d.0 m in ground (arith, find_of_Has rs d.1 m)

find-replace_other :
    (k : String) (p : ArchivalRecord → Bool) (new e : ArchivalRecord) (rs : List ArchivalRecord)
    → find? p rs ≡ some e
    → id_of new ≡ id_of e
    → k ≢ id_of e
    → find? (has_id k) (replace_first p new rs) ≡ find? (has_id k) rs
unfolding replace_first
find-replace_other k p new e [] found same other = cc
find-replace_other k p new e (r ∷ rs) found same other = elim (Bool-cases (p r)) [
  | inl f ↦ let q : r ≡ e = ground arith in rw f (ground (arith, ap id_of q))
  | inr f ↦ rw f (ground (arith, find-replace_other k p new e rs))
]

find-replace_same :
    (p : ArchivalRecord → Bool) (new e : ArchivalRecord) (rs : List ArchivalRecord)
    → find? p rs ≡ some e
    → id_of new ≡ id_of e
    → DistinctKeys id_of rs
    → find? (has_id (id_of e)) (replace_first p new rs) ≡ some new
unfolding replace_first
find-replace_same p new e [] found same d = cc
find-replace_same p new e (r ∷ rs) found same d = elim (Bool-cases (p r)) [
  | inl f ↦ rw f (ground arith)
  | inr f ↦
      let rest : find? p rs ≡ some e = ground arith in
      let n = All-Has (λ v. id_of r ≢ id_of v) d.0 (find-Has p e rs rest).0 in
      rw f (ground (arith, find-replace_same p new e rs rest same d.1))
]

-- The replacement of a record moves its identity as it moves its status.
pub replaced-StageStep :
    {ts : List ArchivalTombstone} {c : Call} (k : String) (p : ArchivalRecord → Bool)
    (new e : ArchivalRecord) (rs : List ArchivalRecord)
    → find? p rs ≡ some e
    → id_of new ≡ id_of e
    → DistinctKeys id_of rs
    → StageStep k ts c (stage e.receipt.status) (stage new.receipt.status)
    → StageStep k ts c (stage_of k rs) (stage_of k (replace_first p new rs))
unfolding stage_of
replaced-StageStep k p new e rs found same d move = elim (string_eq.dec k (id_of e)) [
  | yes q ↦
      let moved =
        λ (es : List ArchivalRecord) (x : ArchivalRecord)
            (f : find? (has_id (id_of e)) es ≡ some x).
          subst (λ j. find? (has_id j) es ≡ some x) (sym q) f in
      rw
        (
          moved rs e (find_of_Has rs d (find-Has p e rs found).0),
          moved (replace_first p new rs) new (find-replace_same p new e rs found same d),
        )
        move
  | no n ↦ rw (find-replace_other k p new e rs found same n) rests
]

find-append_some :
    (p : ArchivalRecord → Bool) (new e : ArchivalRecord) (rs : List ArchivalRecord)
    → find? p rs ≡ some e
    → find? p (rs ++ (new ∷ [])) ≡ some e
find-append_some p new e [] h = cc
find-append_some p new e (r ∷ rs) h = ground (arith, find-append_some p new e rs)

find-append_none :
    (p : ArchivalRecord → Bool) (new : ArchivalRecord) (rs : List ArchivalRecord)
    → find? p rs ≡ none
    → find? p (rs ++ (new ∷ [])) ≡ (if p new then some new else none)
find-append_none p new [] h = refl
find-append_none p new (r ∷ rs) h = ground (arith, find-append_none p new rs)

pub appended-StageStep :
    {ts : List ArchivalTombstone} (k : String) (new : ArchivalRecord) (rs : List ArchivalRecord)
    → stage new.receipt.status ≡ waiting
    → StageStep k ts submission (stage_of k rs) (stage_of k (rs ++ (new ∷ [])))
unfolding stage_of
appended-StageStep k new rs w = elim (Option-cases (find? (has_id k) rs)) [
  | inr (e, f) ↦ rw (f, find-append_some (has_id k) new e rs f) rests
  | inl f ↦
      rw (f, find-append_none (has_id k) new rs f)
        (elim (Bool-cases (has_id k new)) [ inl g ↦ rw g (rw w accepts) | inr g ↦ rw g rests ])
]

terminal-StageStep :
    {k : String} {ts : List ArchivalTombstone} (s : ArchivalStatus)
    → is_terminal s ≡ true
    → IsEntombed (strip k) ts
    → StageStep k ts compaction (stage s) absent
unfolding is_terminal
terminal-StageStep pending e t = absurd (ground arith)
terminal-StageStep processing e t = absurd (ground arith)
terminal-StageStep retry_wait e t = absurd (ground arith)
terminal-StageStep completed e t = buries_success t
terminal-StageStep failed e t = buries_failure t

find-filter-none :
    (r : ArchivalRecord) (p : ArchivalRecord → Bool) (rs : List ArchivalRecord)
    → All (λ v. id_of r ≢ id_of v) rs
    → find? (has_id (id_of r)) (filter p rs) ≡ none
find-filter-none r p [] n = refl
find-filter-none r p (x ∷ rs) n = ground (arith, n.0, find-filter-none r p rs n.1)

-- What is dropped is terminal, and has a tombstone.
pub filtered-StageStep :
    {ts : List ArchivalTombstone} (k : String) (p : ArchivalRecord → Bool)
    (rs : List ArchivalRecord)
    → ((r : ArchivalRecord) → p r ≡ false → is_terminal r.receipt.status ≡ true)
    → ((r : ArchivalRecord) → Has r rs → p r ≡ false → IsEntombed (strip (id_of r)) ts)
    → DistinctKeys id_of rs
    → StageStep k ts compaction (stage_of k rs) (stage_of k (filter p rs))
unfolding stage_of
filtered-StageStep k p [] h g d = rests
filtered-StageStep {ts} k p (r ∷ rs) h g d =
    let rest = filtered-StageStep {ts = ts} k p rs h (λ x m. g x (there m)) d.1 in
    elim (Bool-cases (p r)) [
      | inl e ↦ rw e (elim (Bool-cases (has_id k r)) [ inl f ↦ rw f rests | inr f ↦ rw f rest ])
      | inr e ↦ rw e (elim (Bool-cases (has_id k r)) [
        | inr f ↦ rw f rest
        | inl f ↦
            let q : id_of r ≡ k = eq_of_test _ _ f in
            let gone : find? (has_id k) (filter p rs) ≡ none =
              subst (λ j. find? (has_id j) (filter p rs) ≡ none) q (find-filter-none r p rs d.0) in
            let entombed = subst (λ j. IsEntombed (strip j) ts) q (g r (here refl) e) in
            rw (f, gone) (terminal-StageStep r.receipt.status (h r e) entombed)
      ])
    ]

pub ready-StageStep :
    {k : String} {ts : List ArchivalTombstone} (r : ArchivalRecord) (now : ℕ) (new : ArchivalRecord)
    → archival_ready r now ≡ true
    → new.receipt.status ≡ processing
    → StageStep k ts claim (stage r.receipt.status) (stage new.receipt.status)
unfolding archival_ready
ready-StageStep {k} {ts} r now new ready runs = rw runs (from r.receipt.status refl)
  where
    from : (s : ArchivalStatus) → r.receipt.status ≡ s → StageStep k ts claim (stage s) running
    from pending e = takes
    from processing e = rests
    from retry_wait e = takes
    from completed e = absurd (ground arith)
    from failed e = absurd (ground arith)

pub failed-StageStep :
    {k : String} {ts : List ArchivalTombstone} (cfg : ArchivalConfig) (now : ℕ)
    (now_text summary : String) (outcome : ArchivalOutcomeCode) (retryable : Bool)
    (i : ArchivalRecord)
    → StageStep k ts failure running (
        stage
          (without_lease
            (failed_record cfg now now_text outcome retryable summary i)).receipt.status)
unfolding failed_record without_lease attempts_of
failed-StageStep cfg now now_text summary outcome retryable i =
    elim (Bool-cases
      (retryable && not (retryable && leb cfg.max_attempts (attempts_of i.receipt)))) [
        | inl e ↦ rw (e, attempts_of) waits_again
        | inr e ↦ rw (e, attempts_of) gives_up
      ]
