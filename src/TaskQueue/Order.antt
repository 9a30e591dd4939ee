-- ===== src/TaskQueue/Order.antt =====
-- Which task `dequeue` hands out, and when.
use e_r_i_i.Prelude.{
  ◌≡◌, refl, ap, ◌∙◌, ◌≢◌, ◌⊎◌, ◌≤◌, ◌<◌, ℕ, ◌+◌, String, List, [], ◌∷◌, Bool, true, false, ◌&&◌,
  inl, inr, none, some, arith,
}
use mathlib.Core.Path.{subst}
use e_r_i_i.Prelude.Equality.{◌==◌, string_eq, nat_eq, leb, Bool-cases, Option-cases}
use e_r_i_i.Prelude.Lists.{Has, here, there, All-Has, length, filter, filter-Has, Has-filter}
use e_r_i_i.TaskQueue.{
  TaskRow, QueueConfig, pending, processing, completed, update_where, has_id, with_status, is_stale,
  init_db, is_due, earliest, dequeue, complete, task_status_eq,
}
use e_r_i_i.TaskQueue.Table.{one_chosen, earliest-some, earliest-none}
use e_r_i_i.TaskQueue.Invariant.{IsQueue, IsRow}

-- where a row of an updated table comes from
pub update_where-Has :
    (p : TaskRow → Bool) (f : TaskRow → TaskRow) (u : TaskRow) (ts : List TaskRow)
    → Has u (update_where p f ts)
    → (t : TaskRow) × Has t ts × (((p t ≡ true) × (u ≡ f t)) ⊎ ((p t ≡ false) × (u ≡ t)))
unfolding update_where
update_where-Has p f u [] m = elim m [ ]
update_where-Has p f u (t ∷ ts) (here e) = elim (Bool-cases (p t)) [
  | inl q ↦ (t, here refl, inl (q, rw q at e))
  | inr q ↦ (t, here refl, inr (q, rw q at e))
]
update_where-Has p f u (t ∷ ts) (there m) =
    let (v, n, c) = update_where-Has p f u ts m in (v, there n, c)

pub dequeue-some :
    (now : ℕ) (ts : List TaskRow) {t : TaskRow} {ts' : List TaskRow}
    → dequeue now ts ≡ (some t, ts')
    → (earliest (filter (is_due now) ts) ≡ some t)
      × (ts'
          ≡ update_where
              (λ u. u.task_id == t.task_id && u.status == pending)
              (with_status processing (some now))
              ts)
unfolding dequeue
dequeue-some now ts {t} {ts'} h = elim (Option-cases (earliest (filter (is_due now) ts))) [
  | inl e ↦ absurd (ground arith)
  | inr (u, e) ↦
      elim (Bool-cases
        (length (filter (λ v. v.task_id == u.task_id && v.status == pending) ts) == 1)) [
          | inr f ↦ absurd (ground arith)
          | inl f ↦
              let q : u ≡ t = ground arith in
              (
                e ∙ ap some q,
                subst
                    (λ v.
                      ts'
                      ≡ update_where (λ w. w.task_id == v.task_id && w.status == pending)
                          (with_status processing (some now)) ts)
                    q (ground arith),
              )
        ]
]

-- In a table that keeps the invariant, what `dequeue` returns is a pending row that is due, and no
-- row that is due was created earlier. It has attempts left.
pub dequeue-earliest :
    (now : ℕ) (ts : List TaskRow) {t : TaskRow} {ts' : List TaskRow}
    → IsQueue ts
    → dequeue now ts ≡ (some t, ts')
    → Has t ts
      × (t.status ≡ pending)
      × (t.next_attempt_at ≤ now)
      × (t.attempts < t.max_attempts)
      × ((u : TaskRow)
          → Has u ts
          → u.status ≡ pending
          → u.next_attempt_at ≤ now
          → t.created_at ≤ u.created_at)
dequeue-earliest now ts {t} q h =
    let (e, f) = dequeue-some now ts h in
    let (m, first) = earliest-some (filter (is_due now) ts) t e in
    let (n, due) = filter-Has (is_due now) ts m in
    let row = All-Has IsRow q.rows n in
    (
      n,
      ground arith,
      ground arith,
      ground (arith, row.waiting),
      λ u k p d.
          let c =
            All-Has (λ v. leb t.created_at v.created_at ≡ true) first
              (Has-filter (is_due now) ts k (ground (arith, p, d))) in
          ground (arith, c),
    )

-- In a table that keeps the invariant, `dequeue` returns nothing only if no pending row is due, and
-- then it leaves the table as it is.
pub dequeue-none :
    (now : ℕ) (ts : List TaskRow) {ts' : List TaskRow}
    → IsQueue ts
    → dequeue now ts ≡ (none, ts')
    → (ts' ≡ ts) × ((t : TaskRow) → Has t ts → t.status ≡ pending → now < t.next_attempt_at)
unfolding dequeue
dequeue-none now ts q h = elim (Option-cases (earliest (filter (is_due now) ts))) [
  | inl e ↦
      let nothing = earliest-none (filter (is_due now) ts) e in
      (
        ground arith,
        λ t m p. elim (Bool-cases (is_due now t)) [
          | inr f ↦ ground arith
          | inl f ↦ elim (subst (Has t) nothing (Has-filter (is_due now) ts m f)) [ ]
        ],
      )
  | inr (t, e) ↦
      let (m, first) = earliest-some (filter (is_due now) ts) t e in
      let (n, due) = filter-Has (is_due now) ts m in
      let one = one_chosen (λ u. u.status == pending) ts t q.distinct n (ground arith) in
      absurd (ground (arith, one))
]

pub dequeued-pending :
    (now : ℕ) (ts : List TaskRow) {t : TaskRow} {ts' : List TaskRow}
    → dequeue now ts ≡ (some t, ts')
    → Has t ts × (t.status ≡ pending) × (t.next_attempt_at ≤ now)
dequeued-pending now ts {t} h =
    let (e, f) = dequeue-some now ts h in
    let (m, first) = earliest-some (filter (is_due now) ts) t e in
    let (n, due) = filter-Has (is_due now) ts m in (n, ground arith, ground arith)

-- Two calls of `dequeue`, one after the other, do not return the same task.
pub dequeue-exclusive :
    (now later : ℕ) (ts : List TaskRow) {t u : TaskRow} {ts' ts'' : List TaskRow}
    → dequeue now ts ≡ (some t, ts')
    → dequeue later ts' ≡ (some u, ts'')
    → u.task_id ≢ t.task_id
dequeue-exclusive now later ts {t} {u} {ts'} h k same =
    let (e, f) = dequeue-some now ts h in
    let (m, waits, due) = dequeued-pending later ts' k in
    let (v, n, c) = update_where-Has _ _ u ts (subst (Has u) f m) in
    elim c [
      | inl (chosen, q) ↦ absurd (ground (arith, ap (λ w. w.status) q))
      | inr (other, q) ↦ absurd (ground (arith, ap (λ w. w.status) q, ap (λ w. w.task_id) q))
    ]

-- The next `dequeue` after `complete` does not return the task.
pub complete_not_dequeued :
    (now : ℕ) (k : String) (ts : List TaskRow) {u : TaskRow} {ts' : List TaskRow}
    → dequeue now (complete k ts) ≡ (some u, ts')
    → u.task_id ≢ k
unfolding complete
complete_not_dequeued now k ts {u} h same =
    let (m, waits, due) = dequeued-pending now (complete k ts) h in
    let (v, n, c) = update_where-Has (has_id k) (with_status completed none) u ts m in
    elim c [
      | inr (other, q) ↦ absurd (ground (arith, ap (λ w. w.task_id) q))
      | inl (chosen, q) ↦ absurd (ground (arith, ap (λ w. w.status) q))
    ]

-- After the recovery at `now`, a row that is still processed started less than the timeout ago.
pub init_db_recovers :
    (cfg : QueueConfig) (now : ℕ) (ts : List TaskRow) (u : TaskRow)
    → Has u (init_db cfg now ts)
    → u.status ≡ processing
    → (started : ℕ) × (u.processing_started_at ≡ some started)
      × (now < started + cfg.processing_timeout_seconds)
unfolding init_db is_stale
init_db_recovers cfg now ts u m p =
    let (v, n, c) =
      update_where-Has
        (λ t.
          t.status == processing
          && is_stale now cfg.processing_timeout_seconds t.processing_started_at)
        (λ t. record t { status = pending; next_attempt_at = now; processing_started_at = none }) u
        ts m in
    elim c [
      | inl (stale, q) ↦ absurd (ground (arith, ap (λ w. w.status) q))
      | inr (live, q) ↦ elim (Option-cases v.processing_started_at) [
        | inl e ↦ absurd (ground (arith, ap (λ w. w.status) q))
        | inr (s, e) ↦
            (s, ap (λ w. w.processing_started_at) q ∙ e, ground (arith, ap (λ w. w.status) q))
      ]
    ]
