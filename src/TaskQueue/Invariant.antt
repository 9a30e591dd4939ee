-- ===== src/TaskQueue/Invariant.antt =====
-- What holds of every row, whatever operations are called.
use e_r_i_i.Prelude.{
  ◌≡◌, refl, ℕ, ◌+◌, String, List, [], ◌∷◌, ◌++◌, Bool, true, false, ◌&&◌, inl, inr, none, some,
  arith,
}
use e_r_i_i.Prelude.Distinct.{DistinctKeys, All-append}
use e_r_i_i.Prelude.Equality.{◌==◌, string_eq, nat_eq, leb, ltb, Bool-cases, Option-cases}
use e_r_i_i.Prelude.Lists.{Has, All, length, filter, find?}
use e_r_i_i.TaskQueue.{
  TaskRow, QueueConfig, pending, processing, failed, update_where, has_id, init_db, enqueue, is_due,
  earliest, dequeue, complete, fail, after_failure, retry_failed, task_status_eq,
}
use e_r_i_i.TaskQueue.Table.{
  update_where-All, update_where-DistinctKeys, append-DistinctKeys, find-Has, only_one,
}

abbrev has_started : TaskRow → Bool
has_started t = elim t.processing_started_at [ none ↦ false | some s ↦ true ]

-- A row has a start exactly while it is processed, has attempts left while it waits or is processed,
-- and has none left when it has failed.
pub record IsRow (t : TaskRow) : Type 0 where
  pub positive : leb 1 t.max_attempts ≡ true
  pub leased : has_started t ≡ (t.status == processing)
  pub waiting : t.status ≡ pending → ltb t.attempts t.max_attempts ≡ true
  pub running : t.status ≡ processing → ltb t.attempts t.max_attempts ≡ true
  pub dead : t.status ≡ failed → leb t.max_attempts t.attempts ≡ true

pub record IsQueue (ts : List TaskRow) : Type 0 where
  pub rows : All IsRow ts
  pub distinct : DistinctKeys (λ t. t.task_id) ts

-- an update that keeps identities and makes rows of rows
update_where-IsQueue :
    (p : TaskRow → Bool) (f : TaskRow → TaskRow) (ts : List TaskRow)
    → ((t : TaskRow) → (f t).task_id ≡ t.task_id)
    → ((t : TaskRow) → Has t ts → p t ≡ true → IsRow t → IsRow (f t))
    → IsQueue ts
    → IsQueue (update_where p f ts)
update_where-IsQueue p f ts same h q = record {
  rows = update_where-All IsRow p f ts h q.rows;
  distinct = update_where-DistinctKeys p f ts same q.distinct;
}

init_db-IsQueue :
    (cfg : QueueConfig) (now : ℕ) (ts : List TaskRow) → IsQueue ts → IsQueue (init_db cfg now ts)
unfolding init_db
init_db-IsQueue cfg now ts =
    update_where-IsQueue _ _ ts (λ t. refl)
      (λ t m e r. record {
        positive = r.positive;
        leased = ground arith;
        waiting = λ w. r.running (ground arith);
        running = λ w. absurd (ground arith);
        dead = λ w. absurd (ground arith);
      })

enqueue-IsQueue :
    (cfg : QueueConfig) (task_id : String) (now : ℕ) (a u m b : String) (ts : List TaskRow)
    {ts' : List TaskRow}
    → leb 1 cfg.max_attempts ≡ true
    → enqueue cfg task_id now a u m b ts ≡ some ts'
    → IsQueue ts
    → IsQueue ts'
unfolding enqueue
enqueue-IsQueue cfg task_id now a u m b ts {ts'} pos h q =
    elim (Option-cases (find? (has_id task_id) ts)) [
      | inr (t, e) ↦ absurd (ground arith)
      | inl e ↦
          let new : TaskRow = record {
            task_id = task_id;
            agent_id = a;
            user_id = u;
            user_msg = m;
            bot_reply = b;
            status = pending;
            attempts = 0;
            max_attempts = cfg.max_attempts;
            created_at = now;
            next_attempt_at = now;
            error_msg = none;
            processing_started_at = none;
          } in
          let p : ts ++ (new ∷ []) ≡ ts' = ground arith in
          rw (← p) (record {
            rows =
                All-append (λ (t : TaskRow). t.task_id) IsRow new ts q.rows
                  (record {
                    positive = pos;
                    leased = ground arith;
                    waiting = λ w. ground arith;
                    running = λ w. absurd (ground arith);
                    dead = λ w. absurd (ground arith);
                  });
            distinct = append-DistinctKeys new ts e q.distinct;
          })
    ]

dequeue-IsQueue : (now : ℕ) (ts : List TaskRow) → IsQueue ts → IsQueue (dequeue now ts).1
unfolding dequeue
dequeue-IsQueue now ts q = elim (Option-cases (earliest (filter (is_due now) ts))) [
  | inl e ↦ rw (e, dequeue) q
  | inr (t, e) ↦
      rw (e, dequeue)
        (elim (Bool-cases
          (length (filter (λ u. u.task_id == t.task_id && u.status == pending) ts) == 1)) [
            | inr f ↦ rw f q
            | inl f ↦ rw f (
                update_where-IsQueue _ _ ts (λ u. refl)
                  (λ u m g r. record {
                    positive = r.positive;
                    leased = ground arith;
                    waiting = λ w. absurd (ground arith);
                    running = λ w. r.waiting (ground arith);
                    dead = λ w. absurd (ground arith);
                  })
                  q)
          ])
]

complete-IsQueue : (k : String) (ts : List TaskRow) → IsQueue ts → IsQueue (complete k ts)
unfolding complete
complete-IsQueue k ts =
    update_where-IsQueue _ _ ts (λ t. refl)
      (λ t m e r. record {
        positive = r.positive;
        leased = ground arith;
        waiting = λ w. absurd (ground arith);
        running = λ w. absurd (ground arith);
        dead = λ w. absurd (ground arith);
      })

after_failure-IsRow :
    (cfg : QueueConfig) (now : ℕ) (msg : String) (t : TaskRow)
    → IsRow t
    → IsRow (after_failure cfg now msg t t)
unfolding after_failure
after_failure-IsRow cfg now msg t r = elim (Bool-cases (leb t.max_attempts (t.attempts + 1))) [
  | inl e ↦ rw e (record {
    positive = r.positive;
    leased = ground arith;
    waiting = λ w. absurd (ground arith);
    running = λ w. absurd (ground arith);
    dead = λ w. e;
  })
  | inr e ↦ rw e (record {
    positive = r.positive;
    leased = ground arith;
    waiting = λ w. ground arith;
    running = λ w. absurd (ground arith);
    dead = λ w. absurd (ground arith);
  })
]

after_failure-task_id :
    (cfg : QueueConfig) (now : ℕ) (msg : String) (row t : TaskRow)
    → (after_failure cfg now msg row t).task_id ≡ t.task_id
unfolding after_failure
after_failure-task_id cfg now msg row t = ground arith

fail-IsQueue :
    (cfg : QueueConfig) (now : ℕ) (k msg : String) (ts : List TaskRow)
    → IsQueue ts
    → IsQueue (fail cfg now k msg ts)
unfolding fail
fail-IsQueue cfg now k msg ts q = elim (Option-cases (find? (has_id k) ts)) [
  | inl e ↦ rw (e, fail) q
  | inr (row, e) ↦
      let (m, p) = find-Has k row ts e in
      rw (e, fail)
        (update_where-IsQueue (has_id k) (after_failure cfg now msg row) ts
          (after_failure-task_id cfg now msg row)
          (λ t n f r.
            rw (only_one ts row t q.distinct m n (ground arith))
              (after_failure-IsRow cfg now msg t r))
          q)
]

retry_failed-IsQueue : (now : ℕ) (ts : List TaskRow) → IsQueue ts → IsQueue (retry_failed now ts).1
unfolding retry_failed
retry_failed-IsQueue now ts =
    update_where-IsQueue _ _ ts (λ t. refl)
      (λ t m e r. record {
        positive = r.positive;
        leased = ground arith;
        waiting = λ w. let p = r.positive in ground arith;
        running = λ w. absurd (ground arith);
        dead = λ w. absurd (ground arith);
      })

-- one operation, at some time
pub data QueueStep (cfg : QueueConfig) (ts : List TaskRow) : List TaskRow → Type 0 where
  recovers : (now : ℕ) → QueueStep cfg ts (init_db cfg now ts)
  enqueues :
      {ts' : List TaskRow} (now : ℕ) (task_id a u m b : String)
      → enqueue cfg task_id now a u m b ts ≡ some ts'
      → QueueStep cfg ts ts'
  dequeues : (now : ℕ) → QueueStep cfg ts (dequeue now ts).1
  completes : (task_id : String) → QueueStep cfg ts (complete task_id ts)
  fails : (now : ℕ) (task_id msg : String) → QueueStep cfg ts (fail cfg now task_id msg ts)
  retries : (now : ℕ) → QueueStep cfg ts (retry_failed now ts).1

-- Every operation keeps the table's invariant, if the queue allows an attempt at all: identities are
-- distinct, a row has a start exactly while it is processed, it has attempts left while it waits or is
-- processed, and it has none left when it has failed.
pub QueueStep-IsQueue :
    (cfg : QueueConfig) {ts ts' : List TaskRow}
    → leb 1 cfg.max_attempts ≡ true
    → QueueStep cfg ts ts'
    → IsQueue ts
    → IsQueue ts'
QueueStep-IsQueue cfg {ts} pos (recovers now) q = init_db-IsQueue cfg now ts q
QueueStep-IsQueue cfg {ts} pos (enqueues now k a u m b e) q =
    enqueue-IsQueue cfg k now a u m b ts pos e q
QueueStep-IsQueue cfg {ts} pos (dequeues now) q = dequeue-IsQueue now ts q
QueueStep-IsQueue cfg {ts} pos (completes k) q = complete-IsQueue k ts q
QueueStep-IsQueue cfg {ts} pos (fails now k msg) q = fail-IsQueue cfg now k msg ts q
QueueStep-IsQueue cfg {ts} pos (retries now) q = retry_failed-IsQueue now ts q
