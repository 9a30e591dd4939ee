-- ===== src/TaskQueue/Backoff.antt =====
-- Failures of a task, and the `dequeue` that returns it next.
use mathlib.Core.Path.{subst}
use e_r_i_i.Prelude.{◌≡◌, ap, ◌≤◌, ◌<◌, ℕ, ◌+◌, ◌*◌, ◌^◌, String, List, true, inl, inr, some, arith}
use e_r_i_i.Prelude.Equality.{string_eq, nat_eq, leb, Bool-cases, if◌then◌else◌}
use e_r_i_i.Prelude.Lists.{Has, find?}
use e_r_i_i.TaskQueue.{
  TaskRow, QueueConfig, update_where, has_id, dequeue, fail, after_failure, task_status_eq,
}
use e_r_i_i.TaskQueue.Table.{find-Has}
use e_r_i_i.TaskQueue.Order.{update_where-Has, dequeued-pending}
use e_r_i_i.TaskQueue.Aside.{Aside, IsBackedOff, IsHeld, Has-update_where, Aside-IsHeld}

after_failure-IsBackedOff :
    (cfg : QueueConfig) (now : ℕ) (msg : String) (row t : TaskRow)
    → IsBackedOff row
        (now + cfg.base_delay_seconds * 2 ^ row.attempts)
        (after_failure cfg now msg row t)
unfolding after_failure
after_failure-IsBackedOff cfg now msg row t =
    elim (Bool-cases (leb row.max_attempts (row.attempts + 1))) [
      | inl e ↦
          rw (e, after_failure)
            (record { idle = λ q. absurd (ground arith); waits = λ q. absurd (ground arith) })
      | inr e ↦
          rw (e, after_failure)
            (record {
              idle = λ q. absurd (ground arith);
              waits = λ q. (ground arith, ground arith);
            })
    ]

-- A failure holds the task for the delay.
fail-IsHeld :
    (cfg : QueueConfig) (now : ℕ) (k msg : String) (ts : List TaskRow) {row : TaskRow}
    → find? (has_id k) ts ≡ some row
    → IsHeld k row (now + cfg.base_delay_seconds * 2 ^ row.attempts) (fail cfg now k msg ts)
unfolding fail after_failure
fail-IsHeld cfg now k msg ts {row} found =
    let (n, id) = find-Has k row ts found in
    rw (found, fail)
      (record {
        rows = λ u m same.
            let (t, l, c) = update_where-Has (has_id k) (after_failure cfg now msg row) u ts m in
            elim c [
              | inr (other, q) ↦ absurd (ground (arith, ap (λ (x : TaskRow). x.task_id) q))
              | inl (chosen, q) ↦ rw q (after_failure-IsBackedOff cfg now msg row t)
            ];
        known = (
          after_failure cfg now msg row row,
          let chosen : has_id k row ≡ true = ground (arith, id) in
              subst
                (λ b.
                  Has (if b then after_failure cfg now msg row row else row)
                    (update_where (has_id k) (after_failure cfg now msg row) ts))
                chosen (Has-update_where (has_id k) (after_failure cfg now msg row) ts n),
          ground (arith, id),
        );
      })

-- After a failure, and after any number of calls that neither return the task, nor fail it, nor retry
-- all that have failed, `dequeue` returns the task only if it has attempts left, and not before the
-- delay, which doubles with each failure, has passed.
pub fail-backoff :
    (cfg : QueueConfig) (now later : ℕ) (k msg : String) (ts : List TaskRow) {row u : TaskRow}
    {us us' : List TaskRow}
    → find? (has_id k) ts ≡ some row
    → Aside cfg k (fail cfg now k msg ts) us
    → dequeue later us ≡ (some u, us')
    → u.task_id ≡ k
    → (row.attempts + 1 < row.max_attempts)
      × (now + cfg.base_delay_seconds * 2 ^ row.attempts ≤ later)
fail-backoff cfg now later k msg ts {row} {u} {us} found aside h same =
    let (m, waits, due) = dequeued-pending later us h in
    let held = Aside-IsHeld k row _ cfg aside (fail-IsHeld cfg now k msg ts found) in
    let (left, passed) = (held.rows u m same).waits waits in (left, ground arith)
