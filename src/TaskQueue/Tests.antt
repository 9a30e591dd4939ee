-- ===== src/TaskQueue/Tests.antt =====
-- A queue with one task that waits, one that is processed and one that has failed.
use e_r_i_i.Prelude.{
  ◌≡◌, ◌≢◌, ◌≤◌, ◌<◌, refl, ℕ, ◌+◌, ◌*◌, ◌^◌, String, List, [], ◌∷◌, none, some, arith,
}
use e_r_i_i.Prelude.Distinct.{DistinctKeys}
use e_r_i_i.Prelude.Equality.{string_eq, nat_eq, ne_of_test}
use e_r_i_i.Prelude.Lists.{Has, here, there}
use e_r_i_i.TaskQueue.{
  TaskRow, QueueConfig, pending, processing, init_db, dequeue, complete, fail, retry_failed,
  get_status_summary, update_where, earliest, earlier, is_stale, after_failure, task_status_eq,
}
use e_r_i_i.TaskQueue.Invariant.{IsQueue, IsRow, fails, QueueStep-IsQueue}
use e_r_i_i.TaskQueue.Order.{
  dequeue-earliest, dequeue-none, dequeue-exclusive, complete_not_dequeued, init_db_recovers,
}
use e_r_i_i.TaskQueue.Aside.{stays, follows, completes}
use e_r_i_i.TaskQueue.Backoff.{fail-backoff}
use e_r_i_i.TaskQueue.Summary.{get_status_summary_counts, retry_failed-get_status_summary}

abbrev config : QueueConfig
config = record { base_delay_seconds = 2; max_attempts = 3; processing_timeout_seconds = 300 }

abbrev waits : TaskRow
waits = record {
  task_id = "a";
  agent_id = "agent";
  user_id = "user";
  user_msg = "hi";
  bot_reply = "hello";
  status = pending;
  attempts = 1;
  max_attempts = 3;
  created_at = 10;
  next_attempt_at = 12;
  error_msg = none;
  processing_started_at = none;
}

abbrev runs : TaskRow
runs = record waits {
  task_id = "b";
  status = processing;
  created_at = 5;
  next_attempt_at = 5;
  processing_started_at = some 20;
}

abbrev later_task : TaskRow
later_task = record waits { task_id = "c"; created_at = 11; next_attempt_at = 11 }

abbrev table : List TaskRow
table = waits ∷ runs ∷ later_task ∷ []

waiting-IsRow :
    (k : String) (c n : ℕ)
    → IsRow (record waits { task_id = k; created_at = c; next_attempt_at = n })
waiting-IsRow k c n = record {
  positive = refl;
  leased = ground arith;
  waiting = λ e. refl;
  running = λ e. refl;
  dead = λ e. absurd (ground arith);
}

runs-IsRow : IsRow runs
runs-IsRow = record {
  positive = refl;
  leased = ground arith;
  waiting = λ e. refl;
  running = λ e. refl;
  dead = λ e. absurd (ground arith);
}

table-DistinctKeys : DistinctKeys (λ t. t.task_id) table
unfolding string_eq
table-DistinctKeys = (
  (ne_of_test "a" "b" refl, (ne_of_test "a" "c" refl, tt)),
  ((ne_of_test "b" "c" refl, tt), (tt, tt)),
)

table-IsQueue : IsQueue table
table-IsQueue = record {
  rows = (waiting-IsRow "a" 10 12, (runs-IsRow, (waiting-IsRow "c" 11 11, tt)));
  distinct = table-DistinctKeys;
}

QueueStep-IsQueue_example : IsQueue (fail config 30 "b" "timeout" table)
QueueStep-IsQueue_example = QueueStep-IsQueue config refl (fails 30 "b" "timeout") table-IsQueue

dequeue-earliest_example :
    Has waits table
    × (pending ≡ pending)
    × (12 ≤ 40)
    × (1 < 3)
    × ((u : TaskRow)
        → Has u table
        → u.status ≡ pending
        → u.next_attempt_at ≤ 40
        → 10 ≤ u.created_at)
unfolding dequeue earliest earlier update_where string_eq nat_eq task_status_eq
dequeue-earliest_example = dequeue-earliest 40 table table-IsQueue refl

dequeue-none_example :
    (table ≡ table) × ((t : TaskRow) → Has t table → t.status ≡ pending → 1 < t.next_attempt_at)
unfolding dequeue earliest earlier update_where string_eq nat_eq task_status_eq
dequeue-none_example = dequeue-none 1 table table-IsQueue refl

dequeue-exclusive_example : later_task.task_id ≢ waits.task_id
unfolding dequeue earliest earlier update_where string_eq nat_eq task_status_eq
dequeue-exclusive_example = dequeue-exclusive 40 41 table {t = waits} {u = later_task} refl refl

fail-backoff_example : (1 + 1 < 3) × (30 + 2 * 2 ^ 1 ≤ 34)
unfolding dequeue complete fail after_failure earliest earlier update_where string_eq nat_eq
    task_status_eq
fail-backoff_example =
    fail-backoff config 30 34 "b" "timeout" table {row = runs}
      {u = record runs {
        status = pending;
        attempts = 2;
        next_attempt_at = 34;
        error_msg = some "timeout";
        processing_started_at = none;
      }}
      refl (follows stays (completes "a")) refl refl

complete_not_dequeued_example : later_task.task_id ≢ "a"
unfolding dequeue complete earliest earlier update_where string_eq nat_eq task_status_eq
complete_not_dequeued_example = complete_not_dequeued 40 "a" table {u = later_task} refl

init_db_recovers_example :
    (started : ℕ) × (runs.processing_started_at ≡ some started) × (100 < started + 300)
unfolding init_db is_stale update_where task_status_eq
init_db_recovers_example = init_db_recovers config 100 table runs (there (here refl)) refl

get_status_summary_counts_example : (get_status_summary table).pending ≡ 2
unfolding task_status_eq
get_status_summary_counts_example = get_status_summary_counts pending table

retry_failed-get_status_summary_example :
    ((retry_failed 50 table).0 ≡ (get_status_summary table).failed)
    × ((get_status_summary (retry_failed 50 table).1).failed ≡ 0)
    × ((get_status_summary (retry_failed 50 table).1).pending
        ≡ (get_status_summary table).pending + (get_status_summary table).failed)
    × ((get_status_summary (retry_failed 50 table).1).processing
        ≡ (get_status_summary table).processing)
    × ((get_status_summary (retry_failed 50 table).1).completed
        ≡ (get_status_summary table).completed)
retry_failed-get_status_summary_example = retry_failed-get_status_summary 50 table
