-- ===== src/TaskQueue.antt =====
-- `PersistentTaskQueue` of erii/core/queue/persistent_queue.py: one table, `archival_tasks`, as the
-- list of its rows in the order of insertion. Every operation runs in one transaction.
--
-- Times and delays are natural numbers of one unit, for the floats of `time.time()`. SQLite leaves open
-- which of two rows with one `created_at` comes first; here it is the one inserted first.
pub mod Table
pub mod Invariant
pub mod Order
pub mod Aside
pub mod Backoff
pub mod Summary
pub mod Tests
use e_r_i_i.Prelude.{
  ◌≡◌, ℕ, ◌+◌, ◌-◌, ◌*◌, ◌^◌, String, List, [], ◌∷◌, ◌++◌, Bool, true, false, ◌&&◌, ◌||◌, not,
  Option, none, some,
}
use e_r_i_i.Prelude.Equality.{Eq, ◌==◌, string_eq, nat_eq, leb, ltb, if◌then◌else◌}
use e_r_i_i.Prelude.Lists.{length, filter, find?}

pub data TaskStatus : Type 0 where
  pending processing completed failed : TaskStatus

TaskStatus-discrete : Discrete TaskStatus
TaskStatus-discrete = hlevel

instance unfoldable pub task_status_eq : Eq TaskStatus
unfolding TaskStatus-discrete
task_status_eq = record { dec = TaskStatus-discrete }

-- a row of `archival_tasks`
pub record TaskRow : Type 0 where
  pub task_id : String
  pub agent_id : String
  pub user_id : String
  pub user_msg : String
  pub bot_reply : String
  pub status : TaskStatus
  pub attempts : ℕ
  pub max_attempts : ℕ
  pub created_at : ℕ
  pub next_attempt_at : ℕ
  pub error_msg : Option String
  pub processing_started_at : Option ℕ

pub record QueueConfig : Type 0 where
  pub base_delay_seconds : ℕ
  pub max_attempts : ℕ
  pub processing_timeout_seconds : ℕ

-- `UPDATE archival_tasks SET ... WHERE ...`
unfoldable pub update_where : (TaskRow → Bool) → (TaskRow → TaskRow) → List TaskRow → List TaskRow
update_where p f [] = []
update_where p f (t ∷ ts) = (if p t then f t else t) ∷ update_where p f ts

abbrev pub has_id : String → TaskRow → Bool
has_id task_id t = t.task_id == task_id

-- `SET status = ?, processing_started_at = ?`
abbrev pub with_status : TaskStatus → Option ℕ → TaskRow → TaskRow
with_status status started t = record t { status = status; processing_started_at = started }

-- `processing_started_at IS NULL OR processing_started_at <= now - timeout`
unfoldable pub is_stale : ℕ → ℕ → Option ℕ → Bool
is_stale now timeout none = true
is_stale now timeout (some started) = leb (started + timeout) now

-- the recovery in `_init_db`, which leaves the rows of a live lease alone
unfoldable pub init_db : QueueConfig → ℕ → List TaskRow → List TaskRow
unfolding update_where is_stale
init_db cfg now =
    update_where
      (λ t.
        t.status == processing
        && is_stale now cfg.processing_timeout_seconds t.processing_started_at)
      (λ t. record t { status = pending; next_attempt_at = now; processing_started_at = none })

-- `enqueue`, with the fresh `uuid4`. None is the IntegrityError of an identity that is taken.
unfoldable pub enqueue :
    QueueConfig
    → String
    → ℕ
    → String
    → String
    → String
    → String
    → List TaskRow
    → Option (List TaskRow)
enqueue cfg task_id now agent_id user_id user_msg bot_reply ts = elim (find? (has_id task_id) ts) [
  | some t ↦ none
  | none ↦ some (
      ts
      ++ (record {
        task_id = task_id;
        agent_id = agent_id;
        user_id = user_id;
        user_msg = user_msg;
        bot_reply = bot_reply;
        status = pending;
        attempts = 0;
        max_attempts = cfg.max_attempts;
        created_at = now;
        next_attempt_at = now;
        error_msg = none;
        processing_started_at = none;
      }
          ∷ []))
]

abbrev pub is_due : ℕ → TaskRow → Bool
is_due now t = t.status == pending && leb t.next_attempt_at now

-- the earlier row, the first of two of one time
unfoldable pub earlier : TaskRow → Option TaskRow → Option TaskRow
earlier t none = some t
earlier t (some u) = if leb t.created_at u.created_at then some t else some u

-- `ORDER BY created_at ASC LIMIT 1`
unfoldable pub earliest : List TaskRow → Option TaskRow
unfolding earlier
earliest [] = none
earliest (t ∷ ts) = earlier t (earliest ts)

-- `dequeue`: the row that the task is built from, and the table after it
unfoldable pub dequeue : ℕ → List TaskRow → Option TaskRow × List TaskRow
unfolding earliest update_where
dequeue now ts = elim (earliest (filter (is_due now) ts)) [
  | none ↦ (none, ts)
  | some t ↦
      let chosen = λ (u : TaskRow). u.task_id == t.task_id && u.status == pending in
      if length (filter chosen ts) == 1
      then (some t, update_where chosen (with_status processing (some now)) ts)
      else (none, ts)
]

-- `complete`
unfoldable pub complete : String → List TaskRow → List TaskRow
unfolding update_where
complete task_id = update_where (has_id task_id) (with_status completed none)

-- the row after a failure
unfoldable pub after_failure : QueueConfig → ℕ → String → TaskRow → TaskRow → TaskRow
after_failure cfg now error_msg row t =
    if leb row.max_attempts (row.attempts + 1)
    then record t {
      status = failed;
      attempts = row.attempts + 1;
      error_msg = some error_msg;
      processing_started_at = none;
    }
    else record t {
      status = pending;
      attempts = row.attempts + 1;
      next_attempt_at = now + cfg.base_delay_seconds * 2 ^ row.attempts;
      error_msg = some error_msg;
      processing_started_at = none;
    }

-- `fail`
unfoldable pub fail : QueueConfig → ℕ → String → String → List TaskRow → List TaskRow
unfolding update_where after_failure
fail cfg now task_id error_msg ts = elim (find? (has_id task_id) ts) [
  | none ↦ ts
  | some row ↦ update_where (has_id task_id) (after_failure cfg now error_msg row) ts
]

pub record StatusSummary : Type 0 where
  pub pending : ℕ
  pub processing : ℕ
  pub completed : ℕ
  pub failed : ℕ

-- a group of one status, with one row more
unfoldable pub count_row : TaskStatus → List (TaskStatus × ℕ) → List (TaskStatus × ℕ)
count_row status [] = (status, 1) ∷ []
count_row status ((other, count) ∷ groups) =
    if status == other
    then (other, count + 1) ∷ groups
    else (other, count) ∷ count_row status groups

-- `SELECT status, COUNT(*) ... GROUP BY status`: a group for each status that a row has
unfoldable pub group_by_status : List TaskRow → List (TaskStatus × ℕ)
unfolding count_row
group_by_status [] = []
group_by_status (t ∷ ts) = count_row t.status (group_by_status ts)

-- `summary[row["status"]] = row["count"]`
unfoldable pub set_count : TaskStatus → ℕ → StatusSummary → StatusSummary
set_count pending count summary = record summary { pending = count }
set_count processing count summary = record summary { processing = count }
set_count completed count summary = record summary { completed = count }
set_count failed count summary = record summary { failed = count }

-- the loop over the rows of the query
unfoldable pub set_counts : List (TaskStatus × ℕ) → StatusSummary → StatusSummary
unfolding set_count
set_counts [] summary = summary
set_counts ((status, count) ∷ groups) summary = set_counts groups (set_count status count summary)

-- `get_status_summary`
unfoldable pub get_status_summary : List TaskRow → StatusSummary
unfolding group_by_status set_counts
get_status_summary ts =
    set_counts (group_by_status ts)
      (record { pending = 0; processing = 0; completed = 0; failed = 0 })

-- `retry_failed`: the number of rows changed, and the table
unfoldable pub retry_failed : ℕ → List TaskRow → ℕ × List TaskRow
unfolding update_where
retry_failed now ts = (
  length (filter (λ t. t.status == failed) ts),
  update_where (λ t. t.status == failed)
      (λ t. record t {
        status = pending;
        attempts = 0;
        next_attempt_at = now;
        processing_started_at = none;
      })
      ts,
)
