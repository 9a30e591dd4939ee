-- ===== src/TaskQueue/Summary.antt =====
-- The counts of `get_status_summary`, and how `retry_failed` moves them.
use e_r_i_i.Prelude.{◌≡◌, refl, sym, ◌∙◌, ◌≢◌, ℕ, ◌+◌, List, [], ◌∷◌, Option, none, some, arith}
use mathlib.Core.Path.{ap₂}
use e_r_i_i.Prelude.Distinct.{DistinctKeys}
use e_r_i_i.Prelude.Dict.{Dict, lookup}
use e_r_i_i.Prelude.Equality.{◌==◌, nat_eq, if◌then◌else◌}
use e_r_i_i.Prelude.Lists.{All, length, filter}
use e_r_i_i.TaskQueue.{
  TaskRow, TaskStatus, StatusSummary, pending, processing, completed, failed, update_where,
  count_row, group_by_status, set_count, set_counts, get_status_summary, retry_failed,
  task_status_eq,
}

-- the number of rows of a status
abbrev pub rows_of : TaskStatus → List TaskRow → ℕ
rows_of s ts = length (filter (λ t. t.status == s) ts)

-- what the summary says of a status
abbrev pub count_of : TaskStatus → StatusSummary → ℕ
count_of pending m = m.pending
count_of processing m = m.processing
count_of completed m = m.completed
count_of failed m = m.failed

abbrev count_or : ℕ → Option ℕ → ℕ
count_or n none = n
count_or n (some m) = m

count_row-lookup :
    (s r : TaskStatus) (groups : Dict TaskStatus ℕ)
    → count_or 0 (lookup s (count_row r groups))
      ≡ (if r == s then count_or 0 (lookup s groups) + 1 else count_or 0 (lookup s groups))
unfolding count_row lookup
count_row-lookup s r [] = ground arith
count_row-lookup s r ((q, n) ∷ groups) = ground (arith, count_row-lookup s r groups)

group_by_status-lookup :
    (s : TaskStatus) (ts : List TaskRow) → count_or 0 (lookup s (group_by_status ts)) ≡ rows_of s ts
unfolding group_by_status lookup
group_by_status-lookup s [] = refl
group_by_status-lookup s (t ∷ ts) =
    ground (arith, count_row-lookup s t.status (group_by_status ts), group_by_status-lookup s ts)

count_row-All :
    (s r : TaskStatus) (groups : Dict TaskStatus ℕ)
    → s ≢ r
    → All (λ g. s ≢ g.0) groups
    → All (λ g. s ≢ g.0) (count_row r groups)
unfolding count_row
count_row-All s r [] n h = (n, tt)
count_row-All s r ((q, m) ∷ groups) n h = ground (arith, count_row-All s r groups n h.1, h.0)

count_row-DistinctKeys :
    (r : TaskStatus) (groups : Dict TaskStatus ℕ)
    → DistinctKeys (λ g. g.0) groups
    → DistinctKeys (λ g. g.0) (count_row r groups)
unfolding count_row
count_row-DistinctKeys r [] d = (tt, tt)
count_row-DistinctKeys r ((q, m) ∷ groups) d = elim (task_status_eq.dec r q) [
  | yes e ↦ ground (arith, d.0, d.1)
  | no n ↦ ground (
    arith,
    count_row-All q r groups (λ e. n (ground arith)) d.0,
    count_row-DistinctKeys r groups d.1,
  )
]

group_by_status-DistinctKeys : (ts : List TaskRow) → DistinctKeys (λ g. g.0) (group_by_status ts)
unfolding group_by_status
group_by_status-DistinctKeys [] = tt
group_by_status-DistinctKeys (t ∷ ts) =
    count_row-DistinctKeys t.status (group_by_status ts) (group_by_status-DistinctKeys ts)

lookup-none :
    (s : TaskStatus) (groups : Dict TaskStatus ℕ)
    → All (λ g. s ≢ g.0) groups
    → lookup s groups ≡ none
unfolding lookup
lookup-none s [] h = refl
lookup-none s ((r, n) ∷ groups) h = ground (arith, h.0, lookup-none s groups h.1)

count_of-set_count :
    (s r : TaskStatus) (n : ℕ) (m : StatusSummary)
    → count_of s (set_count r n m) ≡ (if s == r then n else count_of s m)
unfolding set_count task_status_eq
count_of-set_count pending pending n m = refl
count_of-set_count pending processing n m = refl
count_of-set_count pending completed n m = refl
count_of-set_count pending failed n m = refl
count_of-set_count processing pending n m = refl
count_of-set_count processing processing n m = refl
count_of-set_count processing completed n m = refl
count_of-set_count processing failed n m = refl
count_of-set_count completed pending n m = refl
count_of-set_count completed processing n m = refl
count_of-set_count completed completed n m = refl
count_of-set_count completed failed n m = refl
count_of-set_count failed pending n m = refl
count_of-set_count failed processing n m = refl
count_of-set_count failed completed n m = refl
count_of-set_count failed failed n m = refl

-- The loop leaves the count of a group, and what there was for a status without one.
count_of-set_counts :
    (s : TaskStatus) (groups : Dict TaskStatus ℕ) (m : StatusSummary)
    → DistinctKeys (λ g. g.0) groups
    → count_of s (set_counts groups m) ≡ count_or (count_of s m) (lookup s groups)
unfolding set_counts lookup
count_of-set_counts s [] m d = refl
count_of-set_counts s ((r, n) ∷ groups) m d =
    let rest = count_of-set_counts s groups (set_count r n m) d.1 in
    let set = count_of-set_count s r n m in
    elim (task_status_eq.dec s r) [
      | yes e ↦ ground (arith, rest, set, lookup-none r groups d.0)
      | no ne ↦ ground (arith, rest, set)
    ]

count_of_nothing :
    (s : TaskStatus)
    → count_of s (record { pending = 0; processing = 0; completed = 0; failed = 0 }) ≡ 0
count_of_nothing pending = refl
count_of_nothing processing = refl
count_of_nothing completed = refl
count_of_nothing failed = refl

-- For each status the summary has the number of rows of that status.
pub get_status_summary_counts :
    (s : TaskStatus) (ts : List TaskRow)
    → count_of s (get_status_summary ts) ≡ length (filter (λ t. t.status == s) ts)
unfolding get_status_summary
get_status_summary_counts s ts =
    count_of-set_counts s (group_by_status ts) _ (group_by_status-DistinctKeys ts)
    ∙ rw (count_of_nothing s) (group_by_status-lookup s ts)

retry_failed_rows :
    (now : ℕ) (ts : List TaskRow)
    → (rows_of failed (retry_failed now ts).1 ≡ 0)
      × (rows_of pending (retry_failed now ts).1 ≡ rows_of pending ts + rows_of failed ts)
      × (rows_of processing (retry_failed now ts).1 ≡ rows_of processing ts)
      × (rows_of completed (retry_failed now ts).1 ≡ rows_of completed ts)
unfolding retry_failed update_where
retry_failed_rows now [] = (refl, refl, refl, refl)
retry_failed_rows now (t ∷ ts) =
    let (b, c, d, e) = retry_failed_rows now ts in
    (ground (arith, b), ground (arith, c), ground (arith, d), ground (arith, e))

-- `retry_failed` returns the number of failed tasks in the summary before it. After it no task is
-- failed, that many more are pending, and the other counts are what they were.
pub retry_failed-get_status_summary :
    (now : ℕ) (ts : List TaskRow)
    → ((retry_failed now ts).0 ≡ (get_status_summary ts).failed)
      × ((get_status_summary (retry_failed now ts).1).failed ≡ 0)
      × ((get_status_summary (retry_failed now ts).1).pending
          ≡ (get_status_summary ts).pending + (get_status_summary ts).failed)
      × ((get_status_summary (retry_failed now ts).1).processing
          ≡ (get_status_summary ts).processing)
      × ((get_status_summary (retry_failed now ts).1).completed ≡ (get_status_summary ts).completed)
unfolding retry_failed
retry_failed-get_status_summary now ts =
    let after = (retry_failed now ts).1 in
    let (b, c, d, e) = retry_failed_rows now ts in
    let failures = get_status_summary_counts failed ts in
    (
      sym failures,
      get_status_summary_counts failed after ∙ b,
      get_status_summary_counts pending after
          ∙ c
          ∙ sym (ap₂ ◌+◌ (get_status_summary_counts pending ts) failures),
      get_status_summary_counts processing after
          ∙ d
          ∙ sym (get_status_summary_counts processing ts),
      get_status_summary_counts completed after ∙ e ∙ sym (get_status_summary_counts completed ts),
    )
