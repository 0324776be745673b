-- ===== src/Scheduling/Summary/Status.antt =====
-- internal/service/scheduling.go: the status that `refreshExecutionStatus` writes.
use dnsgolang.Base.{
  ℕ, ◌≤◌, ◌≡◌, refl, Bool, not, ◌&&◌, List, [], ◌∷◌, some, none, arith, any, all, keep, length,
  length-keep, is_empty, ltb, nat_beq, if◌then◌else◌,
}
use dnsgolang.Scheduling.Summary.{
  ExecutionRegion, is_open, success_count, open_count, refresh_execution_status, running, success,
  partial, failed,
}

some_kept :
    (p : ExecutionRegion → Bool) (rows : List ExecutionRegion)
    → ltb 0 (length (keep p rows)) ≡ any p rows
some_kept p [] = refl
some_kept p (r ∷ rows) = ground (arith, some_kept p rows)

all_kept :
    (p : ExecutionRegion → Bool) (rows : List ExecutionRegion)
    → nat_beq (length (keep p rows)) (length rows) ≡ all p rows
all_kept p [] = refl
all_kept p (r ∷ rows) = ground (arith, all_kept p rows, length-keep p rows)

is_empty-length : (rows : List ExecutionRegion) → ltb 0 (length rows) ≡ not (is_empty rows)
is_empty-length [] = refl
is_empty-length (r ∷ rows) = ground arith

any_open :
    (rows : List ExecutionRegion) → ltb 0 (open_count rows) ≡ any (λ r. is_open r.status) rows
unfolding open_count
any_open rows = some_kept (λ r. is_open r.status) rows

any_success : (rows : List ExecutionRegion) → ltb 0 (success_count rows) ≡ any (λ r. r.success) rows
unfolding success_count
any_success rows = some_kept (λ r. r.success) rows

all_success :
    (rows : List ExecutionRegion)
    → nat_beq (success_count rows) (length rows) ≡ all (λ r. r.success) rows
unfolding success_count
all_success rows = all_kept (λ r. r.success) rows

pub success_count-le : (rows : List ExecutionRegion) → success_count rows ≤ length rows
unfolding success_count
success_count-le rows = length-keep (λ r. r.success) rows

-- The status is running while a row is pending or running; then it is success if there are rows
-- and all succeeded, partial if some did, failed if none did. The task gets the same status, the
-- end is stamped exactly when no row is open, and the counts fit: no more rows succeeded than
-- there are.
pub refresh_execution_status-eq :
    (now : ℕ) (rows : List ExecutionRegion)
    → let u = refresh_execution_status now rows in
      (u.status ≡ (
        if any (λ r. is_open r.status) rows
        then running
        else if not (is_empty rows) && all (λ r. r.success) rows
        then success
        else if any (λ r. r.success) rows
        then partial
        else failed))
      × (u.task_status ≡ u.status)
      × (u.finished_at ≡ (if any (λ r. is_open r.status) rows then none else some now))
      × (u.task_last_run_at ≡ u.finished_at)
      × (u.success_region_count ≤ u.total_region_count)
unfolding refresh_execution_status
refresh_execution_status-eq now rows = ground (
  arith,
  any_open rows,
  any_success rows,
  all_success rows,
  is_empty-length rows,
  success_count-le rows,
)
