-- ===== src/Batch/Finish.antt =====
-- internal/service/batch.go: how the run of a batch begins and ends (`RunBatchExecution` before and after
-- its workers, `finishBatchWithError`, `markBatchCancelled`) and `RequestBatchStop`. What is read from
-- the database is an argument. `next_run` is the reader of cron expressions, a third-party
-- library; the writes succeed. A ratio is a number of hundredths of a percent, an average one of
-- hundredths of a millisecond, without the rounding of a float.
pub mod Summary
use dnsgolang.Base.{
  ℕ, ◌+◌, ◌-◌, ◌*◌, ◌/◌, Bool, true, false, not, ◌&&◌, ◌||◌, Option, none, some, List, [], ◌∷◌,
  if◌then◌else◌, nat_beq, ltb, length, keep, is_empty,
}
use dnsgolang.Base.Text.{Text, txt}
use dnsgolang.Scheduling.Types.{Result, ok, err}
use dnsgolang.Scheduling.Summary.{ratio_hundredths}
use dnsgolang.Batch.Rows.{
  BatchStatus, pending, running, success, partial, failed, cancelled, BatchTarget, BatchOptions,
  WorkItem, BatchResult, work_items,
}
use dnsgolang.Batch.Run.{Flight}

-- The texts of `summary_message`.
pub data BatchSummary : Type 0 where
  no_message no_regions no_targets : BatchSummary
  all_succeeded all_failed stopped_after : ℕ → BatchSummary
  some_succeeded : (total successes : ℕ) → BatchSummary

pub record BatchExecution : Type 0 where
  pub status : BatchStatus
  pub success_count : ℕ
  pub failed_count : ℕ
  pub availability_ratio : ℕ
  pub avg_latency : Option ℕ
  pub summary_message : BatchSummary
  pub finished_at : Option ℕ
  pub stop_requested_at : Option ℕ
  pub cancelled_at : Option ℕ

pub record BatchTask : Type 0 where
  pub protocol : Text
  pub is_scheduled : Bool
  pub schedule_cron : Text
  pub status : BatchStatus
  pub finished_at : Option ℕ
  pub last_run_at : Option ℕ
  pub next_run_at : Option ℕ

-- The two rows that a run writes.
abbrev pub Rows : Type 0
Rows = BatchExecution × BatchTask

abbrev pub is_set : Option ℕ → Bool
is_set none = false
is_set (some at) = true

abbrev pub or_now : ℕ → Option ℕ → Option ℕ
or_now now none = some now
or_now now (some at) = some at

-- A scheduled task gets its next run where its expression can be read; else the column stays.
unfoldable pub rescheduled : (Text → ℕ → Option ℕ) → ℕ → BatchTask → Option ℕ
rescheduled next_run now task =
    if task.is_scheduled
    then elim (next_run task.schedule_cron now) [ none ↦ task.next_run_at | some at ↦ some at ]
    else task.next_run_at

unfoldable pub finish_batch_with_error : ℕ → BatchSummary → Rows → Rows
finish_batch_with_error now message (execution, task) = (
  record execution {
    status = failed;
    finished_at = some now;
    failed_count = 0;
    summary_message = message;
  },
  record task { status = failed; finished_at = some now },
)

-- The rows are those that the database has for the execution.
unfoldable pub mark_batch_cancelled : (Text → ℕ → Option ℕ) → ℕ → List BatchResult → Rows → Rows
unfolding rescheduled
mark_batch_cancelled next_run now rows (execution, task) =
    let successes = length (keep (λ r. r.succeeded) rows) in
    let failures = length (keep (λ r. not r.succeeded) rows) in
    (
      record execution {
        stop_requested_at = or_now now execution.stop_requested_at;
        cancelled_at = or_now now execution.cancelled_at;
        status = cancelled;
        finished_at = some now;
        success_count = successes;
        failed_count = failures;
        availability_ratio = ratio_hundredths successes (successes + failures);
        summary_message = stopped_after (successes + failures);
      },
      record task {
        status = cancelled;
        finished_at = some now;
        last_run_at = some now;
        next_run_at = rescheduled next_run now task;
      },
    )

-- What the first part of a run comes to: it is over already, it returns an error, or its workers begin.
pub data Begun : Type 0 where
  over : Rows → Begun
  fails : Text → Rows → Begun
  flies : List WorkItem → Rows → Begun

-- The targets are the valid ones of the task, by line.
unfoldable pub begin_batch :
    (Text → ℕ → Option ℕ)
    → ℕ
    → Result (List Text)
    → Result (List BatchTarget)
    → BatchOptions
    → List BatchResult
    → Rows
    → Begun
unfolding mark_batch_cancelled finish_batch_with_error
begin_batch next_run now regions targets options rows (execution, task) =
    if is_set execution.stop_requested_at || is_set execution.cancelled_at
    then over (mark_batch_cancelled next_run now rows (execution, task))
    else elim regions [
      | err e ↦ fails e (execution, task)
      | ok codes ↦
          let begun : Rows =
            (record execution { status = running }, record task { status = running }) in
          elim targets [
            | err e ↦ fails e begun
            | ok valid ↦
                if is_empty codes
                then over (finish_batch_with_error now no_regions begun)
                else if is_empty valid
                then over (finish_batch_with_error now no_targets begun)
                else flies (work_items task.protocol options codes valid) begun
          ]
    ]

-- `int(sum / count / 10 + 0.5)`, where there is a latency.
unfoldable pub average : ℕ → ℕ → Option ℕ → Option ℕ
average sum count old = if ltb 0 count then some ((sum + 5 * count) / (10 * count)) else old

abbrev pub max_int : ℕ → ℕ → ℕ
max_int a b = if ltb b a then a else b

-- The end of a run that nothing stopped.
unfoldable pub complete_batch : (Text → ℕ → Option ℕ) → ℕ → ℕ → Flight → Rows → Rows
unfolding rescheduled average
complete_batch next_run now total s (execution, task) =
    let write = λ (status : BatchStatus) (message : BatchSummary).
      let both : Rows = (
        record execution {
          status = status;
          finished_at = some now;
          success_count = s.success_count;
          failed_count = total - s.success_count;
          availability_ratio = ratio_hundredths s.success_count (max_int total 1);
          avg_latency = average s.latency_sum s.latency_count execution.avg_latency;
          summary_message = message;
        },
        record task {
          status = status;
          finished_at = some now;
          last_run_at = some now;
          next_run_at = rescheduled next_run now task;
        },
      ) in
      both in
    if nat_beq s.success_count total
    then write success (all_succeeded total)
    else if ltb 0 s.success_count
    then write partial (some_succeeded total s.success_count)
    else write failed (all_failed total)

-- The end of a run whose workers and writer have ended: `stop_now` is the answer of the last
-- `stopCheck`, the rows are those that the database has. `none` is the error of a write.
unfoldable pub end_batch :
    (Text → ℕ → Option ℕ)
    → ℕ
    → List WorkItem
    → Flight
    → Bool
    → List BatchResult
    → Rows
    → Option Rows
unfolding mark_batch_cancelled complete_batch
end_batch next_run now items s stop_now rows both =
    if s.stopped || stop_now
    then some (mark_batch_cancelled next_run now rows both)
    else if not (is_empty s.lost)
    then none
    else some (complete_batch next_run now (length items) s both)

abbrev pub is_ongoing : BatchStatus → Bool
is_ongoing pending = true
is_ongoing running = true
is_ongoing success = false
is_ongoing partial = false
is_ongoing failed = false
is_ongoing cancelled = false

-- A request for an execution that has ended changes nothing; `none` is an execution that is not there.
unfoldable pub request_batch_stop : ℕ → Option BatchExecution → Option BatchExecution
request_batch_stop now none = none
request_batch_stop now (some execution) = some (
    if not (is_ongoing execution.status) then execution else record execution {
      stop_requested_at = some now;
      cancelled_at = some now;
      status = cancelled;
      finished_at = some now;
    })
