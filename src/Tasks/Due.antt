-- ===== src/Tasks/Due.antt =====
-- internal/service/tasks.go: tasks that repeat, from the end of `CreateTask` on (`RunDueSchedules` and
-- `nextCronRun`). The reader of cron expressions is the parameter `next_run`, which has no time where
-- it refuses the expression. A time is a number of microseconds; zero is the zero time of Go.
pub mod Timed
pub mod Tests
use dnsgolang.Base.{
  ℕ, Bool, true, false, ◌&&◌, Option, none, some, List, [], ◌∷◌, map, ◌==◌, text_eq, if◌then◌else◌,
  leb,
}
use dnsgolang.Base.Text.{Text, txt}
use dnsgolang.Tasks.Create.{NewTask}

-- What a pass reads of the row of a task.
pub record ScheduledTask : Type 0 where
  pub id : ℕ
  pub mode : Text
  pub schedule_cron : Text
  pub is_enabled : Bool
  pub next_run_at : Option ℕ

-- The condition of the query.
unfoldable pub is_due_task : ℕ → ScheduledTask → Bool
is_due_task now task =
    task.mode == txt "schedule"
    && (task.is_enabled && elim task.next_run_at [ none ↦ false | some t ↦ leb t now ])

-- Where the expression is refused, the time of the next run stays as it is.
abbrev pub next_or : Option ℕ → Option ℕ → Option ℕ
next_or (some t) before = some t
next_or none before = before

unfoldable pub advance : (Text → ℕ → Option ℕ) → ℕ → ScheduledTask → ScheduledTask
advance next_run now task = record task {
  next_run_at = next_or (next_run task.schedule_cron now) task.next_run_at;
}

-- The row of a new task with the id that it got.
unfoldable pub scheduled : (Text → ℕ → Option ℕ) → ℕ → ℕ → NewTask → ScheduledTask
unfolding advance
scheduled next_run now id task =
    let row : ScheduledTask = record {
      id = id;
      mode = task.mode;
      schedule_cron = task.schedule_cron;
      is_enabled = true;
      next_run_at = none;
    } in
    if task.mode == txt "schedule" then advance next_run now row else row

-- One task of a pass, with the execution that `buildExecution` made of it, if it did not fail.
unfoldable pub run_due_task :
    (Text → ℕ → Option ℕ)
    → (ScheduledTask → Option ℕ)
    → ℕ
    → ScheduledTask
    → ScheduledTask × Option ℕ
unfolding advance is_due_task
run_due_task next_run build now task =
    if is_due_task now task
    then elim (build task) [
      | none ↦ (task, none)
      | some execution ↦ (advance next_run now task, some execution)
    ]
    else (task, none)

abbrev dispatched : Option ℕ → List ℕ → List ℕ
dispatched none ids = ids
dispatched (some id) ids = id ∷ ids

-- A pass over the tasks, with the executions that it dispatched.
unfoldable pub run_due_schedules :
    (Text → ℕ → Option ℕ)
    → (ScheduledTask → Option ℕ)
    → ℕ
    → List ScheduledTask
    → List ScheduledTask × List ℕ
unfolding run_due_task
run_due_schedules next_run build now [] = ([], [])
run_due_schedules next_run build now (task ∷ tasks) =
    let (row, started) = run_due_task next_run build now task in
    let (rows, ids) = run_due_schedules next_run build now tasks in
    (row ∷ rows, dispatched started ids)
