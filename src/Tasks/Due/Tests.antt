-- ===== src/Tasks/Due/Tests.antt =====
-- internal/service/tasks.go: the theorem on repeated tasks at a task of every full minute.
use dnsgolang.Base.{
  ℕ, ◌+◌, ◌*◌, ◌/◌, ◌≡◌, ◌≤◌, refl, true, Option, none, some, List, [], ◌∷◌, text_beq,
}
use dnsgolang.Base.Text.{Text, txt}
use dnsgolang.Tasks.Create.{NewTask}
use dnsgolang.Tasks.Due.{
  ScheduledTask, is_due_task, advance, scheduled, run_due_task, run_due_schedules,
}
use dnsgolang.Tasks.Due.Timed.{IsTimed, runs_of, run_due_task-IsTimed}

-- The next full minute, in seconds.
abbrev next_minute : Text → ℕ → Option ℕ
next_minute cron now = some ((now / 60 + 1) * 60)

abbrev built : ℕ → ScheduledTask → Option ℕ
built now task = some now

abbrev task : ScheduledTask
task = record {
  id = 1;
  mode = txt "schedule";
  schedule_cron = txt "* * * * *";
  is_enabled = true;
  next_run_at = some 60;
}

abbrev new_row : NewTask
new_row = record {
  mode = txt "schedule";
  protocol = txt "ping";
  target = txt "1.2.3.4";
  target_display = txt "1.2.3.4";
  regions = [];
  options = [];
  schedule_cron = txt "* * * * *";
  source = txt "user";
  created_by = none;
}

scheduled-new_row : scheduled next_minute 10 1 new_row ≡ task
unfolding scheduled advance text_beq
scheduled-new_row = refl

abbrev clocks : List ℕ
clocks = 30 ∷ 61 ∷ 90 ∷ 130 ∷ []

run_due_task-IsTimed_example :
    IsTimed (next_minute task.schedule_cron) (some 60) (runs_of next_minute built clocks task)
    × ((now t id : ℕ)
        → task.mode ≡ txt "schedule"
        → task.is_enabled ≡ true
        → task.next_run_at ≡ some t
        → t ≤ now
        → built now task ≡ some id
        → runs_of next_minute built (now ∷ clocks) task
          ≡ now ∷ runs_of next_minute built clocks (advance next_minute now task))
run_due_task-IsTimed_example = run_due_task-IsTimed next_minute built clocks task

runs_of-task : runs_of next_minute built clocks task ≡ 61 ∷ 130 ∷ []
unfolding runs_of run_due_task is_due_task advance text_beq
runs_of-task = refl

run_due_schedules_two :
    (run_due_schedules next_minute
      (built 61)
      61
      (task ∷ record task { next_run_at = some 120 } ∷ [])).1
    ≡ 61 ∷ []
unfolding run_due_schedules run_due_task is_due_task advance text_beq
run_due_schedules_two = refl
