-- ===== src/Tasks/Due/Timed.antt =====
-- internal/service/tasks.go: when the passes of `RunDueSchedules` start a task.
use dnsgolang.Base.{
  ℕ, ◌≤◌, ◌≡◌, inl, inr, true, false, Option, none, some, List, [], ◌∷◌, arith, refl, Bool-cases,
  Option-cases, ap, map, ◌∙◌, ◌&&◌, leb, ◌==◌, text_eq, text_beq,
}
use dnsgolang.Base.Text.{Text, txt}
use dnsgolang.Tasks.Due.{
  ScheduledTask, is_due_task, next_or, advance, run_due_task, run_due_schedules,
}

-- A start at this clock, if there is one, before the others.
abbrev noted : Option ℕ → ℕ → List ℕ → List ℕ
noted none now starts = starts
noted (some id) now starts = now ∷ starts

-- The clocks at which the task is started by passes at these clocks.
unfoldable pub runs_of :
    (Text → ℕ → Option ℕ) → (ℕ → ScheduledTask → Option ℕ) → List ℕ → ScheduledTask → List ℕ
runs_of next_run build [] task = []
runs_of next_run build (now ∷ clocks) task =
    let (row, started) = run_due_task next_run (build now) now task in
    noted started now (runs_of next_run build clocks row)

-- Nothing starts before its time, and after a start the time is the one that the expression gives.
abbrev pub IsTimed : (ℕ → Option ℕ) → Option ℕ → List ℕ → Type 0
IsTimed next at [] = Unit
IsTimed next at (now ∷ starts) =
    (t : ℕ) × (at ≡ some t) × (t ≤ now) × IsTimed next (next_or (next now) at) starts

due_time :
    (now : ℕ) (task : ScheduledTask)
    → is_due_task now task ≡ true
    → (t : ℕ) × (task.next_run_at ≡ some t) × (t ≤ now)
unfolding is_due_task
due_time now task due = elim (Option-cases task.next_run_at) [
  | inl e ↦
      let due' : (task.mode == txt "schedule" && (task.is_enabled && false)) ≡ true = rw e at due in
      ground arith
  | inr (t, e) ↦
      let due' : (task.mode == txt "schedule" && (task.is_enabled && leb t now)) ≡ true =
        rw e at due in
      (t, e, ground arith)
]

run_due_task-early :
    (next_run : Text → ℕ → Option ℕ) (build : ScheduledTask → Option ℕ) (now : ℕ)
    (task : ScheduledTask)
    → is_due_task now task ≡ false
    → run_due_task next_run build now task ≡ (task, none)
unfolding run_due_task
run_due_task-early next_run build now task early = rw early refl

run_due_task-failed :
    (next_run : Text → ℕ → Option ℕ) (build : ScheduledTask → Option ℕ) (now : ℕ)
    (task : ScheduledTask)
    → build task ≡ none
    → run_due_task next_run build now task ≡ (task, none)
unfolding run_due_task
run_due_task-failed next_run build now task e = elim (Bool-cases (is_due_task now task)) [
  | inl due ↦ rw due (rw e refl)
  | inr early ↦ rw early refl
]

run_due_task-started :
    (next_run : Text → ℕ → Option ℕ) (build : ScheduledTask → Option ℕ) (now id : ℕ)
    (task : ScheduledTask)
    → is_due_task now task ≡ true
    → build task ≡ some id
    → run_due_task next_run build now task ≡ (advance next_run now task, some id)
unfolding run_due_task
run_due_task-started next_run build now id task due e = rw due (rw e refl)

runs_of-step :
    (next_run : Text → ℕ → Option ℕ) (build : ℕ → ScheduledTask → Option ℕ) (now : ℕ)
    (clocks : List ℕ) (task row : ScheduledTask) (started : Option ℕ)
    → run_due_task next_run (build now) now task ≡ (row, started)
    → runs_of next_run build (now ∷ clocks) task
      ≡ noted started now (runs_of next_run build clocks row)
unfolding runs_of
runs_of-step next_run build now clocks task row started e =
    ap (λ p. noted p.1 now (runs_of next_run build clocks p.0)) e

runs_of-IsTimed :
    (next_run : Text → ℕ → Option ℕ) (build : ℕ → ScheduledTask → Option ℕ) (clocks : List ℕ)
    (task : ScheduledTask)
    → IsTimed (next_run task.schedule_cron) task.next_run_at (runs_of next_run build clocks task)
unfolding runs_of advance
runs_of-IsTimed next_run build [] task = tt
runs_of-IsTimed next_run build (now ∷ clocks) task = elim (Bool-cases (is_due_task now task)) [
  | inr early ↦
      rw
        (runs_of-step next_run build now clocks task task none
          (run_due_task-early next_run (build now) now task early))
        (runs_of-IsTimed next_run build clocks task)
  | inl due ↦ elim (Option-cases (build now task)) [
    | inl e ↦
        rw
          (runs_of-step next_run build now clocks task task none
            (run_due_task-failed next_run (build now) now task e))
          (runs_of-IsTimed next_run build clocks task)
    | inr (id, e) ↦
        let (t, at, le) = due_time now task due in
        rw
          (runs_of-step next_run build now clocks task (advance next_run now task) (some id)
            (run_due_task-started next_run (build now) now id task due e))
          (t, at, le, runs_of-IsTimed next_run build clocks (advance next_run now task))
  ]
]

time_due :
    (now : ℕ) (task : ScheduledTask) (t : ℕ)
    → task.mode ≡ txt "schedule"
    → task.is_enabled ≡ true
    → task.next_run_at ≡ some t
    → t ≤ now
    → is_due_task now task ≡ true
unfolding is_due_task text_beq
time_due now task t mode on at le = rw (mode, on, at) (ground arith)

-- By passes at any clocks, and whichever executions can be made, a task never starts before the time
-- that its row has, and after each start that time is the next one of its expression, if there is
-- one; and an enabled schedule whose time has come starts where its execution can be made.
pub run_due_task-IsTimed :
    (next_run : Text → ℕ → Option ℕ) (build : ℕ → ScheduledTask → Option ℕ) (clocks : List ℕ)
    (task : ScheduledTask)
    → IsTimed (next_run task.schedule_cron) task.next_run_at (runs_of next_run build clocks task)
      × ((now t id : ℕ)
          → task.mode ≡ txt "schedule"
          → task.is_enabled ≡ true
          → task.next_run_at ≡ some t
          → t ≤ now
          → build now task ≡ some id
          → runs_of next_run build (now ∷ clocks) task
            ≡ now ∷ runs_of next_run build clocks (advance next_run now task))
run_due_task-IsTimed next_run build clocks task = (
  runs_of-IsTimed next_run build clocks task,
  (λ now t id mode on at le e.
      runs_of-step next_run build now clocks task (advance next_run now task) (some id) (
        run_due_task-started next_run (build now) now id task (time_due now task t mode on at le)
          e)),
)

-- A pass treats each row by itself.
run_due_schedules-rows :
    (next_run : Text → ℕ → Option ℕ) (build : ScheduledTask → Option ℕ) (now : ℕ)
    (tasks : List ScheduledTask)
    → (run_due_schedules next_run build now tasks).0
      ≡ map (λ task. (run_due_task next_run build now task).0) tasks
unfolding run_due_schedules
run_due_schedules-rows next_run build now [] = refl
run_due_schedules-rows next_run build now (task ∷ tasks) =
    ap (λ rows. (run_due_task next_run build now task).0 ∷ rows)
      (run_due_schedules-rows next_run build now tasks)

-- Where the reader has no time left for the expression, and so gives the zero time, a task that is
-- due once starts at every pass.
runs_of-every_pass :
    (next_run : Text → ℕ → Option ℕ) (build : ℕ → ScheduledTask → Option ℕ) (clocks : List ℕ)
    (task : ScheduledTask)
    → task.mode ≡ txt "schedule"
    → task.is_enabled ≡ true
    → task.next_run_at ≡ some 0
    → ((now : ℕ) → next_run task.schedule_cron now ≡ some 0)
    → ((now : ℕ) (row : ScheduledTask) → (id : ℕ) × (build now row ≡ some id))
    → runs_of next_run build clocks task ≡ clocks
unfolding runs_of advance
runs_of-every_pass next_run build [] task mode on at never built = refl
runs_of-every_pass next_run build (now ∷ clocks) task mode on at never built =
    let (id, e) = built now task in
    (run_due_task-IsTimed next_run build clocks task).1 now 0 id mode on at (omega arith) e
    ∙ ap (λ rest. now ∷ rest)
        (runs_of-every_pass next_run build clocks (advance next_run now task) mode on
          (rw (never now)) never built)
