-- ===== src/Tasks/Ended.antt =====
-- internal/service/tasks.go and internal/service/probe.go: an execution whose open rows are all
-- answered ends; a sweep leaves a job that is not out as it is.
use dnsgolang.Base.{
  ℕ, suc, zero, ◌≡◌, ◌≢◌, sym, ap, ◌∙◌, inl, inr, true, false, none, some, List, [], ◌∷◌, nat_beq,
  any, all, arith, Bool-cases,
}
use dnsgolang.Scheduling.Summary.{Updates, running, is_open, refresh_execution_status}
use dnsgolang.Scheduling.Summary.Status.{refresh_execution_status-eq}
use dnsgolang.Tasks.Rows.{ProbeJob, Store, regions_of}
use dnsgolang.Tasks.Jobs.{Remote, is_out, is_stale, find_job, requeue_jobs}
use dnsgolang.Tasks.Events.{Event, handle_all}
use dnsgolang.Tasks.Settled.{
  has_result, has_result-handle_all, belongs, HasIds, IsSummed, IsSummed-handle_all,
}
use dnsgolang.Tasks.Answered.{
  has_steps, WillEnd, answered-settled, belongs-handle_all, none_open, requeue_job-id,
}

-- The summary that is stored for the execution says that it is over, and when.
abbrev pub IsEnded : ℕ → Store → Type 0
IsEnded execution_id s =
    (u : Updates) × (s.summaries execution_id ≡ some u)
    × (u.status ≢ running)
    × (u.finished_at ≢ none)

closed-IsEnded :
    (x : ℕ) (s : Store)
    → IsSummed x s
    → any (λ r. is_open r.status) (regions_of x s.rows) ≡ false
    → IsEnded x s
closed-IsEnded x s (t, e) h =
    let (status, _, at, _, _) = refresh_execution_status-eq t (regions_of x s.rows) in
    (
      refresh_execution_status t (regions_of x s.rows),
      e,
      ground (arith, status, h),
      ground (arith, at, h),
    )

all_settled :
    (x : ℕ) (es : List Event) (s : Store)
    → all has_steps es ≡ true
    → WillEnd x es s
    → (id : ℕ) → belongs x id (handle_all es s).rows ≡ true
    → has_result id (handle_all es s).rows ≡ true
all_settled x es s full h id b =
    let b' = sym (belongs-handle_all x id es s) ∙ b in
    elim (h id b') [
      | inl e ↦ has_result-handle_all id es s e
      | inr (k, w, a) ↦ answered-settled x k id es s b' full a w
    ]

-- An execution whose summary fits its rows, and each row of which has a result or waits for a job
-- that one of the events answers, is over after the events, whatever their order and whatever
-- sweeps over stale jobs, at once or interrupted, and other results are among them; each result has
-- at least one step.
pub handle_all-IsEnded :
    (execution_id : ℕ) (es : List Event) (s : Store)
    → HasIds s.rows
    → IsSummed execution_id s
    → all has_steps es ≡ true
    → WillEnd execution_id es s
    → IsEnded execution_id (handle_all es s)
handle_all-IsEnded x es s ids summed full h =
    closed-IsEnded x (handle_all es s) (IsSummed-handle_all x es s ids summed)
      (none_open x (handle_all es s).rows (all_settled x es s full h))

in_place-not_stale :
    (env : Remote) (job : ProbeJob) → is_out job.status ≡ false → is_stale env job ≡ false
in_place-not_stale env job h = ground (arith, h)

-- A sweep leaves a job that is not out with a probe as it is.
pub in_place-requeue_jobs :
    (env : Remote) (n k : ℕ) (job : ProbeJob) (jobs : List ProbeJob)
    → find_job k jobs ≡ some job
    → is_out job.status ≡ false
    → find_job k (requeue_jobs env n jobs) ≡ some job
unfolding requeue_jobs
in_place-requeue_jobs env zero k job jobs f d = f
in_place-requeue_jobs env (suc n) k job [] f d = cc
in_place-requeue_jobs env (suc n) k job (j ∷ js) f d = elim (Bool-cases (nat_beq j.id k)) [
  | inl here ↦
      let one : j ≡ job = ground (arith, f, here) in
      let fresh = ap (is_stale env) one ∙ in_place-not_stale env job d in
      rw fresh (rw here (ap some one))
  | inr there ↦
      let f' : find_job k js ≡ some job = ground (arith, f, there) in
      let i = requeue_job-id env j in
      elim (Bool-cases (is_stale env j)) [
        | inl e ↦ rw e (rw (i, there) (in_place-requeue_jobs env n k job js f' d))
        | inr e ↦ rw e (rw there (in_place-requeue_jobs env (suc n) k job js f' d))
      ]
]
