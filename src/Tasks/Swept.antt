-- ===== src/Tasks/Swept.antt =====
-- internal/bridge/bridge.go: what the sweeps over stale jobs do and what they leave.
use dnsgolang.Base.{ℕ, ◌≡◌, refl, true, false, map, some, List, [], ◌∷◌, any, arith}
use dnsgolang.Scheduling.Summary.{Updates, running, is_open, refresh_execution_status}
use dnsgolang.Scheduling.Summary.Status.{refresh_execution_status-eq}
use dnsgolang.Tasks.Rows.{ProbeJob, Store, regions_of}
use dnsgolang.Tasks.Jobs.{Remote, is_out, find_job, requeue_stale}
use dnsgolang.Tasks.Events.{sweep, handle, handle_all}
use dnsgolang.Tasks.Settled.{IsSummed}
use dnsgolang.Tasks.Ended.{in_place-requeue_jobs}

-- The summary of an execution with an open row says that it is running.
open_running :
    (x : ℕ) (s : Store)
    → IsSummed x s
    → any (λ r. is_open r.status) (regions_of x s.rows) ≡ true
    → (u : Updates) × (s.summaries x ≡ some u) × (u.status ≡ running)
open_running x s (t, e) h =
    let (status, _, _, _, _) = refresh_execution_status-eq t (regions_of x s.rows) in
    (refresh_execution_status t (regions_of x s.rows), e, ground (arith, status, h))

-- Sweeps alone leave a job that was given up (its status is failed after three repeats) as it is,
-- and with it every row: an execution with an open row is still summed up as running after any
-- number of sweeps.
pub sweeps-running :
    (envs : List Remote) (execution_id k : ℕ) (job : ProbeJob) (s : Store)
    → find_job k s.jobs ≡ some job
    → is_out job.status ≡ false
    → IsSummed execution_id s
    → any (λ r. is_open r.status) (regions_of execution_id s.rows) ≡ true
    → let s' = handle_all (map sweep envs) s in
      (find_job k s'.jobs ≡ some job)
      × (s'.rows ≡ s.rows)
      × (u : Updates) × (s'.summaries execution_id ≡ some u)
      × (u.status ≡ running)
unfolding handle_all handle requeue_stale
sweeps-running [] x k job s f d summed open' =
    let (u, e, r) = open_running x s summed open' in (f, refl, u, e, r)
sweeps-running (env ∷ envs) x k job s f d summed open' =
    sweeps-running envs x k job (requeue_stale env s)
      (in_place-requeue_jobs env 50 k job s.jobs f d) d summed open'
