-- ===== src/Tasks/Events.antt =====
-- internal/service/probe.go and internal/bridge/bridge.go: what happens to the store after an
-- execution was sent out: results that arrive, in any order and any number of times, and sweeps over
-- the jobs whose lease is over, at once (`sweep`) or with other events between the rounds for the jobs
-- that the query found (`requeue`).
use dnsgolang.Base.{
  ℕ, ◌≡◌, refl, inl, inr, Option, none, some, List, [], ◌∷◌, Bool-cases, Option-cases,
  if◌then◌else◌, arith,
}
use dnsgolang.Scheduling.Summary.{refresh_execution_status}
use dnsgolang.Tasks.Rows.{
  RegionRow, ProbeResult, ProbeJob, Store, settled_row, update_row, persist_region_result, put,
  regions_of, refresh, find_row,
}
use dnsgolang.Tasks.Jobs.{
  Remote, ResultStep, probe_result, backfill, is_done, find_job, set_job, complete_job,
  apply_probe_job_result, requeue_stale, first_protocol, requeue_round,
}

pub data Event : Type 0 where
  result : (now job_id : ℕ) (steps : List ResultStep) → Event
  sweep : Remote → Event
  requeue : Remote → (copy : ProbeJob) → Event

abbrev pub or_same : Store → Option Store → Store
or_same s none = s
or_same s (some s') = s'

-- A result for a job that does not exist is logged and changes nothing.
unfoldable pub handle : Event → Store → Store
handle (result now id steps) s = or_same s (apply_probe_job_result now id steps s)
handle (sweep env) s = requeue_stale env s
handle (requeue env copy) s = requeue_round env copy s

unfoldable pub handle_all : List Event → Store → Store
handle_all [] s = s
handle_all (e ∷ es) s = handle_all es (handle e s)

-- What an event does to rows and summaries: nothing, or it writes one result to the rows of an id
-- and sums up the execution of the first of them.
pub data Effect (s s' : Store) : Type 0 where
  same : s'.rows ≡ s.rows → s'.summaries ≡ s.summaries → Effect s s'
  settled :
      (now id : ℕ) (row : RegionRow) (p : ProbeResult)
      → find_row id s.rows ≡ some row
      → s'.rows ≡ update_row id (settled_row p) s.rows
      → s'.summaries
        ≡ put row.execution_id
            (refresh_execution_status now (regions_of row.execution_id s'.rows))
            s.summaries
      → Effect s s'

backfill-Effect :
    (now : ℕ) (job : ProbeJob) (steps : List ResultStep) (s : Store)
    → Effect s (backfill now job steps s)
unfolding backfill persist_region_result refresh
backfill-Effect now job [] s = same refl refl
backfill-Effect now job (r ∷ results) s = elim (Option-cases job.execution_region_id) [
  | inl e ↦ rw e (same refl refl)
  | inr (id, e) ↦ rw e (from id (find_row id s.rows) refl)
]
  where
    from :
        (id : ℕ) (found : Option RegionRow)
        → find_row id s.rows ≡ found
        → Effect s (elim found [
          | none ↦ s
          | some row ↦
              refresh now row.execution_id
                (persist_region_result id (first_protocol job.steps) (probe_result r) s)
        ])
    from id none e = same refl refl
    from id (some row) e = settled now id row (probe_result r) e refl refl

other_jobs : (s s' : Store) (js : List ProbeJob) → Effect (record s { jobs = js }) s' → Effect s s'
other_jobs s s' js (same e f) = same e f
other_jobs s s' js (settled now id row p found e f) = settled now id row p found e f

pub requeue_round-rows :
    (env : Remote) (copy : ProbeJob) (s : Store) → (requeue_round env copy s).rows ≡ s.rows
unfolding requeue_round
requeue_round-rows env copy s = ground arith

requeue_round-summaries :
    (env : Remote) (copy : ProbeJob) (s : Store)
    → (requeue_round env copy s).summaries ≡ s.summaries
unfolding requeue_round
requeue_round-summaries env copy s = ground arith

pub handle-Effect : (e : Event) (s : Store) → Effect s (handle e s)
unfolding handle apply_probe_job_result requeue_stale
handle-Effect (sweep env) s = same refl refl
handle-Effect (requeue env copy) s =
    same (requeue_round-rows env copy s) (requeue_round-summaries env copy s)
handle-Effect (result now id steps) s = from (find_job id s.jobs) refl
  where
    from :
        (found : Option ProbeJob)
        → find_job id s.jobs ≡ found
        → Effect s (
            or_same s (elim found [
              | none ↦ none
              | some job ↦
                  if is_done job.status
                  then some s
                  else some (
                      backfill now job steps
                        (record s { jobs = set_job id (complete_job steps) s.jobs }))
            ]))
    from none e = same refl refl
    from (some job) e = elim (Bool-cases (is_done job.status)) [
      | inl done ↦ rw done (same refl refl)
      | inr open' ↦
          let js = set_job id (complete_job steps) s.jobs in
          rw open' (other_jobs s _ js (backfill-Effect now job steps (record s { jobs = js })))
    ]
