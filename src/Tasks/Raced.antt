-- ===== src/Tasks/Raced.antt =====
-- internal/bridge/bridge.go: a round of `RequeueStale` for one job that its query found, while results
-- come in. The update acts on the row with the job's id, whatever has become of it since.
use dnsgolang.Base.{
  ℕ, ◌≡◌, refl, sym, subst, ap, ◌∙◌, true, false, ◌||◌, some, List, [], ◌∷◌, nat_beq_iff, leb,
  if◌then◌else◌, arith, Bool-cases, inl, inr,
}
use dnsgolang.Tasks.Answered.{apply-waiting, backfill-jobs, find_job-updated}
use dnsgolang.Tasks.Events.{requeue_round-rows}
use dnsgolang.Tasks.Jobs.{
  Remote, ResultStep, is_done, is_stale, find_job, set_job, complete_job, backfill, give_up,
  publish_again, requeue_round, apply_probe_job_result,
}
use dnsgolang.Tasks.Rows.{ProbeJob, Store}

find_job-id :
    (k : ℕ) (job : ProbeJob) (jobs : List ProbeJob) → find_job k jobs ≡ some job → job.id ≡ k
find_job-id k job [] f = cc
find_job-id k job (j ∷ js) f = ground (arith, f, find_job-id k job js)

find_job-set_job :
    (k : ℕ) (g : ProbeJob → ProbeJob) (job : ProbeJob) (jobs : List ProbeJob)
    → ((j : ProbeJob) → (g j).id ≡ j.id)
    → find_job k jobs ≡ some job
    → find_job k (set_job k g jobs) ≡ some (g job)
find_job-set_job k g job jobs same f =
    find_job-updated k k g job jobs same f
    ∙ rw ((nat_beq_iff job.id k).1 (find_job-id k job jobs f)) refl

-- What a round that goes through makes of the job as it is by then.
requeue_round-found :
    (env : Remote) (copy j : ProbeJob) (s : Store)
    → find_job copy.id s.jobs ≡ some j
    → (leb 3 copy.retry_count || env.publish copy) ≡ true
    → find_job copy.id (requeue_round env copy s).jobs
      ≡ some (if leb 3 copy.retry_count then give_up j else publish_again env j)
unfolding requeue_round
requeue_round-found env copy j s f taken = elim (Bool-cases (leb 3 copy.retry_count)) [
  | inl three ↦ rw (three, requeue_round) (find_job-set_job copy.id give_up j s.jobs (λ x. refl) f)
  | inr fewer ↦
      let sent : env.publish copy ≡ true = ground (arith, taken, fewer) in
      rw (fewer, requeue_round)
        (rw sent (find_job-set_job copy.id (publish_again env) j s.jobs (λ x. refl) f))
]

stale-open : (env : Remote) (job : ProbeJob) → is_stale env job ≡ true → is_done job.status ≡ false
stale-open env job h = ground (arith, h)

-- A result that comes between the query of a sweep and the update of its job is taken, and then the
-- update takes the job back: where the job had been tried three times or the broker takes it again,
-- a job that the result completed is failed or published after it, while the rows of the execution
-- stay as the result left them.
pub requeue_round-completed :
    (env : Remote) (now k : ℕ) (job : ProbeJob) (steps : List ResultStep) (s : Store)
    → find_job k s.jobs ≡ some job
    → is_stale env job ≡ true
    → (leb 3 job.retry_count || env.publish job) ≡ true
    → (answered : Store) × (apply_probe_job_result now k steps s ≡ some answered)
      × (find_job k answered.jobs ≡ some (complete_job steps job))
      × (find_job k (requeue_round env job answered).jobs
          ≡ some (
              if leb 3 job.retry_count
              then give_up (complete_job steps job)
              else publish_again env (complete_job steps job)))
      × ((requeue_round env job answered).rows ≡ answered.rows)
requeue_round-completed env now k job steps s f stale taken =
    let s' : Store = record s { jobs = set_job k (complete_job steps) s.jobs } in
    let answered = backfill now job steps s' in
    let done : find_job k answered.jobs ≡ some (complete_job steps job) =
      ap (find_job k) (backfill-jobs now job steps s')
      ∙ find_job-set_job k (complete_job steps) job s.jobs (λ j. refl) f in
    let i = find_job-id k job s.jobs f in
    let j = complete_job steps job in
    let after = if leb 3 job.retry_count then give_up j else publish_again env j in
    (
      answered,
      apply-waiting now k steps s job f (stale-open env job stale),
      done,
      subst (λ n. find_job n (requeue_round env job answered).jobs ≡ some after) i
          (requeue_round-found env job j answered
            (subst (λ n. find_job n answered.jobs ≡ some j) (sym i) done) taken),
      requeue_round-rows env job answered,
    )
