-- ===== src/Tasks/Answered.antt =====
-- internal/service/probe.go: an execution ends once each of its open rows has been answered: the job
-- that was sent out for it has had a result with at least one step, in whatever order the results come,
-- between whatever sweeps.
use dnsgolang.Base.{
  ℕ, suc, zero, ◌≡◌, refl, sym, ap, ◌∙◌, ◌⊎◌, inl, inr, Bool, true, false, ◌&&◌, none, some, List,
  [], ◌∷◌, nat_beq, nat_beq_iff, any, all, arith, Bool-cases, Option-cases, if◌then◌else◌, leb,
}
use dnsgolang.Scheduling.Summary.{is_open}
use dnsgolang.Tasks.Rows.{
  RegionRow, ProbeJob, Store, regions_of, find_row, refresh, persist_region_result,
}
use dnsgolang.Tasks.Jobs.{
  Remote, ResultStep, is_done, is_stale, find_job, set_job, complete_job, requeue_job, requeue_jobs,
  give_up, publish_again, requeue_round, requeue_stale, apply_probe_job_result, backfill,
  probe_result,
}
use dnsgolang.Tasks.Events.{Event, result, sweep, requeue, handle, handle_all, handle-Effect}
use dnsgolang.Tasks.Settled.{
  has_result, has_result-settled, has_result-handle_all, belongs, belongs-Effect,
}

-- Whether the event is a result for this job.
abbrev pub answers : ℕ → Event → Bool
answers k (result now id steps) = nat_beq id k
answers k (sweep env) = false
answers k (requeue env copy) = false

-- The job is there, has no result yet, and is for the row with this id.
abbrev pub Waits : ℕ → ℕ → List ProbeJob → Type 0
Waits job_id id jobs =
    (job : ProbeJob) × (find_job job_id jobs ≡ some job)
    × (is_done job.status ≡ false)
    × (job.execution_region_id ≡ some id)

Waits-requeue_job :
    (env : Remote) (id : ℕ) (job : ProbeJob)
    → is_done job.status ≡ false
    → job.execution_region_id ≡ some id
    → (is_done (requeue_job env job).status ≡ false)
      × ((requeue_job env job).execution_region_id ≡ some id)
      × ((requeue_job env job).id ≡ job.id)
unfolding requeue_job
Waits-requeue_job env id job h k = ground (arith, h, k)

pub requeue_job-id : (env : Remote) (job : ProbeJob) → (requeue_job env job).id ≡ job.id
unfolding requeue_job
requeue_job-id env job = ground arith

Waits-requeue_jobs :
    (env : Remote) (n k id : ℕ) (jobs : List ProbeJob)
    → Waits k id jobs
    → Waits k id (requeue_jobs env n jobs)
unfolding requeue_jobs
Waits-requeue_jobs env zero k id jobs w = w
Waits-requeue_jobs env (suc n) k id [] (job, f, d, r) = cc
Waits-requeue_jobs env (suc n) k id (j ∷ js) (job, f, d, r) = elim (Bool-cases (nat_beq j.id k)) [
  | inl here ↦
      let one : j ≡ job = ground (arith, f, here) in
      let (d', r', i') =
        Waits-requeue_job env id j (ap (λ x. is_done x.status) one ∙ d)
          (ap (λ x. x.execution_region_id) one ∙ r) in
      elim (Bool-cases (is_stale env j)) [
        | inl e ↦ rw e (requeue_job env j, rw (i', here) refl, d', r')
        | inr e ↦ rw e (
          j,
          rw here refl,
          ap (λ x. is_done x.status) one ∙ d,
          ap (λ x. x.execution_region_id) one ∙ r,
        )
      ]
  | inr there ↦
      let f' : find_job k js ≡ some job = ground (arith, f, there) in
      let i' = requeue_job-id env j in
      elim (Bool-cases (is_stale env j)) [
        | inl e ↦
            let (x, fx, dx, rx) = Waits-requeue_jobs env n k id js (job, f', d, r) in
            rw e (x, rw (i', there) fx, dx, rx)
        | inr e ↦
            let (x, fx, dx, rx) = Waits-requeue_jobs env (suc n) k id js (job, f', d, r) in
            rw e (x, rw there fx, dx, rx)
      ]
]

-- Where a job is found in its place after an update of the rows with some id.
pub find_job-updated :
    (k n : ℕ) (g : ProbeJob → ProbeJob) (job : ProbeJob) (jobs : List ProbeJob)
    → ((j : ProbeJob) → (g j).id ≡ j.id)
    → find_job k jobs ≡ some job
    → find_job k (set_job n g jobs) ≡ some (if nat_beq job.id n then g job else job)
unfolding set_job
find_job-updated k n g job [] same f = cc
find_job-updated k n g job (j ∷ js) same f = elim (Bool-cases (nat_beq j.id k)) [
  | inl here ↦
      let one : j ≡ job = ground (arith, f, here) in
      let changed = λ (x : ProbeJob). if nat_beq x.id n then g x else x in
      let back : nat_beq (changed j).id k ≡ true = elim (Bool-cases (nat_beq j.id n)) [
        | inl e ↦ rw e (ap (λ i. nat_beq i k) (same j) ∙ here)
        | inr e ↦ rw e here
      ] in
      rw back (ap (λ x. some (changed x)) one)
  | inr there ↦
      let f' : find_job k js ≡ some job = ground (arith, f, there) in
      let changed = λ (x : ProbeJob). if nat_beq x.id n then g x else x in
      let back : nat_beq (changed j).id k ≡ false = elim (Bool-cases (nat_beq j.id n)) [
        | inl e ↦ rw e (ap (λ i. nat_beq i k) (same j) ∙ there)
        | inr e ↦ rw e there
      ] in
      rw back (find_job-updated k n g job js same f')
]

Waits-updated :
    (k id n : ℕ) (g : ProbeJob → ProbeJob) (jobs : List ProbeJob)
    → ((j : ProbeJob) → (g j).id ≡ j.id)
    → ((j : ProbeJob) → (g j).execution_region_id ≡ j.execution_region_id)
    → ((j : ProbeJob) → is_done (g j).status ≡ false)
    → Waits k id jobs
    → Waits k id (set_job n g jobs)
Waits-updated k id n g jobs same to open' (job, f, d, r) = elim (Bool-cases (nat_beq job.id n)) [
  | inl e ↦ (g job, find_job-updated k n g job jobs same f ∙ rw e refl, open' job, to job ∙ r)
  | inr e ↦ (job, find_job-updated k n g job jobs same f ∙ rw e refl, d, r)
]

-- A job that waits still waits after a round, for whatever copy of whichever job.
Waits-requeue_round :
    (env : Remote) (copy : ProbeJob) (k id : ℕ) (s : Store)
    → Waits k id s.jobs
    → Waits k id (requeue_round env copy s).jobs
unfolding requeue_round
Waits-requeue_round env copy k id s w = elim (Bool-cases (leb 3 copy.retry_count)) [
  | inl three ↦
      rw (three, requeue_round)
        (Waits-updated k id copy.id give_up s.jobs (λ j. refl) (λ j. refl) (λ j. refl) w)
  | inr fewer ↦
      rw (fewer, requeue_round)
        (elim (Bool-cases (env.publish copy)) [
          | inl sent ↦ rw sent (
              Waits-updated k id copy.id (publish_again env) s.jobs (λ j. refl) (λ j. refl)
                (λ j. refl) w)
          | inr lost ↦ rw lost w
        ])
]

pub Waits-set_job :
    (k id other : ℕ) (steps : List ResultStep) (jobs : List ProbeJob)
    → nat_beq other k ≡ false
    → find_job k (set_job other (complete_job steps) jobs) ≡ find_job k jobs
unfolding set_job
Waits-set_job k id other steps [] h = refl
Waits-set_job k id other steps (j ∷ js) h = ground (
  arith,
  Waits-set_job k id other steps js,
  nat_beq_iff j.id k,
  nat_beq_iff j.id other,
  nat_beq_iff other k,
)

pub apply-waiting :
    (now k : ℕ) (steps : List ResultStep) (s : Store) (job : ProbeJob)
    → find_job k s.jobs ≡ some job
    → is_done job.status ≡ false
    → apply_probe_job_result now k steps s
      ≡ some (backfill now job steps (record s { jobs = set_job k (complete_job steps) s.jobs }))
unfolding apply_probe_job_result
apply-waiting now k steps s job f d = rw (f, apply_probe_job_result) (rw d)

backfill-waiting :
    (now id : ℕ) (job : ProbeJob) (r : ResultStep) (steps : List ResultStep) (row : RegionRow)
    (s : Store)
    → job.execution_region_id ≡ some id
    → find_row id s.rows ≡ some row
    → has_result id (backfill now job (r ∷ steps) s).rows ≡ true
unfolding backfill refresh persist_region_result
backfill-waiting now id job r steps row s to_row found =
    rw (to_row, backfill) (rw (found, backfill) (has_result-settled id (probe_result r) s.rows))

-- A result with a step, for a job that waits, gives the job's row a result.
waiting_row :
    (now k id : ℕ) (r : ResultStep) (steps : List ResultStep) (row : RegionRow) (s : Store)
    → Waits k id s.jobs
    → find_row id s.rows ≡ some row
    → has_result id (handle (result now k (r ∷ steps)) s).rows ≡ true
unfolding handle
waiting_row now k id r steps row s (job, f, d, to_row) found =
    rw (apply-waiting now k (r ∷ steps) s job f d) (
      backfill-waiting now id job r steps row
        (record s { jobs = set_job k (complete_job (r ∷ steps)) s.jobs }) to_row found)

pub backfill-jobs :
    (now : ℕ) (job : ProbeJob) (steps : List ResultStep) (s : Store)
    → (backfill now job steps s).jobs ≡ s.jobs
unfolding backfill refresh persist_region_result
backfill-jobs now job steps s = ground arith

pub apply-missing :
    (now k : ℕ) (steps : List ResultStep) (s : Store)
    → find_job k s.jobs ≡ none
    → apply_probe_job_result now k steps s ≡ none
unfolding apply_probe_job_result
apply-missing now k steps s f = rw (f, apply_probe_job_result)

pub apply-done :
    (now k : ℕ) (steps : List ResultStep) (s : Store) (job : ProbeJob)
    → find_job k s.jobs ≡ some job
    → is_done job.status ≡ true
    → apply_probe_job_result now k steps s ≡ some s
unfolding apply_probe_job_result
apply-done now k steps s job f d = rw (f, apply_probe_job_result) (rw d)

-- Any event but a result for the job itself leaves the job waiting.
Waits-handle :
    (k id : ℕ) (e : Event) (s : Store)
    → answers k e ≡ false
    → Waits k id s.jobs
    → Waits k id (handle e s).jobs
unfolding handle requeue_stale
Waits-handle k id (sweep env) s h w = Waits-requeue_jobs env 50 k id s.jobs w
Waits-handle k id (requeue env copy) s h w = Waits-requeue_round env copy k id s w
Waits-handle k id (result now other steps) s h w = elim (Option-cases (find_job other s.jobs)) [
  | inl e ↦ rw (apply-missing now other steps s e) w
  | inr (job, e) ↦ elim (Bool-cases (is_done job.status)) [
    | inl d ↦ rw (apply-done now other steps s job e d) w
    | inr d ↦
        let (job', f, d', r) = w in
        let s' : Store = record s { jobs = set_job other (complete_job steps) s.jobs } in
        let kept =
          ap (find_job k) (backfill-jobs now job steps s')
          ∙ Waits-set_job k id other steps s.jobs h
          ∙ f in
        rw (apply-waiting now other steps s job e d) (job', kept, d', r)
  ]
]

-- The event is no result without steps.
abbrev pub has_steps : Event → Bool
has_steps (result now id []) = false
has_steps (result now id (r ∷ steps)) = true
has_steps (sweep env) = true
has_steps (requeue env copy) = true

answered_row :
    (k id : ℕ) (e : Event) (row : RegionRow) (s : Store)
    → answers k e ≡ true
    → has_steps e ≡ true
    → Waits k id s.jobs
    → find_row id s.rows ≡ some row
    → has_result id (handle e s).rows ≡ true
answered_row k id (sweep env) row s a h w found = cc
answered_row k id (requeue env copy) row s a h w found = cc
answered_row k id (result now other []) row s a h w found = cc
answered_row k id (result now other (r ∷ steps)) row s a h w found =
    let e = (nat_beq_iff other k).0 a in rw e (waiting_row now k id r steps row s w found)

find_row-belongs :
    (x id : ℕ) (rows : List RegionRow)
    → belongs x id rows ≡ true
    → (row : RegionRow) × (find_row id rows ≡ some row)
find_row-belongs x id [] h = cc
find_row-belongs x id (r ∷ rs) h = elim (Bool-cases (nat_beq r.id id)) [
  | inl e ↦ (r, rw e)
  | inr e ↦ let (row, f) = find_row-belongs x id rs (ground (arith, h, e)) in (row, rw e f)
]

-- A row whose job is answered by one of the events has a result after all of them.
pub answered-settled :
    (x k id : ℕ) (es : List Event) (s : Store)
    → belongs x id s.rows ≡ true
    → all has_steps es ≡ true
    → any (answers k) es ≡ true
    → Waits k id s.jobs
    → has_result id (handle_all es s).rows ≡ true
unfolding handle_all
answered-settled x k id [] s b full a w = cc
answered-settled x k id (e ∷ es) s b full a w = elim (Bool-cases (answers k e)) [
  | inl here ↦
      let (row, found) = find_row-belongs x id s.rows b in
      has_result-handle_all id es (handle e s)
        (answered_row k id e row s here (ground (arith, full)) w found)
  | inr other ↦
      answered-settled x k id es (handle e s)
        (belongs-Effect x id s (handle e s) (handle-Effect e s) ∙ b) (ground (arith, full))
        (ground (arith, a, other)) (Waits-handle k id e s other w)
]

pub belongs-handle_all :
    (x id : ℕ) (es : List Event) (s : Store)
    → belongs x id (handle_all es s).rows ≡ belongs x id s.rows
unfolding handle_all
belongs-handle_all x id [] s = refl
belongs-handle_all x id (e ∷ es) s =
    belongs-handle_all x id es (handle e s) ∙ belongs-Effect x id s (handle e s) (handle-Effect e s)

-- Each row of the execution has a result, or waits for a job that one of the events answers.
abbrev pub WillEnd : ℕ → List Event → Store → Type 0
WillEnd x es s =
    (id : ℕ)
    → belongs x id s.rows ≡ true
    → (has_result id s.rows ≡ true) ⊎ ((k : ℕ) × Waits k id s.jobs × (any (answers k) es ≡ true))

open_row :
    (x : ℕ) (rows : List RegionRow)
    → any (λ r. is_open r.status) (regions_of x rows) ≡ true
    → (id : ℕ) × (belongs x id rows ≡ true) × (has_result id rows ≡ false)
open_row x [] h = cc
open_row x (r ∷ rs) h = elim (Bool-cases (nat_beq r.execution_id x && is_open r.region.status)) [
  | inl e ↦
      (r.id, ground (arith, e, nat_beq_iff r.id r.id), ground (arith, e, nat_beq_iff r.id r.id))
  | inr e ↦
      let (id, b, u) = open_row x rs (ground (arith, h, e)) in
      (id, ground (arith, b), ground (arith, u))
]

pub none_open :
    (x : ℕ) (rows : List RegionRow)
    → ((id : ℕ) → belongs x id rows ≡ true → has_result id rows ≡ true)
    → any (λ r. is_open r.status) (regions_of x rows) ≡ false
none_open x rows h = elim (Bool-cases (any (λ r. is_open r.status) (regions_of x rows))) [
  | inl e ↦ let (id, b, u) = open_row x rows e in let c = sym (h id b) ∙ u in cc
  | inr e ↦ e
]
