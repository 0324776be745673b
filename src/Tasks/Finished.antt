-- ===== src/Tasks/Finished.antt =====
-- internal/service/tasks.go with internal/service/probe.go and internal/bridge/bridge.go: an execution
-- from `RunSingleExecution` to its end.
use dnsgolang.Base.{
  ℕ, ◌≤◌, ◌≡◌, refl, sym, ap, ◌∙◌, ◌⊎◌, inl, inr, true, false, not, ◌&&◌, some, List, [], ◌∷◌,
  nat_beq, nat_beq_iff, any, all, arith, Bool-cases, keep,
}
use dnsgolang.Scheduling.Summary.{is_open}
use dnsgolang.Scheduling.Summary
use dnsgolang.Tasks.Rows.{RegionRow, ProbeJob, Store, published, refresh}
use dnsgolang.Tasks.Jobs.{is_done, find_job}
use dnsgolang.Tasks.Run.{RunTask, Visit, run_rows, run_single_execution, is_success}
use dnsgolang.Tasks.Events.{Event, handle_all}
use dnsgolang.Tasks.Settled.{has_result, belongs, HasIds, put_self}
use dnsgolang.Tasks.Kept.{rows-run_rows}
use dnsgolang.Tasks.Met.{HasNext, IsMet, run_rows-IsMet, will_run}
use dnsgolang.Tasks.Answered.{answers, Waits, has_steps}
use dnsgolang.Tasks.Ended.{IsEnded, handle_all-IsEnded}

no_row :
    (id : ℕ) (rows : List RegionRow)
    → any (λ q. nat_beq q.id id) rows ≡ false
    → has_result id rows ≡ true
no_row id [] h = refl
no_row id (r ∷ rs) h = ground (arith, h, no_row id rs)

nothing_belongs :
    (x id : ℕ) (rows : List RegionRow)
    → any (λ q. nat_beq q.id id) rows ≡ false
    → belongs x id rows ≡ false
nothing_belongs x id [] h = refl
nothing_belongs x id (r ∷ rs) h = ground (arith, h, nothing_belongs x id rs)

success_closed : (st : Summary.RegionStatus) → is_success st ≡ true → is_open st ≡ false
success_closed Summary.RegionStatus.success h = refl
success_closed Summary.RegionStatus.failed h = refl
success_closed Summary.RegionStatus.pending h = cc
success_closed Summary.RegionStatus.running h = cc

-- At the start each row of the execution has a result already or is run.
starts :
    (x id : ℕ) (rows : List RegionRow)
    → HasIds rows
    → belongs x id rows ≡ true
    → (has_result id rows ≡ true) ⊎ (will_run id (keep (λ r. nat_beq r.execution_id x) rows) ≡ true)
starts x id [] ids b = cc
starts x id (r ∷ rs) (fresh, ids) b = elim (Bool-cases (nat_beq r.id id)) [
  | inl e ↦ elim (Bool-cases (nat_beq r.execution_id x && not (is_success r.region.status))) [
    | inl f ↦ inr (ground (arith, e, f))
    | inr f ↦
        let i = (nat_beq_iff r.id id).0 e in
        let fresh' = ap (λ i. any (λ q. nat_beq q.id i) rs) (sym i) ∙ fresh in
        let here = nothing_belongs x id rs fresh' in
        inl (ground (arith, no_row id rs fresh', here, b, f, success_closed r.region.status))
  ]
  | inr e ↦ elim (starts x id rs ids (ground (arith, b, e))) [
    | inl h ↦ inl (ground (arith, h, e))
    | inr h ↦ inr (ground (arith, h, e))
  ]
]

-- After a run of an execution and any events after it, results, sweeps and rounds of interrupted
-- sweeps, the execution is over, where each job that the run published is answered by one of the events, each result has a step, the ids of the rows
-- differ and those of the jobs are below the next one.
pub run_single_execution-IsEnded :
    (task : RunTask) (visits : RegionRow → Visit) (now execution_id : ℕ) (es : List Event)
    (s : Store)
    → HasIds s.rows
    → HasNext s
    → all has_steps es ≡ true
    → ((k : ℕ) (job : ProbeJob)
        → s.next_job ≤ k
        → find_job k (run_single_execution task visits now execution_id s).jobs ≡ some job
        → job.status ≡ published
        → any (answers k) es ≡ true)
    → IsEnded execution_id (handle_all es (run_single_execution task visits now execution_id s))
unfolding run_single_execution refresh
run_single_execution-IsEnded task visits now x es s ids next full answered =
    let rows = keep (λ r. nat_beq r.execution_id x) s.rows in
    let run = run_rows task visits rows s in
    let kept = rows-run_rows task visits x rows s in
    handle_all-IsEnded x es (run_single_execution task visits now x s) (kept.0 ids)
      (now, put_self x _ run.summaries) full
      (λ id b. meets id (
        run_rows-IsMet task visits s.next_job id rows s next (omega arith)
          (start id (sym (kept.1 id) ∙ b))))
  where
    start :
        (id : ℕ)
        → belongs x id s.rows ≡ true
        → IsMet s.next_job id s ⊎ (will_run id (keep (λ r. nat_beq r.execution_id x) s.rows) ≡ true)
    start id b = elim (starts x id s.rows ids b) [ inl h ↦ inl (inl h) | inr h ↦ inr h ]

    meets :
        (id : ℕ)
        → IsMet s.next_job id (run_single_execution task visits now x s)
        → (has_result id (run_single_execution task visits now x s).rows ≡ true)
          ⊎ ((k : ℕ) × Waits k id (run_single_execution task visits now x s).jobs
              × (any (answers k) es ≡ true))
    meets id (inl h) = inl h
    meets id (inr (k, job, le, f, st, r)) =
        inr (k, (job, f, ap is_done st, r), answered k job le f st)
