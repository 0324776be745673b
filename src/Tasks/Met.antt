-- ===== src/Tasks/Met.antt =====
-- internal/service/tasks.go: after the loop of `RunSingleExecution` each row that it ran has a result
-- or a job that is out for it.
use dnsgolang.Base.{
  ℕ, ◌+◌, ◌≤◌, ◌≡◌, refl, ap, ◌∙◌, ◌⊎◌, inl, inr, Bool, true, false, not, ◌&&◌, some, List, [], ◌∷◌,
  ◌++◌, nat_beq, nat_beq_iff, any, all, arith, Bool-cases, ltb, subst,
}
use dnsgolang.Tasks.Rows.{
  RegionRow, ProbeJob, ProbeResult, Store, update_row, settled_row, published,
}
use dnsgolang.Tasks.Jobs.{find_job}
use dnsgolang.Tasks.Run.{RunTask, Visit, run_row, run_rows, begin_row, is_success}
use dnsgolang.Tasks.Settled.{has_result, has_result-settled}
use dnsgolang.Tasks.Sent.{nothing, one, Ran, settled, waits, run_row-Ran, begin_row-id}

-- Every job has an id below the next one.
abbrev pub HasNext : Store → Type 0
HasNext s = all (λ j. ltb j.id s.next_job) s.jobs ≡ true

-- A job with an id of `n` or more is out for the row.
abbrev pub IsSent : ℕ → ℕ → Store → Type 0
IsSent n id s =
    (k : ℕ) × (job : ProbeJob) × (n ≤ k)
    × (find_job k s.jobs ≡ some job)
    × (job.status ≡ published)
    × (job.execution_region_id ≡ some id)

all_ids-append :
    (n : ℕ) (job : ProbeJob) (jobs : List ProbeJob)
    → all (λ j. ltb j.id n) jobs ≡ true
    → job.id ≡ n
    → all (λ j. ltb j.id (n + 1)) (jobs ++ (job ∷ [])) ≡ true
all_ids-append n job [] h e = ground (arith, e)
all_ids-append n job (j ∷ js) h e = ground (arith, all_ids-append n job js, e, h)

HasNext-append :
    (s s' : Store) (job : ProbeJob)
    → HasNext s
    → s'.jobs ≡ s.jobs ++ (job ∷ [])
    → job.id ≡ s.next_job
    → s'.next_job ≡ s.next_job + 1
    → HasNext s'
HasNext-append s s' job h e i n = rw (e, n) (all_ids-append s.next_job job s.jobs h i)

HasNext-Ran : (row : RegionRow) (s s' : Store) → Ran row s s' → HasNext s → HasNext s'
HasNext-Ran row s s' (settled p chosen e (nothing jobs next)) h = rw (jobs, next) h
HasNext-Ran row s s' (settled p chosen e (one job jobs i next)) h =
    HasNext-append s s' job h jobs i next
HasNext-Ran row s s' (waits job chosen e jobs i st r next) h = HasNext-append s s' job h jobs i next

next_job-Ran : (row : RegionRow) (s s' : Store) → Ran row s s' → s.next_job ≤ s'.next_job
next_job-Ran row s s' (settled p chosen e (nothing jobs next)) = omega (arith, next)
next_job-Ran row s s' (settled p chosen e (one job jobs i next)) = omega (arith, next)
next_job-Ran row s s' (waits job chosen e jobs i st r next) = omega (arith, next)

find_job-append :
    (k : ℕ) (job last : ProbeJob) (jobs : List ProbeJob)
    → find_job k jobs ≡ some job
    → find_job k (jobs ++ (last ∷ [])) ≡ some job
find_job-append k job last [] f = cc
find_job-append k job last (j ∷ js) f = ground (arith, f, find_job-append k job last js)

find_job-last :
    (k : ℕ) (last : ProbeJob) (jobs : List ProbeJob)
    → all (λ j. ltb j.id k) jobs ≡ true
    → last.id ≡ k
    → find_job k (jobs ++ (last ∷ [])) ≡ some last
find_job-last k last [] h e = rw ((nat_beq_iff last.id k).1 e) refl
find_job-last k last (j ∷ js) h e =
    ground (arith, e, h, find_job-last k last js, nat_beq_iff j.id k)

IsSent-append :
    (n id : ℕ) (s s' : Store) (last : ProbeJob)
    → s'.jobs ≡ s.jobs ++ (last ∷ [])
    → IsSent n id s
    → IsSent n id s'
IsSent-append n id s s' last e (k, job, le, f, st, r) =
    (k, job, le, ap (find_job k) e ∙ find_job-append k job last s.jobs f, st, r)

IsSent-Ran :
    (n id : ℕ) (row : RegionRow) (s s' : Store) → Ran row s s' → IsSent n id s → IsSent n id s'
IsSent-Ran n id row s s' (settled p chosen e (nothing jobs next)) (k, job, le, f, st, r) =
    (k, job, le, rw jobs f, st, r)
IsSent-Ran n id row s s' (settled p chosen e (one job jobs i next)) h =
    IsSent-append n id s s' job jobs h
IsSent-Ran n id row s s' (waits job chosen e jobs i st r next) h =
    IsSent-append n id s s' job jobs h

settled_row-id : (p : ProbeResult) (r : RegionRow) → (settled_row p r).id ≡ r.id
unfolding settled_row
settled_row-id p r = refl

has_result-other :
    (id k : ℕ) (f : RegionRow → RegionRow) (rows : List RegionRow)
    → nat_beq k id ≡ false
    → ((r : RegionRow) → (f r).id ≡ r.id)
    → has_result id (update_row k f rows) ≡ has_result id rows
unfolding update_row
has_result-other id k f [] h e = refl
has_result-other id k f (r ∷ rs) h e = ground (
  arith,
  has_result-other id k f rs h e,
  e r,
  nat_beq_iff r.id k,
  nat_beq_iff r.id id,
  nat_beq_iff k id,
  h,
)

has_result-Ran :
    (id : ℕ) (row : RegionRow) (s s' : Store)
    → Ran row s s'
    → nat_beq row.id id ≡ false
    → has_result id s'.rows ≡ has_result id s.rows
has_result-Ran id row s s' (settled p chosen e added) h =
    ap (has_result id) e
    ∙ has_result-other id row.id (settled_row p) _ h (settled_row-id p)
    ∙ has_result-other id row.id (begin_row chosen) s.rows h (begin_row-id chosen)
has_result-Ran id row s s' (waits job chosen e jobs i st r next) h =
    ap (has_result id) e
    ∙ has_result-other id row.id (begin_row chosen) s.rows h (begin_row-id chosen)

-- The row has a result, or a job with an id of `n` or more is out for it.
abbrev pub IsMet : ℕ → ℕ → Store → Type 0
IsMet n id s = (has_result id s.rows ≡ true) ⊎ IsSent n id s

IsMet-self :
    (n : ℕ) (row : RegionRow) (s s' : Store)
    → HasNext s
    → n ≤ s.next_job
    → Ran row s s'
    → IsMet n row.id s'
IsMet-self n row s s' next le (settled p chosen e added) =
    inl (ap (has_result row.id) e ∙ has_result-settled row.id p _)
IsMet-self n row s s' next le (waits job chosen e jobs i st r more) = inr (
  s.next_job,
  job,
  le,
  ap (find_job s.next_job) jobs ∙ find_job-last s.next_job job s.jobs next i,
  st,
  r,
)

IsMet-Ran :
    (n id : ℕ) (row : RegionRow) (s s' : Store)
    → HasNext s
    → n ≤ s.next_job
    → Ran row s s'
    → IsMet n id s
    → IsMet n id s'
IsMet-Ran n id row s s' next le r (inr h) = inr (IsSent-Ran n id row s s' r h)
IsMet-Ran n id row s s' next le r (inl h) = elim (Bool-cases (nat_beq row.id id)) [
  | inl e ↦
      let i = (nat_beq_iff row.id id).0 e in
      subst (λ i. IsMet n i s') i (IsMet-self n row s s' next le r)
  | inr e ↦ inl (has_result-Ran id row s s' r e ∙ h)
]

-- Whether a row with this id is among those that the loop runs.
abbrev pub will_run : ℕ → List RegionRow → Bool
will_run id rows = any (λ r. nat_beq r.id id && not (is_success r.region.status)) rows

pub run_rows-IsMet :
    (task : RunTask) (visits : RegionRow → Visit) (n id : ℕ) (rows : List RegionRow) (s : Store)
    → HasNext s
    → n ≤ s.next_job
    → IsMet n id s ⊎ (will_run id rows ≡ true)
    → IsMet n id (run_rows task visits rows s)
unfolding run_rows
run_rows-IsMet task visits n id [] s next le (inl h) = h
run_rows-IsMet task visits n id [] s next le (inr h) = cc
run_rows-IsMet task visits n id (r ∷ rs) s next le h =
    elim (Bool-cases (is_success r.region.status)) [
      | inl e ↦ rw (e, run_rows) (run_rows-IsMet task visits n id rs s next le (later e h))
      | inr e ↦
          let ran = run_row-Ran task (visits r) r s in
          let le' : n ≤ (run_row task (visits r) r s).next_job =
            omega (arith, le, next_job-Ran r s (run_row task (visits r) r s) ran) in
          rw (e, run_rows)
            (run_rows-IsMet task visits n id rs (run_row task (visits r) r s)
              (HasNext-Ran r s (run_row task (visits r) r s) ran next) le'
              (met e (run_row task (visits r) r s) ran h))
    ]
  where
    later :
        is_success r.region.status ≡ true
        → IsMet n id s ⊎ (will_run id (r ∷ rs) ≡ true)
        → IsMet n id s ⊎ (will_run id rs ≡ true)
    later e (inl m) = inl m
    later e (inr w) = inr (ground (arith, e, w))

    met :
        is_success r.region.status ≡ false
        → (s' : Store) → Ran r s s'
        → IsMet n id s ⊎ (will_run id (r ∷ rs) ≡ true)
        → IsMet n id s' ⊎ (will_run id rs ≡ true)
    met open' s' ran (inl m) = inl (IsMet-Ran n id r s s' next le ran m)
    met open' s' ran (inr w) = elim (Bool-cases (nat_beq r.id id)) [
      | inl e ↦
          let i = (nat_beq_iff r.id id).0 e in
          inl (subst (λ i. IsMet n i s') i (IsMet-self n r s s' next le ran))
      | inr e ↦ inr (ground (arith, e, w))
    ]
