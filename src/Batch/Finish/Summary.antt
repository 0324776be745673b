-- ===== src/Batch/Finish/Summary.antt =====
-- internal/service/batch.go: what a run writes at its end is the summary of the rows of its items.
use dnsgolang.Base.{
  ℕ, ◌+◌, ◌≡◌, refl, sym, ◌∙◌, Bool, true, false, not, ◌||◌, Option, some, List, [], ◌∷◌, arith,
  map, length, keep, all, any, if◌then◌else◌, nat_beq, ltb,
}
use dnsgolang.Base.Text.{Text}
use dnsgolang.Batch.Rows.{success, partial, failed, cancelled, WorkItem, BatchResult}
use dnsgolang.Batch.Run.{Setup, row_of, Flight, launch, Steps, HasLanded}
use dnsgolang.Batch.Run.Totals.{total}
use dnsgolang.Batch.Run.Counts.{succeeded}
use dnsgolang.Batch.Run.Held.{landed-rows}
use dnsgolang.Batch.Finish.{
  Rows, BatchExecution, BatchTask, complete_batch, end_batch, mark_batch_cancelled,
}

total-keep :
    (rows : List BatchResult) → total succeeded rows ≡ length (keep (λ r. r.succeeded) rows)
total-keep [] = refl
total-keep (r ∷ rows) = ground (arith, total-keep rows)

keep-split :
    (rows : List BatchResult)
    → length (keep (λ r. r.succeeded) rows) + length (keep (λ r. not r.succeeded) rows)
      ≡ length rows
keep-split [] = omega arith
keep-split (r ∷ rows) = ground (arith, keep-split rows)

all_kept :
    (rows : List BatchResult)
    → nat_beq (length (keep (λ r. r.succeeded) rows)) (length rows) ≡ all (λ r. r.succeeded) rows
all_kept [] = refl
all_kept (r ∷ rows) = ground (arith, all_kept rows, keep-split rows)

some_kept :
    (rows : List BatchResult)
    → ltb 0 (length (keep (λ r. r.succeeded) rows)) ≡ any (λ r. r.succeeded) rows
some_kept [] = refl
some_kept (r ∷ rows) = ground (arith, some_kept rows)

length-map {ℓ κ} :
    {A : Type ℓ} {B : Type κ} (f : A → B) (xs : List A) → length (map f xs) ≡ length xs
length-map f [] = refl
length-map f (x ∷ xs) = omega (arith, length-map f xs)

-- What the rows of all items come to: whether all or some succeeded, and how many did and did not.
abbrev pub Sums : List BatchResult → Rows → Type 0
Sums rows (execution, task) =
    (execution.status ≡ (
      if all (λ r. r.succeeded) rows
      then success
      else if any (λ r. r.succeeded) rows
      then partial
      else failed))
    × (task.status ≡ execution.status)
    × (execution.success_count ≡ length (keep (λ r. r.succeeded) rows))
    × (execution.failed_count ≡ length (keep (λ r. not r.succeeded) rows))

complete_batch-Sums :
    (next_run : Text → ℕ → Option ℕ) (now total : ℕ) (s : Flight) (rows : List BatchResult)
    (execution : BatchExecution) (task : BatchTask)
    → s.success_count ≡ length (keep (λ r. r.succeeded) rows)
    → total ≡ length rows
    → Sums rows (complete_batch next_run now total s (execution, task))
unfolding complete_batch
complete_batch-Sums next_run now total s rows execution task e t =
    rw e (rw t (ground (arith, all_kept rows, some_kept rows, keep-split rows)))

-- A run that is not stopped and whose writes succeed ends with the summary of its items' rows, the
-- same for every order in which workers and writer went on: the status of execution and task by
-- whether all, some or none succeeded, and the numbers of both kinds.
pub end_batch-Sums :
    (env : Setup) (items : List WorkItem) (n : ℕ) (s : Flight) (next_run : Text → ℕ → Option ℕ)
    (now : ℕ) (db : List BatchResult) (execution : BatchExecution) (task : BatchTask)
    → Steps env items n (launch items) s
    → HasLanded s
    → s.stopped ≡ false
    → s.lost ≡ []
    → (out : Rows) × (end_batch next_run now items s false db (execution, task) ≡ some out)
      × Sums (map (row_of env) items) out
unfolding end_batch
end_batch-Sums env items n s next_run now db execution task steps landed go kept =
    let (_, _, successes, _, _) = landed-rows env items n s steps landed go kept in
    let rows = map (row_of env) items in
    (
      complete_batch next_run now (length items) s (execution, task),
      rw (go, end_batch) (rw (kept, end_batch) refl),
      complete_batch-Sums next_run now (length items) s rows execution task
          (successes ∙ total-keep rows) (sym (length-map (row_of env) items)),
    )

-- The end of a run that was stopped, in its loop or by the last question: execution and task are
-- cancelled, and the two counts add up to the rows that the database has.
pub end_batch-stopped :
    (next_run : Text → ℕ → Option ℕ) (now : ℕ) (items : List WorkItem) (s : Flight)
    (stop_now : Bool) (db : List BatchResult) (execution : BatchExecution) (task : BatchTask)
    → (s.stopped || stop_now) ≡ true
    → (out : Rows) × (end_batch next_run now items s stop_now db (execution, task) ≡ some out)
      × (out.0.status ≡ cancelled)
      × (out.1.status ≡ cancelled)
      × (out.0.success_count + out.0.failed_count ≡ length db)
unfolding end_batch mark_batch_cancelled
end_batch-stopped next_run now items s stop_now db execution task h = (
  mark_batch_cancelled next_run now db (execution, task),
  rw (h, end_batch) refl,
  refl,
  refl,
  keep-split db,
)
