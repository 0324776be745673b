-- ===== src/Tasks/Kept.antt =====
-- internal/service/tasks.go: the loop of `RunSingleExecution` keeps the ids and executions of the rows.
use dnsgolang.Base.{
  ℕ, ◌≡◌, refl, sym, ap, ◌∙◌, inl, inr, Option, List, [], ◌∷◌, arith, Bool-cases, subst,
}
use dnsgolang.Scheduling.Types.{Node}
use dnsgolang.Tasks.Rows.{RegionRow, Store, settled_row}
use dnsgolang.Tasks.Run.{RunTask, Visit, run_row, run_rows, begin_row, is_success}
use dnsgolang.Tasks.Settled.{belongs, HasIds, settled_row-keeps, HasIds-update, belongs-update}
use dnsgolang.Tasks.Sent.{Ran, settled, waits, run_row-Ran}

begin_row-keeps :
    (chosen : Option Node) (r : RegionRow)
    → ((begin_row chosen r).id ≡ r.id) × ((begin_row chosen r).execution_id ≡ r.execution_id)
unfolding begin_row
begin_row-keeps chosen r = ground arith

rows-Ran :
    (x : ℕ) (row : RegionRow) (s s' : Store)
    → Ran row s s'
    → (HasIds s.rows → HasIds s'.rows) × ((id : ℕ) → belongs x id s'.rows ≡ belongs x id s.rows)
rows-Ran x row s s' (settled p chosen e added) = (
  λ ids. subst HasIds (sym e) (
      HasIds-update row.id (settled_row p) _ (settled_row-keeps p)
        (HasIds-update row.id (begin_row chosen) s.rows (begin_row-keeps chosen) ids)),
  λ id.
      ap (belongs x id) e
      ∙ belongs-update x id row.id (settled_row p) _ (settled_row-keeps p)
      ∙ belongs-update x id row.id (begin_row chosen) s.rows (begin_row-keeps chosen),
)
rows-Ran x row s s' (waits job chosen e jobs i st r next) = (
  λ ids.
      subst HasIds (sym e)
        (HasIds-update row.id (begin_row chosen) s.rows (begin_row-keeps chosen) ids),
  λ id.
      ap (belongs x id) e
      ∙ belongs-update x id row.id (begin_row chosen) s.rows (begin_row-keeps chosen),
)

pub rows-run_rows :
    (task : RunTask) (visits : RegionRow → Visit) (x : ℕ) (rows : List RegionRow) (s : Store)
    → let s' = run_rows task visits rows s in
      (HasIds s.rows → HasIds s'.rows) × ((id : ℕ) → belongs x id s'.rows ≡ belongs x id s.rows)
unfolding run_rows
rows-run_rows task visits x [] s = (λ ids. ids, λ id. refl)
rows-run_rows task visits x (r ∷ rs) s = elim (Bool-cases (is_success r.region.status)) [
  | inl e ↦ rw (e, run_rows) (rows-run_rows task visits x rs s)
  | inr e ↦
      let (ids, same') =
        rows-Ran x r s (run_row task (visits r) r s) (run_row-Ran task (visits r) r s) in
      let (ids', same'') = rows-run_rows task visits x rs (run_row task (visits r) r s) in
      rw (e, run_rows) (λ h. ids' (ids h), λ id. same'' id ∙ same' id)
]
