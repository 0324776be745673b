-- ===== src/Tasks/Sent.antt =====
-- internal/service/tasks.go: what the round of `RunSingleExecution` for one row leaves behind: a
-- result in the row, or a job for it that waits.
use dnsgolang.Base.{
  ℕ, ◌+◌, ◌≡◌, refl, ap, ◌∙◌, inl, inr, Bool, true, false, Option, some, List, [], ◌∷◌, ◌++◌, arith,
  Bool-cases, Option-cases, if◌then◌else◌,
}
use dnsgolang.Base.Text.{Text}
use dnsgolang.Scheduling.Nodes.{get_single_execution_node}
use dnsgolang.Tasks.Rows.{
  RegionRow, ProbeJob, ProbeResult, Store, update_row, settled_row, published,
  persist_region_result,
}
use dnsgolang.Tasks.Jobs.{Remote, dispatch_single_to_agent, agent_online_by_node}
use dnsgolang.Tasks.Run.{
  RunTask, Visit, run_row, begin_row, is_remote, found_node, agent_unavailable,
}
use dnsgolang.Scheduling.Types.{Node}

-- Nothing was added to the jobs, or one job with the next id.
pub data Added (s s' : Store) : Type 0 where
  nothing : s'.jobs ≡ s.jobs → s'.next_job ≡ s.next_job → Added s s'
  one :
      (job : ProbeJob)
      → s'.jobs ≡ s.jobs ++ (job ∷ [])
      → job.id ≡ s.next_job
      → s'.next_job ≡ s.next_job + 1
      → Added s s'

-- A dispatch leaves the rows as they are and adds one job at most; one that succeeds adds a
-- published job for the row.
pub data Dispatched (row : RegionRow) (s : Store) (r : Bool × Store) : Type 0 where
  sent :
      (job : ProbeJob)
      → r.0 ≡ true
      → r.1.jobs ≡ s.jobs ++ (job ∷ [])
      → job.id ≡ s.next_job
      → job.status ≡ published
      → job.execution_region_id ≡ some row.id
      → r.1.next_job ≡ s.next_job + 1
      → r.1.rows ≡ s.rows
      → Dispatched row s r
  refused : r.0 ≡ false → Added s r.1 → r.1.rows ≡ s.rows → Dispatched row s r

either :
    {row : RegionRow} {s : Store} {x y : Bool × Store} (b : Bool)
    → Dispatched row s x
    → Dispatched row s y
    → Dispatched row s (if b then x else y)
either true h k = h
either false h k = k

dispatch-Dispatched :
    (env : Remote) (protocol target : Text) (row : RegionRow) (s : Store)
    → Dispatched row s (dispatch_single_to_agent env protocol target row s)
unfolding dispatch_single_to_agent
dispatch-Dispatched env protocol target row s =
    elim (Option-cases (env.agent_ref row.region.node_code)) [
      | inl e ↦ rw (e, dispatch_single_to_agent) (refused refl (nothing refl refl) refl)
      | inr (agent_ref, e) ↦
          elim (Option-cases (agent_online_by_node env.now env.agents agent_ref)) [
            | inl f ↦
                rw (e, dispatch_single_to_agent) (rw f (refused refl (nothing refl refl) refl))
            | inr (agent, f) ↦
                rw (e, dispatch_single_to_agent)
                  (rw f (
                    either _ (sent _ refl refl refl refl refl refl refl)
                      (refused refl (one _ refl refl refl) refl)))
          ]
    ]

-- A round for a row: its row, marked as running on the chosen node, gets a result, or stays running
-- while a job for it was published. No other row changes.
pub data Ran (row : RegionRow) (s s' : Store) : Type 0 where
  settled :
      (p : ProbeResult) (chosen : Option Node)
      → s'.rows ≡ update_row row.id (settled_row p) (update_row row.id (begin_row chosen) s.rows)
      → Added s s'
      → Ran row s s'
  waits :
      (job : ProbeJob) (chosen : Option Node)
      → s'.rows ≡ update_row row.id (begin_row chosen) s.rows
      → s'.jobs ≡ s.jobs ++ (job ∷ [])
      → job.id ≡ s.next_job
      → job.status ≡ published
      → job.execution_region_id ≡ some row.id
      → s'.next_job ≡ s.next_job + 1
      → Ran row s s'

Added-again :
    (id : ℕ) (protocol : Text) (s s' : Store) (rows : List RegionRow)
    → Added (record s { rows = rows }) s'
    → Added s (persist_region_result id protocol agent_unavailable s')
unfolding persist_region_result
Added-again id protocol s s' rows (nothing e f) = nothing e f
Added-again id protocol s s' rows (one job e i f) = one job e i f

pub begin_row-id : (chosen : Option Node) (r : RegionRow) → (begin_row chosen r).id ≡ r.id
unfolding begin_row
begin_row-id chosen r = ground arith

remote-Ran :
    (task : RunTask) (chosen : Option Node) (row begun : RegionRow) (s : Store) (r : Bool × Store)
    → begun.id ≡ row.id
    → Dispatched begun (record s { rows = update_row row.id (begin_row chosen) s.rows }) r
    → Ran row s
        (if r.0 then r.1 else persist_region_result row.id task.protocol agent_unavailable r.1)
unfolding persist_region_result
remote-Ran task chosen row begun s (b, s') i (sent job e jobs id open' region next rows) =
    rw e (waits job chosen rows jobs id open' (region ∙ ap some i) next)
remote-Ran task chosen row begun s (b, s') i (refused e added rows) = rw e (
    settled agent_unavailable chosen (ap (update_row row.id (settled_row agent_unavailable)) rows)
      (Added-again row.id task.protocol s s' _ added))

pub run_row-Ran :
    (task : RunTask) (visit : Visit) (row : RegionRow) (s : Store)
    → Ran row s (run_row task visit row s)
unfolding run_row persist_region_result
run_row-Ran task visit row s =
    let chosen = found_node (
      get_single_execution_node visit.schedulable visit.reads.ref visit.reads row.region.region_code
        task.mode) in
    let begun = begin_row chosen row in
    elim (Bool-cases (is_remote begun.region.node_transport)) [
      | inl e ↦ rw e (
          remote-Ran task chosen row begun s _ (begin_row-id chosen row)
            (dispatch-Dispatched visit.remote task.protocol task.target begun _))
      | inr e ↦ rw e (settled visit.local_result chosen refl (nothing refl refl))
    ]
