-- ===== src/Tasks/Run.antt =====
-- internal/service/tasks.go: `RunSingleExecution`. What the run reads when it comes to a row (nodes,
-- agents, clock, configuration) and what the local probe then finds is its argument. The status
-- "running" that is written first is replaced by the summary at the end.
use dnsgolang.Base.{
  ℕ, Bool, true, false, Option, none, some, List, [], ◌∷◌, keep, if◌then◌else◌, nat_beq, ◌==◌,
  text_eq,
}
use dnsgolang.Base.Text.{Text, txt}
use dnsgolang.Scheduling.Types.{Transport, local, mqtt, Node, Result, ok, err}
use dnsgolang.Scheduling.Nodes.{DefaultReads, get_single_execution_node}
use dnsgolang.Scheduling.Summary.{RegionStatus}
use dnsgolang.Tasks.Rows.{
  ProbeResult, failed, RegionRow, Store, update_row, persist_region_result, refresh,
}
use dnsgolang.Tasks.Jobs.{Remote, dispatch_single_to_agent}

pub record Visit : Type 0 where
  pub schedulable : Result (List Node)
  pub reads : DefaultReads
  pub remote : Remote
  pub local_result : ProbeResult

-- The task's columns that the run uses, and the mode of the configuration.
pub record RunTask : Type 0 where
  pub protocol : Text
  pub target : Text
  pub mode : Text

abbrev pub found_node : Result (Option Node) → Option Node
found_node (ok node) = node
found_node (err e) = none

-- The update that marks a row as running, on the node that was chosen if there is one.
unfoldable pub begin_row : Option Node → RegionRow → RegionRow
begin_row none r = record r { region = record r.region { status = RegionStatus.running } }
begin_row (some node) r =
    if node.code == r.region.node_code
    then record r { region = record r.region { status = RegionStatus.running } }
    else record r {
      region = record r.region {
        status = RegionStatus.running;
        node_code = node.code;
        node_name = node.name;
        node_transport = some node.transport;
      };
    }

abbrev pub is_remote : Option Transport → Bool
is_remote (some mqtt) = true
is_remote (some local) = false
is_remote none = false

abbrev pub agent_unavailable : ProbeResult
agent_unavailable = record {
  succeeded = false;
  status = failed;
  resolved_target = [];
  latency = none;
  error_code = txt "agent_unavailable";
  error_message = txt "远程探针不可用";
  detail = [];
}

-- The body of the loop.
unfoldable pub run_row : RunTask → Visit → RegionRow → Store → Store
unfolding begin_row
run_row task visit row s =
    let desired = found_node (
      get_single_execution_node visit.schedulable visit.reads.ref visit.reads row.region.region_code
        task.mode) in
    let begun = begin_row desired row in
    let s' : Store = record s { rows = update_row row.id (begin_row desired) s.rows } in
    let (sent, s'') = dispatch_single_to_agent visit.remote task.protocol task.target begun s' in
    if is_remote begun.region.node_transport
    then (if sent then s'' else persist_region_result row.id task.protocol agent_unavailable s'')
    else persist_region_result row.id task.protocol visit.local_result s'

abbrev pub is_success : RegionStatus → Bool
is_success RegionStatus.success = true
is_success RegionStatus.pending = false
is_success RegionStatus.running = false
is_success RegionStatus.failed = false

unfoldable pub run_rows : RunTask → (RegionRow → Visit) → List RegionRow → Store → Store
run_rows task visits [] s = s
run_rows task visits (row ∷ rows) s =
    run_rows task visits rows
      (if is_success row.region.status then s else run_row task (visits row) row s)

-- The rows of the execution are those in the table, in the order of their ids.
unfoldable pub run_single_execution : RunTask → (RegionRow → Visit) → ℕ → ℕ → Store → Store
unfolding run_rows
run_single_execution task visits now execution_id s =
    refresh now execution_id
      (run_rows task visits (keep (λ r. nat_beq r.execution_id execution_id) s.rows) s)
