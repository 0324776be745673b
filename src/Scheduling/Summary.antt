-- ===== src/Scheduling/Summary.antt =====
-- internal/service/scheduling.go: the rows that `buildExecution` creates, and how
-- `refreshExecutionStatus` sums up an execution. A ratio is a number of hundredths of a percent.
pub mod Status
pub mod Ratio
use dnsgolang.Base.{
  ℕ, ◌+◌, ◌-◌, ◌*◌, ◌/◌, Bool, true, false, not, ◌&&◌, ◌||◌, Option, none, some, List, [], ◌∷◌,
  keep, find, length, nat_beq, ltb, if◌then◌else◌, ◌==◌, text_eq,
}
use dnsgolang.Base.Text.{Text}
use dnsgolang.Scheduling.Types.{Transport, Node, Region, Result, ok, err, ◌>>=◌}
use dnsgolang.Base.{ℤ}

pub data RegionStatus : Type 0 where
  pending running success failed : RegionStatus

pub record ExecutionRegion : Type 0 where
  pub region_code : Text
  pub region_name : Text
  pub map_lng : ℤ
  pub map_lat : ℤ
  pub node_code : Text
  pub node_name : Text
  pub node_transport : Option Transport
  pub status : RegionStatus
  pub success : Bool

-- One round of the loop over the codes: the row of a region that was read, with its default node
-- where that could be found.
unfoldable pub region_row : (Text → Result (Option Node)) → Region → ExecutionRegion
region_row default_node region =
    let row = λ (code name : Text) (transport : Option Transport).
      let r : ExecutionRegion = record {
        region_code = region.code;
        region_name = region.name;
        map_lng = region.map_lng;
        map_lat = region.map_lat;
        node_code = code;
        node_name = name;
        node_transport = transport;
        status = pending;
        success = false;
      } in
      r in
    elim (default_node region.code) [
      | err e ↦ row [] [] none
      | ok none ↦ row [] [] none
      | ok (some node) ↦ row node.code node.name (some node.transport)
    ]

unfoldable pub build_rows :
    List Region → (Text → Result (Option Node)) → List Text → List ExecutionRegion
unfolding region_row
build_rows regions default_node [] = []
build_rows regions default_node (code ∷ codes) =
    let rest = build_rows regions default_node codes in
    elim (find (λ r. r.code == code) regions) [
      | none ↦ rest
      | some region ↦ region_row default_node region ∷ rest
    ]

pub data ExecStatus : Type 0 where
  running success partial failed : ExecStatus

-- The texts of `summary_message`.
pub data SummaryMessage : Type 0 where
  waiting : (returned total : ℕ) → SummaryMessage
  all_succeeded some_succeeded all_failed : SummaryMessage

pub record Updates : Type 0 where
  pub success_region_count : ℕ
  pub total_region_count : ℕ
  pub availability_ratio : ℕ
  pub status : ExecStatus
  pub summary_message : SummaryMessage
  pub finished_at : Option ℕ
  pub task_status : ExecStatus
  pub task_last_run_at : Option ℕ

abbrev pub is_open : RegionStatus → Bool
is_open pending = true
is_open running = true
is_open success = false
is_open failed = false

unfoldable pub success_count : List ExecutionRegion → ℕ
success_count rows = length (keep (λ r. r.success) rows)

unfoldable pub open_count : List ExecutionRegion → ℕ
open_count rows = length (keep (λ r. is_open r.status) rows)

-- Half up to two places: `float64(int(ratio*100+0.5)) / 100` of `success / total * 100`.
unfoldable pub ratio_hundredths : ℕ → ℕ → ℕ
ratio_hundredths successes total =
    if ltb 0 total then (20000 * successes + total) / (2 * total) else 0

-- `now` is the clock; the two rows that are written get the same status.
unfoldable pub refresh_execution_status : ℕ → List ExecutionRegion → Updates
refresh_execution_status now rows =
    let total = length rows in
    let successes = success_count rows in
    let open_rows = open_count rows in
    let write = λ (status : ExecStatus) (message : SummaryMessage) (at : Option ℕ).
      let u : Updates = record {
        success_region_count = successes;
        total_region_count = total;
        availability_ratio = ratio_hundredths successes total;
        status = status;
        summary_message = message;
        finished_at = at;
        task_status = status;
        task_last_run_at = at;
      } in
      u in
    if ltb 0 open_rows
    then write running (waiting (total - open_rows) total) none
    else if ltb 0 total && nat_beq successes total
    then write success all_succeeded (some now)
    else if ltb 0 successes
    then write partial some_succeeded (some now)
    else write failed all_failed (some now)
