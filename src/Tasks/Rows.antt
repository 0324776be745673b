-- ===== src/Tasks/Rows.antt =====
-- internal/service/tasks.go and internal/service/scheduling.go: the store of the rows of executions.
-- `persistRegionResult` writes the result of a region, `refreshExecutionStatus` sums the rows of
-- one execution up. The writes themselves succeed.
use dnsgolang.Base.{
  ℕ, Bool, Option, none, some, List, [], ◌∷◌, map, keep, find, if◌then◌else◌, nat_beq,
}
use dnsgolang.Base.Text.{Text}
use dnsgolang.Scheduling.Summary.{ExecutionRegion, RegionStatus, Updates, refresh_execution_status}
use dnsgolang.Tasks.Detail.{Detail, protocol_detail_for_api}

-- `Status` of a result is "success" or "failed".
pub data ResultStatus : Type 0 where
  success failed : ResultStatus

pub record ProbeResult : Type 0 where
  pub succeeded : Bool
  pub status : ResultStatus
  pub resolved_target : Text
  pub latency : Option ℕ
  pub error_code : Text
  pub error_message : Text
  pub detail : Detail

pub record RegionRow : Type 0 where
  pub id : ℕ
  pub execution_id : ℕ
  pub region : ExecutionRegion
  pub resolved_target : Text
  pub latency : Option ℕ
  pub error_code : Text
  pub error_message : Text

pub data JobStatus : Type 0 where
  queued published leased completed failed timeout cancelled : JobStatus

pub record JobStep : Type 0 where
  pub protocol : Text
  pub target : Text
  pub status : RegionStatus
  pub resolved_target : Text
  pub latency : Option ℕ
  pub error_code : Text
  pub error_message : Text
  pub detail : Detail

pub record ProbeJob : Type 0 where
  pub id : ℕ
  pub agent_code : Text
  pub execution_region_id : Option ℕ
  pub status : JobStatus
  pub retry_count : ℕ
  pub lease_until : ℕ
  pub last_error : Text
  pub steps : List JobStep

-- The tables that an execution touches: the rows of regions, the details of results by the row that
-- they belong to, the summary last written for an execution, and the jobs of remote probes.
pub record Store : Type 0 where
  pub rows : List RegionRow
  pub details : ℕ → Option (Text × Detail)
  pub summaries : ℕ → Option Updates
  pub jobs : List ProbeJob
  pub next_job : ℕ

abbrev pub region_status : ResultStatus → RegionStatus
region_status success = RegionStatus.success
region_status failed = RegionStatus.failed

abbrev pub or_kept : Option ℕ → Option ℕ → Option ℕ
or_kept none old = old
or_kept (some v) old = some v

-- The update of a row by a result; a latency that is missing leaves the old one.
unfoldable pub settled_row : ProbeResult → RegionRow → RegionRow
settled_row result r = record r {
  region = record r.region { status = region_status result.status; success = result.succeeded };
  resolved_target = result.resolved_target;
  latency = or_kept result.latency r.latency;
  error_code = result.error_code;
  error_message = result.error_message;
}

-- `Where("id = ?", id).Updates(…)`
unfoldable pub update_row : ℕ → (RegionRow → RegionRow) → List RegionRow → List RegionRow
update_row id f [] = []
update_row id f (r ∷ rs) = (if nat_beq r.id id then f r else r) ∷ update_row id f rs

abbrev pub put {ℓ} : {A : Type ℓ} → ℕ → A → (ℕ → Option A) → ℕ → Option A
put k v table j = if nat_beq j k then some v else table j

unfoldable pub persist_region_result : ℕ → Text → ProbeResult → Store → Store
persist_region_result id protocol result s = record s {
  rows = update_row id (settled_row result) s.rows;
  details = put id (protocol, protocol_detail_for_api protocol result.detail) s.details;
}

abbrev pub regions_of : ℕ → List RegionRow → List ExecutionRegion
regions_of execution_id rows =
    map (λ r. r.region) (keep (λ r. nat_beq r.execution_id execution_id) rows)

unfoldable pub refresh : ℕ → ℕ → Store → Store
refresh now execution_id s = record s {
  summaries =
      put execution_id (refresh_execution_status now (regions_of execution_id s.rows)) s.summaries;
}

abbrev pub find_row : ℕ → List RegionRow → Option RegionRow
find_row id rows = find (λ r. nat_beq r.id id) rows
