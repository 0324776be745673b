-- ===== src/Batch/Rows.antt =====
-- internal/service/batch.go: the work items of a batch and the row that the probe of each becomes
-- (`expandBatchProtocols`, `runBatchTargetProbe`, `buildBatchResultRow`, `batchDetailForAPI`,
-- `buildBatchResultCode`). The probes of internal/engine/prober are parameters, as are the Go string in
-- a JSON text and the text that `%v` prints for it.
use dnsgolang.Base.{
  ℕ, Bool, false, not, Option, none, some, List, [], ◌∷◌, ◌++◌, if◌then◌else◌, ◌==◌, text_eq, keep,
  find, take, map, is_empty,
}
use dnsgolang.Base.Text.{Text, txt}
use dnsgolang.Tasks.Rows.{ProbeResult, ResultStatus}
use dnsgolang.Tasks.Detail.{Detail, protocol_detail_for_api}

pub data BatchStatus : Type 0 where
  pending running success partial failed cancelled : BatchStatus

pub record BatchTarget : Type 0 where
  pub line_no : ℕ
  pub normalized_target : Text

-- The options of a task, and those that it has for one protocol where that is an object.
pub record BatchOptions : Type 0 where
  pub whole : Detail
  pub of_protocol : Text → Option Detail

pub record WorkItem : Type 0 where
  pub target : BatchTarget
  pub protocol : Text
  pub opts : Detail
  pub region : Text

abbrev pub all_protocols : List Text
all_protocols = txt "http" ∷ txt "ping" ∷ txt "dns" ∷ txt "mtr" ∷ txt "traceroute" ∷ []

unfoldable pub expand_batch_protocols : Text → List Text
expand_batch_protocols protocol = if protocol == txt "all" then all_protocols else protocol ∷ []

abbrev pub or_empty : Option Detail → Detail
or_empty none = []
or_empty (some options) = options

unfoldable pub item_options : Text → BatchOptions → Text → Detail
item_options task_protocol options protocol =
    if task_protocol == txt "all" then or_empty (options.of_protocol protocol) else options.whole

abbrev pub flat_map {ℓ κ} : {A : Type ℓ} {B : Type κ} → (A → List B) → List A → List B
flat_map f [] = []
flat_map f (x ∷ xs) = f x ++ flat_map f xs

-- The three loops over regions, targets and protocols.
unfoldable pub work_items : Text → BatchOptions → List Text → List BatchTarget → List WorkItem
unfolding expand_batch_protocols item_options
work_items task_protocol options regions targets =
    flat_map
      (λ region.
        flat_map
          (λ target.
            map
              (λ protocol.
                let item : WorkItem = record {
                  target = target;
                  protocol = protocol;
                  opts = item_options task_protocol options protocol;
                  region = region;
                } in
                item)
              (expand_batch_protocols task_protocol))
          targets)
      regions

-- The probes, from a target and its options.
pub record Probes : Type 0 where
  pub execute_http : Text → Detail → ProbeResult
  pub execute_ping : Text → Detail → ProbeResult
  pub execute_dns : Text → Detail → ProbeResult
  pub execute_mtr : Text → Detail → ProbeResult
  pub execute_traceroute : Text → Detail → ProbeResult

unfoldable pub run_batch_target_probe : Probes → Text → Text → Detail → ProbeResult
run_batch_target_probe probes protocol target options =
    if protocol == txt "http"
    then probes.execute_http (txt "https://" ++ target) options
    else if protocol == txt "ping"
    then probes.execute_ping target options
    else if protocol == txt "dns"
    then probes.execute_dns target options
    else if protocol == txt "mtr"
    then probes.execute_mtr target options
    else if protocol == txt "traceroute"
    then probes.execute_traceroute target options
    else record {
      succeeded = false;
      status = ResultStatus.failed;
      resolved_target = [];
      latency = none;
      error_code = txt "unsupported_protocol";
      error_message = txt "unsupported batch protocol: " ++ protocol;
      detail = [];
    }

-- How a value of a detail, a JSON text, is read: as a string where it is one, and as `%v` prints it.
pub record Json : Type 0 where
  pub as_string : Text → Option Text
  pub printed : Text → Text

abbrev pub get : Text → Detail → Option Text
get key detail = elim (find (λ e. e.0 == key) detail) [ none ↦ none | some e ↦ some e.1 ]

abbrev pub or_default : Text → Text → Text
or_default v fallback = if is_empty v then fallback else v

unfoldable pub build_batch_result_code : Json → Text → ProbeResult → Text
build_batch_result_code json protocol result =
    if protocol == txt "http"
    then elim (get (txt "http_status") result.detail) [
      | none ↦ result.error_code
      | some v ↦ if v == txt "null" then result.error_code else json.printed v
    ]
    else if protocol == txt "dns"
    then elim (get (txt "rcode") result.detail) [
      | none ↦ result.error_code
      | some v ↦ elim (json.as_string v) [
        | none ↦ result.error_code
        | some rcode ↦ if is_empty rcode then result.error_code else rcode
      ]
    ]
    else if protocol == txt "ping"
    then (if result.succeeded
        then txt "PING_OK"
        else or_default result.error_code (txt "PING_FAILED"))
    else if protocol == txt "mtr"
    then (if result.succeeded
        then txt "MTR_OK"
        else or_default result.error_code (txt "MTR_FAILED"))
    else if protocol == txt "traceroute"
    then (if result.succeeded
        then txt "TRACE_OK"
        else or_default result.error_code (txt "TRACEROUTE_FAILED"))
    else result.error_code

unfoldable pub batch_detail_for_api : Text → ProbeResult → Detail
batch_detail_for_api protocol result =
    keep (λ e. not (e.0 == txt "observation")) (protocol_detail_for_api protocol result.detail)

pub record BatchResult : Type 0 where
  pub batch_execution_id : ℕ
  pub region_code : Text
  pub node_code : Text
  pub target : Text
  pub protocol : Text
  pub status : BatchStatus
  pub succeeded : Bool
  pub resolved_target : Text
  pub latency : Option ℕ
  pub result_code : Text
  pub error_code : Text
  pub error_message : Text
  pub detail : Detail

unfoldable pub build_batch_result_row : Json → ℕ → WorkItem → ProbeResult → Text → BatchResult
unfolding build_batch_result_code batch_detail_for_api
build_batch_result_row json execution_id item result node_code = record {
  batch_execution_id = execution_id;
  region_code = item.region;
  node_code = node_code;
  target = item.target.normalized_target;
  protocol = item.protocol;
  status = if result.succeeded then success else failed;
  succeeded = result.succeeded;
  resolved_target = take 1024 result.resolved_target;
  latency = result.latency;
  result_code = build_batch_result_code json item.protocol result;
  error_code = result.error_code;
  error_message = take 255 result.error_message;
  detail = batch_detail_for_api item.protocol result;
}
