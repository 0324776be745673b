-- ===== src/Scan/Run.antt =====
-- internal/service/scanner.go: the run of a scan (`RunScanJob`) and its stop (`RequestScanStop`). The
-- hosts are scanned at once, and each result is counted under the lock; so a run is the list of its
-- events, the results in the order in which they are counted and the stops that come between. An
-- average is a number of hundredths of a millisecond, rounded half up, without the error of a float.
pub mod Sums
pub mod Counted
pub mod Stops
pub mod Errors
use dnsgolang.Base.{
  ℕ, ◌+◌, ◌*◌, ◌/◌, ◌%◌, Bool, true, false, not, ◌&&◌, ◌||◌, Option, none, some, List, [], ◌∷◌,
  if◌then◌else◌, is_empty, nat_beq, nat_eq, ltb, length, take, find,
}
use dnsgolang.Base.Sort.{sort_by}
use dnsgolang.Base.Text.{Text, txt}
use dnsgolang.Risk.Catalog.{
  RiskType, risk_eq, Severity, unrated, Tier, untiered, MethodCode, method_code_for_risk,
}
use dnsgolang.Scan.Counts.{bump, severity_eq, tier_eq, code_eq}
use dnsgolang.Scan.Host.{ScanResult, HostStatus, LibraryHost}
use dnsgolang.Scan.Tally.{Tally, no_tally, land}

pub data ScanStatus : Type 0 where
  pending running completed failed : ScanStatus

pub data ScanMessage : Type 0 where
  waiting : (total : ℕ) → ScanMessage
  scanned : (count total : ℕ) → ScanMessage
  finished : (count suspicious : ℕ) → ScanMessage
  stopped : ScanMessage

pub record DomainRow : Type 0 where
  pub id : ℕ
  pub domain : Text
  pub count : ℕ

pub record ScanSummary : Type 0 where
  pub total_hosts : ℕ
  pub tally : Tally
  pub method_count : ℕ
  pub avg_latency : Option ℕ
  pub top_risk_domains : List DomainRow

-- The columns of the job that a run writes.
pub record ScanJob : Type 0 where
  pub status : ScanStatus
  pub started_at : Option ℕ
  pub finished_at : Option ℕ
  pub processed_hosts : ℕ
  pub success_hosts : ℕ
  pub suspicious_hosts : ℕ
  pub error_hosts : ℕ
  pub avg_latency : Option ℕ
  pub summary : Option ScanSummary
  pub summary_message : ScanMessage
  pub last_error : Text

unfoldable pub write_progress : ℕ → Tally → ScanJob → ScanJob
write_progress total t job =
    if nat_eq.beq (t.processed % 20) 0 || nat_eq.beq t.processed total
    then record job {
      processed_hosts = t.processed;
      success_hosts = t.success_n;
      suspicious_hosts = t.suspicious_n;
      error_hosts = t.error_n;
      summary_message = scanned t.processed total;
    }
    else job

abbrev pub is_stoppable : ScanStatus → Bool
is_stoppable pending = true
is_stoppable running = true
is_stoppable _ = false

unfoldable pub request_scan_stop : ℕ → ScanJob → ScanJob
request_scan_stop at job =
    if is_stoppable job.status
    then record job {
      status = failed;
      last_error = txt "manual_stop";
      summary_message = stopped;
      finished_at = some at;
    }
    else job

pub data ScanEvent : Type 0 where
  landed : ScanResult → ScanEvent
  stop : ℕ → ScanEvent

unfoldable pub take_event : ℕ → ScanEvent → Tally × ScanJob → Tally × ScanJob
unfolding land write_progress request_scan_stop
take_event total (landed r) (t, job) = (land r t, write_progress total (land r t) job)
take_event total (stop at) (t, job) = (t, request_scan_stop at job)

unfoldable pub take_events : ℕ → List ScanEvent → Tally × ScanJob → Tally × ScanJob
unfolding take_event
take_events total [] s = s
take_events total (event ∷ events) s = take_events total events (take_event total event s)

-- The rows of domains with risks whose names are known.
unfoldable pub domain_rows : List (ℕ × Text) → List (ℕ × ℕ) → List DomainRow
domain_rows names [] = []
domain_rows names ((id, n) ∷ counts) = elim (find (λ d. nat_beq d.0 id) names) [
  | none ↦ domain_rows names counts
  | some d ↦ record { id = id; domain = d.1; count = n } ∷ domain_rows names counts
]

unfoldable pub top_risk_domains : List (ℕ × Text) → List (ℕ × ℕ) → List DomainRow
unfolding domain_rows
top_risk_domains names counts =
    take 5 (sort_by (λ a b. ltb b.count a.count) (domain_rows names counts))

unfoldable pub average_latency : ℕ → ℕ → Option ℕ
average_latency sum n = if nat_eq.beq n 0 then none else some ((2 * sum + 10 * n) / (20 * n))

abbrev pub or_kept_latency : Option ℕ → Option ℕ → Option ℕ
or_kept_latency old none = old
or_kept_latency old (some v) = some v

unfoldable pub summarize : ℕ → List (ℕ × Text) → Tally → ScanSummary
unfolding average_latency top_risk_domains
summarize total names t = record {
  total_hosts = total;
  tally = t;
  method_count = length t.method_counts;
  avg_latency = average_latency t.latency_sum t.latency_cnt;
  top_risk_domains = top_risk_domains names t.domain_risk_count;
}

unfoldable pub finish_scan : ℕ → ℕ → List (ℕ × Text) → Tally × ScanJob → ScanJob
unfolding summarize
finish_scan at total names (t, job) = record job {
  status = completed;
  finished_at = some at;
  processed_hosts = t.processed;
  success_hosts = t.success_n;
  suspicious_hosts = t.suspicious_n;
  error_hosts = t.error_n;
  avg_latency = or_kept_latency job.avg_latency (average_latency t.latency_sum t.latency_cnt);
  summary = some (summarize total names t);
  summary_message = finished t.processed t.suspicious_n;
}

unfoldable pub begin_scan : ℕ → ScanJob → ScanJob
begin_scan at job = record job { status = running; started_at = some at }

-- The hosts are `none` where their query fails: the run returns the error then. `names` are the
-- domains of the library.
unfoldable pub run_scan_job :
    (started ended : ℕ)
    → Option (List LibraryHost)
    → List (ℕ × Text)
    → List ScanEvent
    → ScanJob
    → ScanJob
unfolding begin_scan take_events finish_scan
run_scan_job started ended none names events job = begin_scan started job
run_scan_job started ended (some hosts) names events job =
    finish_scan ended (length hosts) names
      (take_events (length hosts) events (no_tally, begin_scan started job))
