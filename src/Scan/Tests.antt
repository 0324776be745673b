-- ===== src/Scan/Tests.antt =====
-- internal/service/scanner.go: scans of small libraries.
use dnsgolang.Base.{
  ℕ, leb, ◌≡◌, ◌≢◌, refl, subst, Bool, true, false, not, ◌&&◌, ◌||◌, Option, none, some, List, [],
  ◌∷◌, map, arith, if◌then◌else◌, ◌==◌, text_eq, text_beq, is_empty, length, any, pos,
}
use dnsgolang.Base.Sets.{has}
use dnsgolang.Base.Text.{Text, txt, lower}
use dnsgolang.Batch.Options.{str_any}
use dnsgolang.Batch.Run.Totals.{total}
use dnsgolang.Probing.Options.{Value, nothing, number, text}
use dnsgolang.Risk.Catalog.{
  risk_eq, unreach, no_service, refused, resolution_path_anomaly, latency_distribution_anomaly,
  route_path_anomaly, axfr_exposed,
}
use dnsgolang.Risk.Types
use dnsgolang.Risk.Types.{RecordBaseline, IpTraits}
use dnsgolang.Risk.Detect.{primary_expected}
use dnsgolang.Risk.Engine.{verdicts}
use dnsgolang.Risk.Engine.Laws.{slow_samples}
use dnsgolang.Scan.Lines.{parse_rr_line}
use dnsgolang.Client.Query.{Network, Exchange, answered, unopened}
use dnsgolang.Scan.Network.{HasNames, scan_answers, scan_answers-availability}
use dnsgolang.Scan.Watch.{Answers, scan_plan, watch_host}
use dnsgolang.Scan.Watch.Codes.{failure_code, first_kind}
use dnsgolang.Scan.Host.{LibraryHost, HostReads, HostScan, HostStatus, host_config, write_scan}
use dnsgolang.Scan.Host.Latest.{latest}
use dnsgolang.Scan.Host.Judged.{scan_host-eq, scan_host-latest, scan_host-blind}
use dnsgolang.Scan.Run.{
  ScanJob, ScanSummary, ScanEvent, landed, stop, waiting, pending, completed, run_scan_job,
  or_kept_latency,
}
use dnsgolang.Scan.Run.Sums.{success_of, is_suspicious_of, error_of, latency_of, sample_of}
use dnsgolang.Scan.Run.Counted.{IsCounted}
use dnsgolang.Scan.Run.Stops.{
  results, unstopped, is_stop, manual_stop, run_scan_job-stopped, run_scan_job-IsCounted, IsAverage,
}
use dnsgolang.Scan.Run.Errors.{run_scan_job-no_errors}
use dnsgolang.Scan.Jobs.{
  ScanBody, HostQuery, Profile, ProfileStatus, limit_of, new_job, store_job, create_scan_job,
  run_profile, body_of,
}
use dnsgolang.Scan.Jobs.Hosts.{IsRunnable, create_scan_job-IsRunnable}
use dnsgolang.Scan.Jobs.Spaced.{starts_of, IsSpaced, run_profile-IsSpaced}
use dnsgolang.Scheduling.Types.{Result, ok}

abbrev no_ip : Text → Option IpTraits
no_ip s = none

abbrev www : LibraryHost
www = record {
  id = 7;
  domain_id = 1;
  fqdn = txt "www.a.cn";
  notes = [];
  allow_wildcard = false;
  allow_axfr = false;
  allow_rebind = false;
}

abbrev baseline : RecordBaseline
baseline = record {
  section = txt "answer";
  name = txt "www.a.cn";
  type = txt "A";
  value = txt "1.2.3.4";
  ttl_min = none;
  ttl_max = none;
}

abbrev reads : HostReads
reads = record { baselines = baseline ∷ []; apex_host = none; snapshot_id = some 3 }

-- Queries for A are answered, the others fail.
abbrev reply : Bool → Exchange
reply true = answered (txt "NOERROR") 12000 (txt "www.a.cn. 60 IN A 1.2.3.4" ∷ []) [] []
reply false = answered (txt "SERVFAIL") 9000 [] [] []

reply-named :
    (b : Bool) (rcode : Text) (us : ℕ) (xs ys zs : List Text)
    → reply b ≡ answered rcode us xs ys zs
    → is_empty rcode ≡ false
reply-named true rcode us xs ys zs e =
    let same : txt "NOERROR" ≡ rcode = cc in subst (λ r. is_empty r ≡ false) same refl
reply-named false rcode us xs ys zs e =
    let same : txt "SERVFAIL" ≡ rcode = cc in subst (λ r. is_empty r ≡ false) same refl

abbrev network : Network
network = record {
  exchange = λ q. reply (q.record_type == txt "A");
  transfer = λ host port name. unopened (txt "refused");
  known_type = λ type. true;
  is_ip = λ s. s == txt "1.2.3.4";
  scan = record { scan_int = λ s. none; scan_float = λ s. none; suffix_plus_one = λ s. none };
}

network-HasNames : HasNames network
network-HasNames = record { named = λ q. reply-named (q.record_type == txt "A") }

abbrev net : Answers
net =
    scan_answers network (txt "8.8.8.8") 3000 (txt "1.1.1.1" ∷ []) www.fqdn (txt "a.cn")
      (txt "np-1")

abbrev scanned : HostScan
scanned =
    let w = watch_host www.fqdn www.notes (txt "a.cn") net in
    write_scan www reads 5 w
      (verdicts no_ip (host_config www (txt "a.cn") none) reads.baselines w.observation
        (slow_samples w.observation))
      []

scan_answers-availability_example :
    let answers = map net.ask (scan_plan www.fqdn www.notes (txt "a.cn")) in
    let expects = not (is_empty (primary_expected reads.baselines)) in
    let types = scanned.result.risk_types in
    (has unreach types ≡ (expects && first_kind answers == txt "timeout"))
    × (has no_service types ≡ (
        expects
        && (first_kind answers == txt "servfail"
            || first_kind answers == txt "connection_refused")))
    × (has refused types ≡ (failure_code answers == txt "REFUSED"))
scan_answers-availability_example =
    scan_answers-availability no_ip network network-HasNames (txt "8.8.8.8") 3000
      (txt "1.1.1.1" ∷ []) (txt "np-1") www (txt "a.cn") reads 5 [] scanned
      (scan_host-eq no_ip www (txt "a.cn") reads net 5 [])

scan_host-latest_example :
    (latest 7 no_service scanned.rows
      ≡ some (
        (if has no_service scanned.result.risk_types then Types.suspicious else Types.normal),
        5,
      ))
    × ((h : ℕ) → h ≢ 7 → latest h no_service scanned.rows ≡ latest h no_service [])
    × (scanned.result.status
        ≡ (if is_empty scanned.result.risk_types then HostStatus.normal else HostStatus.suspicious))
scan_host-latest_example =
    scan_host-latest no_ip www (txt "a.cn") reads net 5 [] scanned
      (scan_host-eq no_ip www (txt "a.cn") reads net 5 []) no_service

scan_host-blind_example :
    let types = scanned.result.risk_types in
    (has resolution_path_anomaly types ≡ false)
    × (has latency_distribution_anomaly types ≡ false)
    × (has route_path_anomaly types ≡ false)
    × (has axfr_exposed types ≡ false)
    × (scanned.result.status ≢ HostStatus.error)
scan_host-blind_example =
    scan_host-blind no_ip www (txt "a.cn") reads net 5 [] scanned
      (scan_host-eq no_ip www (txt "a.cn") reads net 5 [])

abbrev new_scan : ScanJob
new_scan = record {
  status = pending;
  started_at = none;
  finished_at = none;
  processed_hosts = 0;
  success_hosts = 0;
  suspicious_hosts = 0;
  error_hosts = 0;
  avg_latency = none;
  summary = none;
  summary_message = waiting 1;
  last_error = [];
}

-- A stop comes before the result of the only host.
abbrev events : List ScanEvent
events = stop 8 ∷ landed scanned.result ∷ []

abbrev names : List (ℕ × Text)
names = (1, txt "a.cn") ∷ []

run_scan_job-stopped_example :
    let run = λ (es : List ScanEvent). run_scan_job 6 9 (some (www ∷ [])) names es new_scan in
    ((run events).status ≡ completed)
    × (run events ≡ record (run (unstopped events)) {
      last_error = if any is_stop events then manual_stop else new_scan.last_error;
    })
run_scan_job-stopped_example = run_scan_job-stopped 6 9 (www ∷ []) names events new_scan

run_scan_job-IsCounted_example :
    let out = run_scan_job 6 9 (some (www ∷ [])) names events new_scan in
    let rs = results events in
    (summary : ScanSummary) × (out.summary ≡ some summary)
    × IsCounted rs summary.tally
    × (out.status ≡ completed)
    × (out.processed_hosts ≡ length rs)
    × (out.success_hosts ≡ total (λ r. success_of r.status) rs)
    × (out.error_hosts ≡ total (λ r. error_of r.status) rs)
    × (out.finished_at ≡ some 9)
    × (out.suspicious_hosts ≡ total (λ r. is_suspicious_of r.status) rs)
    × (summary.total_hosts ≡ 1)
    × IsAverage
        (total (λ r. latency_of r.latency_us) rs)
        (total (λ r. sample_of r.latency_us) rs)
        summary.avg_latency
    × (out.avg_latency ≡ or_kept_latency new_scan.avg_latency summary.avg_latency)
run_scan_job-IsCounted_example = run_scan_job-IsCounted 6 9 (www ∷ []) names events new_scan

run_scan_job-no_errors_example :
    let out = run_scan_job 6 9 (some (www ∷ [])) names events new_scan in
    (out.error_hosts ≡ 0) × (out.success_hosts ≡ out.processed_hosts)
unfolding results
run_scan_job-no_errors_example = run_scan_job-no_errors no_ip 6 9 (www ∷ []) names events new_scan (
  (
    www,
    txt "a.cn",
    reads,
    net,
    5,
    [],
    scanned,
    scan_host-eq no_ip www (txt "a.cn") reads net 5 [],
    refl,
  ),
  tt,
)

abbrev body : ScanBody
body = record {
  environment = text (txt "prod");
  resolver = nothing;
  timeout = nothing;
  concurrency = number (pos 4000) (txt "4");
  limit = number (pos 100000) (txt "100");
  keyword = text (txt "www");
  domain_ids = [];
  host_ids = [];
  resolver_pool = [];
}

abbrev library : HostQuery → Result (List LibraryHost)
library q = ok (www ∷ [])

abbrev no_id : Value → ℕ
no_id v = 0

create_scan_job-IsRunnable_example : IsRunnable library (new_job no_id body none (www ∷ []))
unfolding create_scan_job store_job new_job lower str_any limit_of
create_scan_job-IsRunnable_example =
    create_scan_job-IsRunnable no_id library none body none (new_job no_id body none (www ∷ []))
      refl (omega arith) refl

abbrev profile : Profile
profile = record {
  enabled = true;
  interval_seconds = 60;
  environment = txt "prod";
  resolver_ip = txt "8.8.8.8";
  resolver_pool = [];
  timeout_ms = 3000;
  concurrency = 4;
  keyword = [];
  limit_count = none;
  domain_ids = [];
  host_ids = [];
  last_run_at = some 1000000;
  last_status = ProfileStatus.running;
}

abbrev clocks : List ℕ
clocks = 30000000 ∷ 61000000 ∷ 90000000 ∷ []

abbrev creates : ℕ → ScanBody → Bool
creates now b = leb now 80000000

run_profile-IsSpaced_example :
    IsSpaced 60 (some 1000000) (starts_of creates clocks profile)
    × ((now : ℕ)
        → true ≡ true
        → IsSpaced 60 (some 1000000) (now ∷ [])
        → let q = run_profile (creates now) now profile in
          (q.last_run_at ≡ some now)
          × (creates now (body_of profile) ≡ true
              → (q.last_status ≡ ProfileStatus.running)
                × (starts_of creates (now ∷ clocks) profile ≡ now ∷ starts_of creates clocks q))
          × (creates now (body_of profile) ≡ false
              → (q.last_status ≡ ProfileStatus.failed)
                × (starts_of creates (now ∷ clocks) profile ≡ starts_of creates clocks q)))
run_profile-IsSpaced_example = run_profile-IsSpaced creates clocks profile

starts_of_60 : starts_of creates clocks profile ≡ 61000000 ∷ []
unfolding starts_of run_profile
starts_of_60 = refl

parse_rr_line_a :
    parse_rr_line (txt "www.A.cn. 60 IN a 1.2.3.4") (txt "answer")
    ≡ some (record {
      section = txt "answer";
      name = txt "www.a.cn";
      type = txt "A";
      value = txt "1.2.3.4";
      ttl = some (pos 60);
    })
unfolding parse_rr_line text_beq
parse_rr_line_a = refl
