-- ===== src/Scan/Run/Errors.antt =====
-- internal/service/scanner.go: a run over the scans of hosts (`RunScanJob` with `scanHost`).
use dnsgolang.Base.{
  ℕ, ◌≡◌, ◌≢◌, refl, sym, ap, ◌∙◌, Option, some, List, [], ◌∷◌, arith, length, All,
}
use dnsgolang.Base.Text.{Text}
use dnsgolang.Batch.Run.Totals.{total}
use dnsgolang.Risk.Types.{IpTraits}
use dnsgolang.Scan.Host.{LibraryHost, HostReads, HostScan, ScanResult, HostStatus, scan_host}
use dnsgolang.Scan.Host.Rows.{VerdictRow}
use dnsgolang.Scan.Host.Judged.{scan_host-blind}
use dnsgolang.Scan.Watch.{Answers}
use dnsgolang.Scan.Run.{ScanJob, ScanEvent, run_scan_job}
use dnsgolang.Scan.Run.Sums.{success_of, error_of}
use dnsgolang.Scan.Run.Stops.{results, run_scan_job-IsCounted}

-- The result of some scan of a host.
abbrev pub IsScanned : (Text → Option IpTraits) → ScanResult → Type 0
IsScanned parse_ip r =
    (host : LibraryHost) × (zone : Text) × (reads : HostReads) × (net : Answers) × (at : ℕ)
    × (rows : List VerdictRow) × (out : HostScan) × (scan_host parse_ip host zone reads net at rows
        ≡ some out)
    × (r ≡ out.result)

-- A status that is no error counts as a success.
no_error : (s : HostStatus) → s ≢ HostStatus.error → (success_of s ≡ 1) × (error_of s ≡ 0)
no_error HostStatus.error d = absurd (d refl)
no_error _ d = (refl, refl)

scanned-status :
    (parse_ip : Text → Option IpTraits) (rs : List ScanResult)
    → All (IsScanned parse_ip) rs
    → (total (λ r. success_of r.status) rs ≡ length rs) × (total (λ r. error_of r.status) rs ≡ 0)
scanned-status parse_ip [] h = (refl, refl)
scanned-status parse_ip (r ∷ rs) ((host, zone, reads, net, at, rows, out, done, e), h) =
    let (_, _, _, _, d) = scan_host-blind parse_ip host zone reads net at rows out done in
    let (one, zero') = no_error r.status (λ s. d (ap (λ x. x.status) (sym e) ∙ s)) in
    let (n, z) = scanned-status parse_ip rs h in (omega (arith, one, n), omega (arith, zero', z))

-- A run that counts the results of scans of hosts counts no error, and each as a success, whatever
-- the network answered.
pub run_scan_job-no_errors :
    (parse_ip : Text → Option IpTraits) (started ended : ℕ) (hosts : List LibraryHost)
    (names : List (ℕ × Text)) (es : List ScanEvent) (job : ScanJob)
    → All (IsScanned parse_ip) (results es)
    → let out = run_scan_job started ended (some hosts) names es job in
      (out.error_hosts ≡ 0) × (out.success_hosts ≡ out.processed_hosts)
run_scan_job-no_errors parse_ip started ended hosts names es job h =
    let (_, _, _, _, n, ok', bad, _, _, _, _, _) =
      run_scan_job-IsCounted started ended hosts names es job in
    let (good, none') = scanned-status parse_ip (results es) h in (bad ∙ none', ok' ∙ good ∙ sym n)
