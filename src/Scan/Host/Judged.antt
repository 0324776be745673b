-- ===== src/Scan/Host/Judged.antt =====
-- internal/service/scanner.go: what the scan of a host finds and writes (`scanHost`), from the
-- observation of Scan/Watch and the verdicts of Risk.
use dnsgolang.Base.{
  ℕ, ◌≡◌, ◌≢◌, refl, sym, ◌∙◌, Bool, true, false, not, ◌&&◌, ◌||◌, Option, some, List, [], ◌∷◌, map,
  arith, if◌then◌else◌, ◌==◌, text_eq, is_empty,
}
use mathlib.Core.Option.{some-injective}
use dnsgolang.Base.Text.{Text, txt}
use dnsgolang.Base.Sets.{has, Distinct}
use dnsgolang.Risk.Catalog.{
  RiskType, risk_order, risk_eq, unreach, no_service, refused, resolution_path_anomaly,
  latency_distribution_anomaly, route_path_anomaly, axfr_exposed,
}
use dnsgolang.Risk.Types.{Status, Verdict, IpTraits}
use dnsgolang.Risk.Types
use dnsgolang.Risk.Detect.{primary_expected}
use dnsgolang.Risk.Engine.{verdicts, evaluate, suspicious_of}
use dnsgolang.Risk.Engine.Laws.{
  test_of, evaluate-eq, slow_samples, suspects-evaluate, map-risk_type-evaluate,
}
use dnsgolang.Scan.Host.{
  LibraryHost, HostReads, HostScan, HostStatus, error, host_config, risk_types_of, result_status,
  write_scan, result_of, scan_host,
}
use dnsgolang.Scan.Host.Rows.{VerdictRow}
use dnsgolang.Scan.Host.Latest.{
  latest, latest-upsert_verdicts_other, latest-upsert_verdicts_once, has-suspicious,
}
use dnsgolang.Trust.Discovery.{QueryStep}
use dnsgolang.Scan.Watch.{Answers, watch_host, scan_plan}
use dnsgolang.Scan.Watch.Codes.{IsAnswer, failure_code, first_kind}
use dnsgolang.Scan.Watch.Seen.{watch_host-codes, watch_host-blind}

risk_order-Distinct : Distinct risk_order
risk_order-Distinct = (
  refl,
  (
    refl,
    (
      refl,
      (refl, (refl, (refl, (refl, (refl, (refl, (refl, (refl, (refl, (refl, (refl, tt))))))))))),
    ),
  ),
)

risk_order-has : (r : RiskType) → has r risk_order ≡ true
risk_order-has unreach = refl
risk_order-has _ = refl

result_status-eq :
    (rs : List RiskType)
    → result_status rs ≡ (if is_empty rs then HostStatus.normal else HostStatus.suspicious)
unfolding result_status
result_status-eq [] = refl
result_status-eq (r ∷ rs) = refl

and_false : (b : Bool) → (b && false) ≡ false
and_false b = ground arith

status_if : (b : Bool) → (if b then HostStatus.normal else HostStatus.suspicious) ≢ error
status_if true e = cc
status_if false e = cc

-- A scan of a host never panics.
pub scan_host-eq :
    (parse_ip : Text → Option IpTraits) (host : LibraryHost) (zone : Text) (reads : HostReads)
    (net : Answers) (at : ℕ) (rows : List VerdictRow)
    → let w = watch_host host.fqdn host.notes zone net in
      scan_host parse_ip host zone reads net at rows
      ≡ some (
          write_scan host reads at w
            (verdicts parse_ip
              (host_config host zone reads.apex_host)
              reads.baselines
              w.observation
              (slow_samples w.observation))
            rows)
unfolding scan_host write_scan
scan_host-eq parse_ip host zone reads net at rows =
    let e =
      evaluate-eq parse_ip (host_config host zone reads.apex_host) reads.baselines
        (watch_host host.fqdn host.notes zone net).observation in
    rw (e, scan_host)

module _ (parse_ip : Text → Option IpTraits) (host : LibraryHost) (zone : Text) (reads : HostReads)
    (net : Answers) (at : ℕ) (rows : List VerdictRow) (out : HostScan)
    (done : scan_host parse_ip host zone reads net at rows ≡ some out) where
  -- The verdicts behind a scan.
  behind :
      (vs : List Verdict) × (evaluate parse_ip
          (host_config host zone reads.apex_host)
          reads.baselines
          (watch_host host.fqdn host.notes zone net).observation
        ≡ some vs)
      × (map (λ v. v.risk_type) vs ≡ risk_order)
      × (out ≡ write_scan host reads at (watch_host host.fqdn host.notes zone net) vs rows)
  unfolding scan_host
  behind =
      let (vs, e, o) =
        map-risk_type-evaluate parse_ip (host_config host zone reads.apex_host) reads.baselines
          (watch_host host.fqdn host.notes zone net).observation in
      (vs, e, o, sym (some-injective _ _ (rw (e, scan_host) at done)))

  -- A risk is in the result exactly when the engine's test for it holds of what was observed.
  found :
      (r : RiskType)
      → has r out.result.risk_types
        ≡ test_of parse_ip
            (host_config host zone reads.apex_host)
            reads.baselines
            (watch_host host.fqdn host.notes zone net).observation
            (slow_samples (watch_host host.fqdn host.notes zone net).observation)
            r
  unfolding write_scan result_of risk_types_of
  found r =
      let (vs, e, o, same) = behind in
      rw same (
        has-suspicious r vs
        ∙ suspects-evaluate parse_ip (host_config host zone reads.apex_host) reads.baselines
            (watch_host host.fqdn host.notes zone net).observation vs e r)

  -- After the scan of a host the table of latest verdicts says of each risk type that it is
  -- suspicious where the result names it, and that it is normal where not, both as of this scan; for
  -- other hosts it says what it said before. The result is suspicious exactly when it names a risk.
  pub scan_host-latest :
      (r : RiskType)
      → (latest host.id r out.rows
          ≡ some ((if has r out.result.risk_types then Types.suspicious else Types.normal), at))
        × ((h : ℕ) → h ≢ host.id → latest h r out.rows ≡ latest h r rows)
        × (out.result.status
            ≡ (if is_empty out.result.risk_types then HostStatus.normal else HostStatus.suspicious))
  unfolding write_scan result_of risk_types_of result_status
  scan_host-latest r =
      let (vs, e, o, same) = behind in
      (
        rw same (
            latest-upsert_verdicts_once host.id at r vs rows (rw o risk_order-Distinct)
              (rw o (risk_order-has r))
            ∙ (rw (has-suspicious r vs))),
        (λ h d. rw same (latest-upsert_verdicts_other host.id at h r vs rows d)),
        rw same (result_status-eq (map (λ v. v.risk_type) (suspicious_of vs))),
      )

  -- Where the client gives each answer a code and each failure a kind, a scan finds the host
  -- unreachable exactly when the baseline names records and the first answer of all failed with
  -- the kind timeout, no service when that failed with servfail or connection_refused, and a refusal
  -- when the first failure had the code REFUSED: a timeout or a SERVFAIL behind a first answer
  -- without failure is neither.
  pub scan_host-availability :
      ((q : QueryStep) → IsAnswer (net.ask q))
      → let answers = map net.ask (scan_plan host.fqdn host.notes zone) in
        let expects = not (is_empty (primary_expected reads.baselines)) in
        let types = out.result.risk_types in
        (has unreach types ≡ (expects && first_kind answers == txt "timeout"))
        × (has no_service types ≡ (
            expects
            && (first_kind answers == txt "servfail"
                || first_kind answers == txt "connection_refused")))
        × (has refused types ≡ (failure_code answers == txt "REFUSED"))
  unfolding test_of
  scan_host-availability good =
      let (c, k) = watch_host-codes host.fqdn host.notes zone net good in
      (found unreach ∙ (rw k), found no_service ∙ (rw k), found refused ∙ (rw c))

  -- Whatever is observed, a scan finds no broken path of resolution, no anomaly of latencies or of
  -- routes and no exposed transfer, and its result is never an error.
  pub scan_host-blind :
      let types = out.result.risk_types in
      (has resolution_path_anomaly types ≡ false)
      × (has latency_distribution_anomaly types ≡ false)
      × (has route_path_anomaly types ≡ false)
      × (has axfr_exposed types ≡ false)
      × (out.result.status ≢ error)
  unfolding test_of
  scan_host-blind =
      let (a, l, t) = watch_host-blind host.fqdn host.notes zone net in
      let (_, _, s) = scan_host-latest unreach in
      (
        found resolution_path_anomaly ∙ t,
        found latency_distribution_anomaly ∙ (rw l),
        found route_path_anomaly,
        found axfr_exposed
            ∙ (rw a (and_false (not (host_config host zone reads.apex_host).allow_axfr))),
        (λ e. status_if (is_empty out.result.risk_types) (sym s ∙ e)),
      )
