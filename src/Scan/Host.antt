-- ===== src/Scan/Host.antt =====
-- internal/service/scanner.go: the scan of one host (`scanHost`): what Scan/Watch observes is judged by
-- the engine of Risk, and the rows are written. What the database answers is in `HostReads`. The
-- evidence of the result is left out.
pub mod Rows
pub mod Latest
pub mod Judged
use dnsgolang.Base.{
  ℕ, Bool, ◌&&◌, Option, none, some, List, [], ◌∷◌, map, ◌==◌, text_eq, if◌then◌else◌, is_empty,
  length,
}
use dnsgolang.Base.Text.{Text, txt, text_ltb}
use dnsgolang.Base.Sets.{add}
use dnsgolang.Base.Sort.{sort_by}
use dnsgolang.Risk.Catalog.{
  RiskType, Severity, Tier, high_confidence, highest_severity, highest_confidence_tier,
}
use dnsgolang.Risk.Types.{RecordObserved, RecordBaseline, HostConfig, Verdict, IpTraits}
use dnsgolang.Risk.Engine.{evaluate, suspicious_of}
use dnsgolang.Scan.Host.Rows.{VerdictRow, upsert_verdicts, Finding, method_findings}
use dnsgolang.Scan.Watch.{Snapshot, Watch, same_name, Answers, watch_host}

pub record LibraryHost : Type 0 where
  pub id : ℕ
  pub domain_id : ℕ
  pub fqdn : Text
  pub notes : Text
  pub allow_wildcard : Bool
  pub allow_axfr : Bool
  pub allow_rebind : Bool

-- What the database answers: the baseline, the host at the apex of the zone, the id of the snapshot
-- where it can be stored.
pub record HostReads : Type 0 where
  pub baselines : List RecordBaseline
  pub apex_host : Option LibraryHost
  pub snapshot_id : Option ℕ

pub data HostStatus : Type 0 where
  normal suspicious error : HostStatus

pub data HostSummary : Type 0 where
  no_anomaly : HostSummary
  anomalies high_confidence_anomalies : List RiskType → HostSummary

pub record ScanResult : Type 0 where
  pub domain_id : Option ℕ
  pub host_id : ℕ
  pub snapshot_id : ℕ
  pub status : HostStatus
  pub severity : Severity
  pub confidence_tier : Tier
  pub confidence_labels : List Text
  pub suspicious_count : ℕ
  pub summary_message : HostSummary
  pub rcode : Text
  pub error_kind : Text
  pub latency_us : Option ℕ
  pub risk_types : List RiskType
  pub detected_at : ℕ

-- What the scan of a host writes, and its result.
pub record HostScan : Type 0 where
  pub snapshot : Snapshot
  pub records : List RecordObserved
  pub findings : List Finding
  pub rows : List VerdictRow
  pub result : ScanResult

-- The settings for wildcards and transfers are those of the apex host, where it is there.
unfoldable pub zone_host : LibraryHost → Text → Option LibraryHost → LibraryHost
zone_host host zone none = host
zone_host host zone (some apex) = if same_name host.fqdn zone then host else apex

unfoldable pub host_config : LibraryHost → Text → Option LibraryHost → HostConfig
unfolding zone_host
host_config host zone apex = record {
  fqdn = host.fqdn;
  zone_domain = zone;
  allow_wildcard = (zone_host host zone apex).allow_wildcard;
  allow_axfr = (zone_host host zone apex).allow_axfr;
  allow_rebind = host.allow_rebind;
  is_apex = same_name host.fqdn zone;
}

unfoldable pub risk_types_of : List Verdict → List RiskType
risk_types_of vs = map (λ v. v.risk_type) vs

-- The set of the labels that are not empty.
unfoldable pub label_set : List Verdict → List Text
label_set [] = []
label_set (v ∷ vs) =
    let label = txt v.confidence_label in
    if is_empty label then label_set vs else add label (label_set vs)

unfoldable pub result_status : List RiskType → HostStatus
result_status [] = normal
result_status (r ∷ rs) = suspicious

unfoldable pub summary_of : List RiskType → HostSummary
summary_of [] = no_anomaly
summary_of (r ∷ rs) = elim (highest_confidence_tier (r ∷ rs)) [
  | high_confidence ↦ high_confidence_anomalies (r ∷ rs)
  | _ ↦ anomalies (r ∷ rs)
]

abbrev pub or_zero : Option ℕ → ℕ
or_zero none = 0
or_zero (some id) = id

unfoldable pub result_of : LibraryHost → Option ℕ → ℕ → Snapshot → List Verdict → ScanResult
unfolding risk_types_of label_set result_status summary_of
result_of host snapshot_id at snapshot found =
    let types = risk_types_of found in
    record {
      domain_id = some host.domain_id;
      host_id = host.id;
      snapshot_id = or_zero snapshot_id;
      status = result_status types;
      severity = highest_severity types;
      confidence_tier = highest_confidence_tier types;
      confidence_labels = sort_by text_ltb (label_set found);
      suspicious_count = length types;
      summary_message = summary_of types;
      rcode = snapshot.rcode;
      error_kind = snapshot.error_kind;
      latency_us = snapshot.latency_us;
      risk_types = types;
      detected_at = at;
    }

-- Records and findings are stored where their snapshot is.
unfoldable pub write_scan :
    LibraryHost → HostReads → ℕ → Watch → List Verdict → List VerdictRow → HostScan
unfolding result_of upsert_verdicts method_findings
write_scan host reads at w vs rows = record {
  snapshot = w.snapshot;
  records = elim reads.snapshot_id [ none ↦ [] | some id ↦ w.observation.records ];
  findings = elim reads.snapshot_id [ none ↦ [] | some id ↦ method_findings vs [] ];
  rows = upsert_verdicts host.id at vs rows;
  result = result_of host reads.snapshot_id at w.snapshot (suspicious_of vs);
}

module _ (parse_ip : Text → Option IpTraits) where
  -- The host of the zone, what is read and answered, the time, and the table of latest verdicts;
  -- `none` is a panic.
  unfoldable pub scan_host :
      LibraryHost → Text → HostReads → Answers → ℕ → List VerdictRow → Option HostScan
  unfolding host_config watch_host write_scan
  scan_host host zone reads net at rows =
      let w = watch_host host.fqdn host.notes zone net in
      elim (evaluate parse_ip (host_config host zone reads.apex_host) reads.baselines
        w.observation) [ none ↦ none | some vs ↦ some (write_scan host reads at w vs rows) ]
