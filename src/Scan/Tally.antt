-- ===== src/Scan/Tally.antt =====
-- internal/service/scanner.go: the counters of a run of a scan, which its goroutines share under a lock
-- (`RunScanJob`).
use dnsgolang.Base.{ℕ, ◌+◌, Option, none, some, List, [], ◌∷◌, if◌then◌else◌, is_empty, nat_eq}
use dnsgolang.Risk.Catalog.{
  RiskType, risk_eq, Severity, unrated, Tier, untiered, MethodCode, method_code_for_risk,
}
use dnsgolang.Scan.Counts.{bump, severity_eq, tier_eq, code_eq}
use dnsgolang.Scan.Host.{ScanResult, HostStatus}

-- The variables that the lock protects.
pub record Tally : Type 0 where
  pub processed : ℕ
  pub success_n : ℕ
  pub suspicious_n : ℕ
  pub error_n : ℕ
  pub latency_sum : ℕ
  pub latency_cnt : ℕ
  pub risk_type_counts : List (RiskType × ℕ)
  pub severity_counts : List (Severity × ℕ)
  pub confidence_counts : List (Tier × ℕ)
  pub method_counts : List (MethodCode × ℕ)
  pub domain_risk_count : List (ℕ × ℕ)

abbrev pub no_tally : Tally
no_tally = record {
  processed = 0;
  success_n = 0;
  suspicious_n = 0;
  error_n = 0;
  latency_sum = 0;
  latency_cnt = 0;
  risk_type_counts = [];
  severity_counts = [];
  confidence_counts = [];
  method_counts = [];
  domain_risk_count = [];
}

unfoldable pub tally_status : HostStatus → Tally → Tally
tally_status HostStatus.normal t = record t { success_n = t.success_n + 1 }
tally_status HostStatus.suspicious t = record t {
  success_n = t.success_n + 1;
  suspicious_n = t.suspicious_n + 1;
}
tally_status HostStatus.error t = record t { error_n = t.error_n + 1 }

unfoldable pub tally_latency : Option ℕ → Tally → Tally
tally_latency none t = t
tally_latency (some l) t = record t {
  latency_sum = t.latency_sum + l;
  latency_cnt = t.latency_cnt + 1;
}

abbrev pub bump_code : Option MethodCode → List (MethodCode × ℕ) → List (MethodCode × ℕ)
bump_code none m = m
bump_code (some code) m = bump code m

unfoldable pub tally_risks : List RiskType → Tally → Tally
unfolding bump
tally_risks [] t = t
tally_risks (r ∷ rs) t = tally_risks rs (record t {
  risk_type_counts = bump r t.risk_type_counts;
  method_counts = bump_code (method_code_for_risk r) t.method_counts;
})

abbrev pub bump_severity : Severity → List (Severity × ℕ) → List (Severity × ℕ)
bump_severity unrated m = m
bump_severity s m = bump s m

abbrev pub bump_tier : Tier → List (Tier × ℕ) → List (Tier × ℕ)
bump_tier untiered m = m
bump_tier t m = bump t m

abbrev pub bump_domain : Option ℕ → List (ℕ × ℕ) → List (ℕ × ℕ)
bump_domain none m = m
bump_domain (some id) m = bump id m

-- The counts of a result that names risks.
unfoldable pub tally_grades : ScanResult → Tally → Tally
unfolding bump
tally_grades r t = if is_empty r.risk_types then t else record t {
  severity_counts = bump_severity r.severity t.severity_counts;
  confidence_counts = bump_tier r.confidence_tier t.confidence_counts;
  domain_risk_count = bump_domain r.domain_id t.domain_risk_count;
}

-- What a goroutine does under the lock, without the write of the progress.
unfoldable pub land : ScanResult → Tally → Tally
unfolding tally_status tally_latency tally_risks tally_grades
land r t = tally_grades r (
    tally_risks r.risk_types (
      tally_latency r.latency_us
        (tally_status r.status (record t { processed = t.processed + 1 }))))
