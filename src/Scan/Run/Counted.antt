-- ===== src/Scan/Run/Counted.antt =====
-- internal/service/scanner.go: the maps of counts of a scan, and all counters together.
use dnsgolang.Base.{
  ℕ, ◌+◌, ◌≡◌, ◌≢◌, refl, ◌∙◌, List, [], ◌∷◌, arith, if◌then◌else◌, is_empty, ◌==◌, nat_eq, length,
}
use dnsgolang.Batch.Run.Totals.{total}
use dnsgolang.Risk.Catalog.{
  RiskType, risk_eq, Severity, unrated, Tier, untiered, MethodCode, method_code_for_risk,
}
use dnsgolang.Scan.Counts.{count_in, severity_eq, tier_eq, code_eq}
use dnsgolang.Scan.Host.{ScanResult}
use dnsgolang.Scan.Tally.{
  Tally, no_tally, tally_status, tally_latency, tally_grades, land, bump_severity, bump_tier,
  bump_domain,
}
use dnsgolang.Scan.Run.Sums.{
  tally_all, risks, one_if, success_of, is_suspicious_of, error_of, latency_of, sample_of,
  same_code, same_domain, count_in-bump_all, count_in-bump_codes, count_in-bump_severity,
  count_in-bump_tier, count_in-bump_domain, processed-land, success_n-land, suspicious_n-land,
  error_n-land, latency_sum-land, latency_cnt-land,
}

-- How often a result names a risk type, or one that a method looks at.
abbrev pub names : RiskType → ScanResult → ℕ
names k r = total (λ j. one_if (j == k)) r.risk_types

abbrev pub uses : MethodCode → ScanResult → ℕ
uses c r = total (λ j. one_if (same_code c (method_code_for_risk j))) r.risk_types

module _ (r : ScanResult) (t : Tally) where
  risk_types-land :
      (k : RiskType)
      → count_in k (land r t).risk_type_counts ≡ count_in k t.risk_type_counts + names k r
  unfolding land tally_status tally_latency tally_grades
  risk_types-land k = ground (
    arith,
    risks (λ u. count_in k u.risk_type_counts) r t,
    count_in-bump_all k r.risk_types t.risk_type_counts,
  )

  methods-land :
      (c : MethodCode) → count_in c (land r t).method_counts ≡ count_in c t.method_counts + uses c r
  unfolding land tally_status tally_latency tally_grades
  methods-land c = ground (
    arith,
    risks (λ u. count_in c u.method_counts) r t,
    count_in-bump_codes c r.risk_types t.method_counts,
  )

  severities-land :
      (s : Severity)
      → s ≢ unrated
      → count_in s (land r t).severity_counts
        ≡ count_in s t.severity_counts
          + (if is_empty r.risk_types then 0 else one_if (r.severity == s))
  unfolding land tally_status tally_latency tally_grades
  severities-land s d =
      let more = count_in-bump_severity s r.severity t.severity_counts d in
      ground (
        arith,
        more,
        risks (λ u. count_in s u.severity_counts) r t,
        risks (λ u. count_in s (bump_severity r.severity u.severity_counts)) r t,
      )

  tiers-land :
      (c : Tier)
      → c ≢ untiered
      → count_in c (land r t).confidence_counts
        ≡ count_in c t.confidence_counts
          + (if is_empty r.risk_types then 0 else one_if (r.confidence_tier == c))
  unfolding land tally_status tally_latency tally_grades
  tiers-land c d =
      let more = count_in-bump_tier c r.confidence_tier t.confidence_counts d in
      ground (
        arith,
        more,
        risks (λ u. count_in c u.confidence_counts) r t,
        risks (λ u. count_in c (bump_tier r.confidence_tier u.confidence_counts)) r t,
      )

  domains-land :
      (id : ℕ)
      → count_in id (land r t).domain_risk_count
        ≡ count_in id t.domain_risk_count
          + (if is_empty r.risk_types then 0 else one_if (same_domain id r.domain_id))
  unfolding land tally_status tally_latency tally_grades
  domains-land id =
      let more = count_in-bump_domain id r.domain_id t.domain_risk_count in
      ground (
        arith,
        more,
        risks (λ u. count_in id u.domain_risk_count) r t,
        risks (λ u. count_in id (bump_domain r.domain_id u.domain_risk_count)) r t,
      )

-- The counters are sums over the results; a grade or a domain is counted for each result that
-- names a risk.
pub record IsCounted (rs : List ScanResult) (t : Tally) : Type 0 where
  pub processed : t.processed ≡ length rs
  pub success_n : t.success_n ≡ total (λ r. success_of r.status) rs
  pub suspicious_n : t.suspicious_n ≡ total (λ r. is_suspicious_of r.status) rs
  pub error_n : t.error_n ≡ total (λ r. error_of r.status) rs
  pub latency_sum : t.latency_sum ≡ total (λ r. latency_of r.latency_us) rs
  pub latency_cnt : t.latency_cnt ≡ total (λ r. sample_of r.latency_us) rs
  pub risk_types : (k : RiskType) → count_in k t.risk_type_counts ≡ total (names k) rs
  pub methods : (c : MethodCode) → count_in c t.method_counts ≡ total (uses c) rs
  pub severities :
      (s : Severity)
      → s ≢ unrated
      → count_in s t.severity_counts
        ≡ total (λ r. if is_empty r.risk_types then 0 else one_if (r.severity == s)) rs
  pub tiers :
      (c : Tier)
      → c ≢ untiered
      → count_in c t.confidence_counts
        ≡ total (λ r. if is_empty r.risk_types then 0 else one_if (r.confidence_tier == c)) rs
  pub domains :
      (id : ℕ)
      → count_in id t.domain_risk_count
        ≡ total (λ r. if is_empty r.risk_types then 0 else one_if (same_domain id r.domain_id)) rs

-- A counter that each result adds to is the sum of what they add.
tally_all-total :
    (f : Tally → ℕ) (w : ScanResult → ℕ)
    → ((r : ScanResult) (t : Tally) → f (land r t) ≡ f t + w r)
    → (rs : List ScanResult) (t : Tally) → f (tally_all rs t) ≡ f t + total w rs
unfolding tally_all
tally_all-total f w step [] t = omega arith
tally_all-total f w step (r ∷ rs) t =
    omega (arith, tally_all-total f w step rs (land r t), step r t)

-- From the start, where it is zero.
tally_all-sum :
    (f : Tally → ℕ) (w : ScanResult → ℕ)
    → f no_tally ≡ 0
    → ((r : ScanResult) (t : Tally) → f (land r t) ≡ f t + w r)
    → (rs : List ScanResult) → f (tally_all rs no_tally) ≡ total w rs
tally_all-sum f w zero' step rs = omega (arith, tally_all-total f w step rs no_tally, zero')

total-ones : (rs : List ScanResult) → total (λ r. 1) rs ≡ length rs
total-ones [] = refl
total-ones (r ∷ rs) = omega (arith, total-ones rs)

pub tally_all-IsCounted : (rs : List ScanResult) → IsCounted rs (tally_all rs no_tally)
unfolding count_in
tally_all-IsCounted rs = record {
  processed = tally_all-sum (λ t. t.processed) (λ r. 1) refl processed-land rs ∙ total-ones rs;
  success_n = tally_all-sum (λ t. t.success_n) (λ r. success_of r.status) refl success_n-land rs;
  suspicious_n =
      tally_all-sum (λ t. t.suspicious_n) (λ r. is_suspicious_of r.status) refl suspicious_n-land
        rs;
  error_n = tally_all-sum (λ t. t.error_n) (λ r. error_of r.status) refl error_n-land rs;
  latency_sum =
      tally_all-sum (λ t. t.latency_sum) (λ r. latency_of r.latency_us) refl latency_sum-land rs;
  latency_cnt =
      tally_all-sum (λ t. t.latency_cnt) (λ r. sample_of r.latency_us) refl latency_cnt-land rs;
  risk_types = λ k.
      tally_all-sum (λ t. count_in k t.risk_type_counts) (names k) refl
        (λ r t. risk_types-land r t k) rs;
  methods = λ c.
      tally_all-sum (λ t. count_in c t.method_counts) (uses c) refl (λ r t. methods-land r t c) rs;
  severities = λ s d.
      tally_all-sum (λ t. count_in s t.severity_counts)
        (λ r. if is_empty r.risk_types then 0 else one_if (r.severity == s)) refl
        (λ r t. severities-land r t s d) rs;
  tiers = λ c d.
      tally_all-sum (λ t. count_in c t.confidence_counts)
        (λ r. if is_empty r.risk_types then 0 else one_if (r.confidence_tier == c)) refl
        (λ r t. tiers-land r t c d) rs;
  domains = λ id.
      tally_all-sum (λ t. count_in id t.domain_risk_count)
        (λ r. if is_empty r.risk_types then 0 else one_if (same_domain id r.domain_id)) refl
        (λ r t. domains-land r t id) rs;
}
