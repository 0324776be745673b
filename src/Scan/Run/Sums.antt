-- ===== src/Scan/Run/Sums.antt =====
-- internal/service/scanner.go: the counters of a scan are sums over the results of its hosts, whatever
-- the order in which they are counted.
use dnsgolang.Base.{
  ℕ, ◌+◌, ◌≡◌, ◌≢◌, refl, ap, Bool, false, Option, none, some, List, [], ◌∷◌, arith, if◌then◌else◌,
  ◌==◌, nat_eq,
}
use dnsgolang.Batch.Run.Totals.{total}
use dnsgolang.Risk.Catalog.{
  RiskType, risk_eq, Severity, unrated, Tier, untiered, MethodCode, method_code_for_risk,
}
use dnsgolang.Scan.Counts.{bump, count_in, count_in-bump, severity_eq, tier_eq, code_eq}
use dnsgolang.Scan.Host.{ScanResult, HostStatus}
use dnsgolang.Scan.Tally.{
  Tally, tally_status, tally_latency, bump_code, tally_risks, bump_severity, bump_tier, bump_domain,
  tally_grades, land,
}

unfoldable pub tally_all : List ScanResult → Tally → Tally
tally_all [] t = t
tally_all (r ∷ rs) t = tally_all rs (land r t)

unfoldable pub bump_all : List RiskType → List (RiskType × ℕ) → List (RiskType × ℕ)
bump_all [] m = m
bump_all (r ∷ rs) m = bump_all rs (bump r m)

unfoldable pub bump_codes : List RiskType → List (MethodCode × ℕ) → List (MethodCode × ℕ)
bump_codes [] m = m
bump_codes (r ∷ rs) m = bump_codes rs (bump_code (method_code_for_risk r) m)

pub tally_risks-eq :
    (rs : List RiskType) (t : Tally)
    → tally_risks rs t ≡ record t {
      risk_type_counts = bump_all rs t.risk_type_counts;
      method_counts = bump_codes rs t.method_counts;
    }
unfolding tally_risks bump_all bump_codes
tally_risks-eq [] t = refl
tally_risks-eq (r ∷ rs) t = tally_risks-eq rs (record t {
  risk_type_counts = bump r t.risk_type_counts;
  method_counts = bump_code (method_code_for_risk r) t.method_counts;
})

-- What a result adds to each counter.
abbrev pub one_if : Bool → ℕ
one_if b = if b then 1 else 0

abbrev pub success_of : HostStatus → ℕ
success_of HostStatus.error = 0
success_of _ = 1

abbrev pub is_suspicious_of : HostStatus → ℕ
is_suspicious_of HostStatus.suspicious = 1
is_suspicious_of _ = 0

abbrev pub error_of : HostStatus → ℕ
error_of HostStatus.error = 1
error_of _ = 0

abbrev pub latency_of : Option ℕ → ℕ
latency_of none = 0
latency_of (some l) = l

abbrev pub sample_of : Option ℕ → ℕ
sample_of none = 0
sample_of (some l) = 1

abbrev pub same_code : MethodCode → Option MethodCode → Bool
same_code c none = false
same_code c (some d) = d == c

abbrev pub same_domain : ℕ → Option ℕ → Bool
same_domain id none = false
same_domain id (some d) = d == id

-- The tally when the risks of a result are counted.
abbrev pub reached : ScanResult → Tally → Tally
reached r t =
    tally_latency r.latency_us (tally_status r.status (record t { processed = t.processed + 1 }))

pub risks :
    (f : Tally → ℕ) (r : ScanResult) (t : Tally)
    → f (tally_risks r.risk_types (reached r t))
      ≡ f (record (reached r t) {
        risk_type_counts = bump_all r.risk_types (reached r t).risk_type_counts;
        method_counts = bump_codes r.risk_types (reached r t).method_counts;
      })
risks f r t = ap f (tally_risks-eq r.risk_types (reached r t))

module _ (r : ScanResult) (t : Tally) where
  pub processed-land : (land r t).processed ≡ t.processed + 1
  unfolding land tally_status tally_latency tally_grades
  processed-land = ground (arith, risks (λ u. u.processed) r t)

  pub success_n-land : (land r t).success_n ≡ t.success_n + success_of r.status
  unfolding land tally_status tally_latency tally_grades
  success_n-land = ground (arith, risks (λ u. u.success_n) r t)

  pub suspicious_n-land : (land r t).suspicious_n ≡ t.suspicious_n + is_suspicious_of r.status
  unfolding land tally_status tally_latency tally_grades
  suspicious_n-land = ground (arith, risks (λ u. u.suspicious_n) r t)

  pub error_n-land : (land r t).error_n ≡ t.error_n + error_of r.status
  unfolding land tally_status tally_latency tally_grades
  error_n-land = ground (arith, risks (λ u. u.error_n) r t)

  pub latency_sum-land : (land r t).latency_sum ≡ t.latency_sum + latency_of r.latency_us
  unfolding land tally_status tally_latency tally_grades
  latency_sum-land = ground (arith, risks (λ u. u.latency_sum) r t)

  pub latency_cnt-land : (land r t).latency_cnt ≡ t.latency_cnt + sample_of r.latency_us
  unfolding land tally_status tally_latency tally_grades
  latency_cnt-land = ground (arith, risks (λ u. u.latency_cnt) r t)

pub count_in-bump_all :
    (k : RiskType) (rs : List RiskType) (m : List (RiskType × ℕ))
    → count_in k (bump_all rs m) ≡ count_in k m + total (λ r. one_if (r == k)) rs
unfolding bump_all
count_in-bump_all k [] m = omega arith
count_in-bump_all k (r ∷ rs) m =
    omega (arith, count_in-bump_all k rs (bump r m), count_in-bump k r m)

pub count_in-bump_code :
    (c : MethodCode) (o : Option MethodCode) (m : List (MethodCode × ℕ))
    → count_in c (bump_code o m) ≡ count_in c m + one_if (same_code c o)
count_in-bump_code c none m = omega arith
count_in-bump_code c (some d) m = count_in-bump c d m

pub count_in-bump_codes :
    (c : MethodCode) (rs : List RiskType) (m : List (MethodCode × ℕ))
    → count_in c (bump_codes rs m)
      ≡ count_in c m + total (λ r. one_if (same_code c (method_code_for_risk r))) rs
unfolding bump_codes
count_in-bump_codes c [] m = omega arith
count_in-bump_codes c (r ∷ rs) m =
    let o = method_code_for_risk r in
    omega (arith, count_in-bump_codes c rs (bump_code o m), count_in-bump_code c o m)

unrated-ne : (s : Severity) → s ≢ unrated → (unrated == s) ≡ false
unrated-ne s d = ground (arith, d, severity_eq.beq_iff unrated s)

pub count_in-bump_severity :
    (s v : Severity) (m : List (Severity × ℕ))
    → s ≢ unrated
    → count_in s (bump_severity v m) ≡ count_in s m + one_if (v == s)
count_in-bump_severity s unrated m d = rw (unrated-ne s d) (omega arith)
count_in-bump_severity s v m d = count_in-bump s v m

untiered-ne : (t : Tier) → t ≢ untiered → (untiered == t) ≡ false
untiered-ne t d = ground (arith, d, tier_eq.beq_iff untiered t)

pub count_in-bump_tier :
    (t v : Tier) (m : List (Tier × ℕ))
    → t ≢ untiered
    → count_in t (bump_tier v m) ≡ count_in t m + one_if (v == t)
count_in-bump_tier t untiered m d = rw (untiered-ne t d) (omega arith)
count_in-bump_tier t v m d = count_in-bump t v m

pub count_in-bump_domain :
    (id : ℕ) (o : Option ℕ) (m : List (ℕ × ℕ))
    → count_in id (bump_domain o m) ≡ count_in id m + one_if (same_domain id o)
count_in-bump_domain id none m = omega arith
count_in-bump_domain id (some d) m = count_in-bump id d m
