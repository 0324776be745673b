-- ===== src/Scan/Jobs/Hosts.antt =====
-- internal/service/scanner.go: the hosts that a new scan counts are those that its run reads.
use dnsgolang.Base.{
  ℕ, ◌≤◌, ◌<◌, ◌≡◌, refl, sym, subst, ap, ◌∙◌, true, Option, none, some, List, [], ◌∷◌, arith,
  nat_eq, leb, length,
}
use dnsgolang.Base.Sets.{add}
use dnsgolang.Base.Text.{Text, lower}
use dnsgolang.Batch.Options.{str_any}
use dnsgolang.Probing.Options.{Value}
use dnsgolang.Scan.Host.{LibraryHost}
use dnsgolang.Scan.Jobs.{
  ScanBody, HostQuery, NewScanJob, created, limit_of, concurrency_of, domain_count,
  to_float_default, create_query, new_job, store_job, create_scan_job, run_hosts_query,
}
use dnsgolang.Scheduling.Types.{Result, ok, err}

domain_count_le : (hosts : List LibraryHost) → length (domain_count hosts) ≤ length hosts
unfolding domain_count add
domain_count_le [] = omega arith
domain_count_le (h ∷ hs) = ground (arith, domain_count_le hs)

add-pos : (k : ℕ) (xs : List ℕ) → 0 < length (add k xs)
unfolding add
add-pos k [] = omega arith
add-pos k (x ∷ xs) = ground arith

domain_count_pos : (h : LibraryHost) (hs : List LibraryHost) → 0 < length (domain_count (h ∷ hs))
unfolding domain_count
domain_count_pos h hs = add-pos h.domain_id (domain_count hs)

concurrency_of-pos : (body : ScanBody) → 0 < concurrency_of body
unfolding concurrency_of
concurrency_of-pos body = ground arith

to_float_default-pos : (v : Value) (n : ℕ) → 0 < n → 0 < to_float_default v n
unfolding to_float_default
to_float_default-pos v n h = ground arith

-- The run reads by the query that the hosts were counted by.
query-eq :
    (to_uint64 : Value → ℕ) (body : ScanBody) (requested_by : Option ℕ) (hosts : List LibraryHost)
    → limit_of body ≤ 5000
    → lower (str_any body.keyword []) ≡ str_any body.keyword []
    → create_query to_uint64 body ≡ run_hosts_query (new_job to_uint64 body requested_by hosts)
unfolding create_query new_job run_hosts_query
query-eq to_uint64 body requested_by hosts small low =
    let same : leb (limit_of body) 5000 ≡ true = ground arith in rw (same, low)

-- What a job promises its run.
pub record IsRunnable (find_hosts : HostQuery → Result (List LibraryHost)) (job : NewScanJob)
    : Type 0 where
  pub hosts : List LibraryHost
  pub found : find_hosts (run_hosts_query job) ≡ ok hosts
  pub counted : job.total_hosts ≡ length hosts
  pub some_host : 0 < job.total_hosts
  pub domains_pos : 0 < job.total_domains
  pub domains_le : job.total_domains ≤ job.total_hosts
  pub concurrency_pos : 0 < job.concurrency
  pub timeout_pos : 0 < job.timeout_ms

store_job-created :
    (to_uint64 : Value → ℕ) (stored : Option Text) (body : ScanBody) (requested_by : Option ℕ)
    (job : NewScanJob) (found : Result (List LibraryHost))
    → store_job to_uint64 stored body requested_by found ≡ created job
    → (h : LibraryHost) × (hs : List LibraryHost) × (found ≡ ok (h ∷ hs))
      × (job ≡ new_job to_uint64 body requested_by (h ∷ hs))
unfolding store_job
store_job-created to_uint64 stored body requested_by job (err why) e = cc
store_job-created to_uint64 stored body requested_by job (ok []) e = cc
store_job-created to_uint64 none body requested_by job (ok (h ∷ hs)) e = (h, hs, refl, cc)
store_job-created to_uint64 (some why) body requested_by job (ok (h ∷ hs)) e = cc

new_job-IsRunnable :
    (to_uint64 : Value → ℕ) (find_hosts : HostQuery → Result (List LibraryHost)) (body : ScanBody)
    (requested_by : Option ℕ) (h : LibraryHost) (hs : List LibraryHost)
    → find_hosts (create_query to_uint64 body) ≡ ok (h ∷ hs)
    → limit_of body ≤ 5000
    → lower (str_any body.keyword []) ≡ str_any body.keyword []
    → IsRunnable find_hosts (new_job to_uint64 body requested_by (h ∷ hs))
unfolding new_job
new_job-IsRunnable to_uint64 find_hosts body requested_by h hs found small low = record {
  hosts = h ∷ hs;
  found = ap find_hosts (sym (query-eq to_uint64 body requested_by (h ∷ hs) small low)) ∙ found;
  counted = refl;
  some_host = omega arith;
  domains_pos = domain_count_pos h hs;
  domains_le = domain_count_le (h ∷ hs);
  concurrency_pos = concurrency_of-pos body;
  timeout_pos = to_float_default-pos body.timeout 3000 (omega arith);
}

-- Where the limit is at most 5000 and the keyword is in lower case, a scan that is created counts at
-- least one host, as many as the query of its run finds in the same library, in at least one domain
-- and in no more domains than hosts; its concurrency and timeout are positive.
pub create_scan_job-IsRunnable :
    (to_uint64 : Value → ℕ) (find_hosts : HostQuery → Result (List LibraryHost))
    (stored : Option Text) (body : ScanBody) (requested_by : Option ℕ) (job : NewScanJob)
    → create_scan_job to_uint64 find_hosts stored body requested_by ≡ created job
    → limit_of body ≤ 5000
    → lower job.keyword ≡ job.keyword
    → IsRunnable find_hosts job
unfolding create_scan_job
create_scan_job-IsRunnable to_uint64 find_hosts stored body requested_by job done small low =
    let (h, hs, found, same) =
      store_job-created to_uint64 stored body requested_by job
        (find_hosts (create_query to_uint64 body)) done in
    let lower' = subst (λ j. lower j.keyword ≡ j.keyword) same low in
    subst (IsRunnable find_hosts) (sym same) (
      new_job-IsRunnable to_uint64 find_hosts body requested_by h hs found small
        (unfold new_job in lower'))

-- Above 5000 the hosts are counted without limit, and the run reads with it.
pub create_scan_job-over :
    (to_uint64 : Value → ℕ) (body : ScanBody) (requested_by : Option ℕ) (hosts : List LibraryHost)
    → 5000 < limit_of body
    → ((create_query to_uint64 body).limit ≡ none)
      × ((run_hosts_query (new_job to_uint64 body requested_by hosts)).limit ≡ some (limit_of body))
unfolding create_query new_job run_hosts_query
create_scan_job-over to_uint64 body requested_by hosts h = ground arith
