-- ===== src/Scan/Jobs.antt =====
-- internal/service/scanner.go: how scans are created (`CreateScanJob`), which hosts a run reads (the query
-- of `RunScanJob`), and the profiles that repeat scans (`RunDueMonitorProfiles`). The query of the
-- library is the parameter `find_hosts`; `to_uint64` is how Go converts a number or text to an id. Lists
-- that the job keeps as JSON are lists, and a time is a number of microseconds.
pub mod Hosts
pub mod Spaced
use dnsgolang.Base.{
  ℕ, ◌+◌, ◌*◌, ◌/◌, Bool, true, false, not, ◌&&◌, ◌||◌, Option, none, some, List, [], ◌∷◌, map,
  ◌==◌, text_eq, nat_eq, if◌then◌else◌, is_empty, length, ltb, leb, ℤ, pos, negsuc,
}
use dnsgolang.Base.Sets.{add}
use dnsgolang.Base.Text.{Text, txt, lower}
use dnsgolang.Batch.Options.{str_any}
use dnsgolang.Probing.Options.{Value, nothing, flag, number, text, other, truncated}
use dnsgolang.Scan.Host.{LibraryHost}
use dnsgolang.Scheduling.Types.{Result, ok, err}
use dnsgolang.Trust.Manifest.{env_prod}

-- The entries of the map that creates a scan; one that is no list is an empty list.
pub record ScanBody : Type 0 where
  pub environment : Value
  pub resolver : Value
  pub timeout : Value
  pub concurrency : Value
  pub limit : Value
  pub keyword : Value
  pub domain_ids : List Value
  pub host_ids : List Value
  pub resolver_pool : List Value

-- The conditions of the query of hosts. An empty list or keyword asks for nothing.
pub record HostQuery : Type 0 where
  pub environment : Text
  pub domain_ids : List ℕ
  pub host_ids : List ℕ
  pub keyword : Text
  pub limit : Option ℕ

pub record NewScanJob : Type 0 where
  pub environment : Text
  pub resolver_ip : Text
  pub timeout_ms : ℕ
  pub concurrency : ℕ
  pub keyword : Text
  pub resolver_pool : List Text
  pub domain_ids : List ℕ
  pub host_ids : List ℕ
  pub total_domains : ℕ
  pub total_hosts : ℕ
  pub limit_count : Option ℕ
  pub requested_by : Option ℕ

pub data ScanRefusal : Type 0 where
  no_hosts : ScanRefusal
  db_error : Text → ScanRefusal

pub data Created : Type 0 where
  created : NewScanJob → Created
  refused : ScanRefusal → Created

-- In thousandths, as all numbers of a body.
unfoldable pub to_number : Value → ℤ
to_number (number v printed) = v
to_number _ = pos 0

unfoldable pub or_fallback : Text → Text → Text
or_fallback v fallback = if is_empty v then fallback else v

unfoldable pub to_float_default : Value → ℕ → ℕ
unfolding to_number
to_float_default v fallback = elim (to_number v) [
  | pos n ↦ if nat_eq.beq n 0 then fallback else n
  | negsuc n ↦ fallback
]

-- A number that is not positive counts as zero: the code asks only whether it is above zero.
abbrev pub above_zero : ℤ → ℕ
above_zero (pos n) = n
above_zero (negsuc n) = 0

unfoldable pub positive_ids : (Value → ℕ) → List Value → List ℕ
positive_ids to_uint64 [] = []
positive_ids to_uint64 (v ∷ vs) =
    let id = to_uint64 v in
    if ltb 0 id then id ∷ positive_ids to_uint64 vs else positive_ids to_uint64 vs

unfoldable pub resolver_list : List Value → List Text
unfolding str_any
resolver_list [] = []
resolver_list (v ∷ vs) =
    let r = str_any v [] in if is_empty r then resolver_list vs else r ∷ resolver_list vs

unfoldable pub limit_of : ScanBody → ℕ
unfolding to_number truncated
limit_of body = above_zero (truncated (to_number body.limit))

unfoldable pub concurrency_of : ScanBody → ℕ
unfolding to_number truncated
concurrency_of body =
    let n = above_zero (truncated (to_number body.concurrency)) in if nat_eq.beq n 0 then 8 else n

unfoldable pub domain_count : List LibraryHost → List ℕ
domain_count [] = []
domain_count (h ∷ hs) = add h.domain_id (domain_count hs)

abbrev pub when_positive : ℕ → Option ℕ
when_positive n = if nat_eq.beq n 0 then none else some n

module _ (to_uint64 : Value → ℕ) where
  -- The query by which the hosts of a new job are counted.
  unfoldable pub create_query : ScanBody → HostQuery
  unfolding positive_ids or_fallback limit_of str_any
  create_query body = record {
    environment = or_fallback (str_any body.environment []) env_prod;
    domain_ids = positive_ids to_uint64 body.domain_ids;
    host_ids = positive_ids to_uint64 body.host_ids;
    keyword = lower (str_any body.keyword []);
    limit = if leb (limit_of body) 5000 then when_positive (limit_of body) else none;
  }

  unfoldable pub new_job : ScanBody → Option ℕ → List LibraryHost → NewScanJob
  unfolding positive_ids or_fallback limit_of str_any to_float_default concurrency_of domain_count
      resolver_list
  new_job body requested_by hosts = record {
    environment = or_fallback (str_any body.environment []) env_prod;
    resolver_ip = or_fallback (str_any body.resolver []) (txt "223.5.5.5");
    timeout_ms = to_float_default body.timeout 3000;
    concurrency = concurrency_of body;
    keyword = str_any body.keyword [];
    resolver_pool = resolver_list body.resolver_pool;
    domain_ids = positive_ids to_uint64 body.domain_ids;
    host_ids = positive_ids to_uint64 body.host_ids;
    total_domains = length (domain_count hosts);
    total_hosts = length hosts;
    limit_count = when_positive (limit_of body);
    requested_by = requested_by;
  }

  -- After the query, where `stored` is the error of the insertion, if there is one.
  unfoldable pub store_job : Option Text → ScanBody → Option ℕ → Result (List LibraryHost) → Created
  unfolding new_job
  store_job stored body requested_by (err why) = refused (db_error why)
  store_job stored body requested_by (ok []) = refused no_hosts
  store_job none body requested_by (ok (h ∷ hs)) = created (new_job body requested_by (h ∷ hs))
  store_job (some why) body requested_by (ok (h ∷ hs)) = refused (db_error why)

  unfoldable pub create_scan_job :
      (HostQuery → Result (List LibraryHost)) → Option Text → ScanBody → Option ℕ → Created
  unfolding create_query store_job
  create_scan_job find_hosts stored body requested_by =
      store_job stored body requested_by (find_hosts (create_query body))

-- The query of a run.
unfoldable pub run_hosts_query : NewScanJob → HostQuery
run_hosts_query job = record {
  environment = job.environment;
  domain_ids = job.domain_ids;
  host_ids = job.host_ids;
  keyword = job.keyword;
  limit = job.limit_count;
}

pub data ProfileStatus : Type 0 where
  never running failed : ProfileStatus

pub record Profile : Type 0 where
  pub enabled : Bool
  pub interval_seconds : ℕ
  pub environment : Text
  pub resolver_ip : Text
  pub resolver_pool : List Value
  pub timeout_ms : ℕ
  pub concurrency : ℕ
  pub keyword : Text
  pub limit_count : Option ℕ
  pub domain_ids : List Value
  pub host_ids : List Value
  pub last_run_at : Option ℕ
  pub last_status : ProfileStatus

abbrev pub one_second : ℕ
one_second = 1000000

-- The condition of the query, and the test in the loop.
unfoldable pub is_due : ℕ → Profile → Bool
is_due now p = p.enabled && elim p.last_run_at [
  | none ↦ true
  | some last ↦
      leb (last + one_second) now && not (ltb now (last + p.interval_seconds * one_second))
]

abbrev pub as_number : ℕ → Value
as_number v = number (pos v) []

-- The body of the scan that a profile asks for; its limit is not passed on.
unfoldable pub body_of : Profile → ScanBody
body_of p = record {
  environment = text p.environment;
  resolver = text p.resolver_ip;
  timeout = as_number p.timeout_ms;
  concurrency = as_number (p.concurrency * 1000);
  limit = nothing;
  keyword = text p.keyword;
  domain_ids = p.domain_ids;
  host_ids = p.host_ids;
  resolver_pool = p.resolver_pool;
}

-- One profile at a time of the clock, where `starts` says whether a scan could be created.
unfoldable pub run_profile : (ScanBody → Bool) → ℕ → Profile → Profile
unfolding is_due body_of
run_profile starts now p =
    if is_due now p
    then record p {
      last_status = if starts (body_of p) then running else failed;
      last_run_at = some now;
    }
    else p

unfoldable pub run_due_monitor_profiles : (ScanBody → Bool) → ℕ → List Profile → List Profile
unfolding run_profile
run_due_monitor_profiles starts now ps = map (run_profile starts now) ps
