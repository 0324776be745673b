-- ===== src/Risk/Detect.antt =====
-- internal/risk/engine.go: the tests that `Evaluate` makes before it writes its verdicts, and the
-- helpers at the end of the file. A map used as a set is the list of its keys (Base/Sets).
-- `parse_ip` stands for `net.ParseIP` with the three tests on its result.
pub mod Sets
pub mod Records
pub mod Latency
pub mod Ttl
pub mod Divergence
use dnsgolang.Base.{
  ℕ, ◌*◌, ◌/◌, Bool, true, false, not, ◌&&◌, ◌||◌, Option, none, some, List, [], ◌∷◌, ◌++◌,
  if◌then◌else◌, ltb, leb, ◌==◌, ℤ, ltb_ℤ, length, get_elem?, keep, any, is_empty, text_eq, nat_eq,
}
use dnsgolang.Base.Text.{Text, txt, lower, trim, trim_space, is_dot, join, text_ltb}
use dnsgolang.Base.Sets.{has, add, subset, set_equal}
use dnsgolang.Base.Sort.{sort_by}
use dnsgolang.Risk.Types.{RecordObserved, RecordBaseline, HostConfig, Observation, IpTraits}

unfoldable pub norm : Text → Text
unfolding lower trim trim_space
norm v = lower (trim is_dot (trim_space v))

unfoldable pub norm_list : List Text → List Text
norm_list [] = []
norm_list (v ∷ vs) = norm v ∷ norm_list vs

unfoldable pub norm_set : List Text → List Text
unfolding add
norm_set [] = []
norm_set (v ∷ vs) = if is_empty (norm v) then norm_set vs else add (norm v) (norm_set vs)

unfoldable pub is_address : Text → Bool
is_address t = t == txt "A" || t == txt "AAAA"

unfoldable pub is_primary : Text → Bool
unfolding is_address
is_primary t = is_address t || t == txt "CNAME"

unfoldable pub is_answer : Text → Bool
is_answer section = section == txt "answer"

-- norm(name) + "|" + type
unfoldable pub name_type : Text → Text → Text
name_type name type = norm name ++ (b'|' ∷ type)

unfoldable pub primary_expected : List RecordBaseline → List Text
primary_expected [] = []
primary_expected (r ∷ rs) =
    if is_answer r.section && is_primary r.type
    then r.value ∷ primary_expected rs
    else primary_expected rs

unfoldable pub expected_name_types : List RecordBaseline → List Text
expected_name_types [] = []
expected_name_types (r ∷ rs) =
    if is_answer r.section
    then add (name_type r.name r.type) (expected_name_types rs)
    else expected_name_types rs

unfoldable pub baseline_ns_names : List RecordBaseline → List Text
baseline_ns_names [] = []
baseline_ns_names (r ∷ rs) =
    if r.type == txt "NS"
    then norm (trim is_dot r.value) ∷ baseline_ns_names rs
    else baseline_ns_names rs

-- `names` is the list whose elements `nsNameSet` holds.
unfoldable pub baseline_glue_ips : List Text → List RecordBaseline → List Text
baseline_glue_ips names [] = []
baseline_glue_ips names (r ∷ rs) =
    if is_address r.type && has (norm r.name) names
    then r.value ∷ baseline_glue_ips names rs
    else baseline_glue_ips names rs

unfoldable pub primary_observed : Text → List RecordObserved → List Text
primary_observed fqdn [] = []
primary_observed fqdn (r ∷ rs) =
    if is_answer r.section && (is_primary r.type && norm r.name == norm fqdn)
    then r.value ∷ primary_observed fqdn rs
    else primary_observed fqdn rs

unfoldable pub observed_name_types : List RecordObserved → List Text
observed_name_types [] = []
observed_name_types (r ∷ rs) =
    if is_answer r.section
    then add (name_type r.name r.type) (observed_name_types rs)
    else observed_name_types rs

unfoldable pub has_baseline : List RecordBaseline → Bool
has_baseline baseline = not (is_empty baseline)

-- The keys of the baseline that no answer shows, sorted.
unfoldable pub missing : List RecordBaseline → List RecordObserved → List Text
missing baseline records =
    if has_baseline baseline
    then sort_by text_ltb
        (keep (λ k. not (has k (observed_name_types records))) (expected_name_types baseline))
    else []

unfoldable pub record_deletion_hit : List RecordBaseline → List RecordObserved → Bool
record_deletion_hit baseline records =
    has_baseline baseline
    && any (λ k. not (has k (observed_name_types records))) (expected_name_types baseline)

unfoldable pub ns_name_hit : List RecordBaseline → List Text → Bool
ns_name_hit baseline ns_name_list =
    has_baseline baseline
    && (not (is_empty (baseline_ns_names baseline))
        && (not (is_empty (norm_set ns_name_list))
            && not (set_equal (norm_set (baseline_ns_names baseline)) (norm_set ns_name_list))))

-- The number of observed glue addresses that the baseline knows.
unfoldable pub intersect : List Text → List Text → ℕ
intersect baseline_set observed = length (keep (λ ip. has (norm ip) baseline_set) observed)

unfoldable pub ns_ip_hit : List RecordBaseline → List Text → Bool
ns_ip_hit baseline ns_glue_ip_list =
    let glue = baseline_glue_ips (baseline_ns_names baseline) baseline in
    has_baseline baseline
    && (not (is_empty glue)
        && (not (is_empty ns_glue_ip_list)
            && nat_eq.beq (intersect (norm_set glue) ns_glue_ip_list) 0))

-- One round of the loop that narrows the least of the minima; a nil of the record changes nothing.
unfoldable pub narrow_min : Option ℤ → Option ℤ → Option ℤ
narrow_min none t = t
narrow_min (some m) none = some m
narrow_min (some m) (some t) = if ltb_ℤ t m then some t else some m

unfoldable pub narrow_max : Option ℤ → Option ℤ → Option ℤ
narrow_max none t = t
narrow_max (some m) none = some m
narrow_max (some m) (some t) = if ltb_ℤ m t then some t else some m

unfoldable pub baseline_ttl_min : Option ℤ → List RecordBaseline → Option ℤ
baseline_ttl_min least [] = least
baseline_ttl_min least (r ∷ rs) =
    baseline_ttl_min
      (if is_answer r.section && is_address r.type then narrow_min least r.ttl_min else least) rs

unfoldable pub baseline_ttl_max : Option ℤ → List RecordBaseline → Option ℤ
baseline_ttl_max most [] = most
baseline_ttl_max most (r ∷ rs) =
    baseline_ttl_max
      (if is_answer r.section && is_address r.type then narrow_max most r.ttl_max else most) rs

unfoldable pub below : Option ℤ → ℤ → Bool
below none t = false
below (some m) t = ltb_ℤ t m

unfoldable pub above : Option ℤ → ℤ → Bool
above none t = false
above (some m) t = ltb_ℤ m t

-- An A record of the host itself whose TTL is outside the window.
unfoldable pub record_ttl_out : Option ℤ → Option ℤ → Text → RecordObserved → Bool
record_ttl_out least most fqdn r =
    is_answer r.section
    && (r.type == txt "A"
        && (norm r.name == norm fqdn
            && elim r.ttl [ none ↦ false | some t ↦ below least t || above most t ]))

unfoldable pub ttl_out : List RecordBaseline → Text → List RecordObserved → Bool
ttl_out baseline fqdn records =
    any (record_ttl_out (baseline_ttl_min none baseline) (baseline_ttl_max none baseline) fqdn)
      records

-- fmt.Sprintf("%v", sorted)
unfoldable pub ip_signature : List Text → Text
ip_signature ips = (b'[' ∷ join (txt " ") (sort_by text_ltb (norm_list ips))) ++ (b']' ∷ [])

-- The keys of `signatureCounts`, whose counts nothing reads.
unfoldable pub signatures : List (Text × List Text) → List Text
signatures [] = []
signatures ((resolver, ips) ∷ answers) = add (ip_signature ips) (signatures answers)

unfoldable pub divergence_hit : List (Text × List Text) → Bool
divergence_hit answers = leb 2 (length answers) && ltb 1 (length (signatures answers))

abbrev pub latency_limit : ℕ
latency_limit = 2000000

-- The index of the 95th percentile among `n` sorted samples.
abbrev pub p95_index : ℕ → ℕ
p95_index n = n * 95 / 100

-- `none` is Go's panic for an index out of range.
unfoldable pub latency_hit : List ℕ → Option Bool
latency_hit latencies =
    if leb 3 (length latencies)
    then elim (get_elem? (sort_by ltb latencies) (p95_index (length latencies))) [
      | none ↦ none
      | some p95 ↦ some (ltb latency_limit p95)
    ]
    else some false

-- keysOf
unfoldable pub keys_of : List Text → List Text
keys_of set = sort_by text_ltb (keep (λ k. not (is_empty k)) set)

module _ (parse_ip : Text → Option IpTraits) where
  unfoldable pub ip_class : Text → Text
  ip_class value = elim (parse_ip (trim_space value)) [
    | none ↦ []
    | some ip ↦
        if ip.is_private || (ip.is_loopback || ip.is_link_local_unicast)
        then txt "private"
        else txt "public"
  ]

  unfoldable pub ip_classes : List Text → List Text
  ip_classes [] = []
  ip_classes (ip ∷ ips) = add (ip_class ip) (ip_classes ips)

  unfoldable pub rebind_hit : HostConfig → List RecordBaseline → Observation → Bool
  rebind_hit host baseline obs =
      (not host.allow_rebind && ltb 1 (length obs.unique_ip_set))
      && (ltb 1 (length (ip_classes obs.unique_ip_set))
          || ((has_baseline baseline
                && not
                    (subset (norm_list obs.unique_ip_set) (norm_set (primary_expected baseline))))
              || ttl_out baseline host.fqdn obs.records))
