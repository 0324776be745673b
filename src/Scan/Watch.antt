-- ===== src/Scan/Watch.antt =====
-- internal/service/scanner.go: how the scan of a host observes it (`scanHost` up to its verdicts). The
-- answers of the DNS client are the argument `ask`, by the step of the plan; those of the pool of
-- resolver_list and of the probe for a wildcard are arguments too. The map of the sections of an answer is
-- read in the order answer, authority, additional. The printed output of queries is left out.
pub mod Codes
pub mod Seen
use dnsgolang.Base.{
  ℕ, Bool, true, false, not, ◌&&◌, ◌||◌, Option, none, some, List, [], ◌∷◌, ◌++◌, ◌==◌, text_eq,
  if◌then◌else◌, is_empty,
}
use dnsgolang.Base.Text.{Text, txt, lower, trim, is_dot, contains, has_prefix}
use dnsgolang.Risk.Types.{RecordObserved, Observation}
use dnsgolang.Scan.Lines.{parse_rr_line, append_unique}
use dnsgolang.Tasks.Create.{fields}
use dnsgolang.Trust.Discovery.{QueryStep, udp}
use dnsgolang.Trust.Manifest.{normalize_fqdn}

-- What a query of the DNS client answers.
pub record QueryResult : Type 0 where
  pub rcode : Text
  pub error_kind : Text
  pub latency_us : Option ℕ
  pub answer : List Text
  pub authority : List Text
  pub additional : List Text

pub record Snapshot : Type 0 where
  pub rcode : Text
  pub error_kind : Text
  pub latency_us : Option ℕ
  pub soa_mname : Text
  pub soa_serial : Text
  pub wildcard_hit : Bool
  pub axfr_success : Bool
  pub axfr_record_count : ℕ
  pub random_label : Text

-- What the loop over the plan has seen so far.
pub record Watch : Type 0 where
  pub snapshot : Snapshot
  pub observation : Observation

abbrev pub same_name : Text → Text → Bool
same_name fqdn zone = normalize_fqdn fqdn == normalize_fqdn zone

unfoldable pub scan_plan : Text → Text → Text → List QueryStep
unfolding udp
scan_plan fqdn notes zone =
    if same_name fqdn zone
    then udp zone (txt "A")
      ∷ udp zone (txt "AAAA")
      ∷ udp zone (txt "NS")
      ∷ udp zone (txt "SOA")
      ∷ []
    else if contains (txt "role=ns_host") (lower notes) || has_prefix (txt "ns") fqdn
    then udp fqdn (txt "A") ∷ udp fqdn (txt "AAAA") ∷ []
    else udp fqdn (txt "A") ∷ udp fqdn (txt "AAAA") ∷ udp fqdn (txt "CNAME") ∷ []

abbrev pub first_latency : Option ℕ → Option ℕ → Option ℕ
first_latency none latency = latency
first_latency (some first) latency = some first

-- The first of the two tests on the code, which keeps a failure with its kind.
unfoldable pub note_failure : QueryResult → Snapshot → Snapshot
note_failure res s =
    if not (res.rcode == txt "NOERROR") && (not (is_empty res.error_kind) && is_empty s.rcode)
    then record s { rcode = res.rcode; error_kind = res.error_kind }
    else s

-- The second, which takes the code of a later step over an empty one or `NOERROR`.
unfoldable pub note_code : QueryResult → Snapshot → Snapshot
note_code res s =
    if is_empty s.rcode || s.rcode == txt "NOERROR"
    then record s {
      rcode = res.rcode;
      error_kind = if res.rcode == txt "NOERROR" then [] else s.error_kind;
    }
    else s

unfoldable pub note_result : QueryResult → Snapshot → Snapshot
unfolding note_failure note_code
note_result res s =
    note_code res
      (note_failure res (record s { latency_us = first_latency s.latency_us res.latency_us }))

-- The values of a SOA record.
unfoldable pub note_soa : List Text → Snapshot → Snapshot
note_soa [] s = s
note_soa (mname ∷ []) s = record s { soa_mname = trim is_dot mname }
note_soa (mname ∷ _ ∷ []) s = record s { soa_mname = trim is_dot mname }
note_soa (mname ∷ _ ∷ serial ∷ _) s = record s {
  soa_mname = trim is_dot mname;
  soa_serial = serial;
}

abbrev pub is_address_type : Text → Bool
is_address_type type = type == txt "A" || type == txt "AAAA"

-- The `switch` on a record.
unfoldable pub sort_record : Text → Text → RecordObserved → Watch → Watch
unfolding note_soa append_unique fields
sort_record fqdn zone rr w =
    let obs = w.observation in
    if rr.type == txt "NS" && same_name rr.name zone
    then record w {
      observation = record obs {
        ns_name_list = append_unique obs.ns_name_list (trim is_dot rr.value);
      };
    }
    else if is_address_type rr.type && (rr.section == txt "answer" && same_name rr.name fqdn)
    then record w {
      observation = record obs { unique_ip_set = append_unique obs.unique_ip_set rr.value };
    }
    else if is_address_type rr.type && rr.section == txt "additional"
    then record w {
      observation = record obs { ns_glue_ip_list = append_unique obs.ns_glue_ip_list rr.value };
    }
    else if rr.type == txt "SOA"
    then record w { snapshot = note_soa (fields rr.value) w.snapshot }
    else w

-- The record is kept, then sorted.
unfoldable pub read_record : Text → Text → Option RecordObserved → Watch → Watch
unfolding sort_record
read_record fqdn zone none w = w
read_record fqdn zone (some rr) w = sort_record fqdn zone rr (record w {
  observation = record w.observation { records = w.observation.records ++ (rr ∷ []) };
})

unfoldable pub read_section : Text → Text → Text → List Text → Watch → Watch
unfolding read_record parse_rr_line
read_section fqdn zone section [] w = w
read_section fqdn zone section (line ∷ lines) w =
    read_section fqdn zone section lines (read_record fqdn zone (parse_rr_line line section) w)

unfoldable pub watch_result : Text → Text → QueryResult → Watch → Watch
unfolding note_result read_section
watch_result fqdn zone res w =
    let noted = record w { snapshot = note_result res w.snapshot } in
    read_section fqdn zone (txt "additional") res.additional (
      read_section fqdn zone (txt "authority") res.authority
        (read_section fqdn zone (txt "answer") res.answer noted))

-- The loop over the plan.
unfoldable pub watch_plan : Text → Text → (QueryStep → QueryResult) → List QueryStep → Watch → Watch
unfolding watch_result
watch_plan fqdn zone ask [] w = w
watch_plan fqdn zone ask (step ∷ steps) w =
    watch_plan fqdn zone ask steps (watch_result fqdn zone (ask step) w)

-- The map of the answers by resolver, where a resolver that is asked again replaces its entry.
unfoldable pub set_answer : Text → List Text → List (Text × List Text) → List (Text × List Text)
set_answer resolver ips [] = (resolver, ips) ∷ []
set_answer resolver ips ((r, old) ∷ answers) =
    if r == resolver then (resolver, ips) ∷ answers else (r, old) ∷ set_answer resolver ips answers

-- The loop over the pool: its resolver_list with the addresses that each one gave.
unfoldable pub review_pool : List (Text × List Text) → Watch → Watch
unfolding set_answer
review_pool [] w = w
review_pool ((resolver, ips) ∷ pool) w = review_pool pool (record w {
  observation = record w.observation {
    resolver_answers = set_answer resolver ips w.observation.resolver_answers;
  };
})

-- The probe for a wildcard, at the apex of a zone: the label that was made up and the answer.
unfoldable pub probe_wildcard : Bool → Text → List Text → Watch → Watch
probe_wildcard at_apex label answer w =
    if at_apex
    then record w {
      snapshot = record w.snapshot {
        wildcard_hit = w.snapshot.wildcard_hit || not (is_empty answer);
        random_label = label;
      };
      observation = record w.observation {
        wildcard_hit = w.observation.wildcard_hit || not (is_empty answer);
      };
    }
    else w

abbrev pub nothing_seen : Watch
nothing_seen = record {
  snapshot = record {
    rcode = [];
    error_kind = [];
    latency_us = none;
    soa_mname = [];
    soa_serial = [];
    wildcard_hit = false;
    axfr_success = false;
    axfr_record_count = 0;
    random_label = [];
  };
  observation = record {
    rcode = [];
    error_kind = [];
    latency_us = none;
    ns_name_list = [];
    ns_glue_ip_list = [];
    unique_ip_set = [];
    wildcard_hit = false;
    axfr_success = false;
    axfr_records = 0;
    random_label = [];
    records = [];
    latency_samples = [];
    trace_broken = false;
    resolver_answers = [];
  };
}

-- The fields of the observation that are those of the snapshot.
unfoldable pub settle : Watch → Watch
settle w = record w {
  observation = record w.observation {
    rcode = w.snapshot.rcode;
    error_kind = w.snapshot.error_kind;
    trace_broken = false;
    axfr_success = w.snapshot.axfr_success;
    axfr_records = w.snapshot.axfr_record_count;
    random_label = w.snapshot.random_label;
    latency_us = w.snapshot.latency_us;
  };
}

-- What the network answers to the queries of a scan.
pub record Answers : Type 0 where
  pub ask : QueryStep → QueryResult
  pub pool : List (Text × List Text)
  pub random_label : Text
  pub wildcard_answer : List Text

unfoldable pub watch_host : (fqdn notes zone : Text) → Answers → Watch
unfolding scan_plan watch_plan review_pool probe_wildcard settle
watch_host fqdn notes zone net = settle (
    probe_wildcard (same_name fqdn zone) net.random_label net.wildcard_answer (
      review_pool net.pool (watch_plan fqdn zone net.ask (scan_plan fqdn notes zone) nothing_seen)))
