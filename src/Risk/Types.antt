-- ===== src/Risk/Types.antt =====
-- internal/risk/engine.go: the input of the engine and its verdicts. A latency is a number of
-- microseconds. The map of resolver answers is the list of its entries, and `any` in the
-- evidence of a verdict is the data type `Evidence`, with a constructor for each set of keys.
use dnsgolang.Base.{ℕ, String, Bool, Option, List, ℤ}
use dnsgolang.Base.Text.{Text}
use dnsgolang.Risk.Catalog.{RiskType, Severity, Tier, MethodCode}

pub record RecordObserved : Type 0 where
  pub section : Text
  pub name : Text
  pub type : Text
  pub value : Text
  pub ttl : Option ℤ

pub record RecordBaseline : Type 0 where
  pub section : Text
  pub name : Text
  pub type : Text
  pub value : Text
  pub ttl_min : Option ℤ
  pub ttl_max : Option ℤ

pub record HostConfig : Type 0 where
  pub fqdn : Text
  pub zone_domain : Text
  pub allow_wildcard : Bool
  pub allow_axfr : Bool
  pub allow_rebind : Bool
  pub is_apex : Bool

pub record Observation : Type 0 where
  pub rcode : Text
  pub error_kind : Text
  pub latency_us : Option ℕ
  pub ns_name_list : List Text
  pub ns_glue_ip_list : List Text
  pub unique_ip_set : List Text
  pub wildcard_hit : Bool
  pub axfr_success : Bool
  pub axfr_records : ℕ
  pub random_label : Text
  pub records : List RecordObserved
  pub latency_samples : List ℕ
  pub trace_broken : Bool
  pub resolver_answers : List (Text × List Text)

pub data Status : Type 0 where
  normal suspicious : Status

pub data Evidence : Type 0 where
  expected_error : (expected : List Text) (error_kind rcode : Text) → Evidence
  only_rcode : (rcode : Text) → Evidence
  expected_observed : (expected observed : List Text) (rcode : Text) → Evidence
  expected_missing : (expected observed missing : List Text) (rcode : Text) → Evidence
  trace : (broken : Bool) → Evidence
  samples : (latencies : List ℕ) → Evidence
  no_evidence : Evidence
  glue_ips : (baseline observed : List Text) → Evidence
  ns_names : (baseline observed : List Text) → Evidence
  resolvers : (answers : List (Text × List Text)) → Evidence
  wildcard : (allow hit : Bool) (label : Text) → Evidence
  rebind : (allow : Bool) (expected observed classes : List Text) → Evidence
  axfr : (allow success : Bool) (count : ℕ) → Evidence

pub record Verdict : Type 0 where
  pub risk_type : RiskType
  pub status : Status
  pub severity : Severity
  pub confidence_tier : Tier
  pub confidence_label : String
  pub method_code : Option MethodCode
  pub method_label : String
  pub summary_message : String
  pub evidence : Evidence

-- What `net.ParseIP` and the methods of its result say of an address that it accepts.
pub record IpTraits : Type 0 where
  pub is_private : Bool
  pub is_loopback : Bool
  pub is_link_local_unicast : Bool
