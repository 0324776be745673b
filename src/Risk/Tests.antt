-- ===== src/Risk/Tests.antt =====
-- internal/risk: the theorems of the engine at an apex host whose address record is gone, whose
-- servers were replaced and whose resolvers disagree.
use dnsgolang.Base.{
  ◌≡◌, true, false, not, ◌&&◌, Option, none, some, List, [], ◌∷◌, pos, map, any, text_eq, is_empty,
  if◌then◌else◌,
}
use dnsgolang.Base.Text.{Text, txt, has_prefix}
use dnsgolang.Risk.Catalog.{
  RiskType, unreach, record_deletion, latency_distribution_anomaly, resolver_divergence,
  axfr_exposed, risk_order, risk_eq,
}
use dnsgolang.Risk.Types.{RecordBaseline, HostConfig, Observation, Verdict, IpTraits}
use dnsgolang.Risk.Detect.{is_answer, name_type}
use dnsgolang.Risk.Detect.Records.{is_shown}
use dnsgolang.Risk.Engine.{evaluate, verdicts, suspects}
use dnsgolang.Risk.Engine.Laws.{slow_samples, evaluate-eq, map-risk_type-evaluate}
use dnsgolang.Risk.Engine.Spec.{
  suspects-record_deletion, suspects-latency, suspects-strict, is_allowed, strict,
}

-- A parser that knows addresses by their first bytes.
abbrev parse_ip : Text → Option IpTraits
parse_ip s =
    if is_empty s
    then none
    else some (record {
      is_private = has_prefix (txt "10.") s;
      is_loopback = has_prefix (txt "127.") s;
      is_link_local_unicast = has_prefix (txt "169.254.") s;
    })

abbrev host : HostConfig
host = record {
  fqdn = txt "example.com";
  zone_domain = txt "example.com";
  allow_wildcard = false;
  allow_axfr = true;
  allow_rebind = false;
  is_apex = true;
}

abbrev baseline : List RecordBaseline
baseline =
    record {
      section = txt "answer";
      name = txt "example.com";
      type = txt "A";
      value = txt "192.0.2.1";
      ttl_min = some (pos 60);
      ttl_max = some (pos 300);
    }
    ∷ record {
      section = txt "authority";
      name = txt "example.com";
      type = txt "NS";
      value = txt "NS1.example.com.";
      ttl_min = none;
      ttl_max = none;
    }
    ∷ []

abbrev obs : Observation
obs = record {
  rcode = txt "NOERROR";
  error_kind = [];
  latency_us = some 2500000;
  ns_name_list = txt "ns.other.org" ∷ [];
  ns_glue_ip_list = [];
  unique_ip_set = [];
  wildcard_hit = false;
  axfr_success = true;
  axfr_records = 12;
  random_label = [];
  records = [];
  latency_samples = 2500000 ∷ 40000 ∷ 3000000 ∷ [];
  trace_broken = false;
  resolver_answers =
      (txt "1.1.1.1", txt "192.0.2.1" ∷ []) ∷ (txt "8.8.8.8", txt "198.51.100.7" ∷ []) ∷ [];
}

abbrev found : List Verdict
found = verdicts parse_ip host baseline obs (slow_samples obs)

done : evaluate parse_ip host baseline obs ≡ some found
done = evaluate-eq parse_ip host baseline obs

abbrev found_strict : List Verdict
found_strict = verdicts parse_ip (strict host) baseline obs (slow_samples obs)

done_strict : evaluate parse_ip (strict host) baseline obs ≡ some found_strict
done_strict = evaluate-eq parse_ip (strict host) baseline obs

abbrev found_bare : List Verdict
found_bare = verdicts parse_ip host [] obs (slow_samples obs)

done_bare : evaluate parse_ip host [] obs ≡ some found_bare
done_bare = evaluate-eq parse_ip host [] obs

suspects-strict_example :
    suspects axfr_exposed found
    ≡ (not (is_allowed host axfr_exposed) && suspects axfr_exposed found_strict)
suspects-strict_example =
    suspects-strict parse_ip host baseline obs found found_strict done done_strict axfr_exposed

suspects-record_deletion_example :
    suspects record_deletion found
    ≡ any
        (λ r. is_answer r.section && not (is_shown obs.records (name_type r.name r.type)))
        baseline
suspects-record_deletion_example = suspects-record_deletion parse_ip host baseline obs found done

suspects-latency_example : suspects latency_distribution_anomaly found ≡ true
suspects-latency_example = suspects-latency parse_ip host baseline obs found done

map-risk_type-evaluate_example :
    (vs : List Verdict) × (evaluate parse_ip host baseline obs ≡ some vs)
    × (map (λ v. v.risk_type) vs ≡ risk_order)
map-risk_type-evaluate_example = map-risk_type-evaluate parse_ip host baseline obs

abbrev risks : List RiskType
risks = resolver_divergence ∷ unreach ∷ axfr_exposed ∷ []
