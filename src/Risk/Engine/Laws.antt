-- ===== src/Risk/Engine/Laws.antt =====
-- internal/risk/engine.go: the verdicts of `Evaluate` and the tests behind them.
use dnsgolang.Base.{
  ◌≡◌, refl, Bool, false, not, ◌&&◌, ◌||◌, Option, some, List, map, arith, is_empty, ◌==◌, text_eq,
  leb, length, ◌-◌,
}
use dnsgolang.Base.Text.{Text, txt}
use dnsgolang.Risk.Catalog.{
  RiskType, risk_order, unreach, no_service, refused, empty_answer, record_deletion,
  resolution_path_anomaly, latency_distribution_anomaly, route_path_anomaly, ns_ip_hijack,
  ns_name_hijack, resolver_divergence, wildcard_poisoning, dns_rebind, axfr_exposed, risk_eq,
}
use dnsgolang.Risk.Types.{RecordBaseline, HostConfig, Observation, Verdict, IpTraits}
use dnsgolang.Risk.Detect.{
  primary_expected, primary_observed, record_deletion_hit, ns_name_hit, ns_ip_hit, divergence_hit,
  rebind_hit, latency_limit, p95_index,
}
use dnsgolang.Risk.Detect.Latency.{latency_hit-eq, count_above}
use dnsgolang.Risk.Engine.{verdicts, evaluate, suspects}

-- The test of the latency samples, in closed form.
abbrev pub slow_samples : Observation → Bool
slow_samples obs =
    let n = length obs.latency_samples in
    leb 3 n && leb (n - p95_index n) (count_above latency_limit obs.latency_samples)

module _ (parse_ip : Text → Option IpTraits) where
  -- The test behind each risk type.
  unfoldable pub test_of : HostConfig → List RecordBaseline → Observation → Bool → RiskType → Bool
  test_of host baseline obs slow unreach =
      not (is_empty (primary_expected baseline)) && obs.error_kind == txt "timeout"
  test_of host baseline obs slow no_service =
      not (is_empty (primary_expected baseline))
      && (obs.error_kind == txt "servfail" || obs.error_kind == txt "connection_refused")
  test_of host baseline obs slow refused = obs.rcode == txt "REFUSED"
  test_of host baseline obs slow empty_answer =
      not (is_empty (primary_expected baseline))
      && (obs.rcode == txt "NOERROR" && is_empty (primary_observed host.fqdn obs.records))
  test_of host baseline obs slow record_deletion = record_deletion_hit baseline obs.records
  test_of host baseline obs slow resolution_path_anomaly = obs.trace_broken
  test_of host baseline obs slow latency_distribution_anomaly = slow
  test_of host baseline obs slow route_path_anomaly = false
  test_of host baseline obs slow ns_ip_hijack = ns_ip_hit baseline obs.ns_glue_ip_list
  test_of host baseline obs slow ns_name_hijack = ns_name_hit baseline obs.ns_name_list
  test_of host baseline obs slow resolver_divergence = divergence_hit obs.resolver_answers
  test_of host baseline obs slow wildcard_poisoning = not host.allow_wildcard && obs.wildcard_hit
  test_of host baseline obs slow dns_rebind = rebind_hit parse_ip host baseline obs
  test_of host baseline obs slow axfr_exposed = not host.allow_axfr && obs.axfr_success

  suspects-verdicts :
      (host : HostConfig) (baseline : List RecordBaseline) (obs : Observation) (slow : Bool)
      (r : RiskType)
      → suspects r (verdicts parse_ip host baseline obs slow) ≡ test_of host baseline obs slow r
  unfolding verdicts test_of
  suspects-verdicts host baseline obs slow unreach = ground arith
  suspects-verdicts host baseline obs slow _ = ground arith

  pub evaluate-eq :
      (host : HostConfig) (baseline : List RecordBaseline) (obs : Observation)
      → evaluate parse_ip host baseline obs
        ≡ some (verdicts parse_ip host baseline obs (slow_samples obs))
  unfolding evaluate
  evaluate-eq host baseline obs = rw (latency_hit-eq obs.latency_samples, evaluate)

  pub suspects-evaluate :
      (host : HostConfig) (baseline : List RecordBaseline) (obs : Observation) (vs : List Verdict)
      → evaluate parse_ip host baseline obs ≡ some vs
      → (r : RiskType) → suspects r vs ≡ test_of host baseline obs (slow_samples obs) r
  suspects-evaluate host baseline obs vs e r =
      let same : vs ≡ verdicts parse_ip host baseline obs (slow_samples obs) =
        cc (evaluate-eq host baseline obs) in
      rw same (suspects-verdicts host baseline obs (slow_samples obs) r)

  -- The evaluation of a host never reads out of bounds, and returns one verdict for each of the
  -- fourteen risk types, in the order of the catalogue.
  pub map-risk_type-evaluate :
      (host : HostConfig) (baseline : List RecordBaseline) (obs : Observation)
      → (vs : List Verdict) × (evaluate parse_ip host baseline obs ≡ some vs)
        × (map (λ v. v.risk_type) vs ≡ risk_order)
  unfolding verdicts
  map-risk_type-evaluate host baseline obs =
      (verdicts parse_ip host baseline obs (slow_samples obs), evaluate-eq host baseline obs, refl)
