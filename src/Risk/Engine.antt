-- ===== src/Risk/Engine.antt =====
-- internal/risk/engine.go: `Evaluate` and `SuspiciousOf`.
pub mod Laws
pub mod Spec
use dnsgolang.Base.{
  String, Bool, true, false, not, ◌&&◌, ◌||◌, Option, none, some, List, [], ◌∷◌, if◌then◌else◌,
  ◌==◌, any, keep, is_empty, text_eq,
}
use dnsgolang.Base.Text.{Text, txt}
use dnsgolang.Risk.Catalog.{
  RiskType, risk_severity, confidence_tier, confidence_label, method_code_for_risk,
  method_label_for_code, unreach, no_service, refused, empty_answer, record_deletion,
  resolution_path_anomaly, latency_distribution_anomaly, route_path_anomaly, ns_ip_hijack,
  ns_name_hijack, resolver_divergence, wildcard_poisoning, dns_rebind, axfr_exposed, risk_eq,
}
use dnsgolang.Risk.Types.{
  RecordBaseline, HostConfig, Observation, Status, normal, suspicious, Evidence, expected_error,
  only_rcode, expected_observed, expected_missing, trace, samples, no_evidence, glue_ips, ns_names,
  resolvers, wildcard, rebind, axfr, Verdict, IpTraits,
}
use dnsgolang.Risk.Detect.{
  primary_expected, primary_observed, baseline_ns_names, baseline_glue_ips, missing,
  record_deletion_hit, ns_name_hit, ns_ip_hit, divergence_hit, latency_hit, ip_classes, keys_of,
  rebind_hit,
}

-- The closure `eval`, which appends one verdict.
unfoldable pub judge : RiskType → Bool → String → String → Evidence → Verdict
judge r hit positive negative evidence = record {
  risk_type = r;
  status = if hit then suspicious else normal;
  severity = risk_severity r;
  confidence_tier = confidence_tier r;
  confidence_label = confidence_label r;
  method_code = method_code_for_risk r;
  method_label = method_label_for_code (method_code_for_risk r);
  summary_message = if hit then positive else negative;
  evidence = evidence;
}

module _ (parse_ip : Text → Option IpTraits) where
  -- The fourteen calls of `eval`; `slow` is the test of the latency samples.
  unfoldable pub verdicts : HostConfig → List RecordBaseline → Observation → Bool → List Verdict
  unfolding judge
  verdicts host baseline obs slow =
      let expected = primary_expected baseline in
      let expects = not (is_empty expected) in
      let observed = primary_observed host.fqdn obs.records in
      judge unreach (expects && obs.error_kind == txt "timeout") "高置信异常：查询超时，建议优先排查解析链路" "未发现不可达异常"
        (expected_error expected obs.error_kind obs.rcode)
      ∷ judge no_service
          (expects
            && (obs.error_kind == txt "servfail" || obs.error_kind == txt "connection_refused"))
          "高置信异常：目标 DNS 服务返回 SERVFAIL 或连接被拒绝" "未发现 no-service 异常"
          (expected_error expected obs.error_kind obs.rcode)
      ∷ judge refused (obs.rcode == txt "REFUSED") "高置信异常：目标返回 REFUSED" "未发现拒绝查询异常"
          (only_rcode obs.rcode)
      ∷ judge empty_answer (expects && (obs.rcode == txt "NOERROR" && is_empty observed))
          "需复核异常：基线要求存在记录，但本次为空，应结合业务变更复核" "未发现需要复核的空应答异常"
          (expected_observed expected observed obs.rcode)
      ∷ judge record_deletion (record_deletion_hit baseline obs.records)
          "需复核异常：结构性基线记录缺失，需结合基线完整性与变更记录复核" "未发现需要复核的记录缺失异常"
          (expected_missing expected observed (missing baseline obs.records) obs.rcode)
      ∷ judge resolution_path_anomaly obs.trace_broken
          (if obs.trace_broken then "需复核异常：解析路径存在断点或偏离基线" else "未发现解析路径异常") "未发现解析路径异常"
          (trace obs.trace_broken)
      ∷ judge latency_distribution_anomaly slow
          (if slow then "需复核异常：权威链延迟分布偏离历史基线" else "未发现权威链延迟分布异常") "未发现权威链延迟分布异常"
          (samples obs.latency_samples)
      ∷ judge route_path_anomaly false "需复核异常：权威链路由路径偏离历史基线" "未发现权威链路由路径异常" no_evidence
      ∷ judge ns_ip_hijack (ns_ip_hit baseline obs.ns_glue_ip_list)
          "需复核异常：NS 主机 IP 与可信集合完全失配，需复核是否为预期变更" "未发现需要复核的 NS IP 偏差"
          (glue_ips (baseline_glue_ips (baseline_ns_names baseline) baseline) obs.ns_glue_ip_list)
      ∷ judge ns_name_hijack (ns_name_hit baseline obs.ns_name_list)
          "需复核异常：权威 NS 名称与可信基线不一致，需复核是否为预期变更" "未发现需要复核的 NS 名称偏差"
          (ns_names (baseline_ns_names baseline) obs.ns_name_list)
      ∷ judge resolver_divergence (divergence_hit obs.resolver_answers) "需复核异常：跨解析器应答不收敛，需对比多地解析链路"
          "未发现跨解析器差异异常" (resolvers obs.resolver_answers)
      ∷ judge wildcard_poisoning (not host.allow_wildcard && obs.wildcard_hit) "随机子域命中有效 RRSet"
          "未发现泛解析污染风险" (wildcard host.allow_wildcard obs.wildcard_hit obs.random_label)
      ∷ judge dns_rebind (rebind_hit parse_ip host baseline obs) "同一主机名在短窗口返回异常多值 IP"
          "未发现 DNS Rebind 风险"
          (rebind host.allow_rebind expected obs.unique_ip_set
            (keys_of (ip_classes parse_ip obs.unique_ip_set)))
      ∷ judge axfr_exposed (not host.allow_axfr && obs.axfr_success) "AXFR 可成功传送整区" "未发现 AXFR 暴露风险"
          (axfr host.allow_axfr obs.axfr_success obs.axfr_records)
      ∷ []

  -- `none` is a panic.
  unfoldable pub evaluate : HostConfig → List RecordBaseline → Observation → Option (List Verdict)
  evaluate host baseline obs = elim (latency_hit obs.latency_samples) [
    | none ↦ none
    | some slow ↦ some (verdicts host baseline obs slow)
  ]

abbrev pub is_suspicious : Verdict → Bool
is_suspicious v = elim v.status [ suspicious ↦ true | normal ↦ false ]

unfoldable pub suspicious_of : List Verdict → List Verdict
suspicious_of vs = keep is_suspicious vs

-- Whether a list of verdicts holds a suspicious one of the risk type.
abbrev pub suspects : RiskType → List Verdict → Bool
suspects r vs = any (λ v. v.risk_type == r && is_suspicious v) vs
