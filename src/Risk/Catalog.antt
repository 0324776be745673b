-- ===== src/Risk/Catalog.antt =====
-- internal/risk/catalog.go: the risk types, their severities, confidence tiers and methods. A
-- string of a fixed vocabulary is a constructor; Go's empty string for a value outside a table
-- is `unrated`, `untiered` or `none`.
pub mod Laws
use dnsgolang.Base.{
  ℕ, String, ◌≡◌, refl, ap, ◌↔◌, Bool, true, false, Option, none, some, List, [], ◌∷◌, arith,
  if◌then◌else◌, nat_beq, nat_beq_iff, ltb, Eq, ◌==◌, find, sym, ◌∙◌, ◌||◌,
}
use dnsgolang.Base.Sets.{has}

pub data RiskType : Type 0 where
  unreach no_service refused empty_answer record_deletion : RiskType
  resolution_path_anomaly latency_distribution_anomaly route_path_anomaly : RiskType
  ns_ip_hijack ns_name_hijack resolver_divergence : RiskType
  wildcard_poisoning dns_rebind axfr_exposed : RiskType

pub data Severity : Type 0 where
  unrated low medium high critical : Severity

pub data Tier : Type 0 where
  untiered review_required high_confidence : Tier

pub data MethodCode : Type 0 where
  availability_baseline_validation authority_chain_integrity : MethodCode
  resolution_path_analysis latency_distribution_analysis : MethodCode
  route_path_analysis cross_resolver_consensus : MethodCode

-- The place of a risk type in `RiskOrder`, by which two of them are compared.
abbrev pub place : RiskType → ℕ
place unreach = 0
place no_service = 1
place refused = 2
place empty_answer = 3
place record_deletion = 4
place resolution_path_anomaly = 5
place latency_distribution_anomaly = 6
place route_path_anomaly = 7
place ns_ip_hijack = 8
place ns_name_hijack = 9
place resolver_divergence = 10
place wildcard_poisoning = 11
place dns_rebind = 12
place axfr_exposed = 13

abbrev pub risk_order : List RiskType
risk_order =
    unreach ∷ no_service ∷ refused ∷ empty_answer ∷ record_deletion ∷ resolution_path_anomaly
    ∷ latency_distribution_anomaly ∷ route_path_anomaly ∷ ns_ip_hijack ∷ ns_name_hijack
    ∷ resolver_divergence ∷ wildcard_poisoning ∷ dns_rebind ∷ axfr_exposed ∷ []

abbrev pub risk_beq : RiskType → RiskType → Bool
risk_beq a b = nat_beq (place a) (place b)

at_place : ℕ → RiskType
at_place n = elim (find (λ r. nat_beq (place r) n) risk_order) [ none ↦ unreach | some r ↦ r ]

at_place-place : (r : RiskType) → at_place (place r) ≡ r
unfolding at_place
at_place-place unreach = refl
at_place-place _ = refl

pub risk_beq_iff : (a b : RiskType) → (risk_beq a b ≡ true) ↔ (a ≡ b)
risk_beq_iff a b = (
  (λ h.
      sym (at_place-place a)
      ∙ ap at_place ((nat_beq_iff (place a) (place b)).0 h)
      ∙ at_place-place b),
  (λ e. (nat_beq_iff (place a) (place b)).1 (ap place e)),
)

instance abbrev pub risk_eq : Eq RiskType
risk_eq = record { beq = risk_beq; beq_iff = risk_beq_iff }

unfoldable pub risk_severity : RiskType → Severity
risk_severity unreach = high
risk_severity no_service = high
risk_severity refused = high
risk_severity empty_answer = medium
risk_severity record_deletion = medium
risk_severity resolution_path_anomaly = high
risk_severity latency_distribution_anomaly = medium
risk_severity route_path_anomaly = medium
risk_severity ns_ip_hijack = medium
risk_severity ns_name_hijack = medium
risk_severity resolver_divergence = medium
risk_severity wildcard_poisoning = high
risk_severity dns_rebind = critical
risk_severity axfr_exposed = high

abbrev pub high_confidence_risks : List RiskType
high_confidence_risks = unreach ∷ no_service ∷ refused ∷ []

abbrev pub review_required_risks : List RiskType
review_required_risks =
    empty_answer ∷ record_deletion ∷ resolution_path_anomaly ∷ latency_distribution_anomaly
    ∷ route_path_anomaly ∷ ns_ip_hijack ∷ ns_name_hijack ∷ resolver_divergence ∷ []

pub record Method : Type 0 where
  pub code : MethodCode
  pub label : String
  pub desc : String
  pub risk_types : List RiskType

abbrev pub method_catalog : List Method
method_catalog =
    record {
      code = availability_baseline_validation;
      label = "服务可达性与记录基线校验";
      desc = "通过可达性、RCODE 和主记录基线比对发现停服、拒绝服务、空应答与记录缺失。";
      risk_types = unreach ∷ no_service ∷ refused ∷ empty_answer ∷ record_deletion ∷ [];
    }
    ∷ record {
      code = authority_chain_integrity;
      label = "权威链完整性校验";
      desc = "通过 NS / SOA / Glue / AXFR / 泛解析 等链路特征识别所有权相关权威链异常。";
      risk_types =
          ns_ip_hijack ∷ ns_name_hijack ∷ wildcard_poisoning ∷ dns_rebind ∷ axfr_exposed ∷ [];
    }
    ∷ record {
      code = resolution_path_analysis;
      label = "解析路径分析";
      desc = "从 Root/TLD/Auth 逐跳追踪解析路径，识别关键路径失败、终端 NS 偏离和 Glue/Auth IP 完全失配。";
      risk_types = resolution_path_anomaly ∷ [];
    }
    ∷ record {
      code = latency_distribution_analysis;
      label = "延迟分布分析";
      desc = "对终端权威 NS/Auth IP 进行多次 DNS 查询采样，基于历史正常基线识别延迟分布异常。";
      risk_types = latency_distribution_anomaly ∷ [];
    }
    ∷ record {
      code = route_path_analysis;
      label = "路由路径分析";
      desc = "对终端权威 NS/Auth IP 执行 MTR/Traceroute，基于历史正常基线识别路径不可达、跳数和路径指纹异常。";
      risk_types = route_path_anomaly ∷ [];
    }
    ∷ record {
      code = cross_resolver_consensus;
      label = "跨解析器差异对比";
      desc = "使用多家公共解析器交叉复核同一域名的应答是否收敛，用于识别运营实体间的异常解析差异。";
      risk_types = resolver_divergence ∷ [];
    }
    ∷ []

unfoldable pub confidence_tier : RiskType → Tier
confidence_tier r =
    if has r high_confidence_risks
    then high_confidence
    else if has r review_required_risks
    then review_required
    else untiered

unfoldable pub confidence_label : RiskType → String
unfolding confidence_tier
confidence_label r = elim (confidence_tier r) [
  | high_confidence ↦ "高置信异常"
  | review_required ↦ "需复核异常"
  | untiered ↦ ""
]

-- The loop returns at the first risk of the highest tier.
confidence_from : Tier → List RiskType → Tier
confidence_from highest [] = highest
confidence_from highest (r ∷ rs) =
    let raised = confidence_from review_required rs in
    let same = confidence_from highest rs in
    elim (confidence_tier r) [
      | high_confidence ↦ high_confidence
      | review_required ↦ raised
      | untiered ↦ same
    ]

unfoldable pub highest_confidence_tier : List RiskType → Tier
unfolding confidence_from
highest_confidence_tier rs = confidence_from untiered rs

abbrev pub rank : Severity → ℕ
rank unrated = 0
rank low = 1
rank medium = 2
rank high = 3
rank critical = 4

severity_from : Severity → List RiskType → Severity
severity_from highest [] = highest
severity_from highest (r ∷ rs) =
    severity_from (if ltb (rank highest) (rank (risk_severity r)) then risk_severity r else highest)
      rs

unfoldable pub highest_severity : List RiskType → Severity
unfolding severity_from
highest_severity rs = severity_from unrated rs

unfoldable pub method_for_risk : RiskType → Option Method
method_for_risk r = find (λ m. has r m.risk_types) method_catalog

unfoldable pub method_code_for_risk : RiskType → Option MethodCode
unfolding method_for_risk
method_code_for_risk r = elim (method_for_risk r) [ none ↦ none | some m ↦ some m.code ]

abbrev pub code_beq : MethodCode → MethodCode → Bool
code_beq availability_baseline_validation availability_baseline_validation = true
code_beq authority_chain_integrity authority_chain_integrity = true
code_beq resolution_path_analysis resolution_path_analysis = true
code_beq latency_distribution_analysis latency_distribution_analysis = true
code_beq route_path_analysis route_path_analysis = true
code_beq cross_resolver_consensus cross_resolver_consensus = true
code_beq _ _ = false

unfoldable pub method_label_for_code : Option MethodCode → String
method_label_for_code none = ""
method_label_for_code (some c) = elim (find (λ m. code_beq m.code c) method_catalog) [
  | none ↦ ""
  | some m ↦ m.label
]
