-- ===== src/Risk/Engine/Spec.antt =====
-- internal/risk/engine.go: what a suspicious verdict means in terms of the baseline and of the
-- observation, for the tests that take more than a comparison.
use dnsgolang.Base.{
  ◌-◌, ◌≡◌, refl, sym, ◌∙◌, ◌≢◌, ◌↔◌, Bool, true, false, not, ◌&&◌, Option, some, List, [], ◌∷◌,
  arith, any, ◌==◌, text_eq, leb, length,
}
use dnsgolang.Base.Text.{Text}
use dnsgolang.Base.Sets.{has}
use dnsgolang.Risk.Catalog.{
  RiskType, unreach, no_service, empty_answer, record_deletion, latency_distribution_anomaly,
  ns_ip_hijack, ns_name_hijack, resolver_divergence, wildcard_poisoning, dns_rebind, axfr_exposed,
  risk_eq,
}
use dnsgolang.Risk.Types.{RecordBaseline, HostConfig, Observation, Verdict, IpTraits}
use dnsgolang.Risk.Detect.{
  name_type, is_answer, baseline_ns_names, latency_limit, p95_index, primary_expected, has_baseline,
  record_deletion_hit, ns_name_hit, ns_ip_hit, rebind_hit,
}
use dnsgolang.Risk.Detect.Records.{is_shown, record_deletion_hit-eq}
use dnsgolang.Risk.Detect.Sets.{names, ns_name_hit_iff}
use dnsgolang.Risk.Detect.Latency.{count_above}
use dnsgolang.Risk.Detect.Divergence.{all_signatures, divergence_hit_iff}
use dnsgolang.Risk.Engine.{evaluate, suspects}
use dnsgolang.Risk.Engine.Laws.{test_of, slow_samples, suspects-evaluate}

module _ (parse_ip : Text → Option IpTraits) (host : HostConfig) (baseline : List RecordBaseline)
    (obs : Observation) (vs : List Verdict)
    (done : evaluate parse_ip host baseline obs ≡ some vs) where
  -- When an evaluation returns, it suspects a deleted record exactly when some answer record of
  -- the baseline has a name and type that no answer record of the observation has.
  pub suspects-record_deletion :
      suspects record_deletion vs
      ≡ any
          (λ r. is_answer r.section && not (is_shown obs.records (name_type r.name r.type)))
          baseline
  unfolding test_of
  suspects-record_deletion =
      suspects-evaluate parse_ip host baseline obs vs done record_deletion
      ∙ record_deletion_hit-eq baseline obs.records

  -- When an evaluation returns, and both the baseline and the observation name servers, it
  -- suspects no hijacked NS name exactly when the two sides name the same servers, up to letter
  -- case, outer dots and white space, in any order and however often.
  suspects-ns_name_hijack :
      baseline_ns_names baseline ≢ []
      → names obs.ns_name_list ≢ []
      → (suspects ns_name_hijack vs ≡ false)
        ↔ ((k : Text) → has k (names (baseline_ns_names baseline)) ≡ has k (names obs.ns_name_list))
  unfolding test_of
  suspects-ns_name_hijack hb ho =
      let iff = ns_name_hit_iff baseline obs.ns_name_list hb ho in
      let same = suspects-evaluate parse_ip host baseline obs vs done ns_name_hijack in
      ((λ h. iff.0 (sym same ∙ h)), (λ h. same ∙ iff.1 h))

  -- When an evaluation returns, it suspects the latency distribution exactly when there are at
  -- least three samples and at least n - ⌊95 n / 100⌋ of the n samples are above two seconds.
  pub suspects-latency :
      let n = length obs.latency_samples in
      suspects latency_distribution_anomaly vs
      ≡ (leb 3 n && leb (n - p95_index n) (count_above latency_limit obs.latency_samples))
  unfolding test_of
  suspects-latency =
      suspects-evaluate parse_ip host baseline obs vs done latency_distribution_anomaly

  -- When an evaluation returns, it suspects divergent resolvers exactly when two of the answers
  -- have different signatures.
  pub suspects-resolver_divergence : (suspects resolver_divergence vs ≡ true) ↔ (
      (k j : Text) × (has k (all_signatures obs.resolver_answers) ≡ true)
      × (has j (all_signatures obs.resolver_answers) ≡ true)
      × ((k == j) ≡ false))
  unfolding test_of
  suspects-resolver_divergence =
      let iff = divergence_hit_iff obs.resolver_answers in
      let same = suspects-evaluate parse_ip host baseline obs vs done resolver_divergence in
      ((λ h. iff.0 (sym same ∙ h)), (λ h. same ∙ iff.1 h))

-- The risks that a comparison with the baseline finds.
abbrev pub baseline_risks : List RiskType
baseline_risks =
    unreach ∷ no_service ∷ empty_answer ∷ record_deletion ∷ ns_ip_hijack ∷ ns_name_hijack ∷ []

-- The setting of the host that allows what a risk is about.
abbrev pub is_allowed : HostConfig → RiskType → Bool
is_allowed host wildcard_poisoning = host.allow_wildcard
is_allowed host dns_rebind = host.allow_rebind
is_allowed host axfr_exposed = host.allow_axfr
is_allowed host _ = false

-- The host with its three settings withdrawn.
abbrev pub strict : HostConfig → HostConfig
strict host = record host { allow_wildcard = false; allow_axfr = false; allow_rebind = false }

module _ (parse_ip : Text → Option IpTraits) (host : HostConfig) where
  test_of-no_baseline :
      (obs : Observation) (slow : Bool) (r : RiskType)
      → has r baseline_risks ≡ true
      → test_of parse_ip host [] obs slow r ≡ false
  unfolding test_of primary_expected record_deletion_hit ns_name_hit ns_ip_hit has_baseline
  test_of-no_baseline obs slow unreach h = refl
  test_of-no_baseline obs slow no_service h = refl
  test_of-no_baseline obs slow empty_answer h = refl
  test_of-no_baseline obs slow record_deletion h = refl
  test_of-no_baseline obs slow ns_ip_hijack h = refl
  test_of-no_baseline obs slow ns_name_hijack h = refl
  test_of-no_baseline obs slow _ h = cc

  -- A host without baseline is never suspected of a risk that compares with the baseline.
  pub suspects-no_baseline :
      (obs : Observation) (vs : List Verdict)
      → evaluate parse_ip host [] obs ≡ some vs
      → (r : RiskType) → has r baseline_risks ≡ true
      → suspects r vs ≡ false
  suspects-no_baseline obs vs done r h =
      suspects-evaluate parse_ip host [] obs vs done r
      ∙ test_of-no_baseline obs (slow_samples obs) r h

  test_of-strict :
      (baseline : List RecordBaseline) (obs : Observation) (slow : Bool) (r : RiskType)
      → test_of parse_ip host baseline obs slow r
        ≡ (not (is_allowed host r) && test_of parse_ip (strict host) baseline obs slow r)
  unfolding test_of rebind_hit
  test_of-strict baseline obs slow unreach = refl
  test_of-strict baseline obs slow wildcard_poisoning = refl
  test_of-strict baseline obs slow axfr_exposed = refl
  test_of-strict baseline obs slow dns_rebind = ground arith
  test_of-strict baseline obs slow _ = refl

  -- The settings of a host silence the risk that each of them allows, and no other: a risk is
  -- suspected with the settings exactly when it is suspected without them and is not allowed.
  pub suspects-strict :
      (baseline : List RecordBaseline) (obs : Observation) (vs ws : List Verdict)
      → evaluate parse_ip host baseline obs ≡ some vs
      → evaluate parse_ip (strict host) baseline obs ≡ some ws
      → (r : RiskType) → suspects r vs ≡ (not (is_allowed host r) && suspects r ws)
  suspects-strict baseline obs vs ws e f r =
      rw
        (
          suspects-evaluate parse_ip host baseline obs vs e r,
          suspects-evaluate parse_ip (strict host) baseline obs ws f r,
        )
        (test_of-strict baseline obs (slow_samples obs) r)
