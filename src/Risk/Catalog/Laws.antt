-- ===== src/Risk/Catalog/Laws.antt =====
-- internal/risk/catalog.go: what the tables and the two maxima guarantee.
use dnsgolang.Base.{
  ◌≡◌, refl, ◌⊎◌, inl, inr, true, some, List, [], ◌∷◌, ◌≤◌, arith, any, Bool-cases, if◌then◌else◌,
  length, keep, ltb, ltb→lt, beq_refl, ◌≢◌,
}
use dnsgolang.Base.Sets.{has}
use dnsgolang.Risk.Catalog.{
  RiskType, risk_eq, Severity, unrated, rank, Tier, untiered, review_required, high_confidence,
  high_confidence_risks, review_required_risks, Method, method_catalog, method_for_risk,
  confidence_tier, confidence_from, highest_confidence_tier, risk_severity, severity_from,
  highest_severity, unreach, risk_beq_iff,
}

tier_of : List RiskType → Tier
tier_of rs =
    if any (λ r. has r high_confidence_risks) rs
    then high_confidence
    else if any (λ r. has r review_required_risks) rs
    then review_required
    else untiered

-- The tier after the loop has already met a risk under review.
tier_above_review : List RiskType → Tier
tier_above_review rs =
    if any (λ r. has r high_confidence_risks) rs then high_confidence else review_required

confidence_from-review :
    (rs : List RiskType) → confidence_from review_required rs ≡ tier_above_review rs
unfolding confidence_from tier_above_review confidence_tier
confidence_from-review [] = refl
confidence_from-review (r ∷ rs) = ground (arith, confidence_from-review rs)

confidence_from-untiered : (rs : List RiskType) → confidence_from untiered rs ≡ tier_of rs
unfolding confidence_from tier_of confidence_tier tier_above_review
confidence_from-untiered [] = refl
confidence_from-untiered (r ∷ rs) =
    ground (arith, confidence_from-untiered rs, confidence_from-review rs)

-- The highest tier of several risks is high confidence when one of them is of high confidence,
-- otherwise review required when one of them asks for review, otherwise none, whatever their order.
pub highest_confidence_tier-eq :
    (rs : List RiskType)
    → highest_confidence_tier rs ≡ (
        if any (λ r. has r high_confidence_risks) rs
        then high_confidence
        else if any (λ r. has r review_required_risks) rs
        then review_required
        else untiered)
unfolding highest_confidence_tier tier_of
highest_confidence_tier-eq rs = confidence_from-untiered rs

severity_from-le : (s : Severity) (rs : List RiskType) → rank s ≤ rank (severity_from s rs)
unfolding severity_from
severity_from-le s [] = omega arith
severity_from-le s (r ∷ rs) = elim (Bool-cases (ltb (rank s) (rank (risk_severity r)))) [
  | inl h ↦ rw h (omega (arith, severity_from-le (risk_severity r) rs, ltb→lt _ _ h))
  | inr h ↦ rw h (severity_from-le s rs)
]

severity_from_bound :
    (s : Severity) (rs : List RiskType) (q : RiskType)
    → has q rs ≡ true
    → rank (risk_severity q) ≤ rank (severity_from s rs)
unfolding severity_from
severity_from_bound s [] q m = cc
severity_from_bound s (r ∷ rs) q m = ground (
  arith,
  severity_from_bound (if ltb (rank s) (rank (risk_severity r)) then risk_severity r else s) rs q,
  severity_from-le (if ltb (rank s) (rank (risk_severity r)) then risk_severity r else s) rs,
  risk_beq_iff q r,
)

risk_severity-pos : (r : RiskType) → 1 ≤ rank (risk_severity r)
unfolding risk_severity
risk_severity-pos unreach = omega arith
risk_severity-pos _ = omega arith

severity_from_attained :
    (s : Severity) (rs : List RiskType)
    → (severity_from s rs ≡ s)
      ⊎ ((r : RiskType) × (has r rs ≡ true) × (severity_from s rs ≡ risk_severity r))
unfolding severity_from
severity_from_attained s [] = inl refl
severity_from_attained s (r ∷ rs) = elim (Bool-cases (ltb (rank s) (rank (risk_severity r)))) [
  | inl h ↦ rw h (elim (severity_from_attained (risk_severity r) rs) [
    | inl e ↦ inr (r, rw (beq_refl r), e)
    | inr (q, m, e) ↦ inr (q, ground (arith, m), e)
  ])
  | inr h ↦ rw h (elim (severity_from_attained s rs) [
    | inl e ↦ inl e
    | inr (q, m, e) ↦ inr (q, ground (arith, m), e)
  ])
]

-- The highest severity of several risks is at least the severity of each of them, and it is that
-- of one of them; of no risk at all it is the empty one.
pub highest_severity_max :
    (rs : List RiskType)
    → ((r : RiskType) → has r rs ≡ true → rank (risk_severity r) ≤ rank (highest_severity rs))
      × ((highest_severity rs ≡ unrated)
          ⊎ ((r : RiskType) × (has r rs ≡ true) × (highest_severity rs ≡ risk_severity r)))
      × (rs ≢ [] → highest_severity rs ≢ unrated)
unfolding highest_severity
highest_severity_max [] = (severity_from_bound unrated [], inl refl, (λ h. absurd (h refl)))
highest_severity_max (r ∷ rs) = (
  severity_from_bound unrated (r ∷ rs),
  severity_from_attained unrated (r ∷ rs),
  (λ _ e.
      let least = severity_from_bound unrated (r ∷ rs) r (rw (beq_refl r)) in
      ground (arith, e, least, risk_severity-pos r)),
)

-- Every risk type belongs to exactly one method of the catalogue, and the search finds a method
-- to which the risk type belongs.
pub method_for_risk_unique :
    (r : RiskType)
    → (length (keep (λ m. has r m.risk_types) method_catalog) ≡ 1)
      × ((m : Method) × (method_for_risk r ≡ some m) × (has r m.risk_types ≡ true))
unfolding method_for_risk
method_for_risk_unique unreach = (refl, (_, refl, refl))
method_for_risk_unique _ = (refl, (_, refl, refl))
