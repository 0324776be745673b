-- ===== src/Scan/Counts.antt =====
-- Go's `counts[key]++` on a map: the list of its entries, a missing key counting nothing.
use dnsgolang.Base.{
  ℕ, ◌+◌, ◌≡◌, refl, sym, ap, ◌∙◌, true, ◌↔◌, List, [], ◌∷◌, arith, if◌then◌else◌, nat_beq,
  nat_beq_iff, ◌==◌, Eq,
}
use dnsgolang.Risk.Catalog.{
  Severity, rank, unrated, low, medium, high, critical, Tier, untiered, review_required,
  high_confidence, MethodCode, availability_baseline_validation, authority_chain_integrity,
  resolution_path_analysis, latency_distribution_analysis, route_path_analysis,
  cross_resolver_consensus,
}

module _ {K : Type 0} ⦃e : Eq K⦄ where
  unfoldable pub bump : K → List (K × ℕ) → List (K × ℕ)
  bump k [] = (k, 1) ∷ []
  bump k ((j, n) ∷ m) = if j == k then (j, n + 1) ∷ m else (j, n) ∷ bump k m

  unfoldable pub count_in : K → List (K × ℕ) → ℕ
  count_in k [] = 0
  count_in k ((j, n) ∷ m) = if j == k then n else count_in k m

  pub count_in-bump :
      (k j : K) (m : List (K × ℕ))
      → count_in k (bump j m) ≡ count_in k m + (if j == k then 1 else 0)
  unfolding bump count_in
  count_in-bump k j [] = ground arith
  count_in-bump k j ((i, n) ∷ m) =
      ground (arith, count_in-bump k j m, e.beq_iff i j, e.beq_iff i k, e.beq_iff j k)

-- Keys that a numbering tells apart.
module _ {K : Type 0} (place : K → ℕ) (at : ℕ → K) (back : (k : K) → at (place k) ≡ k) where
  pub numbered_iff : (j k : K) → (nat_beq (place j) (place k) ≡ true) ↔ (j ≡ k)
  numbered_iff j k = (
    (λ h. sym (back j) ∙ ap at ((nat_beq_iff (place j) (place k)).0 h) ∙ back k),
    (λ h. (nat_beq_iff (place j) (place k)).1 (ap place h)),
  )

abbrev pub severity_at : ℕ → Severity
severity_at n =
    if nat_beq n 0
    then unrated
    else if nat_beq n 1
    then low
    else if nat_beq n 2
    then medium
    else if nat_beq n 3
    then high
    else critical

pub severity_back : (s : Severity) → severity_at (rank s) ≡ s
severity_back unrated = refl
severity_back _ = refl

instance abbrev pub severity_eq : Eq Severity
severity_eq = record {
  beq = λ a b. nat_beq (rank a) (rank b);
  beq_iff = numbered_iff rank severity_at severity_back;
}

abbrev pub tier_place : Tier → ℕ
tier_place untiered = 0
tier_place review_required = 1
tier_place high_confidence = 2

abbrev pub tier_at : ℕ → Tier
tier_at n =
    if nat_beq n 0 then untiered else if nat_beq n 1 then review_required else high_confidence

pub tier_back : (t : Tier) → tier_at (tier_place t) ≡ t
tier_back untiered = refl
tier_back _ = refl

instance abbrev pub tier_eq : Eq Tier
tier_eq = record {
  beq = λ a b. nat_beq (tier_place a) (tier_place b);
  beq_iff = numbered_iff tier_place tier_at tier_back;
}

abbrev pub code_place : MethodCode → ℕ
code_place availability_baseline_validation = 0
code_place authority_chain_integrity = 1
code_place resolution_path_analysis = 2
code_place latency_distribution_analysis = 3
code_place route_path_analysis = 4
code_place cross_resolver_consensus = 5

abbrev pub code_at : ℕ → MethodCode
code_at n =
    if nat_beq n 0
    then availability_baseline_validation
    else if nat_beq n 1
    then authority_chain_integrity
    else if nat_beq n 2
    then resolution_path_analysis
    else if nat_beq n 3
    then latency_distribution_analysis
    else if nat_beq n 4
    then route_path_analysis
    else cross_resolver_consensus

pub code_back : (c : MethodCode) → code_at (code_place c) ≡ c
code_back availability_baseline_validation = refl
code_back _ = refl

instance abbrev pub code_eq : Eq MethodCode
code_eq = record {
  beq = λ a b. nat_beq (code_place a) (code_place b);
  beq_iff = numbered_iff code_place code_at code_back;
}
