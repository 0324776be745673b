-- ===== src/Scheduling/Regions/Codes.antt =====
-- internal/service/scheduling.go: the codes that `normalizeRegionCodes` returns.
use dnsgolang.Base.{
  ℕ, suc, zero, ◌≤◌, ◌≡◌, refl, sym, ◌∙◌, inl, inr, true, false, not, ◌&&◌, List, [], ◌∷◌, map,
  arith, Bool-cases, text_eq, text_beq_iff, is_empty, length, take, length-take_le, ltb,
}
use dnsgolang.Base.Text.{Text}
use dnsgolang.Base.Sets.{has, Distinct}
use dnsgolang.Scheduling.Types.{Region, Node, Result, ok}
use dnsgolang.Scheduling.Regions.{valid_codes, cap_length, normalize_region_codes}

has-valid :
    (active seen cs : List Text) (k : Text)
    → has k (valid_codes active seen cs) ≡ (has k cs && (has k active && not (has k seen)))
unfolding valid_codes
has-valid active seen [] k = refl
has-valid active seen (c ∷ cs) k =
    ground (arith, has-valid active (c ∷ seen) cs k, has-valid active seen cs k, text_beq_iff k c)

valid-Distinct : (active seen cs : List Text) → Distinct (valid_codes active seen cs)
unfolding valid_codes
valid-Distinct active seen [] = tt
valid-Distinct active seen (c ∷ cs) = ground (
  arith,
  has-valid active (c ∷ seen) cs c,
  valid-Distinct active (c ∷ seen) cs,
  valid-Distinct active seen cs,
  text_beq_iff c c,
)

has-take : (n : ℕ) (xs : List Text) (k : Text) → has k (take n xs) ≡ true → has k xs ≡ true
has-take zero xs k h = cc
has-take (suc n) [] k h = cc
has-take (suc n) (x ∷ xs) k h = ground (arith, has-take n xs k)

take-Distinct : (n : ℕ) (xs : List Text) → Distinct xs → Distinct (take n xs)
take-Distinct zero xs d = tt
take-Distinct (suc n) [] d = tt
take-Distinct (suc n) (x ∷ xs) d = ground (arith, has-take n xs x, take-Distinct n xs, d)

pub cap-has :
    (limit : ℕ) (xs : List Text) (k : Text) → has k (cap_length limit xs) ≡ true → has k xs ≡ true
cap-has limit xs k h = ground (arith, has-take limit xs k)

cap-Distinct : (limit : ℕ) (xs : List Text) → Distinct xs → Distinct (cap_length limit xs)
cap-Distinct limit xs d = elim (Bool-cases (ltb 0 limit && ltb limit (length xs))) [
  | inl e ↦ rw e (take-Distinct limit xs d)
  | inr e ↦ rw e d
]

pub cap-le : (limit : ℕ) (xs : List Text) → 1 ≤ limit → length (cap_length limit xs) ≤ limit
cap-le limit xs h = ground (arith, length-take_le limit xs)

-- If one of the given codes is active, the result has no code twice, only given active codes, all
-- of them where no limit is set, and at most as many as a positive limit says; neither the nodes
-- nor the clock matter.
pub normalize_region_codes-given :
    (regions : List Region) (schedulable : Result (List Node)) (ref : ℕ) (codes : List Text)
    (limit : ℕ) (c : Text)
    → has c codes ≡ true
    → has c (map (λ r. r.code) regions) ≡ true
    → (out : List Text) × (normalize_region_codes (ok regions) schedulable ref codes limit ≡ ok out)
      × Distinct out
      × ((k : Text) → has k out ≡ true → (has k codes && has k (map (λ r. r.code) regions)) ≡ true)
      × (limit ≡ 0 → (k : Text) → has k out ≡ (has k codes && has k (map (λ r. r.code) regions)))
      × (1 ≤ limit → length out ≤ limit)
unfolding normalize_region_codes
normalize_region_codes-given regions schedulable ref codes limit c given active =
    let known = map (λ (r : Region). r.code) regions in
    let valid = valid_codes known [] codes in
    let filled : is_empty valid ≡ false =
      not_empty c valid (has-valid known [] codes c ∙ ground (arith, given, active)) in
    (
      cap_length limit valid,
      rw filled,
      cap-Distinct limit valid (valid-Distinct known [] codes),
      (λ k h. ground (arith, cap-has limit valid k h, has-valid known [] codes k)),
      (λ z k. rw z (has-valid known [] codes k ∙ ground arith)),
      (λ h. cap-le limit valid h),
    )
  where
    not_empty : (k : Text) (xs : List Text) → has k xs ≡ true → is_empty xs ≡ false
    not_empty k [] h = sym h
    not_empty k (x ∷ xs) h = refl
