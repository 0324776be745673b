-- ===== src/Risk/Detect/Latency.antt =====
-- internal/risk/engine.go: the 95th percentile of the latency samples.
use dnsgolang.Base.{
  ℕ, zero, suc, ◌-◌, ◌≤◌, ◌<◌, ◌≡◌, refl, false, ◌&&◌, some, List, [], ◌∷◌, arith, length,
  get_elem?, keep, length-keep, All, ltb, leb, Bool-cases, inl, inr, ◌∙◌, ltb→lt, ap,
}
use dnsgolang.Base.Sort.{insert_by, sort_by, IsSorted, sort_by-IsSorted, length-sort_by}
use dnsgolang.Risk.Detect.{latency_hit, latency_limit, p95_index}

-- How many samples are above a limit.
abbrev pub count_above : ℕ → List ℕ → ℕ
count_above limit xs = length (keep (ltb limit) xs)

count_above-insert :
    (l x : ℕ) (ys : List ℕ) → count_above l (insert_by ltb x ys) ≡ count_above l (x ∷ ys)
unfolding insert_by
count_above-insert l x [] = refl
count_above-insert l x (y ∷ ys) = ground (arith, count_above-insert l x ys)

count_above-sort : (l : ℕ) (xs : List ℕ) → count_above l (sort_by ltb xs) ≡ count_above l xs
unfolding sort_by
count_above-sort l [] = refl
count_above-sort l (x ∷ xs) =
    ground (arith, count_above-insert l x (sort_by ltb xs), count_above-sort l xs)

ltb-IsSorted : (xs : List ℕ) → IsSorted ltb (sort_by ltb xs)
ltb-IsSorted = sort_by-IsSorted ltb (λ x y h. ground (arith, h)) (λ x y z h k. ground (arith, h, k))

All-above :
    (l x : ℕ) (ys : List ℕ) → l < x → All (λ y. ltb y x ≡ false) ys → count_above l ys ≡ length ys
All-above l x [] h k = refl
All-above l x (y ∷ ys) h k = ground (arith, All-above l x ys h k.1)

get_elem?-in_range : (xs : List ℕ) (i : ℕ) → i < length xs → (v : ℕ) × (get_elem? xs i ≡ some v)
get_elem?-in_range [] i h = absurd (omega arith)
get_elem?-in_range (x ∷ xs) zero h = (x, refl)
get_elem?-in_range (x ∷ xs) (suc i) h = get_elem?-in_range xs i (omega arith)

-- In a sorted list the element at an index is above a limit exactly when at least as many
-- elements are as stand from that index on.
sorted_above :
    (l : ℕ) (xs : List ℕ) (i v : ℕ)
    → IsSorted ltb xs
    → get_elem? xs i ≡ some v
    → ltb l v ≡ leb (length xs - i) (count_above l xs)
sorted_above l [] i v s e = cc
sorted_above l (x ∷ xs) zero v s e =
    ground (arith, length-keep (ltb l) xs, λ (h : l < x). All-above l x xs h s.0)
sorted_above l (x ∷ xs) (suc i) v s e = elim (Bool-cases (ltb l x)) [
  | inl h ↦ ground (arith, sorted_above l xs i v s.1, All-above l x xs (ltb→lt l x h) s.0, h)
  | inr h ↦ ground (arith, sorted_above l xs i v s.1, h)
]

p95_index-lt : (n : ℕ) → 3 ≤ n → p95_index n < n
p95_index-lt n h = omega arith

-- With at least three samples the read of the percentile is in range, and the test holds exactly
-- when at least n - ⌊95 n / 100⌋ of the n samples are above two seconds. With fewer it is silent.
pub latency_hit-eq :
    (xs : List ℕ)
    → latency_hit xs
      ≡ some (
          leb 3 (length xs)
          && leb (length xs - p95_index (length xs)) (count_above latency_limit xs))
unfolding latency_hit
latency_hit-eq xs = elim (Bool-cases (leb 3 (length xs))) [
  | inr few ↦ rw few
  | inl enough ↦
      let (v, at) =
        get_elem?-in_range (sort_by ltb xs) (p95_index (length xs))
          (ground (arith, length-sort_by ltb xs, p95_index-lt (length xs), enough)) in
      rw (enough, at)
        (ap some (
          sorted_above latency_limit (sort_by ltb xs) (p95_index (length xs)) v (ltb-IsSorted xs) at
          ∙ rw (length-sort_by ltb xs, count_above-sort latency_limit xs)))
]
