-- ===== src/Risk/Detect/Ttl.antt =====
-- internal/risk/engine.go: the window of TTLs that the baseline allows.
use dnsgolang.Base.{
  ◌≡◌, refl, not, ◌&&◌, Option, none, some, List, [], ◌∷◌, arith, all, is_empty, ℤ, ltb_ℤ,
  if◌then◌else◌, Bool-cases, inl, inr, ap, ◌∙◌, ◌||◌,
}
use dnsgolang.Risk.Types.{RecordBaseline}
use dnsgolang.Risk.Detect.{
  is_answer, is_address, narrow_min, narrow_max, baseline_ttl_min, baseline_ttl_max, below, above,
}

abbrev cons? : Option ℤ → List ℤ → List ℤ
cons? none ts = ts
cons? (some t) ts = t ∷ ts

-- The minima and the maxima that the address records of the answer section state.
abbrev pub minima : List RecordBaseline → List ℤ
minima [] = []
minima (r ∷ rs) =
    if is_answer r.section && is_address r.type then cons? r.ttl_min (minima rs) else minima rs

abbrev pub maxima : List RecordBaseline → List ℤ
maxima [] = []
maxima (r ∷ rs) =
    if is_answer r.section && is_address r.type then cons? r.ttl_max (maxima rs) else maxima rs

-- The loop over the records is a loop over what they state.
fold_min : Option ℤ → List ℤ → Option ℤ
fold_min m [] = m
fold_min m (t ∷ ts) = fold_min (narrow_min m (some t)) ts

narrow_min-none : (m : Option ℤ) → narrow_min m none ≡ m
unfolding narrow_min
narrow_min-none none = refl
narrow_min-none (some m) = refl

step_min : (m t : Option ℤ) (ts : List ℤ) → fold_min (narrow_min m t) ts ≡ fold_min m (cons? t ts)
unfolding fold_min
step_min m none ts = ap (λ k. fold_min k ts) (narrow_min-none m)
step_min m (some t) ts = refl

baseline_ttl_min-fold :
    (m : Option ℤ) (rs : List RecordBaseline) → baseline_ttl_min m rs ≡ fold_min m (minima rs)
unfolding baseline_ttl_min fold_min
baseline_ttl_min-fold m [] = refl
baseline_ttl_min-fold m (r ∷ rs) = elim (Bool-cases (is_answer r.section && is_address r.type)) [
  | inl e ↦
      rw e (baseline_ttl_min-fold (narrow_min m r.ttl_min) rs ∙ step_min m r.ttl_min (minima rs))
  | inr e ↦ rw e (baseline_ttl_min-fold m rs)
]

below-fold :
    (m t : ℤ) (ts : List ℤ)
    → below (fold_min (some m) ts) t ≡ (ltb_ℤ t m && all (λ s. ltb_ℤ t s) ts)
unfolding fold_min below narrow_min
below-fold m t [] = ground arith
below-fold m t (s ∷ ts) = ground (arith, below-fold m t ts, below-fold s t ts)

-- The loop over the records is a loop over what they state.
fold_max : Option ℤ → List ℤ → Option ℤ
fold_max m [] = m
fold_max m (t ∷ ts) = fold_max (narrow_max m (some t)) ts

narrow_max-none : (m : Option ℤ) → narrow_max m none ≡ m
unfolding narrow_max
narrow_max-none none = refl
narrow_max-none (some m) = refl

step_max : (m t : Option ℤ) (ts : List ℤ) → fold_max (narrow_max m t) ts ≡ fold_max m (cons? t ts)
unfolding fold_max
step_max m none ts = ap (λ k. fold_max k ts) (narrow_max-none m)
step_max m (some t) ts = refl

baseline_ttl_max-fold :
    (m : Option ℤ) (rs : List RecordBaseline) → baseline_ttl_max m rs ≡ fold_max m (maxima rs)
unfolding baseline_ttl_max fold_max
baseline_ttl_max-fold m [] = refl
baseline_ttl_max-fold m (r ∷ rs) = elim (Bool-cases (is_answer r.section && is_address r.type)) [
  | inl e ↦
      rw e (baseline_ttl_max-fold (narrow_max m r.ttl_max) rs ∙ step_max m r.ttl_max (maxima rs))
  | inr e ↦ rw e (baseline_ttl_max-fold m rs)
]

above-fold :
    (m t : ℤ) (ts : List ℤ)
    → above (fold_max (some m) ts) t ≡ (ltb_ℤ m t && all (λ s. ltb_ℤ s t) ts)
unfolding fold_max above narrow_max
above-fold m t [] = ground arith
above-fold m t (s ∷ ts) = ground (arith, above-fold m t ts, above-fold s t ts)

below-minima :
    (t : ℤ) (ts : List ℤ)
    → below (fold_min none ts) t ≡ (not (is_empty ts) && all (λ s. ltb_ℤ t s) ts)
unfolding below fold_min narrow_min
below-minima t [] = refl
below-minima t (s ∷ ts) = below-fold s t ts

above-maxima :
    (t : ℤ) (ts : List ℤ)
    → above (fold_max none ts) t ≡ (not (is_empty ts) && all (λ s. ltb_ℤ s t) ts)
unfolding above fold_max narrow_max
above-maxima t [] = refl
above-maxima t (s ∷ ts) = above-fold s t ts

-- A TTL falls out of the window exactly when address records of the baseline's answer section
-- state minima and it is below all of them, or state maxima and it is above all of them.
pub ttl_window-eq :
    (baseline : List RecordBaseline) (t : ℤ)
    → (below (baseline_ttl_min none baseline) t || above (baseline_ttl_max none baseline) t) ≡ (
        (not (is_empty (minima baseline)) && all (λ m. ltb_ℤ t m) (minima baseline))
        || (not (is_empty (maxima baseline)) && all (λ m. ltb_ℤ m t) (maxima baseline)))
ttl_window-eq baseline t =
    rw (baseline_ttl_min-fold none baseline, baseline_ttl_max-fold none baseline)
      (rw (below-minima t (minima baseline), above-maxima t (maxima baseline)))
