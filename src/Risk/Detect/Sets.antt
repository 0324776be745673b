-- ===== src/Risk/Detect/Sets.antt =====
-- internal/risk/engine.go: `normSet` as a set, and what the comparison of NS names decides.
use dnsgolang.Base.{
  ◌≡◌, refl, ◌↔◌, ◌≢◌, false, not, List, [], ◌∷◌, arith, keep, is_empty, text_eq, Bool-cases, inl,
  inr, sym, ◌∙◌,
}
use dnsgolang.Base.Text.{Text}
use dnsgolang.Base.Sets.{has, add, has-add, add-Distinct, Distinct, set_equal, set_equal_iff}
use dnsgolang.Risk.Types.{RecordBaseline}
use dnsgolang.Risk.Detect.{norm, norm_list, norm_set, baseline_ns_names, has_baseline, ns_name_hit}

-- The normalised names that are not empty, repetitions included.
abbrev pub names : List Text → List Text
names vs = keep (λ v. not (is_empty v)) (norm_list vs)

pub norm_set-Distinct : (vs : List Text) → Distinct (norm_set vs)
unfolding norm_set
norm_set-Distinct [] = tt
norm_set-Distinct (v ∷ vs) =
    ground (arith, norm_set-Distinct vs, add-Distinct (norm v) (norm_set vs))

pub has-norm_set : (k : Text) (vs : List Text) → has k (norm_set vs) ≡ has k (names vs)
unfolding norm_set norm_list
has-norm_set k [] = refl
has-norm_set k (v ∷ vs) = ground (arith, has-norm_set k vs, has-add k (norm v) (norm_set vs))

is_empty-norm_set : (vs : List Text) → is_empty (norm_set vs) ≡ is_empty (names vs)
unfolding norm_set norm_list add
is_empty-norm_set [] = refl
is_empty-norm_set (v ∷ vs) = elim (Bool-cases (is_empty (norm v))) [
  | inl e ↦ rw e (is_empty-norm_set vs)
  | inr e ↦ rw e (nonempty (norm v) (norm_set vs))
]
  where
    nonempty : (k : Text) (xs : List Text) → is_empty (add k xs) ≡ false
    nonempty k [] = refl
    nonempty k (x ∷ xs) = ground arith

-- Past the guards for names on both sides the test is the comparison of the two sets.
ns_name_hit-eq :
    (baseline : List RecordBaseline) (observed : List Text)
    → baseline_ns_names baseline ≢ []
    → names observed ≢ []
    → ns_name_hit baseline observed
      ≡ not (set_equal (norm_set (baseline_ns_names baseline)) (norm_set observed))
unfolding ns_name_hit has_baseline baseline_ns_names
ns_name_hit-eq [] observed hb ho = absurd (hb refl)
ns_name_hit-eq (r ∷ rs) observed hb ho = ground (arith, is_empty-norm_set observed, hb, ho)

-- Where baseline and observation both name servers, the test is silent exactly when they name the
-- same ones up to letter case, outer dots and white space, in any order and however often.
pub ns_name_hit_iff :
    (baseline : List RecordBaseline) (observed : List Text)
    → baseline_ns_names baseline ≢ []
    → names observed ≢ []
    → (ns_name_hit baseline observed ≡ false)
      ↔ ((k : Text) → has k (names (baseline_ns_names baseline)) ≡ has k (names observed))
ns_name_hit_iff baseline observed hb ho =
    let iff =
      set_equal_iff (norm_set (baseline_ns_names baseline)) (norm_set observed)
        (norm_set-Distinct (baseline_ns_names baseline)) (norm_set-Distinct observed) in
    let guarded = ns_name_hit-eq baseline observed hb ho in
    (
      (λ h k.
          sym (has-norm_set k (baseline_ns_names baseline))
          ∙ iff.0 (ground (arith, h, guarded)) k
          ∙ has-norm_set k observed),
      (λ same. ground (
        arith,
        guarded,
        iff.1 (λ k.
            has-norm_set k (baseline_ns_names baseline) ∙ same k ∙ sym (has-norm_set k observed)),
      )),
    )
